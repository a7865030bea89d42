-- ===== src/Controllers/Reconcile/Calls.antt =====
-- Which calls a reconcile makes, whatever the API server answers.
use streaming_runtime_go.Prelude.{
  List, [], ◌∷◌, ◌++◌, append_assoc, append-nil, All, All-append, Outcome, ok, fail, panic, Error,
  true, false, Bool-cases, ◌⊎◌, inl, inr, ◌≡◌, refl, sym, ap, ◌∙◌,
}
use streaming_runtime_go.Api.{NamespacedName}
use streaming_runtime_go.Controllers.Client.{Call, Kind, get, call, IsRead, Session}
use streaming_runtime_go.Controllers.Reconcile.{
  key_of, Controller, after_create, after_build, after_owned, after_fetch, reconcile,
}

-- From one session to a later one only reads were made.
abbrev pub ReadsOnly : {W : Type 0} → Session W → Session W → Type 0
ReadsOnly s t = (reads : List Call) × (t.calls ≡ s.calls ++ reads) × All IsRead reads

pub ReadsOnly-refl : {W : Type 0} (s : Session W) → ReadsOnly s s
ReadsOnly-refl s = ([], sym (append-nil s.calls), tt)

pub ReadsOnly-trans :
    {W : Type 0} (s t u : Session W) → ReadsOnly s t → ReadsOnly t u → ReadsOnly s u
ReadsOnly-trans s t u (a, p, ha) (b, q, hb) =
    (a ++ b, q ∙ ap (λ l. l ++ b) p ∙ append_assoc s.calls a b, All-append IsRead a b ha hb)

pub get_reads :
    {W A : Type 0} (kind : Kind) (key : NamespacedName) (run : W → Outcome A × W) (s : Session W)
    → ReadsOnly s (call (get kind key) run s).1
unfolding call
get_reads kind key run s = (get kind key ∷ [], refl, (tt, tt))

-- The parts of a controller that only read.
pub record IsReader {W P D : Type 0} (c : Controller W P D) : Type 0 where
  pub fetch_reads : (k : NamespacedName) (s : Session W) → ReadsOnly s (c.fetch k s).1
  pub owned_reads : (k : NamespacedName) (s : Session W) → ReadsOnly s (c.fetch_owned k s).1
  pub build_reads : (p : P) (s : Session W) → ReadsOnly s (c.build p s).1

-- The one path on which a reconcile writes: the resource is there and not being deleted, its object
-- is reported missing, and the object that is built from it is created, as the last call.
pub record Creates {W P D : Type 0} (c : Controller W P D) (req : NamespacedName) (s : Session W)
    (t : Session W) : Type 0 where
  pub resource : P
  pub object : D
  pub error : Error
  pub s1 : Session W
  pub s2 : Session W
  pub s3 : Session W
  pub fetched : c.fetch req s ≡ (ok resource, s1)
  pub not_deleting : (c.meta_of resource).deleting ≡ false
  pub missing : c.fetch_owned (key_of (c.meta_of resource)) s1 ≡ (fail error, s2)
  pub reported : error.is_not_found ≡ true
  pub built : c.build resource s2 ≡ (ok object, s3)
  pub before : ReadsOnly s s3
  pub created : t ≡ (c.post object s3).1

module _ {W P D : Type 0} (c : Controller W P D) (reader : IsReader c) where
  after_create-session : (r : Outcome (Unit {0}) × Session W) → (after_create c r).1 ≡ r.1
  unfolding after_create
  after_create-session (ok u, s) = refl
  after_create-session (fail e, s) = refl
  after_create-session (panic m, s) = refl

  module _ (req : NamespacedName) (s s1 : Session W) (p : P)
      (fetched : c.fetch req s ≡ (ok p, s1)) where
    by_build :
        (e : Error) (s2 : Session W) (r : Outcome D × Session W)
        → (c.meta_of p).deleting ≡ false
        → c.fetch_owned (key_of (c.meta_of p)) s1 ≡ (fail e, s2)
        → e.is_not_found ≡ true
        → c.build p s2 ≡ r
        → ReadsOnly s r.1
        → ReadsOnly s (after_build c r).1 ⊎ Creates c req s (after_build c r).1
    unfolding after_build
    by_build e s2 (ok d, s3) nd m nf b h = inr (record {
      resource = p;
      object = d;
      error = e;
      s1 = s1;
      s2 = s2;
      s3 = s3;
      fetched = fetched;
      not_deleting = nd;
      missing = m;
      reported = nf;
      built = b;
      before = h;
      created = after_create-session (c.post d s3);
    })
    by_build e s2 (fail e', s3) nd m nf b h = inl h
    by_build e s2 (panic t, s3) nd m nf b h = inl h

    by_owned :
        (r : Outcome D × Session W)
        → (c.meta_of p).deleting ≡ false
        → c.fetch_owned (key_of (c.meta_of p)) s1 ≡ r
        → ReadsOnly s r.1
        → ReadsOnly s (after_owned c p r).1 ⊎ Creates c req s (after_owned c p r).1
    unfolding after_owned
    by_owned (ok d, s2) nd m h = inl h
    by_owned (panic t, s2) nd m h = inl h
    by_owned (fail e, s2) nd m h = elim (Bool-cases e.is_not_found) [
      | inl nf ↦ rw nf (
          by_build e s2 (c.build p s2) nd m nf refl
            (ReadsOnly-trans s s2 (c.build p s2).1 h (reader.build_reads p s2)))
      | inr f ↦ rw f (inl h)
    ]

  by_fetch :
      (req : NamespacedName) (s : Session W) (r : Outcome P × Session W)
      → c.fetch req s ≡ r
      → ReadsOnly s r.1
      → ReadsOnly s (after_fetch c r).1 ⊎ Creates c req s (after_fetch c r).1
  unfolding after_fetch
  by_fetch req s (ok p, s1) f h = elim (Bool-cases (c.meta_of p).deleting) [
    | inl d ↦ rw d (inl h)
    | inr nd ↦
        let k = key_of (c.meta_of p) in
        rw nd (
          by_owned req s s1 p f (c.fetch_owned k s1) nd refl
            (ReadsOnly-trans s s1 (c.fetch_owned k s1).1 h (reader.owned_reads k s1)))
  ]
  by_fetch req s (fail e, s1) f h = elim (Bool-cases e.is_not_found) [
    | inl d ↦ rw d (inl h)
    | inr nd ↦ rw nd (inl h)
  ]
  by_fetch req s (panic t, s1) f h = inl h

  -- A reconcile makes no writing call, but on one path: the resource exists and is not being deleted,
  -- its object is reported missing, and the object built from the resource is created, as the last
  -- call.
  pub reconcile-calls :
      (req : NamespacedName) (s : Session W)
      → ReadsOnly s (reconcile c req s).1 ⊎ Creates c req s (reconcile c req s).1
  unfolding reconcile
  reconcile-calls req s = by_fetch req s (c.fetch req s) refl (reader.fetch_reads req s)
