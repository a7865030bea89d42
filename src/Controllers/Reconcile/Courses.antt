-- ===== src/Controllers/Reconcile/Courses.antt =====
-- The courses that a reconcile takes.
use streaming_runtime_go.Prelude.{
  Outcome, ok, fail, panic, Error, true, false, Bool-cases, inl, inr, ◌≡◌, refl, subst,
}
use streaming_runtime_go.Api.{NamespacedName}
use streaming_runtime_go.Controllers.Client.{Session, Action, Reconciled, finished, failed}
use streaming_runtime_go.Controllers.Reconcile.{
  key_of, Controller, after_create, after_build, after_owned, after_fetch, reconcile,
}

-- What an action keeps of the world.
abbrev pub Keeps : {W A : Type 0} → (W → Type 0) → Action W A → Type 0
Keeps S act = (s : Session _) → S s.world → S (act s).1.world

pub kept :
    {W A : Type 0} (S : W → Type 0) (act : Action W A) (s t : Session W) (r : Outcome A)
    → Keeps S act
    → act s ≡ (r, t)
    → S s.world
    → S t.world
kept S act s t r keeps e h = subst (λ (q : Outcome _ × Session _). S q.1.world) e (keeps s h)

module _ {W P D : Type 0} (c : Controller W P D) where
  module _ (req : NamespacedName) (s : Session W) where
    -- The resource is there, and not being deleted.
    pub record Alive (p : P) (s1 : Session W) : Type 0 where
      pub fetched : c.fetch req s ≡ (ok p, s1)
      pub not_deleting : (c.meta_of p).deleting ≡ false

    -- Its object is reported missing.
    pub record Missing (p : P) (s1 : Session W) (e : Error) (s2 : Session W) : Type 0 where
      pub alive : Alive p s1
      pub missing : c.fetch_owned (key_of (c.meta_of p)) s1 ≡ (fail e, s2)
      pub reported : e.is_not_found ≡ true

    pub data Course : Outcome Reconciled × Session W → Type 0 where
      gone :
          (e : Error) (t : Session W)
          → c.fetch req s ≡ (fail e, t)
          → e.is_not_found ≡ true
          → Course (ok finished, t)
      unread : (e : Error) (t : Session W) → c.fetch req s ≡ (fail e, t) → Course (ok (failed e), t)
      unread_panic : (m : _) (t : Session W) → c.fetch req s ≡ (panic m, t) → Course (panic m, t)
      deleting :
          (p : P) (t : Session W)
          → c.fetch req s ≡ (ok p, t)
          → (c.meta_of p).deleting ≡ true
          → Course (ok finished, t)
      present :
          (p : P) (s1 : Session W) (d : D) (t : Session W)
          → Alive p s1
          → c.fetch_owned (key_of (c.meta_of p)) s1 ≡ (ok d, t)
          → Course (ok finished, t)
      unknown :
          (p : P) (s1 : Session W) (e : Error) (t : Session W)
          → Alive p s1
          → c.fetch_owned (key_of (c.meta_of p)) s1 ≡ (fail e, t)
          → Course (ok (failed e), t)
      unknown_panic :
          (p : P) (s1 : Session W) (m : _) (t : Session W)
          → Alive p s1
          → c.fetch_owned (key_of (c.meta_of p)) s1 ≡ (panic m, t)
          → Course (panic m, t)
      unbuilt :
          (p : P) (s1 s2 : Session W) (e e' : Error) (t : Session W)
          → Missing p s1 e s2
          → c.build p s2 ≡ (fail e', t)
          → Course (ok (failed e'), t)
      unbuilt_panic :
          (p : P) (s1 s2 : Session W) (e : Error) (m : _) (t : Session W)
          → Missing p s1 e s2
          → c.build p s2 ≡ (panic m, t)
          → Course (panic m, t)
      posted :
          (p : P) (s1 s2 s3 : Session W) (e : Error) (d : D) (r : Outcome (Unit {0}))
          (t : Session W)
          → Missing p s1 e s2
          → c.build p s2 ≡ (ok d, s3)
          → c.post d s3 ≡ (r, t)
          → Course (after_create c (r, t))

    after_build-Course :
        (p : P) (s1 s2 : Session W) (e : Error) (r : Outcome D × Session W)
        → Missing p s1 e s2
        → c.build p s2 ≡ r
        → Course (after_build c r)
    unfolding after_build
    after_build-Course p s1 s2 e (ok d, s3) m b =
        posted p s1 s2 s3 e d (c.post d s3).0 (c.post d s3).1 m b refl
    after_build-Course p s1 s2 e (fail e', s3) m b = unbuilt p s1 s2 e e' s3 m b
    after_build-Course p s1 s2 e (panic x, s3) m b = unbuilt_panic p s1 s2 e x s3 m b

    after_owned-Course :
        (p : P) (s1 : Session W) (r : Outcome D × Session W)
        → Alive p s1
        → c.fetch_owned (key_of (c.meta_of p)) s1 ≡ r
        → Course (after_owned c p r)
    unfolding after_owned
    after_owned-Course p s1 (ok d, s2) a o = present p s1 d s2 a o
    after_owned-Course p s1 (panic x, s2) a o = unknown_panic p s1 x s2 a o
    after_owned-Course p s1 (fail e, s2) a o = elim (Bool-cases e.is_not_found) [
      | inl nf ↦ rw nf (
          after_build-Course p s1 s2 e (c.build p s2)
            (record { alive = a; missing = o; reported = nf }) refl)
      | inr f ↦ simp f (unknown p s1 e s2 a o)
    ]

    after_fetch-Course : (r : Outcome P × Session W) → c.fetch req s ≡ r → Course (after_fetch c r)
    unfolding after_fetch
    after_fetch-Course (ok p, s1) f = elim (Bool-cases (c.meta_of p).deleting) [
      | inl d ↦ rw d (deleting p s1 f d)
      | inr nd ↦ rw nd (
          after_owned-Course p s1 (c.fetch_owned (key_of (c.meta_of p)) s1)
            (record { fetched = f; not_deleting = nd }) refl)
    ]
    after_fetch-Course (fail e, s1) f = elim (Bool-cases e.is_not_found) [
      | inl nf ↦ rw nf (gone e s1 f nf)
      | inr g ↦ simp g (unread e s1 f)
    ]
    after_fetch-Course (panic x, s1) f = unread_panic x s1 f

    -- A reconcile takes one of the courses.
    pub reconcile-Course : Course (reconcile c req s)
    unfolding reconcile
    reconcile-Course = after_fetch-Course (c.fetch req s) refl
