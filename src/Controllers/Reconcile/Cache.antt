-- ===== src/Controllers/Reconcile/Cache.antt =====
-- What a reconcile keeps of the world, and what its reads tell of the cache.
use streaming_runtime_go.Prelude.{Outcome, ok, fail, panic, Error, true, ◌≡◌, refl, sym, subst}
use streaming_runtime_go.Api.{NamespacedName}
use streaming_runtime_go.Controllers.Client.{Session, Reconciled}
use streaming_runtime_go.Controllers.Reconcile.{key_of, Controller, after_create, reconcile}
use streaming_runtime_go.Controllers.Reconcile.Courses.{
  Keeps, kept, Alive, Missing, Course, gone, unread, unread_panic, deleting, present, unknown,
  unknown_panic, unbuilt, unbuilt_panic, posted, reconcile-Course,
}

module _ {W P D : Type 0} (c : Controller W P D) where
  -- The parts of a controller keep what holds of the world.
  pub record KeepsAll (S : W → Type 0) : Type 0 where
    pub fetch_keeps : (key : NamespacedName) → Keeps S (c.fetch key)
    pub owned_keeps : (key : NamespacedName) → Keeps S (c.fetch_owned key)
    pub build_keeps : (p : P) → Keeps S (c.build p)
    pub post_keeps : (d : D) → Keeps S (c.post d)

  -- A read of the owned object that reports it missing shows that the cache did not have it; and the
  -- object that is built for a resource has the resource's name.
  pub record IsCached (Shown : NamespacedName → W → Type 0) (name_of : D → NamespacedName)
      : Type 0 where
    pub missing :
        (key : NamespacedName) (s t : Session W) (e : Error)
        → c.fetch_owned key s ≡ (fail e, t)
        → e.is_not_found ≡ true
        → ¬ Shown key s.world
    pub built :
        (p : P) (s t : Session W) (d : D)
        → c.build p s ≡ (ok d, t)
        → name_of d ≡ key_of (c.meta_of p)

  module _ (req : NamespacedName) (s : Session W) where
    after_create-world : (r : Outcome (Unit {0}) × Session W) → (after_create c r).1 ≡ r.1
    unfolding after_create
    after_create-world (ok u, t) = refl
    after_create-world (fail e, t) = refl
    after_create-world (panic m, t) = refl

    module _ (S : W → Type 0) (k : KeepsAll S) where
      kept_at_fetch :
          (r : Outcome P) (t : Session W) → c.fetch req s ≡ (r, t) → S s.world → S t.world
      kept_at_fetch r t f h = kept S (c.fetch req) s t r (k.fetch_keeps req) f h

      kept_at_owned :
          (p : P) (s1 t : Session W) (r : Outcome D)
          → Alive c req s p s1
          → c.fetch_owned (key_of (c.meta_of p)) s1 ≡ (r, t)
          → S s.world
          → S t.world
      kept_at_owned p s1 t r a o h =
          kept S (c.fetch_owned (key_of (c.meta_of p))) s1 t r
            (k.owned_keeps (key_of (c.meta_of p))) o (kept_at_fetch (ok p) s1 a.fetched h)

      kept_at_build :
          (p : P) (s1 s2 t : Session W) (e : Error) (r : Outcome D)
          → Missing c req s p s1 e s2
          → c.build p s2 ≡ (r, t)
          → S s.world
          → S t.world
      kept_at_build p s1 s2 t e r m b h =
          kept S (c.build p) s2 t r (k.build_keeps p) b
            (kept_at_owned p s1 s2 (fail e) m.alive m.missing h)

      kept_on_course :
          (q : Outcome Reconciled × Session W) → Course c req s q → S s.world → S q.1.world
      kept_on_course q (gone e t f nf) h = kept_at_fetch (fail e) t f h
      kept_on_course q (unread e t f) h = kept_at_fetch (fail e) t f h
      kept_on_course q (unread_panic m t f) h = kept_at_fetch (panic m) t f h
      kept_on_course q (deleting p t f d) h = kept_at_fetch (ok p) t f h
      kept_on_course q (present p s1 d t a o) h = kept_at_owned p s1 t (ok d) a o h
      kept_on_course q (unknown p s1 e t a o) h = kept_at_owned p s1 t (fail e) a o h
      kept_on_course q (unknown_panic p s1 m t a o) h = kept_at_owned p s1 t (panic m) a o h
      kept_on_course q (unbuilt p s1 s2 e e' t m b) h = kept_at_build p s1 s2 t e (fail e') m b h
      kept_on_course q (unbuilt_panic p s1 s2 e x t m b) h =
          kept_at_build p s1 s2 t e (panic x) m b h
      kept_on_course q (posted p s1 s2 s3 e d r t m b o) h =
          subst (λ (v : Session W). S v.world) (sym (after_create-world (r, t)))
            (kept S (c.post d) s3 t r (k.post_keeps d) o (kept_at_build p s1 s2 s3 e (ok d) m b h))

      -- A reconcile keeps what its parts keep.
      pub reconcile-keeps : S s.world → S (reconcile c req s).1.world
      reconcile-keeps = kept_on_course (reconcile c req s) (reconcile-Course c req s)
