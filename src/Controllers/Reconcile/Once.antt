-- ===== src/Controllers/Reconcile/Once.antt =====
-- What holds of all the calls of a reconcile, and that it creates nothing that the cache shows.
use streaming_runtime_go.Prelude.{
  List, [], ◌∷◌, ◌++◌, All, All-append, append_assoc, append-nil, ok, inl, inr, ◌≡◌, sym, ap, ◌∙◌,
  subst,
}
use streaming_runtime_go.Api.{NamespacedName}
use streaming_runtime_go.Controllers.Client.{Call, IsRead, Session}
use streaming_runtime_go.Controllers.Reconcile.{key_of, Controller, reconcile}
use streaming_runtime_go.Controllers.Reconcile.Calls.{ReadsOnly, IsReader, reconcile-calls}
use streaming_runtime_go.Controllers.Reconcile.Courses.{kept}
use streaming_runtime_go.Controllers.Reconcile.Cache.{KeepsAll, IsCached}

-- From one session to a later one the calls that were made all satisfy the predicate.
abbrev pub CallsAll : {W : Type 0} → (Call → Type 0) → Session W → Session W → Type 0
CallsAll Good s t = (calls : List Call) × (t.calls ≡ s.calls ++ calls) × All Good calls

pub CallsAll-refl : {W : Type 0} (Good : Call → Type 0) (s : Session W) → CallsAll Good s s
CallsAll-refl Good s = ([], sym (append-nil s.calls), tt)

pub CallsAll-trans :
    {W : Type 0} (Good : Call → Type 0) (s t u : Session W)
    → CallsAll Good s t
    → CallsAll Good t u
    → CallsAll Good s u
CallsAll-trans Good s t u (a, p, ha) (b, q, hb) =
    (a ++ b, q ∙ ap (λ l. l ++ b) p ∙ append_assoc s.calls a b, All-append Good a b ha hb)

-- From one session to a later one no call was made that the predicate tells of.
abbrev pub CallsNone : {W : Type 0} → (Call → Type 0) → Session W → Session W → Type 0
CallsNone Bad s t = CallsAll (λ call. ¬ Bad call) s t

module _ (Good : Call → Type 0) (reads : (call : Call) → IsRead call → Good call) where
  IsRead-All : (calls : List Call) → All IsRead calls → All Good calls
  IsRead-All [] h = tt
  IsRead-All (call ∷ calls) (h, hs) = (reads call h, IsRead-All calls hs)

  pub ReadsOnly-CallsAll : {W : Type 0} (s t : Session W) → ReadsOnly s t → CallsAll Good s t
  ReadsOnly-CallsAll s t (calls, p, h) = (calls, p, IsRead-All calls h)

module _ (Bad : Call → Type 0) (writes : (call : Call) → IsRead call → ¬ Bad call) where
  -- A reconcile does not make a call that would create what the cache shows.
  pub reconcile-once :
      {W P D : Type 0} (c : Controller W P D) (Shown : NamespacedName → W → Type 0)
      (name_of : D → NamespacedName) (S : W → Type 0) (post_call : D → Call) (req : NamespacedName)
      (s : Session W)
      → IsReader c
      → KeepsAll c S
      → IsCached c Shown name_of
      → ((d : D) (t : Session W) → ¬ Bad (post_call d) → CallsNone Bad t (c.post d t).1)
      → ((d : D) (w : W) → Bad (post_call d) → S w → Shown (name_of d) w)
      → S s.world
      → CallsNone Bad s (reconcile c req s).1
  reconcile-once c Shown name_of S post_call req s reader keeps v posts clash h =
      elim (reconcile-calls c reader req s) [
        | inl r ↦ ReadsOnly-CallsAll (λ call. ¬ Bad call) writes s (reconcile c req s).1 r
        | inr w ↦
            let good : ¬ Bad (post_call w.object) = λ b.
              v.missing (key_of (c.meta_of w.resource)) w.s1 w.s2 w.error w.missing w.reported (
                subst (λ (n : NamespacedName). Shown n w.s1.world)
                  (v.built w.resource w.s2 w.s3 w.object w.built)
                  (clash w.object w.s1.world b (
                    kept S (c.fetch req) s w.s1 (ok w.resource) (keeps.fetch_keeps req) w.fetched
                      h))) in
            subst (λ (t : Session _). CallsNone Bad s t) (sym w.created)
              (CallsAll-trans (λ call. ¬ Bad call) s w.s3 (c.post w.object w.s3).1
                (ReadsOnly-CallsAll (λ call. ¬ Bad call) writes s w.s3 w.before)
                (posts w.object w.s3 good))
      ]
