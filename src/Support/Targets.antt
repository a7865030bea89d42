-- ===== src/Support/Targets.antt =====
-- What `get_target_parts` returns, for every target.
use streaming_runtime_go.Prelude.{
  ℕ, Text, split, Lacks, List, [], ◌∷◌, ◌++◌, ok, ◌≡◌, ◌≢◌, refl, arith, length-split, split-Lacks,
  split-append, first_byte, inl, inr, ◌⊎◌, ap, split-cons, is_empty-append, join, join-split,
}
use mathlib.Core.List.{cons-ne-nil}
use streaming_runtime_go.Support.{get_target_parts}

abbrev pub slash : ℕ
slash = b'/'

pub get_target_parts-empty : get_target_parts [] ≡ ok []
unfolding get_target_parts split
get_target_parts-empty = refl

-- A target without a slash stands for the app and for its route.
pub get_target_parts-plain :
    (target : Text)
    → target ≢ []
    → Lacks slash target
    → get_target_parts target ≡ ok (target ∷ target ∷ [])
unfolding get_target_parts
get_target_parts-plain [] h l = absurd (h refl)
get_target_parts-plain (c ∷ s) h l = rw (split-Lacks (c ∷ s) slash l)

-- A target with a slash is split at every slash.
pub get_target_parts-path :
    (p rest : Text)
    → Lacks slash p
    → get_target_parts (p ++ slash ∷ rest) ≡ ok (p ∷ split rest slash)
unfolding get_target_parts
get_target_parts-path p rest l =
    rw (is_empty-append p rest slash, split-append p rest slash l)
      (ground (arith, length-split rest slash))

-- A target is either empty and has no part, or it has two parts at least; it is never malformed.
pub get_target_parts-total :
    (target : Text)
    → (target ≡ []) × (get_target_parts target ≡ ok [])
      ⊎ (target ≢ [])
        × ((a : Text) × (b : Text) × (more : List Text) × (get_target_parts target
              ≡ ok (a ∷ b ∷ more)))
get_target_parts-total [] = inl (refl, get_target_parts-empty)
get_target_parts-total (c ∷ s) = inr (
  cons-ne-nil c s,
  elim (first_byte (c ∷ s) slash) [
    | inl l ↦ (c ∷ s, c ∷ s, [], get_target_parts-plain (c ∷ s) (cons-ne-nil c s) l)
    | inr (p, rest, e, l) ↦
        let (q, qs, e') = split-cons rest slash in
        (p, q, qs, rw e (rw (get_target_parts-path p rest l) (ap (λ ps. ok (p ∷ ps)) e')))
  ],
)

-- A target with a slash is cut into parts that, joined by slashes, give the target back.
pub join-get_target_parts :
    (p rest : Text)
    → Lacks slash p
    → (parts : List Text) × (get_target_parts (p ++ slash ∷ rest) ≡ ok parts)
      × (join parts (slash ∷ []) ≡ p ++ slash ∷ rest)
join-get_target_parts p rest l = (
  p ∷ split rest slash,
  get_target_parts-path p rest l,
  rw (← split-append p rest slash l) (join-split _ slash),
)
