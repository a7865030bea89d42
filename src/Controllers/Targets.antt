-- ===== src/Controllers/Targets.antt =====
-- `validate_target` agrees with the way in which the components read a target.
use streaming_runtime_go.Prelude.{
  Text, Lacks, [], ◌∷◌, ◌++◌, ok, ◌≡◌, ◌≢◌, refl, inl, inr, ap, ◌∙◌, sym, first_byte,
  index_byte-append, Lacks-index_byte, split-Lacks, is_empty-append,
}
use mathlib.Core.List.{cons-ne-nil}
use streaming_runtime_go.Support.{get_target_parts}
use streaming_runtime_go.Support.Targets.{slash, get_target_parts-plain, get_target_parts-path}
use streaming_runtime_go.Controllers.Helper.{validate_target}

validate_target-path :
    (p rest : Text) → Lacks slash p → validate_target (p ++ slash ∷ rest) ≡ p ++ slash ∷ rest
unfolding validate_target
validate_target-path p rest l =
    let (i, e) = index_byte-append p rest slash l in rw (is_empty-append p rest slash, e)

validate_target-plain :
    (target : Text)
    → target ≢ []
    → Lacks slash target
    → validate_target target ≡ target ++ slash ∷ target
unfolding validate_target
validate_target-plain [] h l = absurd (h refl)
validate_target-plain (c ∷ s) h l = rw (Lacks-index_byte (c ∷ s) slash l)

-- The parts of a target are the same before and after its validation.
pub get_target_parts-validate_target :
    (target : Text) → get_target_parts (validate_target target) ≡ get_target_parts target
get_target_parts-validate_target [] = unfold validate_target in refl
get_target_parts-validate_target (c ∷ s) =
    let target = c ∷ s in
    elim (first_byte target slash) [
      | inl l ↦
          let h = cons-ne-nil c s in
          ap get_target_parts (validate_target-plain target h l)
          ∙ get_target_parts-path target target l
          ∙ ap (λ ps. ok (target ∷ ps)) (split-Lacks target slash l)
          ∙ sym (get_target_parts-plain target h l)
      | inr (p, rest, e, l) ↦ rw (e, validate_target-path p rest l)
    ]

-- Validation is done once: a validated target stays as it is.
pub validate_target_idem :
    (target : Text) → validate_target (validate_target target) ≡ validate_target target
validate_target_idem [] = unfold validate_target in refl
validate_target_idem (c ∷ s) =
    let target = c ∷ s in
    elim (first_byte target slash) [
      | inl l ↦
          let e = validate_target-plain target (cons-ne-nil c s) l in
          ap validate_target e ∙ validate_target-path target target l ∙ sym e
      | inr (p, rest, e, l) ↦ rw (e, validate_target-path p rest l, validate_target-path p rest l)
    ]
