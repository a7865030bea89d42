-- ===== src/Prelude/Dicts.antt =====
-- Go maps with string keys, as association lists in which the first entry of a key counts.
use mathlib.Core.Path.{◌≡◌}
use mathlib.Core.Option.{Option, none, some}
use mathlib.Core.List.{List, [], ◌∷◌}
use native.Mathlib.Omega.{arith}
use streaming_runtime_go.Prelude.Tests.{if◌then◌else◌, is_empty}
use streaming_runtime_go.Prelude.Strings.{Text, text_eq, text_eq_iff}

abbrev pub Dict {ℓ} : Type ℓ → Type ℓ
Dict V = List (Text × V)

module _ {ℓ} {V : Type ℓ} where
  -- `v, ok := m[k]`
  unfoldable pub lookup : Text → Dict V → Option V
  lookup k [] = none
  lookup k ((j, v) ∷ m) = if text_eq j k then some v else lookup k m

  without : Text → Dict V → Dict V
  without k [] = []
  without k ((j, v) ∷ m) = let rest = without k m in if text_eq j k then rest else (j, v) ∷ rest

  -- `m[k] = v`
  unfoldable pub insert : Text → V → Dict V → Dict V
  unfolding without
  insert k v m = (k, v) ∷ without k m

  lookup-without :
      (k j : Text) (m : Dict V)
      → lookup j (without k m) ≡ (if text_eq k j then none else lookup j m)
  unfolding lookup without
  lookup-without k j [] = ground arith
  lookup-without k j ((i, v) ∷ m) =
      ground (arith, lookup-without k j m, text_eq_iff i k, text_eq_iff i j, text_eq_iff k j)

  pub lookup-insert :
      (k j : Text) (v : V) (m : Dict V)
      → lookup j (insert k v m) ≡ (if text_eq k j then some v else lookup j m)
  unfolding lookup insert
  lookup-insert k j v m = ground (arith, lookup-without k j m)

-- `m[k]` with the zero value of the element type for a missing key.
abbrev pub lookup_or {ℓ} : {V : Type ℓ} → Text → Dict V → V → V
lookup_or k m zero_value = elim (lookup k m) [ none ↦ zero_value | some v ↦ v ]

-- os.Getenv: an unset variable is empty
abbrev pub getenv : Text → Dict Text → Text
getenv name env = lookup_or name env []

-- `if s == "" { s = default }`
abbrev pub or_default : Text → Text → Text
or_default s default = if is_empty s then default else s
