-- ===== src/Memory.antt =====
-- Go's memory, as far as the deep copies need it: a list of cells that only grows, in which an address
-- is a position. A nil pointer, slice or map is `none`; a slice or a map is a pointer to its contents,
-- as long as the slice shows.
pub mod Shapes
pub mod Pointers
pub mod Lists
use streaming_runtime_go.Prelude.{
  ℕ, zero, suc, ◌+◌, ◌≤◌, ◌<◌, List, [], ◌∷◌, ◌++◌, length, length-append, Option, none, some, ◌≡◌,
  refl, sym, arith,
}

module _ {C : Type 0} where
  abbrev pub read : List C → ℕ → Option C
  read [] r = none
  read (c ∷ h) zero = some c
  read (c ∷ h) (suc r) = read h r

  -- `new` or `make`, with what is then written
  abbrev pub alloc : C → List C → ℕ × List C
  alloc c h = (length h, h ++ c ∷ [])

  -- Two memories with the same cells from one address up to another.
  abbrev pub AgreesOn : ℕ → ℕ → List C → List C → Type 0
  AgreesOn lo hi h k = (r : ℕ) → lo ≤ r → r < hi → read h r ≡ read k r

  read-append : (h k : List C) (r : ℕ) → r < length h → read h r ≡ read (h ++ k) r
  read-append [] k r b = absurd (omega (arith, b))
  read-append (c ∷ h) k zero b = refl
  read-append (c ∷ h) k (suc r) b = read-append h k r (omega (arith, b))

  pub append-AgreesOn : (lo : ℕ) (h k : List C) → AgreesOn lo (length h) h (h ++ k)
  append-AgreesOn lo h k r _ b = read-append h k r b

  pub read_last : (c : C) (h : List C) → read (h ++ c ∷ []) (length h) ≡ some c
  read_last c [] = refl
  read_last c (d ∷ h) = read_last c h
