-- ===== src/Prelude/Lists.antt =====
-- Lists measured by native numbers, predicates over lists, and the laws the components share.
use Prim.Native.Nat.{ℕ, zero, suc, ◌+◌, ◌*◌}
use mathlib.Core.Path.{◌≡◌, refl, ap}
use mathlib.Core.Option.{Option, none, some}
use mathlib.Core.Logic.{◌⊎◌, inl, inr}
use mathlib.Core.List.{List, [], ◌∷◌, ◌++◌, map}
use native.Mathlib.Omega.{arith}

module _ {ℓ} {A : Type ℓ} where
  abbrev pub length : List A → ℕ
  length [] = 0
  length (x ∷ xs) = suc (length xs)

  abbrev pub get_elem? : List A → ℕ → Option A
  get_elem? [] i = none
  get_elem? (x ∷ xs) zero = some x
  get_elem? (x ∷ xs) (suc i) = get_elem? xs i

  -- What one variable holds: nothing, or an item.
  abbrev pub held : Option A → List A
  held none = []
  held (some item) = item ∷ []

  pub length-append : (xs ys : List A) → length (xs ++ ys) ≡ length xs + length ys
  length-append [] ys = omega arith
  length-append (x ∷ xs) ys = omega (arith, length-append xs ys)

module _ {ℓ κ} {A : Type ℓ} {B : Type κ} where
  pub length-map : (f : A → B) (xs : List A) → length (map f xs) ≡ length xs
  length-map f [] = refl
  length-map f (x ∷ xs) = ap suc (length-map f xs)

-- A predicate of every element, computed along the list.
module _ {ℓ κ} {A : Type ℓ} (P : A → Type κ) where
  abbrev pub All : List A → Type κ
  All [] = Unit
  All (x ∷ xs) = P x × All xs

  pub All-append : (xs ys : List A) → All xs → All ys → All (xs ++ ys)
  All-append [] ys hx hy = hy
  All-append (x ∷ xs) ys (px, hx) hy = (px, All-append xs ys hx hy)

-- All pairs, the first list outermost: the order in which two nested loops visit them.
module _ {ℓ κ} {A : Type ℓ} {B : Type κ} where
  unfoldable pub product : List A → List B → List (A × B)
  product [] bs = []
  product (a ∷ xs) bs = map (λ b. (a, b)) bs ++ product xs bs

  pub length-product : (xs : List A) (bs : List B) → length (product xs bs) ≡ length xs * length bs
  unfolding product
  length-product [] bs = omega arith
  length-product (a ∷ xs) bs = omega (
    arith,
    length-append (map (λ b. (a, b)) bs) (product xs bs),
    length-map {B = A × B} (λ b. (a, b)) bs,
    length-product xs bs,
  )

pub List-cases {ℓ} :
    {A : Type ℓ} (xs : List A) → (xs ≡ []) ⊎ ((y : A) × (ys : List A) × (xs ≡ y ∷ ys))
List-cases [] = inl refl
List-cases (y ∷ ys) = inr (y, ys, refl)
