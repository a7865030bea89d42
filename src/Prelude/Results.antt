-- ===== src/Prelude/Results.antt =====
-- What a Go function with an `error` result may do: return a value, return an error, or panic.
use mathlib.Core.Bool.{Bool, false}
use mathlib.Core.Option.{Option, none, some}
use mathlib.Core.List.{List, [], ◌∷◌, ◌++◌}
use mathlib.Core.Path.{◌≡◌, refl}
use mathlib.Core.Logic.{◌⊎◌, inl, inr}
use streaming_runtime_go.Prelude.Strings.{Text}
use Prim.Native.Nat.{ℕ, zero, suc}

-- An `error`: its message, and whether `errors.IsNotFound` recognises it.
pub record Error : Type 0 where
  pub message : Text
  pub is_not_found : Bool

-- `fmt.Errorf("prefix%s", err)`: the wrapped error is only text, so it is recognised no more.
abbrev pub errorf : Text → Text → Error
errorf prefix msg = record { message = prefix ++ msg; is_not_found = false }

pub data Outcome {ℓ} (A : Type ℓ) : Type ℓ where
  ok : A → Outcome A
  fail : Error → Outcome A
  panic : Text → Outcome A

infixl 5 ◌>>=◌
abbrev pub ◌>>=◌ {ℓ κ} : {A : Type ℓ} {B : Type κ} → Outcome A → (A → Outcome B) → Outcome B
ok a >>= f = f a
fail e >>= f = fail e
panic m >>= f = panic m

-- `if err != nil { return nil, fmt.Errorf("prefix: %s", err) }`
abbrev pub wrap {ℓ} : {A : Type ℓ} → Text → Outcome A → Outcome A
wrap prefix (ok a) = ok a
wrap prefix (fail e) = fail (errorf prefix e.message)
wrap prefix (panic m) = panic m

-- `s[i]`: out of range is a run-time panic.
abbrev pub index {ℓ} : {A : Type ℓ} → List A → ℕ → Outcome A
index [] i = panic []
index (x ∷ xs) zero = ok x
index (x ∷ xs) (suc i) = index xs i

-- A type assertion with one result, `v.(T)`: a panic where the value has another type.
abbrev pub assert_some {ℓ} : {A : Type ℓ} → Option A → Outcome A
assert_some none = panic []
assert_some (some a) = ok a

pub Outcome-cases {ℓ} :
    {A : Type ℓ} (m : Outcome A)
    → ((a : A) × (m ≡ ok a)) ⊎ (((e : Error) × (m ≡ fail e)) ⊎ ((t : Text) × (m ≡ panic t)))
Outcome-cases (ok a) = inl (a, refl)
Outcome-cases (fail e) = inr (inl (e, refl))
Outcome-cases (panic t) = inr (inr (t, refl))

-- A chain that succeeds has a first step that succeeds.
pub >>=-eq-ok {ℓ κ} :
    {A : Type ℓ} {B : Type κ} (first : Outcome A) (rest : A → Outcome B) {out : B}
    → (first >>= rest) ≡ ok out
    → (v : A) × (first ≡ ok v) × (rest v ≡ ok out)
>>=-eq-ok (ok v) rest h = (v, refl, h)
>>=-eq-ok (fail e) rest h = cc
>>=-eq-ok (panic t) rest h = cc

pub >>=_assoc {ℓ κ μ} :
    {A : Type ℓ} {B : Type κ} {C : Type μ} (m : Outcome A) (f : A → Outcome B) (g : B → Outcome C)
    → (m >>= f >>= g) ≡ (m >>= λ a. f a >>= g)
>>=_assoc (ok a) f g = refl
>>=_assoc (fail e) f g = refl
>>=_assoc (panic t) f g = refl

-- A wrapped call succeeds exactly if the call does.
pub wrap-eq-ok {ℓ} :
    {A : Type ℓ} (prefix : Text) (m : Outcome A) {a : A} → wrap prefix m ≡ ok a → m ≡ ok a
wrap-eq-ok prefix (ok a) h = h
wrap-eq-ok prefix (fail e) h = cc
wrap-eq-ok prefix (panic t) h = cc

pub wrap->>=-eq-ok {ℓ κ} :
    {A : Type ℓ} {B : Type κ} (prefix : Text) (m : Outcome A) (f : A → Outcome B) {b : B}
    → (wrap prefix m >>= f) ≡ ok b
    → (a : A) × (m ≡ ok a) × (f a ≡ ok b)
wrap->>=-eq-ok prefix (ok a) f h = (a, refl, h)
wrap->>=-eq-ok prefix (fail e) f h = cc
wrap->>=-eq-ok prefix (panic t) f h = cc

pub ok-injective {ℓ} : {A : Type ℓ} {a b : A} → ok a ≡ ok b → a ≡ b
ok-injective h = cc

pub fail-ne-ok {ℓ} : {A : Type ℓ} {e : Error} {a : A} → ¬ (fail e ≡ ok a)
fail-ne-ok h = cc
