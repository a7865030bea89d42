-- ===== src/Prelude/Ints.antt =====
-- Signed integers over the native numbers: `int`, `int32` and durations in nanoseconds.
use Prim.Native.Nat.{ℕ, zero, suc, ◌+◌, ◌/◌, ◌%◌}
use mathlib.Core.Bool.{Bool, true, false}
use mathlib.Core.List.{[], ◌∷◌}
use streaming_runtime_go.Prelude.Tests.{◌==◌, if◌then◌else◌}
use streaming_runtime_go.Prelude.Strings.{Text}

-- `negsuc n` is -(n + 1).
pub data ℤ : Type 0 where
  pos : ℕ → ℤ
  negsuc : ℕ → ℤ

abbrev pub is_zero : ℤ → Bool
is_zero (pos n) = n == 0
is_zero (negsuc n) = false

-- `n > 0`
abbrev pub is_positive : ℤ → Bool
is_positive (pos zero) = false
is_positive (pos (suc n)) = true
is_positive (negsuc n) = false

-- The digits of a number, with one unit of fuel for each digit; a number has fewer digits than its
-- value plus one.
digits : ℕ → ℕ → Text → Text
digits zero n out = out
digits (suc fuel) n out =
    let rest = digits fuel (n / 10) ((b'0' + n % 10) ∷ out) in
    if n / 10 == 0 then (b'0' + n % 10) ∷ out else rest

-- `%d`
unfoldable pub format_int : ℤ → Text
unfolding digits
format_int (pos n) = digits (suc n) n []
format_int (negsuc n) = b'-' ∷ digits (suc (suc n)) (suc n) []
