-- ===== src/Prelude/Panics.antt =====
-- Outcomes that are no panic.
use mathlib.Core.Path.{◌≡◌, refl}
use mathlib.Core.Logic.{◌≢◌}
use streaming_runtime_go.Prelude.Strings.{Text}
use streaming_runtime_go.Prelude.Results.{Outcome, Error, ok, fail, panic, wrap, ◌>>=◌}

abbrev pub NoPanic {ℓ} : {A : Type ℓ} → Outcome A → Type ℓ
NoPanic m = (t : Text) → m ≢ panic t

pub ok-NoPanic {ℓ} : {A : Type ℓ} (a : A) → NoPanic (ok a)
ok-NoPanic a t h = cc

pub fail-NoPanic {ℓ} : {A : Type ℓ} (e : Error) → NoPanic {A = A} (fail e)
fail-NoPanic e t h = cc

pub >>=-NoPanic {ℓ κ} :
    {A : Type ℓ} {B : Type κ} (m : Outcome A) (f : A → Outcome B)
    → NoPanic m
    → ((a : A) → m ≡ ok a → NoPanic (f a))
    → NoPanic (m >>= f)
>>=-NoPanic (ok a) f hm hf = hf a refl
>>=-NoPanic (fail e) f hm hf = fail-NoPanic e
>>=-NoPanic (panic s) f hm hf = absurd (hm s refl)

pub wrap-NoPanic {ℓ} :
    {A : Type ℓ} (prefix : Text) (m : Outcome A) → NoPanic m → NoPanic (wrap prefix m)
wrap-NoPanic prefix (ok a) h = ok-NoPanic a
wrap-NoPanic prefix (fail e) h = fail-NoPanic _
wrap-NoPanic prefix (panic s) h = absurd (h s refl)
