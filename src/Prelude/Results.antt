-- ===== src/Prelude/Results.antt =====
-- Python exceptions as values, and the `do` blocks over them.
use mathlib.Core.Path.{◌≡◌, refl}
use mathlib.Core.Bool.{Bool, true, false}

-- The exceptions that the modelled code can raise.
pub data Error : Type 0 where
  value_error struct_error unicode_error file_not_found zero_division key_error runtime_error :
      Error

-- What a call gives: an exception, or a value.
pub data Result {ℓ} (A : Type ℓ) : Type ℓ where
  err : Error → Result A
  ok : A → Result A

-- The test of an `if … : raise`.
abbrev pub guard : Bool → Error → Result (Unit {0})
guard false raised = err raised
guard true raised = ok tt

-- An exception ends the block; a value goes on to the rest of it.
infixl 5 ◌>>=◌ ◌>>◌
abbrev pub ◌>>=◌ {ℓ ℓ'} : {X : Type ℓ} {Y : Type ℓ'} (r : Result X) → (X → Result Y) → Result Y
err raised >>= rest = err raised
ok value >>= rest = rest value

abbrev pub ◌>>◌ {ℓ} : {Y : Type ℓ} (check : Result (Unit {0})) (rest : Result Y) → Result Y
check >> rest = check >>= λ done. rest

-- Where a block gives a value, so does its first call.
pub >>=-eq-ok {ℓ ℓ'} :
    {X : Type ℓ} {Y : Type ℓ'} (first : Result X) (rest : X → Result Y) {y : Y}
    → (first >>= rest) ≡ ok y
    → (x : X) × (first ≡ ok x) × (rest x ≡ ok y)
>>=-eq-ok (err raised) rest e = cc
>>=-eq-ok (ok x) rest e = (x, refl, e)
