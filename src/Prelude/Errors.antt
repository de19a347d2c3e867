-- ===== src/Prelude/Errors.antt =====
-- Exceptions as values. A failed `assert` or a `raise` ends the call; the callers do not go on
-- with an object that a failed call left half written, so the state is dropped.
use mathlib.Core.Bool.{Bool, true, false}
use mathlib.Core.Path.{◌≡◌, refl, ap, ◌∙◌}

pub data Error : Type 0 where
  assertion_error value_error index_error key_error runtime_error timeout_error zero_division_error
        type_error :
      Error

pub data Result {ℓ} (Value : Type ℓ) : Type ℓ where
  err : Error → Result Value
  ok : Value → Result Value

-- A successful value is known when the result is.
pub ok-eq {ℓ} : {Value : Type ℓ} {v w : Value} → ok v ≡ ok w → v ≡ w
ok-eq same = cc

infixl 5 ◌>>=◌ ◌>>◌
-- The rest of a call runs on the value of its first part.
abbrev pub ◌>>=◌ {ℓ κ} :
    {Value : Type ℓ} {Next : Type κ} → Result Value → (Value → Result Next) → Result Next
err error >>= rest = err error
ok value >>= rest = rest value

pub >>=-eq-ok {ℓ κ} :
    {Value : Type ℓ} {Next : Type κ} (first : Result Value) (rest : Value → Result Next) {w : Next}
    → first >>= rest ≡ ok w
    → (v : Value) × (first ≡ ok v) × (rest v ≡ ok w)
>>=-eq-ok (err error) rest returned = cc
>>=-eq-ok (ok value) rest returned = (value, refl, returned)

-- A first part without a value.
abbrev pub ◌>>◌ {κ} : {Next : Type κ} → Result (Unit {0}) → Result Next → Result Next
first >> second = first >>= λ done. second

-- `assert test`
abbrev pub assert : Bool → Result (Unit {0})
assert false = err assertion_error
assert true = ok tt

-- Inversion of an assertion that held.
pub assert-eq-ok {κ} :
    {Next : Type κ} (test : Bool) (second : Result Next) {w : Next}
    → assert test >> second ≡ ok w
    → (test ≡ true) × (second ≡ ok w)
assert-eq-ok false second returned = cc
assert-eq-ok true second returned = (refl, returned)

-- The rest of a call, where the value of the first part is known.
pub >>=-ok {ℓ κ} :
    {Value : Type ℓ} {Next : Type κ} (first : Result Value) (rest : Value → Result Next) {v : Value}
    {w : Next}
    → first ≡ ok v
    → rest v ≡ ok w
    → first >>= rest ≡ ok w
>>=-ok first rest {w = w} known returned = ap (λ r. r >>= rest) known ∙ returned
