-- ===== src/Prelude/Errors.antt =====
-- Go's error results and run-time panics as values.
use Prim.Native.Nat.{ℕ}
use mathlib.Core.Path.{◌≡◌, refl}
use mathlib.Core.Bool.{Bool, true, false}

pub data Error : Type 0 where
  -- a run-time panic: a nil pointer, a slice out of range, an explicit `panic`
  panic : Error
  -- the model's own: a loop has used up its fuel
  out_of_fuel : Error
  -- an error that a package outside the repository returned
  fault : ℕ → Error
  -- pebble's error for a key that is not there, passed on
  missing_record : Error
  -- errors that the repository's own code makes
  not_found : Error
  bad_length : Error
  truncated : Error
  count_underflow : Error
  unknown_operation : Error
  timed_out : Error

-- What a Go function with an error result gives: its value, or the error or panic that ends it.
pub data Result {ℓ} (T : Type ℓ) : Type ℓ where
  err : Error → Result T
  ok : T → Result T

infixl 5 ◌>>=◌
-- Go on unless there was an error.
abbrev pub ◌>>=◌ {ℓ κ} : {T : Type ℓ} {S : Type κ} (r : Result T) (next : T → Result S) → Result S
err failure >>= next = err failure
ok t >>= next = next t

-- What succeeds as a whole has succeeded in each part.
pub >>=-eq-ok {ℓ κ} :
    {T : Type ℓ} {S : Type κ} {s : S} (r : Result T) (next : T → Result S)
    → (r >>= next) ≡ ok s
    → (t : T) × (r ≡ ok t) × (next t ≡ ok s)
>>=-eq-ok (err failure) next h = cc
>>=-eq-ok (ok t) next h = (t, refl, h)

pub ok-injective {ℓ} : {T : Type ℓ} {t u : T} → ok t ≡ ok u → t ≡ u
ok-injective h = cc

pub err-injective {ℓ} : {T : Type ℓ} {e e' : Error} → ◌≡◌ {A = Result T} (err e) (err e') → e ≡ e'
err-injective h = cc

-- An early return with an error, unless the test holds.
abbrev pub require : Bool → Error → Result (Unit {0})
require true e = ok tt
require false e = err e

pub >>=-cong {ℓ κ} :
    {T : Type ℓ} {S : Type κ} (r : Result T) (f g : T → Result S)
    → ((t : T) → f t ≡ g t)
    → (r >>= f) ≡ (r >>= g)
>>=-cong (err failure) f g same = refl
>>=-cong (ok t) f g same = same t

-- The call returns no error.
abbrev pub Ok {ℓ} : {T : Type ℓ} → Result T → Type ℓ
Ok {T} r = (t : T) × (r ≡ ok t)

pub bind-Ok {ℓ κ} :
    {T : Type ℓ} {S : Type κ} (r : Result T) (next : T → Result S)
    → Ok r
    → ((t : T) → r ≡ ok t → Ok (next t))
    → Ok (r >>= next)
bind-Ok (err failure) next (t, e) k = cc
bind-Ok (ok t) next done k = k t refl
