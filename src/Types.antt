-- ===== src/Types.antt =====
-- The public enumerations of Sinboha/SinboHA.h. Both have the underlying type unsigned short, so
-- that a cast from an integer of the wire can give a value with no name.
use sinboha.Prelude.{ℕ, zero, suc, ◌^◌, ◌<◌, ◌≡◌, refl, Bool, arith, ◌==◌}
use native.Mathlib.Decide.{ℕ_discrete}
use sinboha.Prelude.Int.{ℤ, i16_of_u16, u16_of_i16}

pub data SinbohaError : Type 0 where
  error_ok error_fail : SinbohaError
  other_error : ℕ → SinbohaError  -- n + 2, which has no name

pub data SinbohaStatus : Type 0 where
  pending active standby : SinbohaStatus
  other_status : ℕ → SinbohaStatus  -- n + 3, which has no name

pub SinbohaStatus-discrete : Discrete SinbohaStatus
SinbohaStatus-discrete = hlevel ℕ_discrete

-- The number behind an enumerator.
abbrev pub status_code : SinbohaStatus → ℕ
status_code pending = 0
status_code active = 1
status_code standby = 2
status_code (other_status n) = suc (suc (suc n))

-- `SinbohaStatus(n)`.
abbrev pub status_of_code : ℕ → SinbohaStatus
status_of_code zero = pending
status_of_code (suc zero) = active
status_of_code (suc (suc zero)) = standby
status_of_code (suc (suc (suc n))) = other_status n

-- `SinbohaError(n)`.
abbrev pub error_of_code : ℕ → SinbohaError
error_of_code zero = error_ok
error_of_code (suc zero) = error_fail
error_of_code (suc (suc n)) = other_error n

abbrev pub error_code : SinbohaError → ℕ
error_code error_ok = 0
error_code error_fail = 1
error_code (other_error n) = suc (suc n)

-- `==` on the two enumerations compares the numbers.
abbrev pub is_status : SinbohaStatus → SinbohaStatus → Bool
is_status s t = status_code s == status_code t

abbrev pub is_error : SinbohaError → SinbohaError → Bool
is_error a b = error_code a == error_code b

-- `(int16_t)Status`, and `SinbohaStatus(Status)` for an int16_t.
abbrev pub i16_of_status : SinbohaStatus → ℤ
i16_of_status s = i16_of_u16 (status_code s)

abbrev pub status_of_i16 : ℤ → SinbohaStatus
status_of_i16 z = status_of_code (u16_of_i16 z)

-- `(int16_t)Error`, and `SinbohaError(Error)` for an int16_t.
abbrev pub i16_of_error : SinbohaError → ℤ
i16_of_error e = i16_of_u16 (error_code e)

abbrev pub error_of_i16 : ℤ → SinbohaError
error_of_i16 z = error_of_code (u16_of_i16 z)

-- A status with a name: what the program itself ever stores.
abbrev pub IsNamed : SinbohaStatus → Type 0
IsNamed (other_status n) = ⊥
IsNamed pending = Unit
IsNamed active = Unit
IsNamed standby = Unit

-- A status with a name arrives as it was sent.
pub status_of_i16-i16_of_status :
    (s : SinbohaStatus) → IsNamed s → status_of_i16 (i16_of_status s) ≡ s
status_of_i16-i16_of_status pending h = refl
status_of_i16-i16_of_status active h = refl
status_of_i16-i16_of_status standby h = refl
status_of_i16-i16_of_status (other_status n) h = absurd h

-- An error code arrives as success exactly if it is success.
pub error_of_i16-i16_of_error :
    (e : SinbohaError)
    → error_code e < 2 ^ 16
    → is_error (error_of_i16 (i16_of_error e)) error_ok ≡ is_error e error_ok
error_of_i16-i16_of_error e h = ground arith
