-- ===== src/Helper.antt =====
-- SINBOHA_HELPER::ToString (Sinboha/SinbohaHelper.cpp): a time as a text for the log. Date and time of
-- day, up to the second, come from the C library, as the argument `date_time`.
use sinboha.Prelude.{
  ℕ, zero, suc, ◌+◌, ◌-◌, ◌*◌, ◌/◌, ◌%◌, ◌≤◌, ◌<◌, ◌≡◌, ◌↔◌, ◌⊎◌, inl, inr, refl, [], ◌∷◌, ◌++◌,
  arith, ◌==◌, length, if◌then◌else◌,
}
use sinboha.Prelude.Int.{ℤ, pos, negsuc}
use sinboha.Chrono.{TimePoint, minus, to_milliseconds}
use sinboha.StatusRep.{Bytes}

-- `diff % 1000`, whose sign is that of `diff`.
unfoldable pub milliseconds_of : ℤ → ℤ
milliseconds_of (pos n) = pos (n % 1000)
milliseconds_of (negsuc n) = minus (suc n % 1000)

-- The decimal digits that a stream writes for a number, the last one first to be found. An int64_t has
-- at most 19 of them.
digits : ℕ → ℕ → Bytes → Bytes
digits zero n ds = ds
digits (suc f) n ds =
    let ds' = (48 + n % 10) ∷ ds in
    let rest = digits f (n / 10) ds' in if n / 10 == 0 then ds' else rest

unfoldable pub decimal : ℤ → Bytes
unfolding digits
decimal (pos n) = digits 19 n []
decimal (negsuc n) = 45 ∷ digits 19 (suc n) []

unfoldable pub to_string : (TimePoint → Bytes) → ℕ → TimePoint → Bytes
to_string date_time ticks t =
    date_time t ++ 46 ∷ decimal (milliseconds_of (to_milliseconds ticks t))

-- The number that decimal digits stand for, after the digits of `n`.
unfoldable pub value : ℕ → Bytes → ℕ
value n [] = n
value n (d ∷ ds) = value (n * 10 + (d - 48)) ds

-- What is written after the point for a time after 1970.
pub record IsFraction (ms : ℕ) (ds : Bytes) : Type 0 where
  pub reads : value 0 ds ≡ ms
  pub some_digit : 1 ≤ length ds
  pub three_digits : length ds ≤ 3
  pub padded : (length ds ≡ 3) ↔ (100 ≤ ms)

decimal_one : (n : ℕ) → n < 10 → decimal (pos n) ≡ (48 + n) ∷ []
unfolding decimal
decimal_one n h = ground arith

decimal_two : (n : ℕ) → 10 ≤ n → n < 100 → decimal (pos n) ≡ (48 + n / 10) ∷ (48 + n % 10) ∷ []
unfolding decimal
decimal_two n h k = ground arith

decimal_three :
    (n : ℕ)
    → 100 ≤ n
    → n < 1000
    → decimal (pos n) ≡ (48 + n / 100) ∷ (48 + n / 10 % 10) ∷ (48 + n % 10) ∷ []
unfolding decimal
decimal_three n h k = ground arith

decimal-IsFraction : (ms : ℕ) → ms < 1000 → IsFraction ms (decimal (pos ms))
unfolding value
decimal-IsFraction ms h = elim (size ms h) [
  | inl one ↦ rw (decimal_one ms one) (ground arith)
  | inr (inl (low, high)) ↦ rw (decimal_two ms low high) (ground arith)
  | inr (inr low) ↦ rw (decimal_three ms low h) (ground arith)
]
  where
    size : (n : ℕ) → n < 1000 → (n < 10) ⊎ ((10 ≤ n) × (n < 100)) ⊎ (100 ≤ n)
    size n h = ground arith

-- For a time after 1970 the text ends, after date, time of day and a point, in the milliseconds of
-- its second, a number below 1000 in one to three digits without leading zeros: there are three
-- exactly if it is 100 or more, so that otherwise the text does not read as a decimal fraction.
pub to_string-IsFraction :
    (date_time : TimePoint → Bytes) (ticks n : ℕ)
    → let ms = n / ticks % 1000 in
      (ms < 1000)
      × ((ds : Bytes) × (to_string date_time ticks (pos n) ≡ date_time (pos n) ++ 46 ∷ ds)
          × IsFraction ms ds)
unfolding to_string milliseconds_of to_milliseconds
to_string-IsFraction date_time ticks n =
    let ms = n / ticks % 1000 in
    let h : ms < 1000 = omega arith in (h, (decimal (pos ms), refl, decimal-IsFraction ms h))
