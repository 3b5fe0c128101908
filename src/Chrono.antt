-- ===== src/Chrono.antt =====
-- The clock values of the program: `chrono::system_clock::time_point` is a signed 64-bit count of
-- ticks since the epoch. How many ticks the clock has in a millisecond is fixed by the C++ library,
-- and is the parameter `ticks` of the conversions in Sinboha/SinbohaNetClient.cpp,
-- Sinboha/SinbohaRPCHandler.h and Sinboha/SinbohaBrainSplit.cpp.
use native.Mathlib.Nat.{div-mul-le_self, lt-div-mul-add, mul-div_cancel, le-div_iff_mul-le}
use sinboha.Prelude.{ℕ, zero, suc, ◌*◌, ◌/◌, ◌+◌, ◌^◌, ◌≤◌, ◌<◌, ◌≡◌, ◌∙◌, ap, arith}
use sinboha.Prelude.Int.{ℤ, pos, negsuc, i64, ◌≤ℤ◌, i64-of_range}

abbrev pub TimePoint : Type 0
TimePoint = ℤ

-- -n.
abbrev pub minus : ℕ → ℤ
minus zero = pos 0
minus (suc n) = negsuc n

-- A reading of a clock that is set after 1970 and fits its type.
abbrev pub IsClock : TimePoint → Type 0
IsClock (pos n) = n < 2 ^ 63
IsClock (negsuc n) = ⊥

module _ (ticks : ℕ) where
  -- `duration_cast<milliseconds>(t.time_since_epoch()).count()`: the quotient, towards zero.
  unfoldable pub to_milliseconds : TimePoint → ℤ
  to_milliseconds (pos n) = pos (n / ticks)
  to_milliseconds (negsuc n) = minus (suc n / ticks)

  -- `system_clock::time_point(milliseconds(ms))`: the product, in an int64_t.
  unfoldable pub of_milliseconds : ℤ → TimePoint
  of_milliseconds (pos n) = i64 (pos (n * ticks))
  of_milliseconds (negsuc n) = i64 (minus (suc n * ticks))

  -- A time as the peer gets it: cut to whole milliseconds.
  abbrev pub over_wire : TimePoint → TimePoint
  over_wire t = of_milliseconds (to_milliseconds t)

  over_wire-pos : (n : ℕ) → n < 2 ^ 63 → over_wire (pos n) ≡ pos (n / ticks * ticks)
  unfolding to_milliseconds of_milliseconds
  over_wire-pos n h =
      i64-of_range (pos (n / ticks * ticks)) (omega (arith, div-mul-le_self n ticks)) (omega arith)

  -- The peer never gets a later time.
  pub over_wire-le : (t : TimePoint) → IsClock t → over_wire t ≤ℤ t
  over_wire-le (pos n) h = rw (over_wire-pos n h) (omega (arith, div-mul-le_self n ticks))
  over_wire-le (negsuc n) h = absurd h

  quotient_mono : (q r : ℕ) → q ≤ r → pos (q * ticks) ≤ℤ pos (r * ticks)
  quotient_mono q r h = grind arith

  -- What the peer gets for a clock after 1970 is a whole number of milliseconds, not later than the
  -- time itself and less than a millisecond earlier, and it arrives unchanged if it is sent on; a
  -- later time never arrives as an earlier one.
  pub over_wire_bounds :
      (n : ℕ)
      → 0 < ticks
      → n < 2 ^ 63
      → (m : ℕ) × (over_wire (pos n) ≡ pos m)
        × (m ≤ n)
        × (n < m + ticks)
        × (over_wire (pos m) ≡ pos m)
        × ((k : ℕ) → n ≤ k → k < 2 ^ 63 → pos m ≤ℤ over_wire (pos k))
  over_wire_bounds n t h =
      let m = n / ticks * ticks in
      let below = div-mul-le_self n ticks in
      (
        m,
        over_wire-pos n h,
        below,
        lt-div-mul-add t,
        over_wire-pos m (omega (arith, below))
            ∙ ap (λ q. pos (q * ticks)) (mul-div_cancel (n / ticks) t),
        λ k le hk. rw (over_wire-pos k hk) (
            quotient_mono (n / ticks) (k / ticks) ((le-div_iff_mul-le t).1 (omega (arith, below)))),
      )
