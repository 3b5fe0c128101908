-- ===== src/Prelude/Int.antt =====
-- Signed integers over the native numbers, and the wrap-around of int64_t and int16_t.
use sinboha.Prelude.{
  ℕ, suc, ◌+◌, ◌-◌, ◌%◌, ◌^◌, ◌≤◌, ◌<◌, ◌≡◌, Bool, true, false, arith, ltb, leb, ◌==◌,
  if◌then◌else◌,
}

-- `negsuc n` is -(n + 1).
pub data ℤ : Type 0 where
  pos : ℕ → ℤ
  negsuc : ℕ → ℤ

abbrev pub pos_part : ℤ → ℕ
pos_part (pos n) = n
pos_part (negsuc n) = 0

abbrev pub neg_part : ℤ → ℕ
neg_part (pos n) = 0
neg_part (negsuc n) = suc n

infix 50 ◌≤ℤ◌ ◌<ℤ◌
abbrev pub ◌≤ℤ◌ : ℤ → ℤ → Type 0
a ≤ℤ b = pos_part a + neg_part b ≤ pos_part b + neg_part a

abbrev pub ◌<ℤ◌ : ℤ → ℤ → Type 0
a <ℤ b = pos_part a + neg_part b < pos_part b + neg_part a

abbrev pub ltb_ℤ : ℤ → ℤ → Bool
ltb_ℤ a b = ltb (pos_part a + neg_part b) (pos_part b + neg_part a)

infix 50 ◌==ℤ◌
abbrev pub ◌==ℤ◌ : ℤ → ℤ → Bool
pos m ==ℤ pos n = m == n
negsuc m ==ℤ negsuc n = m == n
_ ==ℤ _ = false

pub ==ℤ_refl : (z : ℤ) → (z ==ℤ z) ≡ true
==ℤ_refl (pos n) = ground arith
==ℤ_refl (negsuc n) = ground arith

pub ==ℤ→≡ : (a b : ℤ) → (a ==ℤ b) ≡ true → a ≡ b
==ℤ→≡ (pos m) (pos n) h = ground arith
==ℤ→≡ (pos m) (negsuc n) h = ground arith
==ℤ→≡ (negsuc m) (pos n) h = ground arith
==ℤ→≡ (negsuc m) (negsuc n) h = ground arith

-- a - b.
infixl 65 ◌-ℤ◌
unfoldable pub ◌-ℤ◌ : ℤ → ℤ → ℤ
a -ℤ b =
    let up = pos_part a + neg_part b in
    let down = neg_part a + pos_part b in
    if leb down up then pos (up - down) else negsuc (down - up - 1)

pub -ℤ_parts :
    (a b : ℤ)
    → pos_part (a -ℤ b) + neg_part a + pos_part b ≡ neg_part (a -ℤ b) + pos_part a + neg_part b
unfolding ◌-ℤ◌
-ℤ_parts a b = ground arith

pub ltb_ℤ→<ℤ : (a b : ℤ) → ltb_ℤ a b ≡ true → a <ℤ b
ltb_ℤ→<ℤ a b h = ground arith

pub <ℤ→ltb_ℤ : (a b : ℤ) → a <ℤ b → ltb_ℤ a b ≡ true
<ℤ→ltb_ℤ a b h = ground arith

pub ≤ℤ→ltb_ℤ : (a b : ℤ) → b ≤ℤ a → ltb_ℤ a b ≡ false
≤ℤ→ltb_ℤ a b h = ground arith

-- The integer of two's complement that a word below 2 ^ 64 stands for.
abbrev of_word64 : ℕ → ℤ
of_word64 n = if ltb n (2 ^ 63) then pos n else negsuc (2 ^ 64 - 1 - n)

-- A value kept in an int64_t.
abbrev pub i64 : ℤ → ℤ
i64 (pos n) = of_word64 (n % 2 ^ 64)
i64 (negsuc n) = of_word64 (2 ^ 64 - 1 - n % 2 ^ 64)

-- A value cast to an int of 32 bits.
abbrev of_word32 : ℕ → ℤ
of_word32 n = if ltb n (2 ^ 31) then pos n else negsuc (2 ^ 32 - 1 - n)

abbrev pub i32 : ℤ → ℤ
i32 (pos n) = of_word32 (n % 2 ^ 32)
i32 (negsuc n) = of_word32 (2 ^ 32 - 1 - n % 2 ^ 32)

-- The cast of an unsigned short to int16_t.
abbrev pub i16_of_u16 : ℕ → ℤ
i16_of_u16 n = if ltb n (2 ^ 15) then pos n else negsuc (2 ^ 16 - 1 - n)

-- The cast of an int16_t to unsigned short.
abbrev pub u16_of_i16 : ℤ → ℕ
u16_of_i16 (pos n) = n % 2 ^ 16
u16_of_i16 (negsuc n) = 2 ^ 16 - 1 - n % 2 ^ 16

-- An int64_t keeps every value of its range.
pub i64-of_range : (z : ℤ) → pos_part z < 2 ^ 63 → neg_part z ≤ 2 ^ 63 → i64 z ≡ z
i64-of_range (pos n) h k = ground arith
i64-of_range (negsuc n) h k = ground arith

-- An unsigned short comes back from a pass through an int16_t.
pub u16_of_i16-i16_of_u16 : (n : ℕ) → n < 2 ^ 16 → u16_of_i16 (i16_of_u16 n) ≡ n
u16_of_i16-i16_of_u16 n h = ground arith

-- The difference of two values that are not negative stays in the range of an int64_t.
pub i64-ℤ : (m n : ℕ) → m < 2 ^ 63 → n < 2 ^ 63 → i64 (pos m -ℤ pos n) ≡ pos m -ℤ pos n
unfolding ◌-ℤ◌
i64-ℤ m n h k = i64-of_range (pos m -ℤ pos n) (ground arith) (ground arith)
