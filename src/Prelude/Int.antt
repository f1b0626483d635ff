-- ===== src/Prelude/Int.antt =====
-- Signed integers over the native numbers, with the tests and the saturating sum of an `i64`.
use Prim.Native.Nat.{ℕ, suc, ◌+◌, ◌-◌, ◌^◌, ◌%◌}
use mathlib.Core.Bool.{Bool}
use antigravity_server.Prelude.Tests.{if◌then◌else◌, leb, ltb, ◌==◌}

-- `negsuc n` is -(n + 1).
pub data ℤ : Type 0 where
  pos : ℕ → ℤ
  negsuc : ℕ → ℤ

abbrev pub pos_part : ℤ → ℕ
pos_part (pos n) = n
pos_part (negsuc n) = 0

abbrev pub neg_part : ℤ → ℕ
neg_part (pos n) = 0
neg_part (negsuc n) = suc n

abbrev pub ltb_ℤ : ℤ → ℤ → Bool
ltb_ℤ a b = ltb (pos_part a + neg_part b) (pos_part b + neg_part a)

abbrev pub eqb_ℤ : ℤ → ℤ → Bool
eqb_ℤ a b = (pos_part a + neg_part b) == (pos_part b + neg_part a)

-- a - b, as an integer.
abbrev pub sub_ℕ : ℕ → ℕ → ℤ
sub_ℕ a b = if leb b a then pos (a - b) else negsuc (b - a - 1)

abbrev pub i64_max : ℕ
i64_max = 2 ^ 63 - 1

-- `i64::saturating_add` of a number that is not negative.
abbrev pub sat_add_i64 : ℤ → ℕ → ℤ
sat_add_i64 a n =
    let sum = sub_ℕ (pos_part a + n) (neg_part a) in
    if ltb_ℤ (pos i64_max) sum then pos i64_max else sum

-- `i64::saturating_sub` of a number that is not negative.
abbrev pub sat_sub_i64 : ℤ → ℕ → ℤ
sat_sub_i64 a n =
    let diff = sub_ℕ (pos_part a) (neg_part a + n) in
    if ltb_ℤ diff (negsuc i64_max) then negsuc i64_max else diff

abbrev pub max_ℤ : ℤ → ℤ → ℤ
max_ℤ a b = if ltb_ℤ b a then a else b

-- An integer as an `i64` that wraps.
unfoldable pub wrap_i64 : ℤ → ℤ
wrap_i64 (pos n) = sub_ℕ ((n + 2 ^ 63) % 2 ^ 64) (2 ^ 63)
wrap_i64 (negsuc n) = sub_ℕ ((2 ^ 63 + 2 ^ 64 - 1 - n % 2 ^ 64) % 2 ^ 64) (2 ^ 63)

-- `+` and `-` of `i64` in a release build.
unfoldable pub add_i64 : ℤ → ℤ → ℤ
unfolding wrap_i64
add_i64 a b = wrap_i64 (sub_ℕ (pos_part a + pos_part b) (neg_part a + neg_part b))

unfoldable pub sub_i64 : ℤ → ℤ → ℤ
unfolding wrap_i64
sub_i64 a b = wrap_i64 (sub_ℕ (pos_part a + neg_part b) (neg_part a + pos_part b))
