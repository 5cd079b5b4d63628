-- ===== src/Prelude/Int.antt =====
-- Signed integers over the native numbers, for Go's `int`: the values that `strconv.Atoi` returns.
use frp_operator.Prelude.{ℕ, suc, ◌+◌, ◌<◌, Bool, ltb}

-- `negsuc n` is -(n + 1).
pub data ℤ : Type 0 where
  pos : ℕ → ℤ
  negsuc : ℕ → ℤ

abbrev pub pos_part : ℤ → ℕ
pos_part (pos n) = n
pos_part (negsuc n) = 0

abbrev pub neg_part : ℤ → ℕ
neg_part (pos n) = 0
neg_part (negsuc n) = suc n

abbrev pub ltb_ℤ : ℤ → ℤ → Bool
ltb_ℤ a b = ltb (pos_part a + neg_part b) (pos_part b + neg_part a)

abbrev pub ◌<ℤ◌ : ℤ → ℤ → Type 0

infix 50 ◌<ℤ◌
a <ℤ b = pos_part a + neg_part b < pos_part b + neg_part a
