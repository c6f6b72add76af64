-- ===== src/Integer.antt =====
-- Go's `int`, as far as the program compares it: `negsuc n` is -(n + 1).
use drone_management_system.Base.{ℕ, Bool, true, false, ltb, leb}

pub data ℤ : Type 0 where
  pos : ℕ → ℤ
  negsuc : ℕ → ℤ

-- `a <= n` and `a > n` for a number `n` that is not negative.
abbrev pub int_le : ℤ → ℕ → Bool
int_le (pos a) n = leb a n
int_le (negsuc _) n = true

abbrev pub int_gt : ℤ → ℕ → Bool
int_gt (pos a) n = ltb n a
int_gt (negsuc _) n = false
