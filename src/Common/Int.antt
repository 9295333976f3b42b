-- ===== src/Common/Int.antt =====
-- The signed integers of the source, where a value can be negative.
use go_mihome.Common.{ℕ, Bool, false, ◌==◌}

-- `negsuc n` is -(n + 1).
pub data ℤ : Type 0 where
  pos : ℕ → ℤ
  negsuc : ℕ → ℤ

-- `==` of a signed value and a number that is not negative.
abbrev pub equals : ℤ → ℕ → Bool
equals (pos n) k = n == k
equals (negsuc n) k = false
