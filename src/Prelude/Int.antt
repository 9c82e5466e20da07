-- ===== src/Prelude/Int.antt =====
-- Go's signed `int`, as far as the program subtracts: integers over the native numbers.
use Prim.Native.Nat.{ℕ, suc, zero, ◌+◌}

pub data ℤ : Type 0 where
  pos : ℕ → ℤ
  negsuc : ℕ → ℤ

-- The difference of two natural numbers.
unfoldable pub diff : ℕ → ℕ → ℤ
diff n zero = pos n
diff zero (suc m) = negsuc m
diff (suc n) (suc m) = diff n m

infixl 65 ◌+ℤ◌
unfoldable pub ◌+ℤ◌ : ℤ → ℤ → ℤ
unfolding diff
pos n +ℤ pos m = pos (n + m)
pos n +ℤ negsuc m = diff n (suc m)
negsuc n +ℤ pos m = diff m (suc n)
negsuc n +ℤ negsuc m = negsuc (suc (n + m))
