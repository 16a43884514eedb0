-- ===== src/Base/Integer.antt =====
-- Python's `int` and the signed columns of the database.
use Prim.Native.Nat.{ℕ, zero, suc}
use mathlib.Core.Path.{◌≡◌, refl}
use mathlib.Core.Bool.{Bool, true, false}
use native.Mathlib.Omega.{arith}
use package.lite_mcp.Base.Tests
use package.lite_mcp.Base.Tests.{eqb}

-- `negsuc n` is `-(n + 1)`.
pub data ℤ : Type 0 where
  pos : ℕ → ℤ
  negsuc : ℕ → ℤ

abbrev pub leb : ℤ → ℤ → Bool
leb (pos a) (pos b) = Tests.leb a b
leb (pos a) (negsuc b) = false
leb (negsuc a) (pos b) = true
leb (negsuc a) (negsuc b) = Tests.leb b a

unfoldable pub equals : ℤ → ℤ → Bool
equals (pos a) (pos b) = eqb a b
equals (negsuc a) (negsuc b) = eqb a b
equals _ _ = false

-- `n + 1`
unfoldable pub increment : ℤ → ℤ
increment (pos n) = pos (suc n)
increment (negsuc zero) = pos zero
increment (negsuc (suc n)) = negsuc n

pub equals_refl : (n : ℤ) → equals n n ≡ true
unfolding equals
equals_refl (pos n) = ground arith
equals_refl (negsuc n) = ground arith

-- A number is not its successor.
pub equals-increment : (n m : ℤ) → equals n m ≡ true → equals (increment n) m ≡ false
unfolding equals increment
equals-increment (pos n) (pos m) h = ground arith
equals-increment (pos n) (negsuc m) h = cc
equals-increment (negsuc n) (pos m) h = cc
equals-increment (negsuc zero) (negsuc m) h = refl
equals-increment (negsuc (suc n)) (negsuc m) h = ground arith
