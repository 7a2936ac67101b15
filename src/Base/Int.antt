-- ===== src/Base/Int.antt =====
-- Integers over the native numbers, and Go's int64 with its wrap-around.
use Prim.Native.Nat.{ℕ, suc, ◌+◌, ◌-◌, ◌%◌, ◌≤◌, ◌<◌}
use mathlib.Core.Path.{◌≡◌, ap}
use mathlib.Core.Bool.{Bool, true, false}
use native.Mathlib.Omega.{arith}
use safe_disk.Base.Tests.{ltb, ◌==◌, ==_iff, if◌then◌else◌}

-- `negsuc n` is -(n + 1).
pub data ℤ : Type 0 where
  pos : ℕ → ℤ
  negsuc : ℕ → ℤ

abbrev pub is_neg : ℤ → Bool
is_neg (pos n) = false
is_neg (negsuc n) = true

abbrev pub two_63 : ℕ
two_63 = 9223372036854775808

abbrev pub two_64 : ℕ
two_64 = 18446744073709551616

-- An int64 is its bit pattern, a number below 2 ^ 64.
abbrev pub of_bits : ℕ → ℤ
of_bits w = if ltb w two_63 then pos w else negsuc (two_64 - w - 1)

abbrev pub to_bits : ℤ → ℕ
to_bits (pos n) = n % two_64
to_bits (negsuc n) = two_64 - 1 - n % two_64

-- `a + b` on int64.
unfoldable pub add_i64 : ℤ → ℤ → ℤ
add_i64 a b = of_bits ((to_bits a + to_bits b) % two_64)

pub add_i64-pos : (a b : ℕ) → a + b < two_63 → add_i64 (pos a) (pos b) ≡ pos (a + b)
unfolding add_i64
add_i64-pos a b h = ground arith

pub add_i64_overflow :
    (a b : ℕ) → a < two_63 → b < two_63 → two_63 ≤ a + b → is_neg (add_i64 (pos a) (pos b)) ≡ true
unfolding add_i64
add_i64_overflow a b p q h = ground arith

-- going back by `n + 1` from `a`
pub add_i64-negsuc_within :
    (a n : ℕ) → a < two_63 → n < a → add_i64 (pos a) (negsuc n) ≡ pos (a - suc n)
unfolding add_i64
add_i64-negsuc_within a n p h = ground arith

pub add_i64-negsuc_before :
    (a n : ℕ) → n < two_63 → a ≤ n → is_neg (add_i64 (pos a) (negsuc n)) ≡ true
unfolding add_i64
add_i64-negsuc_before a n p h = ground arith

-- The `==` of two integers.
abbrev pub same_int : ℤ → ℤ → Bool
same_int (pos a) (pos b) = a == b
same_int (pos a) (negsuc b) = false
same_int (negsuc a) (pos b) = false
same_int (negsuc a) (negsuc b) = a == b

pub same_int-eq : (a b : ℤ) → same_int a b ≡ true → a ≡ b
same_int-eq (pos a) (pos b) h = ap pos ((==_iff a b).0 h)
same_int-eq (pos a) (negsuc b) h = cc
same_int-eq (negsuc a) (pos b) h = cc
same_int-eq (negsuc a) (negsuc b) h = ap negsuc ((==_iff a b).0 h)
