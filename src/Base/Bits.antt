-- ===== src/Base/Bits.antt =====
-- Exclusive or, Go's `^` on bytes and `subtle.XORBytes`: it undoes itself at every width.
use Prim.Native.Nat.{digits, differ, bit_xor-bitwise}
use Prim.Native.Nat.{ℕ, zero, suc, ◌+◌, ◌*◌, ◌/◌, ◌%◌, ◌≤◌, ◌<◌, bit_xor}
use mathlib.Core.Path.{◌≡◌, refl, ap, ◌∙◌}
use mathlib.Core.Logic.{inl, inr}
use native.Mathlib.Omega.{arith}
use safe_disk.Base.Tests.{leb, leb→le, leb→lt, Bool-cases}

-- The digits of an exclusive or, with fuel.
abbrev xor_digits : ℕ → ℕ → ℕ → ℕ
xor_digits fuel a b = digits (λ y. y) differ fuel a b

no_digits : (n b : ℕ) → xor_digits (suc n) 0 b ≡ xor_digits n 0 b
no_digits zero b = refl
no_digits (suc k) b = refl

spare_fuel : (a b n : ℕ) → a ≤ n → xor_digits (suc n) a b ≡ xor_digits n a b
spare_fuel zero b n h = no_digits n b
spare_fuel (suc a) b zero h = absurd (omega arith)
spare_fuel (suc a) b (suc n) h = rw (spare_fuel (suc a / 2) (b / 2) n (omega arith))

enough_fuel : (m a b : ℕ) → a ≤ m → xor_digits m a b ≡ xor_digits a a b
enough_fuel zero a b h = let e : 0 ≡ a = omega arith in ap (λ t. xor_digits t a b) e
enough_fuel (suc m) a b h = elim (Bool-cases (leb a m)) [
  | inl e ↦ spare_fuel a b m (leb→le a m e) ∙ enough_fuel m a b (leb→le a m e)
  | inr e ↦ let q : suc m ≡ a = omega (arith, leb→lt a m e) in ap (λ t. xor_digits t a b) q
]

-- The law for the lowest binary digit.
pub bit_xor_step : (a b : ℕ) → bit_xor a b ≡ bit_xor (a / 2) (b / 2) * 2 + differ (a % 2) (b % 2)
bit_xor_step zero b = simp bit_xor-bitwise (omega arith)
bit_xor_step (suc a) b =
    simp bit_xor-bitwise (omega (arith, enough_fuel a (suc a / 2) (b / 2) (omega arith)))

differ_bit : (a b : ℕ) → a < 2 → b < 2 → (differ a b < 2) × (differ (differ a b) b ≡ a)
differ_bit zero zero p q = (omega arith, refl)
differ_bit zero (suc zero) p q = (omega arith, refl)
differ_bit (suc zero) zero p q = (omega arith, refl)
differ_bit (suc zero) (suc zero) p q = (omega arith, refl)
differ_bit (suc (suc a)) b p q = absurd (omega arith)
differ_bit zero (suc (suc b)) p q = absurd (omega arith)
differ_bit (suc zero) (suc (suc b)) p q = absurd (omega arith)

differ_pad : (a b k : ℕ) → a < 2 → b < 2 → k < 2 → differ (differ a k) (differ b k) ≡ differ a b
differ_pad zero zero zero p q r = refl
differ_pad zero zero (suc zero) p q r = refl
differ_pad zero (suc zero) zero p q r = refl
differ_pad zero (suc zero) (suc zero) p q r = refl
differ_pad (suc zero) zero zero p q r = refl
differ_pad (suc zero) zero (suc zero) p q r = refl
differ_pad (suc zero) (suc zero) zero p q r = refl
differ_pad (suc zero) (suc zero) (suc zero) p q r = refl
differ_pad (suc (suc a)) b k p q r = absurd (omega arith)
differ_pad zero (suc (suc b)) k p q r = absurd (omega arith)
differ_pad (suc zero) (suc (suc b)) k p q r = absurd (omega arith)
differ_pad zero zero (suc (suc k)) p q r = absurd (omega arith)
differ_pad zero (suc zero) (suc (suc k)) p q r = absurd (omega arith)
differ_pad (suc zero) zero (suc (suc k)) p q r = absurd (omega arith)
differ_pad (suc zero) (suc zero) (suc (suc k)) p q r = absurd (omega arith)

-- The quotient and the remainder by two of an exclusive or.
bit_xor_half :
    (a b : ℕ)
    → (bit_xor a b / 2 ≡ bit_xor (a / 2) (b / 2)) × (bit_xor a b % 2 ≡ differ (a % 2) (b % 2))
bit_xor_half a b =
    let d = differ_bit (a % 2) (b % 2) (omega arith) (omega arith) in
    (omega (arith, bit_xor_step a b, d.0), omega (arith, bit_xor_step a b, d.0))

bit_xor-bit_xor_fuel : (n a k : ℕ) → a ≤ n → k ≤ n → bit_xor (bit_xor a k) k ≡ a
bit_xor-bit_xor_fuel zero zero zero p q = refl
bit_xor-bit_xor_fuel zero (suc a) k p q = absurd (omega arith)
bit_xor-bit_xor_fuel zero zero (suc k) p q = absurd (omega arith)
bit_xor-bit_xor_fuel (suc n) a k p q =
    let h = bit_xor_half a k in
    let d = differ_bit (a % 2) (k % 2) (omega arith) (omega arith) in
    rw (bit_xor_step (bit_xor a k) k) (
      rw (h.0, h.1, d.1)
        (rw (bit_xor-bit_xor_fuel n (a / 2) (k / 2) (omega arith) (omega arith)) (omega arith)))

-- The same key byte, applied twice, gives the byte back.
pub bit_xor-bit_xor : (a k : ℕ) → bit_xor (bit_xor a k) k ≡ a
bit_xor-bit_xor a k = bit_xor-bit_xor_fuel (a + k) a k (omega arith) (omega arith)
