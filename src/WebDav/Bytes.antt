-- ===== src/WebDav/Bytes.antt =====
-- Numbers as bytes, the highest first: `binary.BigEndian` of a uint64.
use safe_disk.Base.{
  ℕ, zero, suc, ◌+◌, ◌*◌, ◌/◌, ◌%◌, ◌<◌, ◌≡◌, refl, ap, ◌∙◌, [], ◌∷◌, ◌++◌, length, take, drop,
  append-nil, arith,
}
use safe_disk.Base.Strings.{Str}

-- The lowest byte first.
abbrev low_bytes : ℕ → ℕ → Str
low_bytes zero n = []
low_bytes (suc k) n = (n % 256) ∷ low_bytes k (n / 256)

abbrev low_value : Str → ℕ
low_value [] = 0
low_value (b ∷ bs) = b + 256 * low_value bs

abbrev onto : Str → Str → Str
onto [] acc = acc
onto (b ∷ bs) acc = onto bs (b ∷ acc)

-- `PutUint64` and `Uint64`, for any number of bytes.
abbrev pub put_bytes : ℕ → ℕ → Str
put_bytes k n = onto (low_bytes k n) []

abbrev pub value_of : Str → ℕ
value_of b = low_value (onto b [])

-- How many numbers the bytes can hold.
abbrev pub bytes_limit : ℕ → ℕ
bytes_limit zero = 1
bytes_limit (suc k) = 256 * bytes_limit k

low_value-low_bytes : (k n : ℕ) → n < bytes_limit k → low_value (low_bytes k n) ≡ n
low_value-low_bytes zero n h = omega arith
low_value-low_bytes (suc k) n h =
    let ih = low_value-low_bytes k (n / 256) (omega arith) in omega (arith, ih)

onto_twice : (a b c : Str) → onto (onto a b) c ≡ onto b (a ++ c)
onto_twice [] b c = refl
onto_twice (x ∷ a) b c = onto_twice a (x ∷ b) c

length-onto : (a b : Str) → length (onto a b) ≡ length a + length b
length-onto [] b = omega arith
length-onto (x ∷ a) b = omega (arith, length-onto a (x ∷ b))

length-low_bytes : (k n : ℕ) → length (low_bytes k n) ≡ k
length-low_bytes zero n = refl
length-low_bytes (suc k) n = ap suc (length-low_bytes k (n / 256))

pub length-put_bytes : (k n : ℕ) → length (put_bytes k n) ≡ k
length-put_bytes k n = omega (arith, length-onto (low_bytes k n) [], length-low_bytes k n)

pub value_of-put_bytes : (k n : ℕ) → n < bytes_limit k → value_of (put_bytes k n) ≡ n
value_of-put_bytes k n h =
    ap low_value (onto_twice (low_bytes k n) [] [] ∙ append-nil (low_bytes k n))
    ∙ low_value-low_bytes k n h

-- A text in front of another is found by its length.
pub take_front : (a b : Str) → take (length a) (a ++ b) ≡ a
take_front [] b = refl
take_front (x ∷ a) b = ap (λ t. x ∷ t) (take_front a b)

pub drop_front : (a b : Str) → drop (length a) (a ++ b) ≡ b
drop_front [] b = refl
drop_front (x ∷ a) b = drop_front a b
