-- ===== src/Server/Auth/Hex.antt =====
-- `hex.EncodeToString` and `hex.DecodeString` of encoding/hex.
use safe_disk.Base.{
  ℕ, ◌+◌, ◌*◌, ◌/◌, ◌%◌, ◌<◌, Bool, true, ltb, ltb→lt, ◌≡◌, refl, ap, ◌∙◌, Option, none, some, [],
  ◌∷◌, if◌then◌else◌, arith,
}
use safe_disk.Base.Strings.{Str, all_chars, and_true}
use safe_disk.WebDav.Digest.{hex_digit}

abbrev pub hex_char : ℕ → ℕ
hex_char n = if ltb n 10 then 48 + n else 87 + n

abbrev pub encode_hex : Str → Str
encode_hex [] = []
encode_hex (b ∷ bs) = hex_char (b / 16) ∷ hex_char (b % 16) ∷ encode_hex bs

abbrev pub push_byte : Option ℕ → Option Str → Option Str
push_byte none rest = none
push_byte (some b) none = none
push_byte (some b) (some bs) = some (b ∷ bs)

abbrev pub add_pair : Option ℕ → Option ℕ → Option ℕ
add_pair none d = none
add_pair (some h) none = none
add_pair (some h) (some l) = some (h * 16 + l)

abbrev pub decode_hex : Str → Option Str
decode_hex [] = some []
decode_hex (c ∷ []) = none
decode_hex (c ∷ d ∷ cs) = push_byte (add_pair (hex_digit c) (hex_digit d)) (decode_hex cs)

abbrev pub is_byte : ℕ → Bool
is_byte b = ltb b 256

hex_digit-hex_char : (n : ℕ) → n < 16 → hex_digit (hex_char n) ≡ some n
hex_digit-hex_char n h = ground arith

-- The text of bytes is read back as the bytes.
pub decode_hex-encode : (s : Str) → all_chars is_byte s ≡ true → decode_hex (encode_hex s) ≡ some s
decode_hex-encode [] h = refl
decode_hex-encode (b ∷ bs) h =
    let (small, rest) = and_true (is_byte b) (all_chars is_byte bs) h in
    let byte = ltb→lt b 256 small in
    let sum : b / 16 * 16 + b % 16 ≡ b = omega arith in
    rw (hex_digit-hex_char (b / 16) (omega arith), hex_digit-hex_char (b % 16) (omega arith))
      (ap (push_byte (some (b / 16 * 16 + b % 16))) (decode_hex-encode bs rest)
        ∙ ap (λ x. some (x ∷ bs)) sum)
