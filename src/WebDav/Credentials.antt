-- ===== src/WebDav/Credentials.antt =====
-- `bearerAuthorized` and `basicAuthorized`, of an Authorization header.
use safe_disk.Base.{
  ℕ, Bool, true, false, ◌&&◌, ◌==◌, ==_iff, ◌≡◌, refl, ap, ◌∙◌, sym, Option, none, some, [], ◌∷◌,
  ◌++◌, Bool-cases, inl, inr,
}
use safe_disk.Base.Strings.{Str, codes, same, is_empty, has_char, starts_with, or_false}
use safe_disk.WebDav.{Library}
use safe_disk.WebDav.Fields.{push, split_first, drop_prefix}

abbrev pub bearer_scheme : Str
bearer_scheme = codes "Bearer "

abbrev pub basic_scheme : Str
basic_scheme = codes "Basic "

abbrev pub colon_byte : ℕ
colon_byte = 58

-- `bearerAuthorized`
abbrev pub bearer_authorized : Str → Str → Bool
bearer_authorized value token = same value (bearer_scheme ++ token)

-- The end of `basicAuthorized`: the parts before and behind the first colon.
abbrev pub matches_parts : Option (Str × Str) → Str → Str → Bool
matches_parts none username password = false
matches_parts (some (user, pass)) username password = same user username && same pass password

module _ (L : Library) where
  abbrev pub decoded_authorized : Option Str → Str → Str → Bool
  decoded_authorized none username password = false
  decoded_authorized (some decoded) username password =
      matches_parts (split_first colon_byte decoded) username password

  abbrev pub encoded_authorized : Str → Str → Str → Bool
  encoded_authorized encoded username password = elim (is_empty encoded) [
    | true ↦ false
    | false ↦ decoded_authorized (L.decode encoded) username password
  ]

  -- `basicAuthorized`
  abbrev pub basic_authorized : Str → Str → Str → Bool
  basic_authorized value username password = elim (starts_with basic_scheme value) [
    | false ↦ false
    | true ↦ encoded_authorized (L.trim_space (drop_prefix basic_scheme value)) username password
  ]

apart : (c x : ℕ) → (c == x) ≡ false → (x == c) ≡ false
apart c x h = elim (Bool-cases (x == c)) [
  | inl e ↦ let p = (==_iff x c).0 e in let z = (==_iff c x).1 (sym p) in cc
  | inr e ↦ e
]

present :
    (L : Library) (encoded username password : Str)
    → is_empty encoded ≡ false
    → encoded_authorized L encoded username password
      ≡ decoded_authorized L (L.decode encoded) username password
present L encoded username password h = rw (h, encoded_authorized) refl

split_first-join :
    (c : ℕ) (a b : Str) → has_char c a ≡ false → split_first c (a ++ c ∷ b) ≡ some (a, b)
split_first-join c [] b h = rw ((==_iff c c).1 refl, split_first) refl
split_first-join c (x ∷ xs) b h =
    let (head, tail) = or_false (c == x) (has_char c xs) h in
    rw (apart c x head, split_first) (ap (push x) (split_first-join c xs b tail))

-- For a header of the scheme Basic whose text is not empty and decodes to a user name without a
-- colon, a colon and a password, `basicAuthorized` lets in exactly the user name and the
-- password of the session.
pub basic_authorized-header :
    (L : Library) (encoded user pass username password : Str)
    → has_char colon_byte user ≡ false
    → is_empty encoded ≡ false
    → L.trim_space encoded ≡ encoded
    → L.decode encoded ≡ some (user ++ colon_byte ∷ pass)
    → basic_authorized L (basic_scheme ++ encoded) username password
      ≡ (same user username && same pass password)
basic_authorized-header L encoded user pass username password plain full trimmed decoded =
    ap (λ t. encoded_authorized L t username password) trimmed
    ∙ present L encoded username password full
    ∙ ap (λ o. decoded_authorized L o username password) decoded
    ∙ ap (λ o. matches_parts o username password) (split_first-join colon_byte user pass plain)
