-- ===== src/WebDav/Sample.antt =====
-- A client of the digest, at concrete bytes.
use safe_disk.Base.{ℕ, some, ◌∷◌, ◌++◌, replicate}
use safe_disk.Base.Strings.{Str, codes, same}
use safe_disk.WebDav.{Library}
use safe_disk.WebDav.Fields.{quote, equals, comma}
use safe_disk.WebDav.Quoted.{escape}

abbrev pub sample_library : Library
sample_library = record {
  trim_space = λ s. s;
  equal_fold = same;
  digest_hash = λ s. replicate 64 48;
  hmac = λ key message. replicate 32 7;
  encode_url = λ b. b;
  decode_url = some;
  decode = some;
}

abbrev pub random_bytes : Str
random_bytes = replicate 16 5

abbrev pub sample_nonce : Str
sample_nonce = 0 ∷ 0 ∷ 0 ∷ 0 ∷ 0 ∷ 0 ∷ 3 ∷ 232 ∷ (random_bytes ++ replicate 32 7)

-- Issued at 1000 seconds, looked at 10 seconds later.
abbrev pub sample_now : ℕ
sample_now = 1010000000000

abbrev pub pair_text : Str → Str → Str → Str
pair_text name value rest = name ++ (equals ∷ quote ∷ escape value rest)

-- A header of a user and a realm.
abbrev pub sample_header : Str → Str → Str
sample_header user realm =
    codes "Digest "
    ++ pair_text (codes "username") user (
        comma
        ∷ pair_text (codes "realm") realm (
            comma
            ∷ pair_text (codes "uri") (codes "/f") (
                comma
                ∷ pair_text (codes "nonce") sample_nonce (
                    comma
                    ∷ pair_text (codes "cnonce") (codes "c") (
                        comma
                        ∷ pair_text (codes "response") (replicate 64 48)
                            (comma ∷ codes "algorithm=SHA-256,qop=auth,nc=0000000a"))))))
