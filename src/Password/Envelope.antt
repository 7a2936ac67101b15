-- ===== src/Password/Envelope.antt =====
-- The envelope of a root's content key: sealed under the key of the password, with a version that is
-- written last.
use safe_disk.Base.{
  ℕ, ◌≤◌, Bool, false, not, ltb, ◌==◌, ==_iff, ◌≡◌, ◌≢◌, refl, Option, none, some, [], ◌∷◌, length,
  take, arith,
}
use safe_disk.Base.Int.{ℤ, pos}
use safe_disk.Base.Strings.{Str, codes, same-apart, is_empty}
use safe_disk.Config.{SharedConfig}
use safe_disk.Password.{Primitives, PrimitiveLaws}
use safe_disk.Password.Result.{
  no_random, incomplete, malformed, wrapping_key_too_short, content_key_required,
  content_key_too_short, bad_nonce, envelope_refused, version_kind, Result, ok, err, ◌>>=◌, ◌>>◌,
  check, need,
}
use safe_disk.Password.Writer.{Writer, ◌>>-◌, resume, store_str, store_int}

abbrev pub envelope_version_key : Str
envelope_version_key = codes "sec_key_envelope_version"

abbrev pub nonce_key : Str
nonce_key = codes "sec_key_envelope_nonce"

abbrev pub ciphertext_key : Str
ciphertext_key = codes "sec_key_envelope_ciphertext"

abbrev pub format_version : ℤ
format_version = pos 1

abbrev pub envelope_domain : Str
envelope_domain = codes "safe-disk/root-key-envelope/v1"

abbrev pub wrapping_key_length : ℕ
wrapping_key_length = 32

-- `newRootKeyEnvelopeCipher`: the key of the AES-GCM, whose length `aes.NewCipher` accepts.
abbrev pub envelope_cipher : Str → Result Str
envelope_cipher key = do
  check (not (ltb (length key) wrapping_key_length)) wrapping_key_too_short
  ok (take wrapping_key_length key)

-- `rootKeyEnvelopeVersion`, by what the three getters find: none is a root without an envelope.
abbrev pub version_of : Option ℤ → Option Str → Option Bool → Result (Option ℤ)
version_of (some v) text flag = ok (some v)
version_of none (some v) flag = err version_kind
version_of none none (some v) = err version_kind
version_of none none none = ok none

module _ (C : SharedConfig) (P : Primitives) where
  abbrev pub store_ciphertext : Str → Writer C.State (Unit {0})
  store_ciphertext sealed = store_str C ciphertext_key (P.encode_raw sealed) >>- λ _.
      store_int C envelope_version_key format_version

  -- The sets of `writeRootKeyEnvelope`, in their order.
  abbrev pub store_envelope : Str → Str → Writer C.State (Unit {0})
  store_envelope nonce sealed =
      store_str C nonce_key (P.encode_raw nonce) >>- λ _. store_ciphertext sealed

  -- The bytes that they store.
  abbrev pub seal_content : Option Str → Str → Str → Result (Str × Str)
  seal_content random wrapping content = do
    check (not (is_empty content)) content_key_required
    gcm ← envelope_cipher wrapping
    nonce ← need random no_random
    ok (nonce, P.seal gcm nonce content envelope_domain)

  -- `writeRootKeyEnvelope`, with what `rand.Reader` gives for the nonce.
  abbrev pub write_root_key_envelope : Option Str → Str → Str → Writer C.State (Unit {0})
  write_root_key_envelope random wrapping content s =
      resume (seal_content random wrapping content) s λ p. store_envelope p.0 p.1

  -- `readRootKeyEnvelopeValue`
  abbrev pub read_envelope_value : Str → C.State → Result Str
  read_envelope_value key s = do
    encoded ← need (C.get_str key s) (incomplete key)
    value ← need (P.decode_raw encoded) (malformed key)
    check (not (is_empty value)) (malformed key)
    ok value

  -- `unwrapRootKey`
  abbrev pub unwrap_root_key : Str → C.State → Result Str
  unwrap_root_key wrapping s = do
    gcm ← envelope_cipher wrapping
    nonce ← read_envelope_value nonce_key s
    check (length nonce == P.nonce_size) bad_nonce
    sealed ← read_envelope_value ciphertext_key s
    content ← need (P.unseal gcm nonce sealed envelope_domain) envelope_refused
    check (not (ltb (length content) wrapping_key_length)) content_key_too_short
    ok content

  abbrev pub root_key_envelope_version : C.State → Result (Option ℤ)
  root_key_envelope_version s =
      version_of (C.get_int envelope_version_key s) (C.get_str envelope_version_key s)
        (C.get_bool envelope_version_key s)

pub nonce_apart : nonce_key ≢ ciphertext_key
nonce_apart = same-apart nonce_key ciphertext_key refl

pub version_apart_nonce : envelope_version_key ≢ nonce_key
version_apart_nonce = same-apart envelope_version_key nonce_key refl

pub version_apart_ciphertext : envelope_version_key ≢ ciphertext_key
version_apart_ciphertext = same-apart envelope_version_key ciphertext_key refl

sealed_not_empty : (b : Str) → b ≢ [] → is_empty b ≡ false
sealed_not_empty [] h = absurd (h refl)
sealed_not_empty (c ∷ cs) h = refl

-- What a complete envelope reads as.
module _ (C : SharedConfig) (P : Primitives) (laws : PrimitiveLaws P) where
  read-envelope :
      (key value : Str) (s : C.State)
      → C.get_str key s ≡ some (P.encode_raw value)
      → is_empty value ≡ false
      → read_envelope_value C P key s ≡ ok value
  read-envelope key value s h e =
      rw (h, read_envelope_value) (rw (laws.decode_raw-encode_raw value, e) refl)

  nonce_not_empty : (nonce : Str) → length nonce ≡ P.nonce_size → is_empty nonce ≡ false
  nonce_not_empty [] h = let z = laws.nonce_pos in absurd (omega arith)
  nonce_not_empty (c ∷ cs) h = refl

  pub unwrap-stored :
      (wrapping gcm nonce content : Str) (s : C.State)
      → envelope_cipher wrapping ≡ ok gcm
      → C.get_str nonce_key s ≡ some (P.encode_raw nonce)
      → C.get_str ciphertext_key s ≡ some (P.encode_raw (P.seal gcm nonce content envelope_domain))
      → length nonce ≡ P.nonce_size
      → wrapping_key_length ≤ length content
      → unwrap_root_key C P wrapping s ≡ ok content
  unwrap-stored wrapping gcm nonce content s w n c ln lc =
      let sealed = P.seal gcm nonce content envelope_domain in
      let long : ltb (length content) wrapping_key_length ≡ false = ground arith in
      rw (w, unwrap_root_key)
        (rw (read-envelope nonce_key nonce s n (nonce_not_empty nonce ln)) (
          rw ((==_iff (length nonce) P.nonce_size).1 ln) (
            rw
              (read-envelope ciphertext_key sealed s c
                (sealed_not_empty sealed (laws.seal_long gcm nonce content envelope_domain)))
              (rw (laws.unseal-seal gcm nonce content envelope_domain) (rw long refl)))))
