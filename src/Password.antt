-- ===== src/Password.antt =====
-- What a password opens: the verifier of password_verifier.go, the envelope of the content key and the
-- change of the password of password_changeable.go, and the hint of password_hint.go, all of
-- native/sec_fs, over any configuration store. Keys, nonces and texts are lists of bytes.
--
-- HMAC-SHA256, base64, AES-GCM and the key derivers are parameters; the bytes that crypto/rand gives
-- are arguments, none if it fails.
pub mod Result
pub mod Writer
pub mod Verifier
pub mod Envelope
pub mod Sealed
pub mod Agree
pub mod Open
pub mod Same
pub mod Pbkdf2
pub mod Change
pub mod Hint
pub mod Sample
mod Tests
use safe_disk.Base.{ℕ, ◌<◌, ◌≡◌, ◌≢◌, Option, none, some, List, [], length}
use safe_disk.Base.Strings.{Str}

pub record Primitives : Type 0 where
  -- `hmac.New(sha256.New, key)` of a message.
  pub hmac : Str → Str → Str
  -- `base64.StdEncoding`
  pub encode : Str → Str
  pub decode : Str → Option Str
  -- `base64.RawStdEncoding`
  pub encode_raw : Str → Str
  pub decode_raw : Str → Option Str
  -- AES-GCM: the size of a nonce, and `Seal` and `Open` of a key, a nonce, a text and its domain.
  pub nonce_size : ℕ
  pub seal : Str → Str → Str → Str → Str
  pub unseal : Str → Str → Str → Str → Option Str

pub record PrimitiveLaws (P : Primitives) : Type 0 where
  pub hmac_size : (key message : Str) → length (P.hmac key message) ≡ 32
  pub decode-encode : (b : Str) → P.decode (P.encode b) ≡ some b
  pub decode_raw-encode_raw : (b : Str) → P.decode_raw (P.encode_raw b) ≡ some b
  pub nonce_pos : 0 < P.nonce_size
  pub unseal-seal :
      (key nonce text domain : Str)
      → P.unseal key nonce (P.seal key nonce text domain) domain ≡ some text
  pub seal_long : (key nonce text domain : Str) → P.seal key nonce text domain ≢ []
