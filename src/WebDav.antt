-- ===== src/WebDav.antt =====
-- The authentication of native/sec_fs/sec_webdav/auth.go: Bearer and Basic credentials, and Digest with
-- the header that a client sends, the nonces that the server makes, and the counters of requests. Strings
-- are lists of bytes; a call holds the manager's lock.
pub mod Fields
pub mod Quoted
pub mod Total
pub mod Bytes
pub mod Nonce
pub mod Digest
pub mod Replay
pub mod Credentials
pub mod Options
pub mod Sample
mod Tests
use safe_disk.Base.{ℕ, Bool, Option, List}
use safe_disk.Base.Strings.{Str}

-- What the code calls: `strings.TrimSpace`, `strings.EqualFold`, SHA-256 in hexadecimal, HMAC-SHA256 of
-- a key and a message, and `base64.RawURLEncoding`, with the decoder of `base64.StdEncoding`.
pub record Library : Type 0 where
  pub trim_space : Str → Str
  pub equal_fold : Str → Str → Bool
  pub digest_hash : Str → Str
  pub hmac : Str → Str → Str
  pub encode_url : Str → Str
  pub decode_url : Str → Option Str
  pub decode : Str → Option Str
