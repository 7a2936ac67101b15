-- ===== src/ChaCha20.antt =====
-- The keystream of crypto_data/algorithm_impl/chacha20/context.go. The cipher of
-- golang.org/x/crypto/chacha20 under the context's key and zero nonce is a parameter: whether
-- `NewUnauthenticatedCipher` accepts them, and the bytes that follow `SetCounter`.
pub mod Laws
pub mod Methods
use safe_disk.Base.{
  ℕ, zero, suc, ◌+◌, ◌*◌, ◌/◌, ◌%◌, ◌<◌, ◌≡◌, Bool, true, List, [], length, get_or, if◌then◌else◌,
  ltb, Option, none, some,
}
use safe_disk.Storage.Types.{IoError, unexpected_eof}
use safe_disk.Cipher.{Cipher}
use safe_disk.Cipher.Keystream.{xor_at}

abbrev pub two_32 : ℕ
two_32 = 4294967296

pub record ChaCha : Type 0 where
  pub accepts : Bool
  pub stream_from : ℕ → ℕ → ℕ

-- ChaCha20 has blocks of 64 bytes, numbered by the 32-bit counter, which must not run over.
pub record ChaChaLaws (C : ChaCha) : Type 0 where
  pub accepted : C.accepts ≡ true
  pub block : ℕ → List ℕ
  pub block_stream :
      (counter i : ℕ)
      → counter + i / 64 < two_32
      → C.stream_from counter i ≡ get_or (block (counter + i / 64)) (i % 64) 0

module _ (C : ChaCha) where
  -- The first `pos % 64` bytes are thrown away. A cipher that cannot be made leaves the bytes plain.
  pub xor_keystream : List ℕ → ℕ → List ℕ
  xor_keystream p pos =
      let block_num = pos / 64 in
      let block_offset = pos % 64 in
      if C.accepts then xor_at (C.stream_from (block_num % two_32)) block_offset p else p

  pub cipher : Cipher
  unfolding xor_keystream
  cipher = record {
    State = Unit {0};
    encrypt = λ p pos s. (xor_keystream p pos, s);
    decrypt = λ p pos s. (xor_keystream p pos, s);
  }

-- The check of the key in `NewContext`.
pub check_key : List ℕ → Option IoError
check_key key = if ltb (length key) 32 then some unexpected_eof else none
