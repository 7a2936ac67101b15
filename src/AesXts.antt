-- ===== src/AesXts.antt =====
-- crypto_data/algorithm_impl/aes_xts/context.go. A block is its 16 bytes; AES under the two keys is a
-- parameter. Both directions of `xorBlocks` are the same exclusive or with a keystream block, which
-- `encryptBlock` and `decryptBlock` make alike; `Read` seeks before it reads, the other methods are
-- those of Context.
pub mod Laws
pub mod Methods
use safe_disk.Base.{
  ℕ, zero, suc, ◌+◌, ◌-◌, ◌*◌, ◌/◌, ◌%◌, ◌≡◌, true, false, List, [], ◌∷◌, ◌++◌, Option, none, some,
  length, take, drop, replicate, min, ltb, ◌==◌, if◌then◌else◌,
}
use safe_disk.Base.Int.{two_64}
use safe_disk.Storage.Types.{IoError, unexpected_eof, Storage}
use safe_disk.Cipher.{Cipher}
use safe_disk.Cipher.Keystream.{xor_bytes}
use safe_disk.Context.{Context}
use safe_disk.Context as Shared

-- `cipher1.Encrypt` and `cipher2.Encrypt`
pub record Blocks : Type 0 where
  pub cipher1 : List ℕ → List ℕ
  pub cipher2 : List ℕ → List ℕ

pub record BlocksLaws (B : Blocks) : Type 0 where
  pub block1 : (b : List ℕ) → length b ≡ 16 → length (B.cipher1 b) ≡ 16
  pub block2 : (b : List ℕ) → length b ≡ 16 → length (B.cipher2 b) ≡ 16

-- `binary.LittleEndian.PutUint64`, of `n` below 2^64: the first `k` bytes.
pub le_bytes : ℕ → ℕ → List ℕ
le_bytes zero n = []
le_bytes (suc k) n = n % 256 ∷ le_bytes k (n / 256)

module _ (B : Blocks) where
  -- `generateTweak`
  pub generate_tweak : ℕ → List ℕ
  unfolding le_bytes
  generate_tweak block_num = B.cipher2 (le_bytes 8 (block_num % two_64) ++ replicate 8 0)

  -- The keystream block that `encryptBlock` and `decryptBlock` both make of a tweak.
  unfoldable pub keystream_block : List ℕ → List ℕ
  keystream_block tweak = xor_bytes (B.cipher1 (xor_bytes (replicate 16 0) tweak)) tweak

  unfoldable pub encrypt_block : List ℕ → List ℕ → ℕ → List ℕ
  unfolding keystream_block
  encrypt_block p tweak offset = xor_bytes p (take (length p) (drop offset (keystream_block tweak)))

  unfoldable pub decrypt_block : List ℕ → List ℕ → ℕ → List ℕ
  unfolding keystream_block
  decrypt_block p tweak offset = xor_bytes p (take (length p) (drop offset (keystream_block tweak)))

  -- The loop of `xorBlocks`, with the method for one block that `encrypt` chooses.
  unfoldable pub xor_blocks_loop : (List ℕ → List ℕ → ℕ → List ℕ) → ℕ → List ℕ → ℕ → List ℕ
  xor_blocks_loop one zero rest pos = rest
  xor_blocks_loop one (suc fuel) rest pos = elim (length rest == 0) [
    | true ↦ []
    | false ↦
        let block_num = pos / 16 in
        let block_offset = pos % 16 in
        let tweak = generate_tweak block_num in
        let to_process = min (16 - block_offset) (length rest) in
        one (take to_process rest) tweak block_offset
        ++ xor_blocks_loop one fuel (drop to_process rest) (pos + to_process)
  ]

  unfoldable pub cipher : Cipher
  unfolding xor_blocks_loop encrypt_block decrypt_block
  cipher = record {
    State = Unit {0};
    encrypt = λ p pos s. (xor_blocks_loop encrypt_block (length p) p pos, s);
    decrypt = λ p pos s. (xor_blocks_loop decrypt_block (length p) p pos, s);
  }

  -- `Read`: the error of the seek is dropped.
  pub read : (S : Storage) → ℕ → Context S cipher → (List ℕ × Option IoError) × Context S cipher
  read S room c =
      let k = S.seek_start c.pos c.file in Shared.read S cipher room (record c { file = k.1 })

-- The check of the key in `NewContext`: two keys of 32 bytes.
pub check_key : List ℕ → Option IoError
check_key key = if ltb (length key) 64 then some unexpected_eof else none
