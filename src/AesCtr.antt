-- ===== src/AesCtr.antt =====
-- The keystream of crypto_data/algorithm_impl/aes_ctr/context.go. The 16 bytes of the counter block
-- are the number that they spell, most significant byte first: its high half is the nonce and its
-- low half the block number. AES and `cipher.NewCTR` are parameters; a call of `XORKeyStream` on a
-- new stream is the exclusive or with that stream's bytes from its start.
pub mod Laws
pub mod Methods
use safe_disk.Base.{
  ℕ, zero, suc, true, false, ◌+◌, ◌-◌, ◌*◌, ◌/◌, ◌%◌, ◌<◌, ◌≡◌, List, [], ◌∷◌, ◌++◌, Option, none,
  some, length, take, drop, get_or, min, bit_xor, ltb, ◌==◌, if◌then◌else◌,
}
use safe_disk.Base.Int.{two_64}
use safe_disk.Storage.Types.{IoError, unexpected_eof}
use safe_disk.Cipher.{Cipher}
use safe_disk.Cipher.Keystream.{xor_at, xor_bytes}

-- `block.Encrypt` under the key, and the bytes of `cipher.NewCTR(block, iv)`.
pub record BlockCipher : Type 0 where
  pub encrypt : ℕ → List ℕ
  pub ctr_stream : ℕ → ℕ → ℕ

-- `Encrypt` gives a block, and counter mode encrypts iv, iv + 1, …, all of 128 bits.
pub record BlockLaws (B : BlockCipher) : Type 0 where
  pub block : (n : ℕ) → length (B.encrypt n) ≡ 16
  pub counter_mode :
      (iv i : ℕ)
      → B.ctr_stream iv i ≡ get_or (B.encrypt ((iv + i / 16) % (two_64 * two_64))) (i % 16) 0

-- The scratch buffers of the context.
pub record Buffers : Type 0 where
  pub counter : ℕ
  pub stream : List ℕ

-- `binary.BigEndian.PutUint64` into the low half of a block.
abbrev pub put_low : ℕ → ℕ → ℕ
put_low block n = block / two_64 * two_64 + n % two_64

module _ (B : BlockCipher) where
  -- The loop of `xorKeystreamQuick`: each round takes what is left of one block.
  pub xor_keystream_loop : ℕ → List ℕ → ℕ → Buffers → List ℕ × Buffers
  xor_keystream_loop zero rest pos b = (rest, b)
  xor_keystream_loop (suc fuel) rest pos b = elim (length rest == 0) [
    | true ↦ ([], b)
    | false ↦
        let block_num = pos / 16 in
        let block_offset = pos % 16 in
        let counter = put_low b.counter block_num in
        let stream = B.encrypt counter in
        let to_process = min (16 - block_offset) (length rest) in
        let out = xor_bytes (take to_process rest) (take to_process (drop block_offset stream)) in
        let r =
          xor_keystream_loop fuel (drop to_process rest) (pos + to_process)
            (record { counter = counter; stream = stream }) in
        (out ++ r.0, r.1)
  ]

  pub xor_keystream_quick : List ℕ → ℕ → Buffers → List ℕ × Buffers
  unfolding xor_keystream_loop
  xor_keystream_quick p pos b = xor_keystream_loop (length p) p pos b

  -- A short run goes block by block, a long one through `cipher.NewCTR`, whose first
  -- `pos % 16` bytes are thrown away.
  pub xor_keystream : List ℕ → ℕ → Buffers → List ℕ × Buffers
  unfolding xor_keystream_quick
  xor_keystream p pos b =
      if ltb (length p) 1024
      then xor_keystream_quick p pos b
      else (let iv = put_low (b.counter / two_64 * two_64) (pos / 16) in
          (xor_at (B.ctr_stream iv) (pos % 16) p, b))

  pub cipher : Cipher
  unfolding xor_keystream
  cipher = record { State = Buffers; encrypt = xor_keystream; decrypt = xor_keystream }

-- The check of the key in `NewContext`: AES-256 takes the first 32 bytes.
pub check_key : List ℕ → Option IoError
check_key key = if ltb (length key) 32 then some unexpected_eof else none

abbrev pub fresh : Buffers
fresh = record { counter = 0; stream = [] }
