-- ===== src/ChaCha20/Laws.antt =====
-- What chacha20/context.go does to the bytes of a file below 256 GiB.
use safe_disk.Base.{ℕ, ◌+◌, ◌/◌, ◌%◌, ◌≤◌, ◌≡◌, ap, ◌∙◌, List, length, get_or, arith}
use safe_disk.Cipher.{CipherLaws}
use safe_disk.Cipher.Keystream.{xor_at, xor_at_same}
use safe_disk.ChaCha20.{ChaCha, ChaChaLaws, two_32, xor_keystream, cipher}

-- 2^32 blocks of 64 bytes
abbrev pub max_size : ℕ
max_size = 274877906944

module _ (C : ChaCha) (laws : ChaChaLaws C) where
  abbrev pub keystream : ℕ → ℕ
  keystream pos = get_or (laws.block (pos / 64)) (pos % 64) 0

  -- Below 2^38 `xorKeystream` combines every byte with the keystream of its position.
  pub xor_keystream_below :
      (p : List ℕ) (pos : ℕ)
      → pos + length p ≤ max_size
      → xor_keystream C p pos ≡ xor_at keystream pos p
  unfolding xor_keystream
  xor_keystream_below p pos h = simp laws.accepted (
      xor_at_same (C.stream_from (pos / 64 % two_32)) keystream (pos % 64) pos p (λ i l.
        let block : pos / 64 % two_32 + (pos % 64 + i) / 64 ≡ (pos + i) / 64 = omega arith in
        let byte : (pos % 64 + i) % 64 ≡ (pos + i) % 64 = omega arith in
        laws.block_stream (pos / 64 % two_32) (pos % 64 + i) (omega arith)
        ∙ ap (λ m. get_or (laws.block m) ((pos % 64 + i) % 64) 0) block
        ∙ ap (λ m. get_or (laws.block ((pos + i) / 64)) m 0) byte))

  pub cipher_laws : CipherLaws (cipher C)
  unfolding cipher
  cipher_laws = record {
    stream = keystream;
    limit = max_size;
    IsReady = λ s. Unit;
    encrypt_out = λ p pos s r h. xor_keystream_below p pos h;
    encrypt_ready = λ p pos s r. r;
    decrypt_out = λ p pos s r h. xor_keystream_below p pos h;
    decrypt_ready = λ p pos s r. r;
  }

module _ (C : ChaCha) where
  -- At 2^38 the 32-bit counter of `xorKeystream` is back at zero: the bytes there are combined
  -- with the keystream of the start of the file.
  pub xor_keystream_wrap :
      (p : List ℕ) (pos : ℕ) → xor_keystream C p (max_size + pos) ≡ xor_keystream C p pos
  unfolding xor_keystream
  xor_keystream_wrap p pos =
      let block : (max_size + pos) / 64 % two_32 ≡ pos / 64 % two_32 = omega arith in
      let byte : (max_size + pos) % 64 ≡ pos % 64 = omega arith in rw (block, byte)
