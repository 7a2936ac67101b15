-- ===== src/AesXts/Laws.antt =====
-- The blocks of aes_xts/context.go are a keystream, the same in both directions.
use safe_disk.Base.{
  ℕ, zero, suc, ◌+◌, ◌-◌, ◌/◌, ◌%◌, ◌≤◌, ◌<◌, ◌≡◌, refl, ap, ◌∙◌, false, List, [], ◌∷◌, ◌++◌, none,
  length, take, drop, get_or, replicate, min, arith, length-take, length-drop, length-append,
  get_or-take, get_or-drop, ◌==◌,
}
use safe_disk.Base.Int.{two_63, two_64}
use safe_disk.Storage.{StorageLaws}
use safe_disk.Storage.Types.{Storage}
use safe_disk.Cipher.{CipherLaws}
use safe_disk.Cipher.Keystream.{xor_at, xor_at-take-drop, xor_bytes, xor_bytes-xor_at}
use safe_disk.Context.{Context}
use safe_disk.Context.View.{IsValid, view, view_kept}
use safe_disk.Context.Read.{read-Fetched}
use safe_disk.AesXts.{
  Blocks, BlocksLaws, le_bytes, generate_tweak, keystream_block, encrypt_block, decrypt_block,
  xor_blocks_loop, cipher, read,
}

length-le_bytes : (k n : ℕ) → length (le_bytes k n) ≡ k
unfolding le_bytes
length-le_bytes zero n = refl
length-le_bytes (suc k) n = ap suc (length-le_bytes k (n / 256))

length-xor_bytes : (xs ys : List ℕ) → length (xor_bytes xs ys) ≡ min (length xs) (length ys)
unfolding xor_bytes
length-xor_bytes [] ys = omega arith
length-xor_bytes (x ∷ xs) [] = omega arith
length-xor_bytes (x ∷ xs) (y ∷ ys) = omega (arith, length-xor_bytes xs ys)

module _ (B : Blocks) (laws : BlocksLaws B) where
  length-generate_tweak : (n : ℕ) → length (generate_tweak B n) ≡ 16
  unfolding generate_tweak
  length-generate_tweak n = laws.block2 _ (
      omega (
        arith,
        length-append (le_bytes 8 (n % two_64)) (replicate 8 0),
        length-le_bytes 8 (n % two_64),
      ))

  length-keystream_block :
      (tweak : List ℕ) → length tweak ≡ 16 → length (keystream_block B tweak) ≡ 16
  unfolding keystream_block
  length-keystream_block tweak h = omega (
    arith,
    length-xor_bytes (B.cipher1 (xor_bytes (replicate 16 0) tweak)) tweak,
    laws.block1 (xor_bytes (replicate 16 0) tweak)
        (omega (arith, length-xor_bytes (replicate 16 0) tweak)),
  )

  -- The keystream byte of a position.
  abbrev pub keystream : ℕ → ℕ
  keystream pos = get_or (keystream_block B (generate_tweak B (pos / 16))) (pos % 16) 0

  encrypt_block-xor_at :
      (p : List ℕ) (pos : ℕ)
      → pos % 16 + length p ≤ 16
      → encrypt_block B p (generate_tweak B (pos / 16)) (pos % 16) ≡ xor_at keystream pos p
  unfolding encrypt_block
  encrypt_block-xor_at p pos h =
      let block = keystream_block B (generate_tweak B (pos / 16)) in
      let size = length-keystream_block _ (length-generate_tweak (pos / 16)) in
      let ys = drop (pos % 16) block in
      xor_bytes-xor_at keystream pos p (take (length p) ys)
        (omega (arith, length-take (length p) ys, length-drop (pos % 16) block, size))
        (λ i l.
          let q : pos / 16 ≡ (pos + i) / 16 = omega arith in
          let o : pos % 16 + i ≡ (pos + i) % 16 = omega arith in
          get_or-take (length p) ys i 0 l
          ∙ get_or-drop (pos % 16) block i 0
          ∙ ap (λ m. get_or (keystream_block B (generate_tweak B m)) (pos % 16 + i) 0) q
          ∙ ap (λ m. get_or (keystream_block B (generate_tweak B ((pos + i) / 16))) m 0) o)

  decrypt_block-encrypt_block :
      (p tweak : List ℕ) (offset : ℕ)
      → decrypt_block B p tweak offset ≡ encrypt_block B p tweak offset
  unfolding encrypt_block decrypt_block
  decrypt_block-encrypt_block p tweak offset = refl

  loop-xor_at :
      (one : List ℕ → List ℕ → ℕ → List ℕ)
      → ((p tweak : List ℕ) (offset : ℕ) → one p tweak offset ≡ encrypt_block B p tweak offset)
      → (fuel : ℕ) (rest : List ℕ) (pos : ℕ) → length rest ≤ fuel
      → xor_blocks_loop B one fuel rest pos ≡ xor_at keystream pos rest
  unfolding xor_blocks_loop
  loop-xor_at one same zero [] pos h = unfold xor_at in refl
  loop-xor_at one same zero (x ∷ xs) pos h = absurd (omega arith)
  loop-xor_at one same (suc fuel) [] pos h = unfold xor_at in refl
  loop-xor_at one same (suc fuel) (x ∷ xs) pos h =
      let rest = x ∷ xs in
      let more : (length rest == 0) ≡ false = ground arith in
      let n = min (16 - pos % 16) (length rest) in
      rw (more, xor_blocks_loop)
        (ap (λ t. t ++ xor_blocks_loop B one fuel (drop n rest) (pos + n))
            (same (take n rest) (generate_tweak B (pos / 16)) (pos % 16)
              ∙ encrypt_block-xor_at (take n rest) pos (omega (arith, length-take n rest)))
          ∙ ap (λ t. xor_at keystream pos (take n rest) ++ t)
              (loop-xor_at one same fuel (drop n rest) (pos + n)
                (omega (arith, length-drop n rest)))
          ∙ xor_at-take-drop keystream pos n rest (omega arith))

  pub cipher_laws : CipherLaws (cipher B)
  unfolding cipher
  cipher_laws = record {
    stream = keystream;
    limit = two_63;
    IsReady = λ s. Unit;
    encrypt_out =
        λ p pos s r h. loop-xor_at (encrypt_block B) (λ q t o. refl) (length p) p pos (omega arith);
    encrypt_ready = λ p pos s r. r;
    decrypt_out = λ p pos s r h.
        loop-xor_at (decrypt_block B) decrypt_block-encrypt_block (length p) p pos (omega arith);
    decrypt_ready = λ p pos s r. r;
  }

  -- The context that is called AES-XTS has one direction only: what `xorBlocks` makes of bytes
  -- to encrypt them is what it makes of them to decrypt them, and it is the exclusive or with a
  -- keystream of the position.
  pub encrypt-decrypt :
      (p : List ℕ) (pos : ℕ)
      → (xor_blocks_loop B (encrypt_block B) (length p) p pos ≡ xor_at keystream pos p)
        × (xor_blocks_loop B (decrypt_block B) (length p) p pos ≡ xor_at keystream pos p)
  encrypt-decrypt p pos = (
    loop-xor_at (encrypt_block B) (λ q t o. refl) (length p) p pos (omega arith),
    loop-xor_at (decrypt_block B) decrypt_block-encrypt_block (length p) p pos (omega arith),
  )

module _ (S : Storage) (laws : StorageLaws S) (B : Blocks) (blocks : BlocksLaws B) where
  -- The cipher keeps no state, so a context is valid when its bytes are there.
  pub backed-IsValid :
      (c : Context S (cipher B))
      → c.size ≤ S.size c.file
      → IsValid S (cipher B) (cipher_laws B blocks) c
  unfolding cipher_laws
  backed-IsValid c h = record { backed = h; ready = tt }

  -- On a valid context whose file is below 2^63, `Read` of the AES-XTS context gives the plain
  -- bytes from the position on, as many as the file gives behind the seek, and moves the
  -- position behind them, wherever the cursor of the file stands, if the seek before the read
  -- succeeds.
  pub read_seeks-Fetched :
      (room : ℕ) (c : Context S (cipher B))
      → IsValid S (cipher B) (cipher_laws B blocks) c
      → S.size c.file ≤ two_63
      → (S.seek_start c.pos c.file).0 ≡ none
      → let r = read B S room c in
        ((i : ℕ)
          → i < length r.0.0
          → get_or r.0.0 i 0 ≡ view S (cipher B) (cipher_laws B blocks) c (c.pos + i))
        × (r.1.pos ≡ c.pos + length r.0.0)
        × (S.cursor r.1.file ≡ r.1.pos)
        × (length r.0.0 ≡ length (S.read room (S.seek_start c.pos c.file).1).0.0)
  unfolding read cipher_laws
  read_seeks-Fetched room c v lim ok =
      let k = S.seek_start c.pos c.file in
      let same = laws.seek_same c.pos c.file in
      let d : Context S (cipher B) = record c { file = k.1 } in
      let x =
        read-Fetched S laws (cipher B) (cipher_laws B blocks) room d
          (record { backed = omega (arith, same.size_eq, v.backed); ready = v.ready })
          (omega (arith, same.size_eq)) (laws.seek_cursor c.pos c.file ok) in
      (
        λ i l.
            x.0.plain i l
            ∙ view_kept S (cipher B) (cipher_laws B blocks) c.file k.1 (c.pos + i)
                (same.bytes (c.pos + i)),
        x.1,
        x.2,
        x.3,
      )
