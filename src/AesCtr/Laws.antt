-- ===== src/AesCtr/Laws.antt =====
-- The two ways of aes_ctr/context.go to combine bytes with the keystream are one.
use safe_disk.Base.{
  ℕ, zero, suc, ◌+◌, ◌-◌, ◌*◌, ◌/◌, ◌%◌, ◌≤◌, ◌<◌, ◌≡◌, refl, ap, ◌∙◌, List, [], ◌∷◌, ◌++◌, length,
  take, drop, get_or, min, ltb, ◌==◌, arith, false, Bool-cases, inl, inr, length-take, length-drop,
  get_or-drop, get_or-take,
}
use safe_disk.Base.Int.{two_63, two_64}
use safe_disk.Cipher.{CipherLaws}
use safe_disk.Cipher.Keystream.{xor_at, xor_at_same, xor_at-take-drop, xor_bytes, xor_bytes-xor_at}
use safe_disk.AesCtr.{
  BlockCipher, BlockLaws, Buffers, put_low, xor_keystream_loop, xor_keystream_quick, xor_keystream,
  cipher,
}

-- The keystream byte of a position: counter block `pos / 16` with a zero nonce, byte `pos % 16`.
abbrev pub keystream : BlockCipher → ℕ → ℕ
keystream B pos = get_or (B.encrypt (pos / 16)) (pos % 16) 0

-- The nonce half of the counter is zero; only the block number is ever written.
pub record IsReady (b : Buffers) : Type 0 where
  pub nonce : b.counter < two_64

module _ (B : BlockCipher) (laws : BlockLaws B) where
  -- One round of the quick loop is the keystream of its bytes.
  round_out :
      (rest : List ℕ) (pos : ℕ)
      → let n = min (16 - pos % 16) (length rest) in
        xor_bytes (take n rest) (take n (drop (pos % 16) (B.encrypt (pos / 16))))
        ≡ xor_at (keystream B) pos (take n rest)
  round_out rest pos =
      let n = min (16 - pos % 16) (length rest) in
      let ys = drop (pos % 16) (B.encrypt (pos / 16)) in
      xor_bytes-xor_at (keystream B) pos (take n rest) (take n ys)
        (omega (
          arith,
          length-take n rest,
          length-take n ys,
          length-drop (pos % 16) (B.encrypt (pos / 16)),
          laws.block (pos / 16),
        ))
        (λ i l.
          let k : i < n = omega (arith, length-take n rest) in
          let q : pos / 16 ≡ (pos + i) / 16 = omega arith in
          let o : pos % 16 + i ≡ (pos + i) % 16 = omega arith in
          get_or-take n ys i 0 k
          ∙ get_or-drop (pos % 16) (B.encrypt (pos / 16)) i 0
          ∙ ap (λ m. get_or (B.encrypt m) (pos % 16 + i) 0) q
          ∙ ap (λ m. get_or (B.encrypt ((pos + i) / 16)) m 0) o)

  xor_keystream_loop_lem :
      (fuel : ℕ) (rest : List ℕ) (pos : ℕ) (b : Buffers)
      → length rest ≤ fuel
      → IsReady b
      → pos + length rest ≤ two_63
      → ((xor_keystream_loop B fuel rest pos b).0 ≡ xor_at (keystream B) pos rest)
        × IsReady (xor_keystream_loop B fuel rest pos b).1
  unfolding xor_keystream_loop
  xor_keystream_loop_lem zero [] pos b l r h = (unfold xor_at in refl, r)
  xor_keystream_loop_lem zero (x ∷ rest) pos b l r h = absurd (omega arith)
  xor_keystream_loop_lem (suc fuel) [] pos b l r h = (unfold xor_at in refl, r)
  xor_keystream_loop_lem (suc fuel) (x ∷ xs) pos b l r h =
      let rest = x ∷ xs in
      let more : (length rest == 0) ≡ false = ground arith in
      let n = min (16 - pos % 16) (length rest) in
      let counter : put_low b.counter (pos / 16) ≡ pos / 16 = omega (arith, r.nonce) in
      let b' : Buffers = record { counter = pos / 16; stream = B.encrypt (pos / 16) } in
      let ih =
        xor_keystream_loop_lem fuel (drop n rest) (pos + n) b' (omega (arith, length-drop n rest))
          (record { nonce = omega arith }) (omega (arith, length-drop n rest)) in
      rw (more, xor_keystream_loop, counter)
        (
          ap (λ t. t ++ (xor_keystream_loop B fuel (drop n rest) (pos + n) b').0)
                (round_out rest pos)
              ∙ ap (λ t. xor_at (keystream B) pos (take n rest) ++ t) ih.0
              ∙ xor_at-take-drop (keystream B) pos n rest (omega arith),
          ih.1,
        )

  -- `xorKeystream`, by whichever of its two ways, combines bytes below 2^63 with the keystream
  -- of their positions, from buffers whose nonce is zero, and leaves the nonce zero.
  pub xor_keystream-xor_at :
      (p : List ℕ) (pos : ℕ) (b : Buffers)
      → IsReady b
      → pos + length p ≤ two_63
      → ((xor_keystream B p pos b).0 ≡ xor_at (keystream B) pos p)
        × IsReady (xor_keystream B p pos b).1
  unfolding xor_keystream xor_keystream_quick
  xor_keystream-xor_at p pos b r h = elim (Bool-cases (ltb (length p) 1024)) [
    | inl short ↦
        rw (short, xor_keystream) (xor_keystream_loop_lem (length p) p pos b (omega arith) r h)
    | inr long ↦
        let iv = put_low (b.counter / two_64 * two_64) (pos / 16) in
        rw (long, xor_keystream)
          (
            xor_at_same (B.ctr_stream iv) (keystream B) (pos % 16) pos p (λ i l.
                let block : (iv + (pos % 16 + i) / 16) % (two_64 * two_64) ≡ (pos + i) / 16 =
                  omega (arith, r.nonce) in
                let byte : (pos % 16 + i) % 16 ≡ (pos + i) % 16 = omega arith in
                laws.counter_mode iv (pos % 16 + i)
                ∙ ap (λ m. get_or (B.encrypt m) ((pos % 16 + i) % 16) 0) block
                ∙ ap (λ m. get_or (B.encrypt ((pos + i) / 16)) m 0) byte),
            r,
          )
  ]

  loop-IsReady :
      (fuel : ℕ) (rest : List ℕ) (pos : ℕ) (b : Buffers)
      → IsReady b
      → IsReady (xor_keystream_loop B fuel rest pos b).1
  unfolding xor_keystream_loop
  loop-IsReady zero rest pos b r = r
  loop-IsReady (suc fuel) rest pos b r = elim (Bool-cases (length rest == 0)) [
    | inl done ↦ rw (done, xor_keystream_loop) r
    | inr more ↦
        rw (more, xor_keystream_loop)
          (loop-IsReady fuel (drop (min (16 - pos % 16) (length rest)) rest) _ _
            (record { nonce = omega (arith, r.nonce) }))
  ]

  xor_keystream-IsReady :
      (p : List ℕ) (pos : ℕ) (b : Buffers) → IsReady b → IsReady (xor_keystream B p pos b).1
  unfolding xor_keystream xor_keystream_quick
  xor_keystream-IsReady p pos b r = elim (Bool-cases (ltb (length p) 1024)) [
    | inl short ↦ rw (short, xor_keystream) (loop-IsReady (length p) p pos b r)
    | inr long ↦ rw (long, xor_keystream) r
  ]

  pub cipher_laws : CipherLaws (cipher B)
  unfolding cipher
  cipher_laws = record {
    stream = keystream B;
    limit = two_63;
    IsReady = IsReady;
    encrypt_out = λ p pos b r h. (xor_keystream-xor_at p pos b r h).0;
    encrypt_ready = xor_keystream-IsReady;
    decrypt_out = λ p pos b r h. (xor_keystream-xor_at p pos b r h).0;
    decrypt_ready = xor_keystream-IsReady;
  }
