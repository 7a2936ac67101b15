-- ===== src/Rc4/Laws.antt =====
-- The cached ciphers of rc4/context.go give the keystream of the place that is asked for.
use safe_disk.Base.{
  ℕ, zero, suc, ◌+◌, ◌-◌, ◌≤◌, ◌<◌, ◌≡◌, ap, sym, ◌∙◌, false, List, length, replicate,
  length-replicate, if◌then◌else◌, ltb, ◌==◌, ==_iff, arith, Bool-cases, Option-cases, inl, inr,
}
use safe_disk.Base.Int.{two_63}
use safe_disk.Cipher.{CipherLaws}
use safe_disk.Cipher.Keystream.{xor_at}
use safe_disk.Chunk.{chunk_buffer_size}
use safe_disk.Rc4.{
  Rc4Cipher, Rc4Laws, CipherState, Ciphers, discard, encrypt_at, decrypt_at, cipher,
}

module _ (R : Rc4Cipher) (laws : Rc4Laws R) where
  -- The recorded position is the cipher's place.
  pub record IsSynced (cs : CipherState R) : Type 0 where
    pub place : laws.place cs.cipher ≡ cs.pos

  pub record AreSynced (s : Ciphers R) : Type 0 where
    pub read : IsSynced s.last_read
    pub write : IsSynced s.last_write

  place-discard :
      (size : ℕ) (size_pos : 0 < size) (fuel remaining : ℕ) (s : R.State)
      → remaining ≤ fuel
      → laws.place (discard R size fuel remaining s) ≡ laws.place s + remaining
  unfolding discard
  place-discard size size_pos zero remaining s h = omega arith
  place-discard size size_pos (suc fuel) zero s h = omega arith
  place-discard size size_pos (suc fuel) (suc m) s h =
      let more : (suc m == 0) ≡ false = ground arith in
      let k : ℕ = if ltb size (suc m) then size else suc m in
      let b : (0 < k) × (k ≤ suc m) = ground arith in
      let t = (R.xor_key_stream (replicate k 0) s).1 in
      rw (more, discard)
        (omega (
          arith,
          place-discard size size_pos fuel (suc m - k) t (omega (arith, b.0)),
          laws.move (replicate k 0) s,
          length-replicate {A = ℕ} k 0,
          b.1,
        ))

  -- `EncryptAt` at any position combines the bytes with the stream of the key from that position
  -- on, by the cached cipher or by a new one, if the cached cipher stands at its recorded
  -- position, and it stands there afterwards.
  pub encrypt_at-xor_at :
      (p : List ℕ) (pos : ℕ) (cs : CipherState R)
      → IsSynced cs
      → ((encrypt_at R p pos cs).0 ≡ xor_at laws.stream pos p) × IsSynced (encrypt_at R p pos cs).1
  unfolding encrypt_at
  encrypt_at-xor_at p pos cs h = elim (Bool-cases (pos == cs.pos)) [
    | inl here ↦
        rw (here, encrypt_at)
          (
            laws.out p cs.cipher
                ∙ ap (λ m. xor_at laws.stream m p) (h.place ∙ sym ((==_iff pos cs.pos).0 here)),
            record { place = laws.move p cs.cipher ∙ ap (λ m. m + length p) h.place },
          )
    | inr other ↦ elim (Option-cases R.new_cipher) [
      | inl e ↦ absurd (laws.key_fits e)
      | inr (s, e) ↦
          let t = discard R chunk_buffer_size pos pos s in
          rw (other, encrypt_at, e)
            (
              laws.out p t
                  ∙ ap (λ m. xor_at laws.stream m p)
                      (omega (
                        arith,
                        place-discard chunk_buffer_size (omega arith) pos pos s (omega arith),
                        laws.start s e,
                      )),
              h,
            )
    ]
  ]

  pub cipher_laws : CipherLaws (cipher R)
  unfolding cipher decrypt_at
  cipher_laws = record {
    stream = laws.stream;
    limit = two_63;
    IsReady = AreSynced;
    encrypt_out = λ p pos s r h. (encrypt_at-xor_at p pos s.last_write r.write).0;
    encrypt_ready = λ p pos s r. record {
      read = r.read;
      write = (encrypt_at-xor_at p pos s.last_write r.write).1;
    };
    decrypt_out = λ p pos s r h. (encrypt_at-xor_at p pos s.last_read r.read).0;
    decrypt_ready = λ p pos s r. record {
      read = (encrypt_at-xor_at p pos s.last_read r.read).1;
      write = r.write;
    };
  }
