-- ===== src/Chunk/Write.antt =====
-- `EncryptAndWriteInChunks` of chunk_processor.go, which writes at the file's cursor.
use safe_disk.Base.{
  ℕ, zero, suc, ◌+◌, ◌-◌, ◌≤◌, ◌<◌, ◌≡◌, ◌≢◌, refl, subst, false, none, List, [], ◌∷◌, length, take,
  drop, arith, Option-cases, inl, inr, length-take, length-drop, ◌==◌,
}
use safe_disk.Storage.{Put, StorageLaws}
use safe_disk.Storage.Types.{Storage}
use safe_disk.Storage.Effects.{Splice}
use safe_disk.Chunk.Run.{
  Run, Run-empty, Run-stop, Run-step, Run-same, coded, coded-drop, round-Splice, min_int64_bounds,
  Encrypts,
}
use safe_disk.Chunk.{min_int64, write_loop, chunk_buffer_size, encrypt_and_write_in_chunks}

module _ (S : Storage) (laws : StorageLaws S) {E : Type 0} (IsReady : E → Type 0) (stream : ℕ → ℕ)
    (limit : ℕ) (encrypt : List ℕ → ℕ → E → List ℕ × E)
    (enc : Encrypts IsReady stream limit encrypt) (size : ℕ) (size_pos : 0 < size) where
  -- the round of `write_loop` and what follows it
  write_round :
      (pos : ℕ) (rest : List ℕ) (total : ℕ) (s : E) (f : S.File)
      → length rest ≢ 0
      → IsReady s
      → S.cursor f ≡ pos
      → pos ≤ S.size f
      → pos + length rest ≤ limit
      → let k = min_int64 (length rest) size in
        let r = encrypt (take k rest) pos s in
        let w = S.write r.0 f in
        (w.0.0 ≤ k) × (w.0.1 ≡ none → w.0.0 ≡ k) × Splice S f pos w.0.0 (coded stream pos rest) w.1
  write_round pos rest total s f ne rs cf pf lim =
      let k = min_int64 (length rest) size in
      let b = min_int64_bounds (length rest) size size_pos ne in
      let r = encrypt (take k rest) pos s in
      round-Splice S stream f (S.write r.0 f).1 pos k rest r.0 _ _
        (enc.out (take k rest) pos s rs (omega (arith, b.1, length-take k rest))) b.1
        (subst (λ c. Put S f c r.0 (S.write r.0 f).0.0 (S.write r.0 f).0.1 (S.write r.0 f).1) cf
          (laws.write_put r.0 f (omega (arith, cf))))

  pub write_loop-Run :
      (fuel pos : ℕ) (rest : List ℕ) (total : ℕ) (s : E) (f : S.File)
      → length rest ≤ fuel
      → IsReady s
      → S.cursor f ≡ pos
      → pos ≤ S.size f
      → pos + length rest ≤ limit
      → let r = write_loop S encrypt size fuel pos rest total s f in
        Run S IsReady
          (λ n. (S.cursor r.2 ≡ pos + n) × (r.0.0 ≡ total + n))
          f
          pos
          (length rest)
          (coded stream pos rest)
          r.0.1
          r.1
          r.2
  unfolding write_loop
  write_loop-Run zero pos [] total s f lf rs cf pf lim =
      Run-empty S IsReady _ f pos _ s none pf (omega arith, omega arith) rs
  write_loop-Run zero pos (x ∷ rest) total s f lf rs cf pf lim = absurd (omega arith)
  write_loop-Run (suc fuel) pos [] total s f lf rs cf pf lim =
      Run-empty S IsReady _ f pos _ s none pf (omega arith, omega arith) rs
  write_loop-Run (suc fuel) pos (x ∷ xs) total s f lf rs cf pf lim =
      let rest = x ∷ xs in
      let k = min_int64 (length rest) size in
      let b = min_int64_bounds (length rest) size size_pos (omega arith) in
      let r = encrypt (take k rest) pos s in
      let w = S.write r.0 f in
      let round = write_round pos rest total s f (omega arith) rs cf pf lim in
      let more : (length rest == 0) ≡ false = ground arith in
      let ready = enc.ready (take k rest) pos s rs in
      elim (Option-cases w.0.1) [
        | inl e ↦
            rw (more, write_loop, e)
              (Run-step S IsReady _ f w.1 _ pos w.0.0 (length rest) _ _ _
                (omega (arith, round.0, b.1)) round.2
                (Run-same S stream IsReady _ _ w.1 _ (pos + w.0.0) (length (drop k rest))
                  (length rest - w.0.0) _ _ _ _ (omega (arith, length-drop k rest, round.1 e))
                  (λ i. coded-drop S stream pos k w.0.0 rest i (round.1 e))
                  (λ m p. (omega arith, omega arith))
                  (write_loop-Run fuel (pos + w.0.0) (drop k rest) (total + w.0.0) r.1 w.1
                    (omega (arith, length-drop k rest, b.0)) ready
                    (omega (arith, laws.write_cursor r.0 f)) (omega (arith, round.2.size_eq))
                    (omega (arith, length-drop k rest, round.1 e, b.1)))))
        | inr (c, e) ↦
            rw (more, write_loop, e)
              (Run-stop S IsReady _ f w.1 pos w.0.0 (length rest) _ c _
                (omega (arith, round.0, b.1)) round.2 (omega (arith, laws.write_cursor r.0 f), refl)
                ready)
      ]

module _ (S : Storage) (laws : StorageLaws S) {E : Type 0} (IsReady : E → Type 0) (stream : ℕ → ℕ)
    (limit : ℕ) (encrypt : List ℕ → ℕ → E → List ℕ × E)
    (enc : Encrypts IsReady stream limit encrypt) where
  -- `EncryptAndWriteInChunks` from the cursor of the file, which stands inside the file, below
  -- the limit of the keystream: what it says it has written is written, in encrypted form, no
  -- other byte of the file changes, the cursor is behind it, and without an error it is all of
  -- `p`.
  pub encrypt_and_write-Run :
      (p : List ℕ) (pos : ℕ) (s : E) (f : S.File)
      → IsReady s
      → S.cursor f ≡ pos
      → pos ≤ S.size f
      → pos + length p ≤ limit
      → let r = encrypt_and_write_in_chunks S p pos encrypt s f in
        Run S IsReady
          (λ n. (S.cursor r.2 ≡ pos + n) × (r.0.0 ≡ n))
          f
          pos
          (length p)
          (coded stream pos p)
          r.0.1
          r.1
          r.2
  unfolding encrypt_and_write_in_chunks
  encrypt_and_write-Run [] pos s f rs cf pf lim =
      Run-empty S IsReady _ f pos _ s none pf (omega arith, omega arith) rs
  encrypt_and_write-Run (x ∷ xs) pos s f rs cf pf lim =
      let more : (length (x ∷ xs) == 0) ≡ false = ground arith in
      rw (more, encrypt_and_write_in_chunks)
        (Run-same S stream IsReady _ _ f _ pos _ _ _ _ _ _ refl (λ i. refl)
          (λ m q. (q.0, omega arith))
          (write_loop-Run S laws IsReady stream limit encrypt enc chunk_buffer_size (omega arith)
            (length (x ∷ xs)) pos (x ∷ xs) 0 s f (omega arith) rs cf pf lim))
