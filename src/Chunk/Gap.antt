-- ===== src/Chunk/Gap.antt =====
-- `FillGap` of chunk_processor.go, which writes encrypted zeros.
use safe_disk.Base.{
  ℕ, zero, suc, ◌+◌, ◌-◌, ◌≤◌, ◌<◌, ◌≡◌, refl, ap, subst, ◌∙◌, false, Option, none, List, length,
  replicate, get_or, bit_xor, arith, Option-cases, inl, inr, ◌==◌, length-replicate,
  get_or-replicate,
}
use safe_disk.Storage.{Put, StorageLaws}
use safe_disk.Storage.Types.{IoError, Storage}
use safe_disk.Storage.Effects.{Splice, Splice-empty, Splice-same}
use safe_disk.Cipher.Keystream.{xor_at, length-xor_at, get_or-xor_at}
use safe_disk.Chunk.Run.{Run, Run-empty, Run-stop, Run-step, Run-same}
use safe_disk.Chunk.{min_int64, fill_gap_loop, chunk_buffer_size, fill_gap}

-- The encrypted form of a zero, i bytes after `pos`.
abbrev pub coded_zero : (ℕ → ℕ) → ℕ → ℕ → ℕ
coded_zero stream pos i = bit_xor 0 (stream (pos + i))

-- What `encryptFunc` must do where it reports no error.
pub record EncryptsOrFails {E : Type 0} (IsReady : E → Type 0) (stream : ℕ → ℕ) (limit : ℕ)
    (encrypt : List ℕ → ℕ → E → (Option IoError × List ℕ) × E) : Type 0 where
  pub out :
      (p : List ℕ) (pos : ℕ) (s : E)
      → IsReady s
      → pos + length p ≤ limit
      → (encrypt p pos s).0.0 ≡ none
      → (encrypt p pos s).0.1 ≡ xor_at stream pos p
  pub ready : (p : List ℕ) (pos : ℕ) (s : E) → IsReady s → IsReady (encrypt p pos s).1

coded_zero-add :
    (stream : ℕ → ℕ) (pos k n i : ℕ)
    → n ≡ k
    → coded_zero stream (pos + k) i ≡ coded_zero stream pos (n + i)
coded_zero-add stream pos k n i h =
    let e : pos + k + i ≡ pos + (n + i) = omega arith in ap (λ j. bit_xor 0 (stream j)) e

zeros_round :
    (S : Storage) (stream : ℕ → ℕ) (f g : S.File) (pos k : ℕ) (p : List ℕ) (n : ℕ)
    (e : Option IoError)
    → p ≡ xor_at stream pos (replicate k 0)
    → Put S f pos p n e g
    → (n ≤ k) × (e ≡ none → n ≡ k) × Splice S f pos n (coded_zero stream pos) g
zeros_round S stream f g pos k p n e eq put =
    let len : length p ≡ k =
      ap length eq ∙ length-xor_at stream pos (replicate k 0) ∙ length-replicate k 0 in
    (
      omega (arith, put.fits),
      λ d. omega (arith, put.complete d),
      Splice-same S f g pos n (λ i. get_or p i 0) (coded_zero stream pos)
          (λ i l.
            ap (λ t. get_or t i 0) eq
            ∙ get_or-xor_at stream pos (replicate k 0) i
                (omega (arith, put.fits, length-replicate {A = ℕ} k 0))
            ∙ ap (λ b. bit_xor b (stream (pos + i)))
                (get_or-replicate k 0 i 0 (omega (arith, put.fits))))
          put.splice,
    )

module _ (S : Storage) (laws : StorageLaws S) {E : Type 0} (IsReady : E → Type 0) (stream : ℕ → ℕ)
    (limit : ℕ) (encrypt : List ℕ → ℕ → E → (Option IoError × List ℕ) × E)
    (enc : EncryptsOrFails IsReady stream limit encrypt) where
  pub fill_gap_loop-Run :
      (size : ℕ) (size_pos : 0 < size) (fuel pos remaining : ℕ) (s : E) (f : S.File)
      → remaining ≤ fuel
      → IsReady s
      → S.cursor f ≡ pos
      → pos ≤ S.size f
      → pos + remaining ≤ limit
      → let r = fill_gap_loop S encrypt size fuel pos remaining s f in
        Run S IsReady
          (λ n. S.cursor r.2 ≡ pos + n)
          f
          pos
          remaining
          (coded_zero stream pos)
          r.0
          r.1
          r.2
  unfolding fill_gap_loop
  fill_gap_loop-Run size size_pos zero pos zero s f lf rs cf pf lim =
      Run-empty S IsReady _ f pos _ s none pf (omega arith) rs
  fill_gap_loop-Run size size_pos zero pos (suc m) s f lf rs cf pf lim = absurd (omega arith)
  fill_gap_loop-Run size size_pos (suc fuel) pos zero s f lf rs cf pf lim =
      Run-empty S IsReady _ f pos _ s none pf (omega arith) rs
  fill_gap_loop-Run size size_pos (suc fuel) pos (suc m) s f lf rs cf pf lim =
      let k = min_int64 size (suc m) in
      let b : (0 < k) × (k ≤ suc m) = unfold min_int64 in ground arith in
      let r = encrypt (replicate k 0) pos s in
      let more : (suc m == 0) ≡ false = ground arith in
      let ready = enc.ready (replicate k 0) pos s rs in
      elim (Option-cases r.0.0) [
        | inr (c, e) ↦
            rw (more, fill_gap_loop, e)
              (Run-stop S IsReady _ f f pos 0 (suc m) _ c _ (omega arith)
                (Splice-empty S f pos _ pf) (omega arith) ready)
        | inl e ↦
            let w = S.write r.0.1 f in
            let round =
              zeros_round S stream f w.1 pos k r.0.1 w.0.0 w.0.1
                (enc.out (replicate k 0) pos s rs (omega (arith, b.1, length-replicate {A = ℕ} k 0))
                  e)
                (subst (λ c. Put S f c r.0.1 w.0.0 w.0.1 w.1) cf
                  (laws.write_put r.0.1 f (omega (arith, cf)))) in
            elim (Option-cases w.0.1) [
              | inr (c, d) ↦
                  rw (more, fill_gap_loop, e, d)
                    (Run-stop S IsReady _ f w.1 pos w.0.0 (suc m) _ c _
                      (omega (arith, round.0, b.1)) round.2
                      (omega (arith, laws.write_cursor r.0.1 f)) ready)
              | inl d ↦
                  rw (more, fill_gap_loop, e, d)
                    (Run-step S IsReady _ f w.1 _ pos k (suc m) _ _ _ b.1
                      (subst (λ n. Splice S f pos n (coded_zero stream pos) w.1) (round.1 d)
                        round.2)
                      (Run-same S stream IsReady _ _ w.1 _ (pos + k) (suc m - k) (suc m - k) _ _ _ _
                        refl (λ i. coded_zero-add stream pos k k i refl) (λ n c. omega arith)
                        (fill_gap_loop-Run size size_pos fuel (pos + k) (suc m - k) r.1 w.1
                          (omega (arith, b.0)) ready
                          (omega (arith, laws.write_cursor r.0.1 f, round.1 d))
                          (omega (arith, round.2.size_eq, round.1 d)) (omega (arith, b.1)))))
            ]
      ]

  -- `FillGap` from the cursor of the file, which stands inside the file, below the limit of the
  -- keystream: it writes encrypted zeros, the whole gap unless it reports an error, and no other
  -- byte of the file changes.
  pub fill_gap-Run :
      (start_pos gap_size : ℕ) (s : E) (f : S.File)
      → IsReady s
      → S.cursor f ≡ start_pos
      → start_pos ≤ S.size f
      → start_pos + gap_size ≤ limit
      → let r = fill_gap S start_pos gap_size encrypt s f in
        Run S IsReady
          (λ n. S.cursor r.2 ≡ start_pos + n)
          f
          start_pos
          gap_size
          (coded_zero stream start_pos)
          r.0
          r.1
          r.2
  unfolding fill_gap
  fill_gap-Run start_pos zero s f rs cf pf lim =
      Run-empty S IsReady _ f start_pos _ s none pf (omega arith) rs
  fill_gap-Run start_pos (suc m) s f rs cf pf lim =
      let more : (suc m == 0) ≡ false = ground arith in
      rw (more, fill_gap)
        (fill_gap_loop-Run chunk_buffer_size (omega arith) (suc m) start_pos (suc m) s f
          (omega arith) rs cf pf lim)
