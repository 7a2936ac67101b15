-- ===== src/Context/WriteAt.antt =====
-- `WriteAt` of the encryption contexts, against the plain bytes.
use safe_disk.Base.{
  ℕ, ◌+◌, ◌≤◌, ◌<◌, max, ◌≡◌, refl, ◌∙◌, Bool, true, false, Option, none, some, List, length,
  get_or, ltb, ◌&&◌, if◌then◌else◌, arith, Option-cases, ◌⊎◌, inl, inr,
}
use safe_disk.Storage.{StorageLaws}
use safe_disk.Storage.Types.{IoError, Storage}
use safe_disk.Storage.Effects.{Splice-empty}
use safe_disk.Cipher.{Cipher, CipherLaws}
use safe_disk.Chunk.Run.{Run, Run-from, Run-same, Run-stop, coded}
use safe_disk.Chunk.Write.{encrypt_and_write-Run}
use safe_disk.Chunk.WriteAt.{encrypt_and_write_at-Run}
use safe_disk.Context.{Context, ensure_append_gap, store_by, write_at}
use safe_disk.Context.View.{IsValid, encrypts, view, view_kept, view_written}
use safe_disk.Context.Append.{Extended, ensure_append_gap-Extended}

-- `d` is `c` after a write of `p` at `off` that reports `n` bytes and the error `e`: the bytes that
-- it reports are there, the others are as before, and what was between the old end and `off` is
-- zeros.
pub record Written (S : Storage) (K : Cipher) (L : CipherLaws K) (off : ℕ) (p : List ℕ) (n : ℕ)
    (e : Option IoError) (c d : Context S K) : Type 0 where
  pub valid : IsValid S K L d
  pub fits : n ≤ length p
  pub complete : e ≡ none → n ≡ length p
  pub there : (i : ℕ) → i < n → view S K L d (off + i) ≡ get_or p i 0
  pub kept : (i : ℕ) → i < c.size → (i < off) ⊎ (off + n ≤ i) → view S K L d i ≡ view S K L c i
  pub zeros : (i : ℕ) → c.size ≤ i → i < off → i < d.size → view S K L d i ≡ 0
  pub size_done : e ≡ none → d.size ≡ max c.size (off + length p)
  pub size_some : 0 < n → d.size ≡ max c.size (off + n)
  pub size_grows : c.size ≤ d.size

module _ (S : Storage) (laws : StorageLaws S) (K : Cipher) (L : CipherLaws K) where
  store_by-Run :
      (direct : Bool) (p : List ℕ) (off : ℕ) (s : K.State) (f : S.File)
      → L.IsReady s
      → off ≤ S.size f
      → off + length p ≤ L.limit
      → let r = store_by S K direct p off s f in
        Run S L.IsReady (λ n. r.0.0 ≡ n) f off (length p) (coded L.stream off p) r.0.1 r.1 r.2
  unfolding store_by
  store_by-Run true p off s f rs fits lim =
      Run-same S L.stream L.IsReady _ _ f _ off _ _ _ _ _ _ refl (λ i. refl) (λ m x. x.1)
        (encrypt_and_write_at-Run S laws L.IsReady L.stream L.limit K.encrypt (encrypts S K L) p off
          s f rs fits lim)
  store_by-Run false p off s f rs fits lim =
      let k = S.seek_start off f in
      let same = laws.seek_same off f in
      elim (Option-cases k.0) [
        | inr (x, e) ↦
            rw (e, store_by)
              (Run-from S L.IsReady _ f k.1 k.1 off _ _ _ _ same (
                Run-stop S L.IsReady _ k.1 k.1 off 0 _ _ x s (omega arith)
                  (Splice-empty S k.1 off _ (omega (arith, same.size_eq))) refl rs))
        | inl e ↦
            rw (e, store_by)
              (Run-from S L.IsReady _ f k.1 _ off _ _ _ _ same (
                Run-same S L.stream L.IsReady _ _ k.1 _ off _ _ _ _ _ _ refl (λ i. refl)
                  (λ m x. x.1)
                  (encrypt_and_write-Run S laws L.IsReady L.stream L.limit K.encrypt
                    (encrypts S K L) p off s k.1 rs (laws.seek_cursor off f e)
                    (omega (arith, same.size_eq)) lim)))
      ]

  -- The gap could not be filled: nothing is written.
  pub gap_failed :
      (p : List ℕ) (off : ℕ) (x : IoError) (c d : Context S K)
      → Extended S K L off (some x) c d
      → Written S K L off p 0 (some x) c d
  gap_failed p off x c d g = record {
    valid = g.valid;
    fits = omega arith;
    complete = λ e. cc;
    there = λ i l. absurd (omega arith);
    kept = λ i l o. g.kept i l;
    zeros = λ i lo hi l. absurd (omega (arith, g.size_failed (λ e. cc)));
    size_done = λ e. cc;
    size_some = λ l. absurd (omega arith);
    size_grows = omega (arith, g.size_failed (λ e. cc));
  }

  untouched :
      (p : List ℕ) (off n : ℕ) (e : Option IoError) (b : Context S K) (s : K.State) (f : S.File)
      → Run S L.IsReady (λ k. n ≡ k) b.file off (length p) (coded L.stream off p) e s f
      → (i : ℕ) → (i < off) ⊎ (off + n ≤ i)
      → S.byte f i ≡ S.byte b.file i
  untouched p off n e b s f run i (inl l) = run.splice.below i l
  untouched p off n e b s f run i (inr l) = run.splice.above i (omega (arith, run.extra))

  -- The gap is filled, and the write that follows gives `run`.
  pub stored :
      (p : List ℕ) (off n : ℕ) (e : Option IoError) (c b : Context S K) (s : K.State) (f : S.File)
      (at m : ℕ)
      → Extended S K L off none c b
      → Run S L.IsReady (λ k. n ≡ k) b.file off (length p) (coded L.stream off p) e s f
      → m ≡ max b.size (off + n)
      → Written S K L off p n e c (record b { file = f; cipher = s; pos = at; size = m })
  stored p off n e c b s f at m g run em = record {
    valid = record {
      backed = omega (arith, run.splice.size_eq, g.valid.backed, run.extra, em);
      ready = run.ready;
    };
    fits = omega (arith, run.fits, run.extra);
    complete = λ d. run.extra ∙ run.complete d;
    there = λ i l.
        view_written S K L f (off + i) (get_or p i 0)
          (run.splice.inside i (omega (arith, run.extra)));
    kept = λ i l o. view_kept S K L b.file f i (untouched p off n e b s f run i o) ∙ g.kept i l;
    zeros = λ i lo hi l. view_kept S K L b.file f i (run.splice.below i hi) ∙ g.zeros refl i lo hi;
    size_done = λ d. omega (arith, em, g.size_done refl, run.extra, run.complete d);
    size_some = λ l. omega (arith, em, g.size_done refl);
    size_grows = omega (arith, em, g.size_done refl);
  }

  end_size :
      (n off size : ℕ)
      → off ≤ size
      → (if ltb 0 n && ltb size (off + n) then off + n else size) ≡ max size (off + n)
  end_size n off size h = ground arith

  -- On a valid context, with the run below the limit of the keystream, `WriteAt` writes what it
  -- says it has written, at its place; every other byte of the file reads as before, a gap
  -- behind the old end reads as zeros, and without an error all of `p` is there. That holds on
  -- every error path too, with the count that is returned.
  pub write_at-Written :
      (p : List ℕ) (off : ℕ) (c : Context S K)
      → IsValid S K L c
      → off + length p ≤ L.limit
      → let r = write_at S K p off c in Written S K L off p r.0.0 r.0.1 c r.1
  unfolding write_at
  write_at-Written p off c v lim =
      let g = ensure_append_gap S K off c in
      let x = ensure_append_gap-Extended S laws K L off c v (omega arith) in
      elim (Option-cases g.0) [
        | inr (e, d) ↦ rw (d, write_at) (gap_failed p off e c g.1 (rw d at x))
        | inl d ↦
            let y = rw d at x in
            rw (d, write_at)
              (stored p off _ _ c g.1 _ _ g.1.pos _ y
                (store_by-Run S.has_write_at p off g.1.cipher g.1.file y.valid.ready
                  (omega (arith, y.valid.backed, y.size_done refl)) lim)
                (end_size _ off g.1.size (omega (arith, y.size_done refl))))
      ]
