-- ===== src/Context/Append.antt =====
-- `ensure_append_gap`: a gap behind the end reads as zeros, and a failure loses nothing.
use safe_disk.Base.{
  ℕ, ◌+◌, ◌-◌, ◌≤◌, ◌<◌, max, ◌≡◌, ◌≢◌, refl, ap, ◌∙◌, Bool, true, false, Option, none, some,
  bit_xor, leb, if◌then◌else◌, arith, Bool-cases, Option-cases, inl, inr, leb→le, leb→lt,
}
use safe_disk.Storage.{StorageLaws}
use safe_disk.Storage.Types.{IoError, Storage}
use safe_disk.Storage.Effects.{SameBytes, Splice-at}
use safe_disk.Cipher.{Cipher, CipherLaws}
use safe_disk.Chunk.Run.{Run}
use safe_disk.Chunk.Gap.{EncryptsOrFails, fill_gap-Run, coded_zero}
use safe_disk.Chunk.{fill_gap}
use safe_disk.Context.{Context, no_error, ensure_append_gap}
use safe_disk.Context.View.{IsValid, view, view_kept, view_written}

abbrev is_none : Option IoError → Bool
is_none none = true
is_none (some x) = false

-- `d` is `c` made ready for a write at `target`, or `c` as it was beside the error `e`.
pub record Extended (S : Storage) (K : Cipher) (L : CipherLaws K) (target : ℕ) (e : Option IoError)
    (c d : Context S K) : Type 0 where
  pub valid : IsValid S K L d
  pub pos_eq : d.pos ≡ c.pos
  pub kept : (i : ℕ) → i < c.size → view S K L d i ≡ view S K L c i
  pub size_done : e ≡ none → d.size ≡ max c.size target
  pub size_failed : e ≢ none → d.size ≡ c.size
  pub zeros : e ≡ none → (i : ℕ) → c.size ≤ i → i < target → view S K L d i ≡ 0
  pub stayed : target ≤ c.size → d ≡ c
  pub moved : e ≡ none → c.size < target → S.cursor d.file ≡ target

module _ (S : Storage) (laws : StorageLaws S) (K : Cipher) (L : CipherLaws K) where
  gap_encrypts : EncryptsOrFails L.IsReady L.stream L.limit (no_error K.encrypt)
  unfolding no_error
  gap_encrypts = record { out = λ p at s r l e. L.encrypt_out p at s r l; ready = L.encrypt_ready }

  -- The seek to the end failed.
  seek_failed :
      (target : ℕ) (c : Context S K) (x : IoError)
      → IsValid S K L c
      → c.size < target
      → Extended S K L target (some x) c (record c { file = (S.seek_start c.size c.file).1 })
  seek_failed target c x v h =
      let same = laws.seek_same c.size c.file in
      record {
        valid = record { backed = omega (arith, same.size_eq, v.backed); ready = v.ready };
        pos_eq = refl;
        kept = λ i l. view_kept S K L c.file (S.seek_start c.size c.file).1 i (same.bytes i);
        size_done = λ e. cc;
        size_failed = λ e. refl;
        zeros = λ e. cc;
        stayed = λ l. absurd (omega arith);
        moved = λ e. cc;
      }

  -- The gap was written, or part of it before an error.
  filled :
      (target : ℕ) (c : Context S K) (e : Option IoError) (s : K.State) (f g : S.File) (n : ℕ)
      → IsValid S K L c
      → c.size < target
      → SameBytes S c.file f
      → Run S L.IsReady
          (λ n. S.cursor g ≡ c.size + n)
          f
          c.size
          (target - c.size)
          (coded_zero L.stream c.size)
          e
          s
          g
      → n ≡ (if is_none e then target else c.size)
      → Extended S K L target e c (record c { file = g; cipher = s; size = n })
  filled target c e s f g n v h same run en = record {
    valid = record {
      backed = ground (arith, same.size_eq, v.backed, run.splice.size_eq, run.complete, en);
      ready = run.ready;
    };
    pos_eq = refl;
    kept = λ i l. view_kept S K L c.file g i (run.splice.below i l ∙ same.bytes i);
    size_done = λ d. ground (arith, en, d);
    size_failed = λ d. ground (arith, en, d);
    zeros = λ d i l m.
        let at : c.size + (i - c.size) ≡ i = omega arith in
        view_written S K L g i 0 (
          Splice-at S f g c.size run.written (coded_zero L.stream c.size) run.splice i l
            (omega (arith, run.complete d))
          ∙ ap (λ j. bit_xor 0 (L.stream j)) at);
    stayed = λ l. absurd (omega arith);
    moved = λ d l. omega (arith, run.extra, run.complete d);
  }

  -- On a valid context, for a target below the limit of the keystream, `ensure_append_gap` keeps
  -- the plain bytes and the position; without an error the size reaches the target and the gap
  -- reads as zeros, with one the size is as before, and a target inside the file changes
  -- nothing.
  pub ensure_append_gap-Extended :
      (target : ℕ) (c : Context S K)
      → IsValid S K L c
      → target ≤ L.limit
      → Extended S K L target
          (ensure_append_gap S K target c).0
          c
          (ensure_append_gap S K target c).1
  unfolding ensure_append_gap
  ensure_append_gap-Extended target c v lim = elim (Bool-cases (leb target c.size)) [
    | inl in_file ↦
        rw (in_file, ensure_append_gap)
          (record {
            valid = v;
            pos_eq = refl;
            kept = λ i l. refl;
            size_done = λ e. omega (arith, leb→le _ _ in_file);
            size_failed = λ e. refl;
            zeros = λ e i l m. absurd (omega (arith, leb→le _ _ in_file));
            stayed = λ l. refl;
            moved = λ e l. absurd (omega (arith, leb→le _ _ in_file));
          })
    | inr behind ↦
        let h : c.size < target = leb→lt _ _ behind in
        let k = S.seek_start c.size c.file in
        let r = fill_gap S c.size (target - c.size) (no_error K.encrypt) c.cipher k.1 in
        elim (Option-cases k.0) [
          | inr (x, e) ↦ rw (behind, ensure_append_gap, e) (seek_failed target c x v h)
          | inl e ↦
              let same = laws.seek_same c.size c.file in
              let run =
                fill_gap-Run S laws L.IsReady L.stream L.limit (no_error K.encrypt) gap_encrypts
                  c.size (target - c.size) c.cipher k.1 v.ready (laws.seek_cursor c.size c.file e)
                  (omega (arith, same.size_eq, v.backed)) (omega arith) in
              elim (Option-cases r.0) [
                | inr (x, d) ↦
                    rw (behind, ensure_append_gap, e, d)
                      (filled target c (some x) r.1 k.1 r.2 c.size v h same (rw d at run) refl)
                | inl d ↦
                    rw (behind, ensure_append_gap, e, d)
                      (filled target c none r.1 k.1 r.2 target v h same (rw d at run) refl)
              ]
        ]
  ]
