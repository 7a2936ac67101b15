-- ===== src/Context/Write.antt =====
-- `Write` of the encryption contexts: it writes at the position, and moves it.
use safe_disk.Base.{
  ℕ, ◌+◌, ◌≤◌, max, ◌≡◌, refl, ap, sym, subst, ◌∙◌, Option, none, some, List, length, ltb,
  if◌then◌else◌, arith, Bool-cases, Option-cases, inl, inr, ltb→le,
}
use safe_disk.Storage.{StorageLaws}
use safe_disk.Storage.Types.{IoError, Storage}
use safe_disk.Cipher.{Cipher, CipherLaws}
use safe_disk.Chunk.{encrypt_and_write_in_chunks}
use safe_disk.Chunk.Run.{Run, Run-from, Run-same, coded}
use safe_disk.Chunk.Write.{encrypt_and_write-Run}
use safe_disk.Context.{Context, ensure_append_gap, advance, write}
use safe_disk.Context.View.{IsValid, encrypts}
use safe_disk.Context.Append.{Extended, ensure_append_gap-Extended}
use safe_disk.Context.WriteAt.{Written, gap_failed, stored}

-- What `Write` reports and where it leaves the cursor, by the outcome of the gap before the position:
-- its error with no byte, and else the cursor is at the position.
abbrev pub ByGap : Option IoError → ℕ × Option IoError → ℕ → ℕ → Type 0
ByGap none reported cursor at = cursor ≡ at
ByGap (some e) reported cursor at = reported ≡ (0, some e)

module _ (S : Storage) (laws : StorageLaws S) (K : Cipher) (L : CipherLaws K) where
  end_pos : (size at n : ℕ) → (if ltb size (at + n) then at + n else size) ≡ max size (at + n)
  end_pos size at n = ground arith

  -- The write that follows the gap, with the position moved by what was written.
  advanced :
      (p : List ℕ) (n : ℕ) (e : Option IoError) (c b : Context S K) (s : K.State) (f : S.File)
      → Extended S K L b.pos none c b
      → Run S L.IsReady
          (λ k. (S.cursor f ≡ b.pos + k) × (n ≡ k))
          b.file
          b.pos
          (length p)
          (coded L.stream b.pos p)
          e
          s
          f
      → let d = advance S K n (record b { file = f; cipher = s }) in
        Written S K L b.pos p n e c d × (d.pos ≡ b.pos + n) × (S.cursor d.file ≡ d.pos)
  unfolding advance
  advanced p n e c b s f x run =
      let only =
        Run-same S L.stream L.IsReady _ (λ k. n ≡ k) b.file f b.pos _ _ _ _ e s refl (λ i. refl)
          (λ k y. y.1) run in
      elim (Bool-cases (ltb 0 n)) [
        | inl some_bytes ↦
            rw (some_bytes, advance)
              (
                stored S laws K L p b.pos n e c b s f (b.pos + n) _ x only (end_pos b.size b.pos n),
                refl,
                omega (arith, run.extra),
              )
        | inr no_bytes ↦
            rw (no_bytes, advance)
              (
                stored S laws K L p b.pos n e c b s f b.pos b.size x only
                    (omega (arith, x.size_done refl, ltb→le _ _ no_bytes)),
                omega (arith, ltb→le _ _ no_bytes),
                omega (arith, run.extra, ltb→le _ _ no_bytes),
              )
      ]

  -- On a valid context, with the run below the limit of the keystream, `Write` writes at the
  -- position what `WriteAt` would write there, and moves the position behind the bytes that it
  -- reports. If the gap before the position is filled it leaves the cursor of the file at the
  -- position, and if it cannot be filled it reports that error and no byte. The seek before the
  -- write is assumed not to fail: its error is dropped.
  pub write-Written :
      (p : List ℕ) (c : Context S K)
      → IsValid S K L c
      → c.pos + length p ≤ L.limit
      → ((f : S.File) → (S.seek_start c.pos f).0 ≡ none)
      → let r = write S K p c in
        Written S K L c.pos p r.0.0 r.0.1 c r.1
        × (r.1.pos ≡ c.pos + r.0.0)
        × ByGap (ensure_append_gap S K c.pos c).0 r.0 (S.cursor r.1.file) r.1.pos
  unfolding write
  write-Written p c v lim seeks =
      let g = ensure_append_gap S K c.pos c in
      let x = ensure_append_gap-Extended S laws K L c.pos c v (omega arith) in
      elim (Option-cases g.0) [
        | inr (e, d) ↦
            rw (d, write)
              (gap_failed S laws K L p c.pos e c g.1 (rw d at x), omega (arith, x.pos_eq), refl)
        | inl d ↦
            let y = rw d at x in
            let z = subst (λ o. Extended S K L o none c g.1) (sym y.pos_eq) y in
            let k = S.seek_start g.1.pos g.1.file in
            let same = laws.seek_same g.1.pos g.1.file in
            let there =
              laws.seek_cursor g.1.pos g.1.file
                (subst (λ o. (S.seek_start o g.1.file).0 ≡ none) (sym y.pos_eq) (seeks g.1.file)) in
            let r = encrypt_and_write_in_chunks S p g.1.pos K.encrypt g.1.cipher k.1 in
            let after = advance S K r.0.0 (record g.1 { file = r.2; cipher = r.1 }) in
            let w = advanced p r.0.0 r.0.1 c g.1 r.1 r.2 z (
              Run-from S L.IsReady _ g.1.file k.1 r.2 g.1.pos _ _ _ _ same (
                encrypt_and_write-Run S laws L.IsReady L.stream L.limit K.encrypt (encrypts S K L) p
                  g.1.pos g.1.cipher k.1 z.valid.ready there
                  (omega (arith, same.size_eq, z.valid.backed, z.size_done refl))
                  (omega (arith, y.pos_eq)))) in
            rw (d, write)
              (
                subst (λ o. Written S K L o p r.0.0 r.0.1 c after) y.pos_eq w.0,
                w.1 ∙ ap (λ o. o + r.0.0) y.pos_eq,
                w.2,
              )
      ]
