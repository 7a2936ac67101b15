-- ===== src/Context/Resize.antt =====
-- `Truncate` of the encryption contexts, against the plain bytes.
use safe_disk.Base.{
  ℕ, ◌≤◌, ◌<◌, min, ◌≡◌, ◌≢◌, refl, ◌∙◌, Bool, true, false, Option, none, some, ltb, if◌then◌else◌,
  arith, Bool-cases, Option-cases, inl, inr, ltb→lt, ltb→le, lt→ltb,
}
use safe_disk.Storage.{StorageLaws}
use safe_disk.Storage.Types.{IoError, Storage}
use safe_disk.Cipher.{Cipher, CipherLaws}
use safe_disk.Context.{Context, ensure_append_gap, set_size, cut, truncate}
use safe_disk.Context.View.{IsValid, view, view_kept}
use safe_disk.Context.Append.{Extended, ensure_append_gap-Extended}

-- `d` is `c` after a change of its size to `size`, or with its own size beside an error.
pub record Resized (S : Storage) (K : Cipher) (L : CipherLaws K) (size : ℕ) (e : Option IoError)
    (c d : Context S K) : Type 0 where
  pub valid : IsValid S K L d
  pub kept : (i : ℕ) → i < c.size → i < d.size → view S K L d i ≡ view S K L c i
  pub zeros : (i : ℕ) → c.size ≤ i → i < d.size → view S K L d i ≡ 0
  pub size_done : e ≡ none → d.size ≡ size
  pub size_failed : e ≢ none → d.size ≡ c.size
  pub pos_done : e ≡ none → d.pos ≡ min c.pos size
  pub pos_failed : e ≢ none → d.pos ≡ c.pos

module _ (S : Storage) (laws : StorageLaws S) (K : Cipher) (L : CipherLaws K) where
  min_size : (at size : ℕ) → (if ltb size at then size else at) ≡ min at size
  min_size at size = ground arith

  grown :
      (size : ℕ) (c b : Context S K)
      → c.size < size
      → Extended S K L size none c b
      → Resized S K L size none c (set_size S K size b)
  unfolding set_size
  grown size c b h x = record {
    valid = record {
      backed = omega (arith, x.valid.backed, x.size_done refl);
      ready = x.valid.ready;
    };
    kept = λ i l m. x.kept i l;
    zeros = λ i l m. x.zeros refl i l m;
    size_done = λ e. refl;
    size_failed = λ e. absurd (e refl);
    pos_done = λ e. min_size b.pos size ∙ omega (arith, x.pos_eq);
    pos_failed = λ e. absurd (e refl);
  }

  grow_failed :
      (size : ℕ) (x : IoError) (c b : Context S K)
      → Extended S K L size (some x) c b
      → Resized S K L size (some x) c b
  grow_failed size x c b g =
      let same : b.size ≡ c.size = g.size_failed (λ e. cc) in
      record {
        valid = g.valid;
        kept = λ i l m. g.kept i l;
        zeros = λ i l m. absurd (omega arith);
        size_done = λ e. cc;
        size_failed = λ e. same;
        pos_done = λ e. cc;
        pos_failed = λ e. g.pos_eq;
      }

  -- A file that cannot be truncated keeps its bytes, and the context counts fewer of them.
  cut_short :
      (size : ℕ) (c : Context S K)
      → IsValid S K L c
      → size ≤ c.size
      → Resized S K L size none c (set_size S K size c)
  unfolding set_size
  cut_short size c v h = record {
    valid = record { backed = omega (arith, v.backed); ready = v.ready };
    kept = λ i l m. refl;
    zeros = λ i l m. absurd (omega arith);
    size_done = λ e. refl;
    size_failed = λ e. absurd (e refl);
    pos_done = λ e. min_size c.pos size;
    pos_failed = λ e. absurd (e refl);
  }

  shrunk :
      (can : Bool) (size : ℕ) (c : Context S K)
      → IsValid S K L c
      → size < c.size
      → let t = cut S K can size c.file in
        t.0 ≡ none → Resized S K L size none c (set_size S K size (record c { file = t.1 }))
  unfolding cut set_size
  shrunk false size c v h e = cut_short size c v (omega arith)
  shrunk true size c v h e = record {
    valid = record { backed = omega (arith, laws.truncate_size size c.file e); ready = v.ready };
    kept = λ i l m.
        view_kept S K L c.file (S.truncate size c.file).1 i
          (laws.truncate_bytes size c.file i e m (omega (arith, v.backed)));
    zeros = λ i l m. absurd (omega arith);
    size_done = λ d. refl;
    size_failed = λ d. absurd (d refl);
    pos_done = λ d. min_size c.pos size;
    pos_failed = λ d. absurd (d refl);
  }

  shrink_failed :
      (can : Bool) (size : ℕ) (x : IoError) (c : Context S K)
      → IsValid S K L c
      → let t = cut S K can size c.file in
        t.0 ≡ some x → Resized S K L size (some x) c (record c { file = t.1 })
  unfolding cut
  shrink_failed false size x c v e = cc
  shrink_failed true size x c v e =
      let same = laws.truncate_fail size c.file (λ d. cc) in
      record {
        valid = record { backed = omega (arith, same.size_eq, v.backed); ready = v.ready };
        kept = λ i l m. view_kept S K L c.file (S.truncate size c.file).1 i (same.bytes i);
        zeros = λ i l m. absurd (omega arith);
        size_done = λ d. cc;
        size_failed = λ d. refl;
        pos_done = λ d. cc;
        pos_failed = λ d. refl;
      }

  -- On a valid context, for a size below the limit of the keystream, `Truncate` keeps the plain
  -- bytes below both sizes, shows zeros where the file grew, and brings a position behind the
  -- new end to it; after an error size and position are as before.
  pub truncate-Resized :
      (size : ℕ) (c : Context S K)
      → IsValid S K L c
      → size ≤ L.limit
      → let r = truncate S K size c in Resized S K L size r.0 c r.1
  unfolding truncate
  truncate-Resized size c v lim = elim (Bool-cases (ltb c.size size)) [
    | inl more ↦
        let g = ensure_append_gap S K size c in
        let x = ensure_append_gap-Extended S laws K L size c v lim in
        elim (Option-cases g.0) [
          | inr (e, d) ↦ rw (more, truncate, d) (grow_failed size e c g.1 (rw d at x))
          | inl d ↦ rw (more, truncate, d) (grown size c g.1 (ltb→lt _ _ more) (rw d at x))
        ]
    | inr not_more ↦ elim (Bool-cases (ltb size c.size)) [
      | inl less ↦
          let t = cut S K S.has_truncate size c.file in
          elim (Option-cases t.0) [
            | inr (e, d) ↦
                rw (not_more, less, truncate, d) (shrink_failed S.has_truncate size e c v d)
            | inl d ↦
                rw (not_more, less, truncate, d)
                  (shrunk S.has_truncate size c v (ltb→lt _ _ less) d)
          ]
      | inr same ↦ rw (not_more, same, truncate) (cut_short size c v (ltb→le _ _ not_more))
    ]
  ]

  -- Where `Truncate` grows the file of a valid context to a size below the limit of the
  -- keystream, without an error, the cursor of the file is at the new end and the position where
  -- it was, or at the new end if it was behind that: a `Read` that does not seek starts at the
  -- cursor.
  pub truncate-cursor :
      (size : ℕ) (c : Context S K)
      → IsValid S K L c
      → size ≤ L.limit
      → c.size < size
      → (truncate S K size c).0 ≡ none
      → let d = (truncate S K size c).1 in (S.cursor d.file ≡ size) × (d.pos ≡ min c.pos size)
  unfolding truncate set_size
  truncate-cursor size c v lim h =
      let g = ensure_append_gap S K size c in
      let x = ensure_append_gap-Extended S laws K L size c v lim in
      elim (Option-cases g.0) [
        | inr (e, d) ↦ rw (lt→ltb _ _ h, truncate, d) (λ q. cc)
        | inl d ↦
            let y = rw d at x in
            rw (lt→ltb _ _ h, truncate, d)
              (λ q. (y.moved refl h, min_size g.1.pos size ∙ omega (arith, y.pos_eq)))
      ]
