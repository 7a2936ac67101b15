-- ===== src/Context/Read.antt =====
-- `Read` and `ReadAt` of the encryption contexts, against the plain bytes.
use safe_disk.Base.{
  ℕ, ◌+◌, ◌≤◌, ◌<◌, ◌≡◌, refl, ap, subst, ◌∙◌, Bool, true, false, List, [], length, bit_xor, get_or,
  ltb, arith, Bool-cases, Option-cases, inl, inr, ltb→lt, ltb→le,
}
use safe_disk.Storage.{Got, StorageLaws}
use safe_disk.Storage.Types.{Storage}
use safe_disk.Storage.Effects.{SameBytes, SameBytes-trans}
use safe_disk.Cipher.{Cipher, CipherLaws}
use safe_disk.Cipher.Keystream.{length-xor_at, get_or-xor_at}
use safe_disk.Context.{Context, fetch_by, read, read_at, write_at}
use safe_disk.Context.View.{IsValid, view, view_kept}
use safe_disk.Context.WriteAt.{write_at-Written}

-- The bytes `got` are plain bytes of `c` from `start` on, at most `room`, and `d` shows the same
-- bytes as `c`.
pub record Fetched (S : Storage) (K : Cipher) (L : CipherLaws K) (start room : ℕ) (got : List ℕ)
    (c d : Context S K) : Type 0 where
  pub valid : IsValid S K L d
  pub size_eq : d.size ≡ c.size
  pub kept : (i : ℕ) → view S K L d i ≡ view S K L c i
  pub fits : length got ≤ room
  pub plain : (i : ℕ) → i < length got → get_or got i 0 ≡ view S K L c (start + i)

module _ (S : Storage) (laws : StorageLaws S) (K : Cipher) (L : CipherLaws K) where
  fetch_by_same :
      (direct : Bool) (room off : ℕ) (f : S.File) → SameBytes S f (fetch_by S K direct room off f).1
  unfolding fetch_by
  fetch_by_same true room off f = laws.read_at_same room off f
  fetch_by_same false room off f =
      let k = S.seek_start off f in
      elim (Option-cases k.0) [
        | inr (x, e) ↦ rw (e, fetch_by) (laws.seek_same off f)
        | inl e ↦
            rw (e, fetch_by)
              (SameBytes-trans S f k.1 (S.read room k.1).1 (laws.seek_same off f)
                (laws.read_same room k.1))
      ]

  Got-moved :
      (f g : S.File) (start room : ℕ) (got : List ℕ)
      → SameBytes S f g
      → Got S g start room got
      → Got S f start room got
  Got-moved f g start room got same x = record {
    fits = x.fits;
    inside = λ l. omega (arith, x.inside l, same.size_eq);
    bytes = λ i l. x.bytes i l ∙ same.bytes (start + i);
  }

  Got-empty : (f : S.File) (start room : ℕ) → Got S f start room []
  Got-empty f start room = record {
    fits = omega arith;
    inside = λ l. absurd (omega arith);
    bytes = λ i l. absurd (omega arith);
  }

  fetch_by-Got :
      (direct : Bool) (room off : ℕ) (f : S.File)
      → Got S f off room (fetch_by S K direct room off f).0.0
  unfolding fetch_by
  fetch_by-Got true room off f = laws.read_at_got room off f
  fetch_by-Got false room off f =
      let k = S.seek_start off f in
      elim (Option-cases k.0) [
        | inr (x, e) ↦ rw (e, fetch_by) (Got-empty f off room)
        | inl e ↦
            rw (e, fetch_by)
              (Got-moved f k.1 off room _ (laws.seek_same off f) (
                subst (λ p. Got S k.1 p room (S.read room k.1).0.0) (laws.seek_cursor off f e)
                  (laws.read_got room k.1)))
      ]

  -- The decrypted bytes are the plain ones.
  decrypted :
      (c : Context S K) (start room : ℕ) (got : List ℕ) (f : S.File) (at : ℕ)
      → IsValid S K L c
      → S.size c.file ≤ L.limit
      → SameBytes S c.file f
      → Got S c.file start room got
      → 0 < length got
      → Fetched S K L start room
          (K.decrypt got start c.cipher).0
          c
          (record c { file = f; cipher = (K.decrypt got start c.cipher).1; pos = at })
  decrypted c start room got f at v lim same x some_bytes =
      let e = L.decrypt_out got start c.cipher v.ready (omega (arith, x.inside some_bytes)) in
      let len = ap length e ∙ length-xor_at L.stream start got in
      record {
        valid = record {
          backed = omega (arith, same.size_eq, v.backed);
          ready = L.decrypt_ready got start c.cipher v.ready;
        };
        size_eq = refl;
        kept = λ i. view_kept S K L c.file f i (same.bytes i);
        fits = omega (arith, len, x.fits);
        plain = λ i l.
            ap (λ t. get_or t i 0) e
            ∙ get_or-xor_at L.stream start got i (omega (arith, len))
            ∙ ap (λ b. bit_xor b (L.stream (start + i))) (x.bytes i (omega (arith, len)));
      }

  nothing :
      (c : Context S K) (start room : ℕ) (got : List ℕ) (f : S.File)
      → IsValid S K L c
      → SameBytes S c.file f
      → length got ≤ 0
      → Fetched S K L start room got c (record c { file = f })
  nothing c start room got f v same none_read = record {
    valid = record { backed = omega (arith, same.size_eq, v.backed); ready = v.ready };
    size_eq = refl;
    kept = λ i. view_kept S K L c.file f i (same.bytes i);
    fits = omega arith;
    plain = λ i l. absurd (omega arith);
  }

  -- On a valid context whose file is below the limit of the keystream, `ReadAt` gives plain
  -- bytes of its place, as many as the file gives and with the error of the file, and changes
  -- neither plain bytes nor size nor position.
  pub read_at-Fetched :
      (room off : ℕ) (c : Context S K)
      → IsValid S K L c
      → S.size c.file ≤ L.limit
      → let r = read_at S K room off c in
        let f = fetch_by S K S.has_read_at room off c.file in
        Fetched S K L off room r.0.0 c r.1
        × (r.1.pos ≡ c.pos)
        × (length r.0.0 ≡ length f.0.0)
        × (r.0.1 ≡ f.0.1)
  unfolding read_at
  read_at-Fetched room off c v lim =
      let r = fetch_by S K S.has_read_at room off c.file in
      let same = fetch_by_same S.has_read_at room off c.file in
      let got = fetch_by-Got S.has_read_at room off c.file in
      elim (Bool-cases (ltb 0 (length r.0.0))) [
        | inl e ↦
            rw (e, read_at)
              (
                decrypted c off room r.0.0 r.1 c.pos v lim same got (ltb→lt _ _ e),
                refl,
                ap length (
                      L.decrypt_out r.0.0 off c.cipher v.ready
                        (omega (arith, got.inside (ltb→lt _ _ e))))
                    ∙ length-xor_at L.stream off r.0.0,
                refl,
              )
        | inr e ↦
            rw (e, read_at) (nothing c off room r.0.0 r.1 v same (ltb→le _ _ e), refl, refl, refl)
      ]

  -- On a valid context whose file is below the limit of the keystream and has its cursor at the
  -- position, `Read` gives the plain bytes from the position on, as many as the file gives, and
  -- moves the position behind them. The cursor of the file stands at the position again
  -- afterwards.
  pub read-Fetched :
      (room : ℕ) (c : Context S K)
      → IsValid S K L c
      → S.size c.file ≤ L.limit
      → S.cursor c.file ≡ c.pos
      → let r = read S K room c in
        Fetched S K L c.pos room r.0.0 c r.1
        × (r.1.pos ≡ c.pos + length r.0.0)
        × (S.cursor r.1.file ≡ r.1.pos)
        × (length r.0.0 ≡ length (S.read room c.file).0.0)
  unfolding read
  read-Fetched room c v lim at =
      let r = S.read room c.file in
      let same = laws.read_same room c.file in
      let got = subst (λ p. Got S c.file p room r.0.0) at (laws.read_got room c.file) in
      let cur = laws.read_cursor room c.file in
      elim (Bool-cases (ltb 0 (length r.0.0))) [
        | inl e ↦
            rw (e, read)
              (
                decrypted c c.pos room r.0.0 r.1 (c.pos + length r.0.0) v lim same got
                    (ltb→lt _ _ e),
                omega (
                  arith,
                  ap length (
                      L.decrypt_out r.0.0 c.pos c.cipher v.ready
                        (omega (arith, got.inside (ltb→lt _ _ e)))),
                  length-xor_at L.stream c.pos r.0.0,
                ),
                omega arith,
                ap length (
                      L.decrypt_out r.0.0 c.pos c.cipher v.ready
                        (omega (arith, got.inside (ltb→lt _ _ e))))
                    ∙ length-xor_at L.stream c.pos r.0.0,
              )
        | inr e ↦
            rw (e, read)
              (
                nothing c c.pos room r.0.0 r.1 v same (ltb→le _ _ e),
                omega (arith, ltb→le _ _ e),
                omega (arith, ltb→le _ _ e),
                refl,
              )
      ]

  -- On a valid context, what `WriteAt` has reported as written is what a later `ReadAt` of the
  -- place gives back, as far as it reads, if file and run stay below the limit of the keystream.
  pub read_at-write_at :
      (p : List ℕ) (off room : ℕ) (c : Context S K)
      → IsValid S K L c
      → off + length p ≤ L.limit
      → let w = write_at S K p off c in
        S.size w.1.file ≤ L.limit
        → let got = (read_at S K room off w.1).0.0 in
          (i : ℕ) → i < w.0.0 → i < length got → get_or got i 0 ≡ get_or p i 0
  read_at-write_at p off room c v lim fits i n l =
      let w = write_at-Written S laws K L p off c v lim in
      let r = read_at-Fetched room off (write_at S K p off c).1 w.valid fits in
      r.0.plain i l ∙ w.there i n
