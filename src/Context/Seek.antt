-- ===== src/Context/Seek.antt =====
-- `Seek` of the encryption contexts.
use safe_disk.Base.{
  ℕ, zero, suc, ◌+◌, ◌-◌, ◌≤◌, ◌<◌, ◌≡◌, ◌≢◌, refl, ap, sym, Option, none, some, true, arith,
  Option-cases, inl, inr,
}
use safe_disk.Base.Int.{
  ℤ, pos, negsuc, is_neg, two_63, add_i64, add_i64-pos, add_i64_overflow, add_i64-negsuc_within,
  add_i64-negsuc_before,
}
use safe_disk.Storage.{StorageLaws}
use safe_disk.Storage.Types.{IoError, unexpected_eof, Storage}
use safe_disk.Storage.Effects.{SameBytes}
use safe_disk.Cipher.{Cipher}
use safe_disk.Context.{Context, seek_to, seek}

-- `r` is the outcome of a move of `c` to `place`: the file decides whether it succeeds.
pub record Sought (S : Storage) (K : Cipher) (place : ℕ) (c : Context S K)
    (r : (ℕ × Option IoError) × Context S K) : Type 0 where
  pub done :
      (S.seek_start place c.file).0 ≡ none
      → (r.0 ≡ (place, none)) × (r.1.pos ≡ place) × (S.cursor r.1.file ≡ place)
  pub refused :
      (S.seek_start place c.file).0 ≢ none
      → (r.0 ≡ (0, (S.seek_start place c.file).0)) × (r.1.pos ≡ c.pos)
  pub size_eq : r.1.size ≡ c.size
  pub same : SameBytes S c.file r.1.file

-- The place that `whence` counts from.
abbrev pub base : {S : Storage} {K : Cipher} → ℕ → Context S K → ℕ
base zero c = 0
base (suc zero) c = c.pos
base (suc (suc w)) c = c.size

module _ (S : Storage) (laws : StorageLaws S) (K : Cipher) where
  seek_to-Sought : (n : ℕ) (c : Context S K) → Sought S K n c (seek_to S K (pos n) c)
  unfolding seek_to
  seek_to-Sought n c = elim (Option-cases (S.seek_start n c.file).0) [
    | inl e ↦
        rw (e, seek_to)
          (record {
            done = λ d. (refl, refl, laws.seek_cursor n c.file e);
            refused = λ d. absurd (d e);
            size_eq = refl;
            same = laws.seek_same n c.file;
          })
    | inr (x, e) ↦
        rw (e, seek_to)
          (record {
            done = λ d. cc;
            refused = λ d. (ap (λ o. (0, o)) (sym e), refl);
            size_eq = refl;
            same = laws.seek_same n c.file;
          })
  ]

  refuse :
      (z : ℤ) (c : Context S K) → is_neg z ≡ true → seek_to S K z c ≡ ((0, some unexpected_eof), c)
  unfolding seek_to
  refuse (pos n) c h = cc
  refuse (negsuc n) c h = refl

  seek_cases :
      (whence n : ℕ) (c : Context S K)
      → whence < 3
      → n < two_63
      → base whence c < two_63
      → (base whence c + n < two_63 → Sought S K (base whence c + n) c (seek S K (pos n) whence c))
        × (two_63 ≤ base whence c + n → seek S K (pos n) whence c ≡ ((0, some unexpected_eof), c))
        × (n < base whence c → Sought S K (base whence c - suc n) c (seek S K (negsuc n) whence c))
        × (base whence c ≤ n → seek S K (negsuc n) whence c ≡ ((0, some unexpected_eof), c))
  unfolding seek
  seek_cases zero n c w h b = (
    λ l. let e : 0 + n ≡ n = omega arith in rw e (seek_to-Sought n c),
    λ l. absurd (omega arith),
    λ l. absurd (omega arith),
    λ l. refuse (negsuc n) c refl,
  )
  seek_cases (suc zero) n c w h b = (
    λ l. rw (add_i64-pos c.pos n l, seek) (seek_to-Sought (c.pos + n) c),
    λ l. refuse (add_i64 (pos c.pos) (pos n)) c (add_i64_overflow c.pos n b h l),
    λ l. rw (add_i64-negsuc_within c.pos n b l, seek) (seek_to-Sought (c.pos - suc n) c),
    λ l. refuse (add_i64 (pos c.pos) (negsuc n)) c (add_i64-negsuc_before c.pos n h l),
  )
  seek_cases (suc (suc zero)) n c w h b = (
    λ l. rw (add_i64-pos c.size n l, seek) (seek_to-Sought (c.size + n) c),
    λ l. refuse (add_i64 (pos c.size) (pos n)) c (add_i64_overflow c.size n b h l),
    λ l. rw (add_i64-negsuc_within c.size n b l, seek) (seek_to-Sought (c.size - suc n) c),
    λ l. refuse (add_i64 (pos c.size) (negsuc n)) c (add_i64-negsuc_before c.size n h l),
  )
  seek_cases (suc (suc (suc k))) n c w h b = absurd (omega arith)

  -- `Seek` by `n` forward from the start, the position or the end, where the sum is an int64:
  -- the context moves to the sum, or reports the error of the file and stays; size and bytes are
  -- kept.
  pub seek-Sought :
      (whence n : ℕ) (c : Context S K)
      → whence < 3
      → base whence c + n < two_63
      → Sought S K (base whence c + n) c (seek S K (pos n) whence c)
  seek-Sought whence n c w h = (seek_cases whence n c w (omega arith) (omega arith)).0 h

  -- `Seek` by `suc n` back from the start, the position or the end, where that is not before the
  -- start: the context moves there, or reports the error of the file and stays; size and bytes
  -- are kept.
  pub seek_back-Sought :
      (whence n : ℕ) (c : Context S K)
      → whence < 3
      → base whence c < two_63
      → n < base whence c
      → Sought S K (base whence c - suc n) c (seek S K (negsuc n) whence c)
  seek_back-Sought whence n c w b h = (seek_cases whence n c w (omega arith) b).2 h

  -- `Seek` back to a place before the start, by an int64, is refused with io.ErrUnexpectedEOF
  -- and changes nothing.
  pub seek_before_start :
      (whence n : ℕ) (c : Context S K)
      → whence < 3
      → n < two_63
      → base whence c ≤ n
      → seek S K (negsuc n) whence c ≡ ((0, some unexpected_eof), c)
  seek_before_start whence n c w l h = (seek_cases whence n c w l (omega arith)).3 h

  -- `Seek` forward by an int64 to a sum that is no int64 wraps to a negative one, and is refused
  -- with io.ErrUnexpectedEOF and changes nothing.
  pub seek_overflow :
      (whence n : ℕ) (c : Context S K)
      → whence < 3
      → n < two_63
      → base whence c < two_63
      → two_63 ≤ base whence c + n
      → seek S K (pos n) whence c ≡ ((0, some unexpected_eof), c)
  seek_overflow whence n c w l b h = (seek_cases whence n c w l b).1 h
