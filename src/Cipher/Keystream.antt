-- ===== src/Cipher/Keystream.antt =====
-- The exclusive or of a run of bytes with a keystream, from a position on.
use safe_disk.Base.{
  ℕ, zero, suc, ◌+◌, ◌<◌, ◌≡◌, refl, ap, sym, ◌∙◌, List, [], ◌∷◌, ◌++◌, bit_xor, length, get_or,
  take, drop, arith, ◌≤◌, length-take, take-append-drop,
}
use safe_disk.Base.Bits.{bit_xor-bit_xor}

module _ (stream : ℕ → ℕ) where
  unfoldable pub xor_at : ℕ → List ℕ → List ℕ
  xor_at pos [] = []
  xor_at pos (x ∷ xs) = bit_xor x (stream pos) ∷ xor_at (pos + 1) xs

  pub length-xor_at : (pos : ℕ) (xs : List ℕ) → length (xor_at pos xs) ≡ length xs
  unfolding xor_at
  length-xor_at pos [] = refl
  length-xor_at pos (x ∷ xs) = ap suc (length-xor_at (pos + 1) xs)

  pub get_or-xor_at :
      (pos : ℕ) (xs : List ℕ) (i : ℕ)
      → i < length xs
      → get_or (xor_at pos xs) i 0 ≡ bit_xor (get_or xs i 0) (stream (pos + i))
  unfolding xor_at
  get_or-xor_at pos [] i h = absurd (omega arith)
  get_or-xor_at pos (x ∷ xs) zero h = ap (λ j. bit_xor x (stream j)) (omega arith)
  get_or-xor_at pos (x ∷ xs) (suc i) h =
      let e : pos + 1 + i ≡ pos + suc i = omega arith in
      get_or-xor_at (pos + 1) xs i (omega arith) ∙ ap (λ j. bit_xor (get_or xs i 0) (stream j)) e

  pub xor_at-append :
      (pos : ℕ) (xs ys : List ℕ)
      → xor_at pos (xs ++ ys) ≡ xor_at pos xs ++ xor_at (pos + length xs) ys
  unfolding xor_at
  xor_at-append pos [] ys = ap (λ j. xor_at j ys) (omega arith)
  xor_at-append pos (x ∷ xs) ys =
      let e : pos + 1 + length xs ≡ pos + suc (length xs) = omega arith in
      ap (λ l. bit_xor x (stream pos) ∷ l)
        (xor_at-append (pos + 1) xs ys ∙ ap (λ j. xor_at (pos + 1) xs ++ xor_at j ys) e)

  -- Encrypting twice at one position gives the bytes back.
  pub xor_at-xor_at : (pos : ℕ) (xs : List ℕ) → xor_at pos (xor_at pos xs) ≡ xs
  unfolding xor_at
  xor_at-xor_at pos [] = refl
  xor_at-xor_at pos (x ∷ xs) = rw (bit_xor-bit_xor, xor_at-xor_at (pos + 1) xs)

  -- A run is a piece and what is behind it.
  pub xor_at-take-drop :
      (pos n : ℕ) (xs : List ℕ)
      → n ≤ length xs
      → xor_at pos (take n xs) ++ xor_at (pos + n) (drop n xs) ≡ xor_at pos xs
  xor_at-take-drop pos n xs h =
      let len : pos + n ≡ pos + length (take n xs) = omega (arith, length-take n xs) in
      ap (λ j. xor_at pos (take n xs) ++ xor_at j (drop n xs)) len
      ∙ sym (xor_at-append pos (take n xs) (drop n xs))
      ∙ ap (xor_at pos) (take-append-drop n xs)

-- Two keystreams that agree, place by place, are one for the run.
pub xor_at_same :
    (stream other : ℕ → ℕ) (pos at : ℕ) (xs : List ℕ)
    → ((i : ℕ) → i < length xs → stream (pos + i) ≡ other (at + i))
    → xor_at stream pos xs ≡ xor_at other at xs
unfolding xor_at
xor_at_same stream other pos at [] h = refl
xor_at_same stream other pos at (x ∷ xs) h =
    let here : pos + 0 ≡ pos = omega arith in
    let there : at + 0 ≡ at = omega arith in
    rw (
      ap stream (sym here) ∙ h 0 (omega arith) ∙ ap other there,
      xor_at_same stream other (pos + 1) (at + 1) xs (λ i l.
          let e : pos + 1 + i ≡ pos + suc i = omega arith in
          let d : at + suc i ≡ at + 1 + i = omega arith in
          ap stream e ∙ h (suc i) (omega arith) ∙ ap other d),
    )

-- `subtle.XORBytes` of two runs of the same length.
unfoldable pub xor_bytes : List ℕ → List ℕ → List ℕ
xor_bytes [] ys = []
xor_bytes (x ∷ xs) [] = []
xor_bytes (x ∷ xs) (y ∷ ys) = bit_xor x y ∷ xor_bytes xs ys

-- With a block that holds the keystream of the place, it is the same thing.
pub xor_bytes-xor_at :
    (stream : ℕ → ℕ) (pos : ℕ) (xs ys : List ℕ)
    → length xs ≡ length ys
    → ((i : ℕ) → i < length xs → get_or ys i 0 ≡ stream (pos + i))
    → xor_bytes xs ys ≡ xor_at stream pos xs
unfolding xor_bytes xor_at
xor_bytes-xor_at stream pos [] ys e h = refl
xor_bytes-xor_at stream pos (x ∷ xs) [] e h = absurd (omega arith)
xor_bytes-xor_at stream pos (x ∷ xs) (y ∷ ys) e h =
    let first : pos + 0 ≡ pos = omega arith in
    rw (
      h 0 (omega arith) ∙ ap stream first,
      xor_bytes-xor_at stream (pos + 1) xs ys (omega arith) (λ i l.
          let next : pos + suc i ≡ pos + 1 + i = omega arith in
          h (suc i) (omega arith) ∙ ap stream next),
    )
