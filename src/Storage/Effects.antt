-- ===== src/Storage/Effects.antt =====
-- What a write does to a file, byte by byte, and how two writes in a row join.
use safe_disk.Base.{ℕ, ◌+◌, ◌-◌, ◌≤◌, ◌<◌, max, ◌≡◌, refl, ap, ◌∙◌, dec_lt, arith}
use safe_disk.Storage.Types.{Storage}

-- The bytes and the size are as before; the cursor may have moved.
pub record SameBytes (S : Storage) (f g : S.File) : Type 0 where
  pub size_eq : S.size g ≡ S.size f
  pub bytes : (i : ℕ) → S.byte g i ≡ S.byte f i

-- `g` is `f` with the `n` bytes `q 0`, `q 1`, … put at `start`.
pub record Splice (S : Storage) (f : S.File) (start n : ℕ) (q : ℕ → ℕ) (g : S.File) : Type 0 where
  pub size_eq : S.size g ≡ max (S.size f) (start + n)
  pub inside : (i : ℕ) → i < n → S.byte g (start + i) ≡ q i
  pub below : (i : ℕ) → i < start → S.byte g i ≡ S.byte f i
  pub above : (i : ℕ) → start + n ≤ i → S.byte g i ≡ S.byte f i

module _ (S : Storage) where
  pub SameBytes-refl : (f : S.File) → SameBytes S f f
  SameBytes-refl f = record { size_eq = refl; bytes = λ i. refl }

  pub SameBytes-trans : (f g h : S.File) → SameBytes S f g → SameBytes S g h → SameBytes S f h
  SameBytes-trans f g h a b = record {
    size_eq = b.size_eq ∙ a.size_eq;
    bytes = λ i. b.bytes i ∙ a.bytes i;
  }

  pub Splice-empty :
      (f : S.File) (start : ℕ) (q : ℕ → ℕ) → start ≤ S.size f → Splice S f start 0 q f
  Splice-empty f start q h = record {
    size_eq = omega arith;
    inside = λ i l. absurd (omega arith);
    below = λ i l. refl;
    above = λ i l. refl;
  }

  -- Only the first `n` bytes of `q` matter.
  pub Splice-same :
      (f g : S.File) (start n : ℕ) (q r : ℕ → ℕ)
      → ((i : ℕ) → i < n → q i ≡ r i)
      → Splice S f start n q g
      → Splice S f start n r g
  Splice-same f g start n q r same s = record {
    size_eq = s.size_eq;
    inside = λ i l. s.inside i l ∙ same i l;
    below = s.below;
    above = s.above;
  }

  pub SameBytes-Splice :
      (f g h : S.File) (start n : ℕ) (q : ℕ → ℕ)
      → SameBytes S f g
      → Splice S g start n q h
      → Splice S f start n q h
  SameBytes-Splice f g h start n q a s = record {
    size_eq = omega (arith, s.size_eq, a.size_eq);
    inside = s.inside;
    below = λ i l. s.below i l ∙ a.bytes i;
    above = λ i l. s.above i l ∙ a.bytes i;
  }

  join_inside :
      (f g h : S.File) (start n m : ℕ) (q : ℕ → ℕ)
      → Splice S f start n q g
      → Splice S g (start + n) m (λ i. q (n + i)) h
      → (i : ℕ) → i < n + m
      → S.byte h (start + i) ≡ q i
  join_inside f g h start n m q a b i l = elim (dec_lt i n) [
    | yes k ↦ b.below (start + i) (omega arith) ∙ a.inside i k
    | no k ↦
        let e : start + i ≡ start + n + (i - n) = omega arith in
        let d : n + (i - n) ≡ i = omega arith in
        ap (λ j. S.byte h j) e ∙ b.inside (i - n) (omega arith) ∙ ap q d
  ]

  -- Two writes, the second where the first stopped, are one.
  pub Splice-join :
      (f g h : S.File) (start n m : ℕ) (q : ℕ → ℕ)
      → Splice S f start n q g
      → Splice S g (start + n) m (λ i. q (n + i)) h
      → Splice S f start (n + m) q h
  Splice-join f g h start n m q a b = record {
    size_eq = omega (arith, a.size_eq, b.size_eq);
    inside = join_inside f g h start n m q a b;
    below = λ i l. b.below i (omega arith) ∙ a.below i l;
    above = λ i l. b.above i (omega arith) ∙ a.above i (omega arith);
  }

  -- The written bytes by their place in the file.
  pub Splice-at :
      (f g : S.File) (start n : ℕ) (q : ℕ → ℕ)
      → Splice S f start n q g
      → (i : ℕ) → start ≤ i
      → i < start + n
      → S.byte g i ≡ q (i - start)
  Splice-at f g start n q s i lo hi =
      let e : i ≡ start + (i - start) = omega arith in
      ap (λ j. S.byte g j) e ∙ s.inside (i - start) (omega arith)
