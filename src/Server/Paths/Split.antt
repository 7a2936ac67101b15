-- ===== src/Server/Paths/Split.antt =====
-- Splitting, joining and trimming of paths.
use safe_disk.Base.{
  ℕ, true, false, ◌&&◌, ◌||◌, ◌==◌, ==_iff, ◌≡◌, refl, ap, sym, ◌∙◌, List, [], ◌∷◌, ◌++◌,
  Bool-cases, inl, inr, append_assoc, append-nil,
}
use safe_disk.Base.Strings.{Str, same, is_empty, and_true}
use safe_disk.Server.Paths.{
  slash, dot, dots, push_head, split, join, trim_left, trim_right, trim, keep, is_segment,
  valid_url_segments, clean_parts,
}
use mathlib.Core.List.{reverse, reverse-cons}

split_cons : (s : Str) → (h : Str) × (t : List Str) × (split s ≡ h ∷ t)
split_cons [] = ([], [], refl)
split_cons (x ∷ xs) = elim (Bool-cases (x == slash)) [
  | inl e ↦ ([], split xs, rw (e, split) refl)
  | inr e ↦ let (h, t, q) = split_cons xs in (x ∷ h, t, rw (e, split) (rw (q, push_head) refl))
]

pub split-append : (a b : Str) → split (a ++ slash ∷ b) ≡ split a ++ split b
split-append [] b = refl
split-append (x ∷ xs) b = elim (Bool-cases (x == slash)) [
  | inl e ↦ rw (e, split) (ap (λ l. [] ∷ l) (split-append xs b))
  | inr e ↦
      let (h, t, q) = split_cons xs in
      rw (e, split)
        (ap (push_head x) (split-append xs b ∙ ap (λ l. l ++ split b) q)
          ∙ ap (λ l. push_head x l ++ split b) (sym q))
]

join_push : (x : ℕ) (h : Str) (t : List Str) → join (push_head x (h ∷ t)) ≡ x ∷ join (h ∷ t)
join_push x h [] = refl
join_push x h (s ∷ t) = refl

join_empty : (h : Str) (t : List Str) → join ([] ∷ h ∷ t) ≡ slash ∷ join (h ∷ t)
join_empty h t = refl

pub join-split : (s : Str) → join (split s) ≡ s
join-split [] = refl
join-split (x ∷ xs) = elim (Bool-cases (x == slash)) [
  | inl e ↦
      let (h, t, q) = split_cons xs in
      rw (e, split)
        (ap (λ l. join ([] ∷ l)) q
          ∙ ap (λ l. slash ∷ join l) (sym q)
          ∙ ap (λ l. slash ∷ l) (join-split xs)
          ∙ ap (λ c. c ∷ xs) (sym ((==_iff x slash).0 e)))
  | inr e ↦
      let (h, t, q) = split_cons xs in
      rw (e, split)
        (ap (λ l. join (push_head x l)) q
          ∙ join_push x h t
          ∙ ap (λ l. x ∷ join l) (sym q)
          ∙ ap (λ l. x ∷ l) (join-split xs))
]

pub trim_right-append :
    (a b : Str) (y : ℕ) (ys : Str)
    → trim_right b ≡ y ∷ ys
    → (z : ℕ) × (zs : Str) × (trim_right (a ++ b) ≡ z ∷ zs)
      × (trim_right (a ++ b) ≡ a ++ trim_right b)
trim_right-append [] b y ys h = (y, ys, h, refl)
trim_right-append (x ∷ a) b y ys h =
    let (z, zs, p, q) = trim_right-append a b y ys h in
    (x, z ∷ zs, ap (keep x) p, ap (keep x) p ∙ ap (λ l. x ∷ l) (sym p ∙ q))

pub valid-append :
    (a b : List Str) → valid_url_segments (a ++ b) ≡ (valid_url_segments a && valid_url_segments b)
valid-append [] b = refl
valid-append (s ∷ a) b = elim (Bool-cases (is_segment s)) [
  | inl e ↦ rw e (valid-append a b)
  | inr e ↦ rw e refl
]

segment_kept :
    (s : Str) → is_segment s ≡ true → ((is_empty s || same s dot) ≡ false) × (same s dots ≡ false)
segment_kept s h = elim (Bool-cases (is_empty s)) [
  | inl e ↦ let z = rw e at h in cc
  | inr e ↦ elim (Bool-cases (same s dot)) [
    | inl d ↦ let z = rw (e, d) at h in cc
    | inr d ↦ elim (Bool-cases (same s dots)) [
      | inl b ↦ let z = rw (e, d, b) at h in cc
      | inr b ↦ (rw (e, d) refl, b)
    ]
  ]
]

-- `path.Clean` keeps elements that are no dots and not empty.
pub clean_parts-valid :
    (kept parts : List Str)
    → valid_url_segments parts ≡ true
    → clean_parts false kept parts ≡ reverse kept ++ parts
clean_parts-valid kept [] h = sym (append-nil (reverse kept))
clean_parts-valid kept (s ∷ ss) h =
    let (first, rest) = and_true (is_segment s) (valid_url_segments ss) h in
    let (full, apart) = segment_kept s first in
    rw (full, apart, clean_parts)
      (clean_parts-valid (s ∷ kept) ss rest
        ∙ ap (λ l. l ++ ss) (reverse-cons s kept)
        ∙ append_assoc (reverse kept) (s ∷ []) ss)

-- Trimming again changes nothing.
trim_left-keeps : (s : Str) → trim_left (trim_right (trim_left s)) ≡ trim_right (trim_left s)
trim_left-keeps [] = refl
trim_left-keeps (x ∷ xs) = elim (Bool-cases (x == slash)) [
  | inl e ↦ rw (e, trim_left) (trim_left-keeps xs)
  | inr e ↦ rw (e, trim_left) (left_kept x (trim_right xs) e)
]
  where
    left_kept : (x : ℕ) (t : Str) → (x == slash) ≡ false → trim_left (keep x t) ≡ keep x t
    left_kept x [] e = rw (e, keep) (rw (e, trim_left) refl)
    left_kept x (y ∷ ys) e = rw (e, trim_left) refl

trim_right-twice : (s : Str) → trim_right (trim_right s) ≡ trim_right s
trim_right-twice [] = refl
trim_right-twice (x ∷ xs) = right_kept x (trim_right xs) (trim_right-twice xs)
  where
    right_kept : (x : ℕ) (t : Str) → trim_right t ≡ t → trim_right (keep x t) ≡ keep x t
    right_kept x [] e = elim (Bool-cases (x == slash)) [
      | inl q ↦ rw (q, keep) refl
      | inr q ↦ rw (q, keep) (rw (q, keep) refl)
    ]
    right_kept x (y ∷ ys) e = ap (keep x) e

pub trim-twice : (s : Str) → trim (trim s) ≡ trim s
trim-twice s = ap trim_right (trim_left-keeps s) ∙ trim_right-twice (trim_left s)
