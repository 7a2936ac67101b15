-- ===== src/Server/Paths/Below.antt =====
-- A name that `resolve` accepts stays below the base, whatever it is.
use safe_disk.Base.{
  ℕ, true, false, ◌&&◌, ◌==◌, ◌≡◌, refl, ap, sym, ◌∙◌, Option, none, some, [], ◌∷◌, ◌++◌,
  Bool-cases, Option-cases, if◌then◌else◌, inl, inr, append-nil,
}
use safe_disk.Base.Strings.{Str}
use safe_disk.Server.Paths.{
  slash, split, join, trim_left, trim_right, trim, keep, valid_url_segments, parts_of,
  split_url_path, joined, clean_trimmed, clean_relative_path, or_dot, clean_path, join_secure_path,
  joined_below, resolve,
}
use safe_disk.Server.Paths.Split.{
  split-append, join-split, trim_right-append, valid-append, clean_parts-valid, trim-twice,
}

text_made : (a b : Str) → ◌≡◌ {A = Option Str} (some a) (some b) → a ≡ b
text_made a b h = cc

clean_trimmed-some :
    (t r : Str) → clean_trimmed t ≡ some r → (r ≡ t) × (valid_url_segments (parts_of t) ≡ true)
clean_trimmed-some [] r h = (text_made r [] (sym h), refl)
clean_trimmed-some (x ∷ xs) r h = elim (Bool-cases (valid_url_segments (split (x ∷ xs)))) [
  | inl e ↦
      let z = rw (e, joined) at h in
      (sym (text_made (join (split (x ∷ xs))) r z) ∙ join-split (x ∷ xs), e)
  | inr e ↦ let z = rw (e, joined) at h in cc
]

head_kept :
    (y : ℕ) (t : Str) (x : ℕ) (xs : Str)
    → keep y t ≡ x ∷ xs
    → (y == slash) ≡ false
    → (x == slash) ≡ false
head_kept y [] x xs h e =
    let z : y ∷ [] ≡ x ∷ xs = rw (e, keep) at h in let q : y ≡ x = cc in rw q at e
head_kept y (z ∷ zs) x xs h e = let q : y ≡ x = cc in rw q at e

first_kept : (s : Str) (x : ℕ) (xs : Str) → trim s ≡ x ∷ xs → (x == slash) ≡ false
first_kept [] x xs h = cc
first_kept (y ∷ ys) x xs h = elim (Bool-cases (y == slash)) [
  | inl e ↦ first_kept ys x xs (rw (e, trim_left) at h)
  | inr e ↦ head_kept y (trim_right ys) x xs (rw (e, trim_left) at h) e
]

plain_left : (x : ℕ) (xs : Str) → (x == slash) ≡ false → trim_left (x ∷ xs) ≡ x ∷ xs
plain_left x xs e = rw (e, trim_left) refl

plain_right : (x : ℕ) (xs : Str) → trim (x ∷ xs) ≡ x ∷ xs → trim_right (x ∷ xs) ≡ x ∷ xs
plain_right x xs h = ap trim_right (sym (plain_left x xs (first_kept (x ∷ xs) x xs h))) ∙ h

-- `path.Clean` of a path of good elements.
clean_path-valid :
    (x : ℕ) (xs : Str)
    → (x == slash) ≡ false
    → valid_url_segments (split (x ∷ xs)) ≡ true
    → clean_path (x ∷ xs) ≡ x ∷ xs
clean_path-valid x xs e h =
    rw (e, clean_path)
      (ap or_dot (ap join (clean_parts-valid [] (split (x ∷ xs)) h) ∙ join-split (x ∷ xs)))

join_secure_path-parts :
    (b t : Str)
    → trim b ≡ b
    → trim t ≡ t
    → valid_url_segments (parts_of b) ≡ true
    → valid_url_segments (parts_of t) ≡ true
    → (trim (join_secure_path b t) ≡ join_secure_path b t)
      × (parts_of (join_secure_path b t) ≡ parts_of b ++ parts_of t)
join_secure_path-parts [] t hb ht vb vt = (ht, refl)
join_secure_path-parts (x ∷ xs) [] hb ht vb vt = (hb, sym (append-nil (split (x ∷ xs))))
join_secure_path-parts (x ∷ xs) (y ∷ ys) hb ht vb vt =
    let whole = (x ∷ xs) ++ slash ∷ (y ∷ ys) in
    let e = first_kept (x ∷ xs) x xs hb in
    let parts = split-append (x ∷ xs) (y ∷ ys) in
    let good : valid_url_segments (split whole) ≡ true =
      ap valid_url_segments parts
      ∙ valid-append (split (x ∷ xs)) (split (y ∷ ys))
      ∙ ap (λ v. v && valid_url_segments (split (y ∷ ys))) vb
      ∙ vt in
    let clean : clean_path whole ≡ whole = clean_path-valid x (xs ++ slash ∷ (y ∷ ys)) e good in
    let tail : trim_right (slash ∷ y ∷ ys) ≡ slash ∷ y ∷ ys =
      ap (keep slash) (plain_right y ys ht) in
    let (_, _, _, right) = trim_right-append (x ∷ xs) (slash ∷ y ∷ ys) slash (y ∷ ys) tail in
    let trimmed : trim whole ≡ whole =
      ap trim_right (plain_left x (xs ++ slash ∷ (y ∷ ys)) e)
      ∙ right
      ∙ ap (λ l. (x ∷ xs) ++ l) tail in
    (ap trim clean ∙ trimmed ∙ sym clean, ap parts_of clean ∙ parts)

-- If `resolve` accepts a name, over a base that cleanRelativePath leaves as it is, the path has
-- the elements of the base with those of the name behind them, and none of them is empty, a dot,
-- two dots, or has a backslash or a zero byte.
pub resolve-below :
    (base name p : Str)
    → clean_relative_path base ≡ some base
    → resolve base name ≡ some p
    → (split_url_path p ≡ split_url_path base ++ split_url_path name)
      × (valid_url_segments (split_url_path p) ≡ true)
resolve-below base name p clean found = elim (Option-cases (clean_relative_path name)) [
  | inl e ↦ let z = rw (e, joined_below) at found in cc
  | inr (r, e) ↦
      let made : join_secure_path base r ≡ p =
        text_made (join_secure_path base r) p (rw (e, joined_below) at found) in
      let (same_base, vb) = clean_trimmed-some (trim base) base clean in
      let (same_rel, vt) = clean_trimmed-some (trim name) r e in
      let at_base : parts_of (trim base) ≡ parts_of base = ap parts_of (sym same_base) in
      let at_rel : parts_of (trim name) ≡ parts_of r = ap parts_of (sym same_rel) in
      let (t, parts) =
        join_secure_path-parts base r (sym same_base)
          (ap trim same_rel ∙ trim-twice name ∙ sym same_rel)
          (ap valid_url_segments (sym at_base) ∙ vb) (ap valid_url_segments (sym at_rel) ∙ vt) in
      let all : split_url_path p ≡ split_url_path base ++ split_url_path name =
        ap split_url_path (sym made)
        ∙ ap parts_of t
        ∙ parts
        ∙ ap (λ l. l ++ parts_of r) (sym at_base)
        ∙ ap (λ l. split_url_path base ++ l) (sym at_rel) in
      (
        all,
        ap valid_url_segments all
            ∙ valid-append (split_url_path base) (split_url_path name)
            ∙ ap (λ v. v && valid_url_segments (split_url_path name)) vb
            ∙ vt,
      )
]

-- here
pub clean_relative_path-cases :
    (v : Str)
    → clean_relative_path v
      ≡ (if valid_url_segments (split_url_path v) then some (trim v) else none)
clean_relative_path-cases v = clean_trimmed-cases (trim v)
  where
    clean_trimmed-cases :
        (t : Str) → clean_trimmed t ≡ (if valid_url_segments (parts_of t) then some t else none)
    clean_trimmed-cases [] = refl
    clean_trimmed-cases (x ∷ xs) = elim (Bool-cases (valid_url_segments (split (x ∷ xs)))) [
      | inl e ↦ rw (e, joined) (ap some (join-split (x ∷ xs)))
      | inr e ↦ rw (e, joined) refl
    ]
