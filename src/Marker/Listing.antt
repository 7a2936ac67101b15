-- ===== src/Marker/Listing.antt =====
-- The markers that a recovery is handed, and the one that it takes.
use safe_disk.Base.{
  ℕ, zero, suc, subst, ◌≤◌, ◌≡◌, refl, ap, sym, ◌∙◌, Bool, true, false, ◌||◌, ◌==◌, Option, none,
  some, List, [], ◌∷◌, ◌++◌, length, get_elem?, ltb, ltb→le, arith, Bool-cases, Option-cases, inl,
  inr,
}
use safe_disk.Base.Strings.{Str, same, same_refl, same_eq}
use safe_disk.Marker.{
  Marker, Entry, is_convert, validate_listed_marker, json, prepend, is_skipped, list_one,
  list_convert_readable, list_convert_markers, is_member, op_ids, recovers_from, first_convert,
  choose_marker,
}

-- A marker that takes part in recovery: a conversion's, of this version, with a usable id.
pub record IsListed (m : Marker) : Type 0 where
  pub of_convert : is_convert m.type ≡ true
  pub accepted : validate_listed_marker m ≡ none

-- Every marker of a list is one.
abbrev pub AreListed : List Marker → Type 0
AreListed ms = (i : ℕ) (m : Marker) → get_elem? ms i ≡ some m → IsListed m

AreListed-cons : (m : Marker) (ms : List Marker) → IsListed m → AreListed ms → AreListed (m ∷ ms)
AreListed-cons m ms x xs zero n h = let e : m ≡ n = cc in subst IsListed e x
AreListed-cons m ms x xs (suc i) n h = xs i n h

prepend-AreListed :
    (m : Marker) (rest : Option (List Marker)) (ms : List Marker)
    → IsListed m
    → ((ns : List Marker) → rest ≡ some ns → AreListed ns)
    → prepend m rest ≡ some ms
    → AreListed ms
prepend-AreListed m none ms x all h = cc
prepend-AreListed m (some ns) ms x all h =
    let e : m ∷ ns ≡ ms = cc in subst AreListed e (AreListed-cons m ns x (all ns refl))

module _ (ext : Str → Str) where
  list_convert_readable-AreListed :
      (e : Entry) (content : Option Marker) (rest : Option (List Marker)) (ms : List Marker)
      → ((ns : List Marker) → rest ≡ some ns → AreListed ns)
      → list_convert_readable ext e content rest ≡ some ms
      → AreListed ms
  list_convert_readable-AreListed e none rest ms all h = cc
  list_convert_readable-AreListed e (some m) rest ms all h = elim (Bool-cases (is_convert m.type)) [
    | inr c ↦ all ms (rw c at h)
    | inl c ↦ elim (Option-cases (validate_listed_marker m)) [
      | inr (x, d) ↦ let z = rw (c, list_one, d) at h in cc
      | inl d ↦ elim (Bool-cases (same e.name (m.op_id ++ json))) [
        | inr s ↦ let z = rw (c, list_one, d, s) at h in cc
        | inl s ↦
            prepend-AreListed m rest ms (record { of_convert = c; accepted = d }) all
              (rw (c, list_one, d, s) at h)
      ]
    ]
  ]

  -- The markers that `listConvertMarkers` returns are of conversions only, each accepted by
  -- `validateListedMarker`, whatever else the directory holds.
  pub list_convert_markers-AreListed :
      (es : List Entry) (ms : List Marker) → list_convert_markers ext es ≡ some ms → AreListed ms
  unfolding list_convert_markers
  list_convert_markers-AreListed [] ms h = let e : [] ≡ ms = cc in subst AreListed e (λ i m g. cc)
  list_convert_markers-AreListed (e ∷ es) ms h = elim (Bool-cases (is_skipped ext e)) [
    | inl s ↦ list_convert_markers-AreListed es ms (rw s at h)
    | inr s ↦
        list_convert_readable-AreListed e e.content (list_convert_markers ext es) ms
          (λ ns q. list_convert_markers-AreListed es ns q) (rw s at h)
  ]

some_eq : (x m : Marker) → some x ≡ some m → x ≡ m
some_eq x m h = cc

or_true : (a b : Bool) → b ≡ true → (a || b) ≡ true
or_true true b h = refl
or_true false b h = h

only : (a b : Bool) → b ≡ false → (a || b) ≡ true → a ≡ true
only true b h e = refl
only false b h e = cc

is_member-op_ids :
    (ms : List Marker) (i : ℕ) (m : Marker)
    → get_elem? ms i ≡ some m
    → is_member m.op_id (op_ids ms) ≡ true
is_member-op_ids [] i m h = cc
is_member-op_ids (x ∷ ms) zero m h = elim (Bool-cases (is_member x.op_id (op_ids ms))) [
  | inl e ↦ rw e (rw (ap (λ t. t.op_id) (some_eq x m h)) at e)
  | inr e ↦ rw e (
      ap (λ t. t || is_member m.op_id (op_ids ms))
        (ap (λ t. same m.op_id t.op_id) (some_eq x m h) ∙ same_refl m.op_id))
]
is_member-op_ids (x ∷ ms) (suc i) m h = elim (Bool-cases (is_member x.op_id (op_ids ms))) [
  | inl e ↦ rw e (is_member-op_ids ms i m h)
  | inr e ↦ rw e (or_true (same m.op_id x.op_id) _ (is_member-op_ids ms i m h))
]

one_id :
    (ids : List Str) (a b : Str)
    → length ids ≤ 1
    → is_member a ids ≡ true
    → is_member b ids ≡ true
    → a ≡ b
one_id [] a b l p q = cc
one_id (x ∷ []) a b l p q = same_eq a x (only _ _ refl p) ∙ sym (same_eq b x (only _ _ refl q))
one_id (x ∷ y ∷ ids) a b l p q = absurd (omega arith)

first_convert-type :
    (ms : List Marker) (m : Marker)
    → first_convert ms ≡ recovers_from m
    → (is_convert m.type ≡ true) × ((i : ℕ) × (get_elem? ms i ≡ some m))
first_convert-type [] m h = cc
first_convert-type (x ∷ ms) m h = elim (Bool-cases (is_convert x.type)) [
  | inl e ↦
      let q : x ≡ m = (let z = rw e at h in cc) in
      (sym (ap (λ t. is_convert t.type) q) ∙ e, (0, ap some q))
  | inr e ↦ let r = first_convert-type ms m (rw e at h) in (r.0, (suc r.1.0, r.1.1))
]

-- If `recoverConvert` recovers from a marker, then it is one of those found, it is of a
-- conversion, and every marker found has its operation id.
pub choose_marker-first :
    (ms : List Marker) (m n : Marker) (j : ℕ)
    → choose_marker ms ≡ recovers_from m
    → get_elem? ms j ≡ some n
    → (n.op_id ≡ m.op_id) × (is_convert m.type ≡ true) × ((i : ℕ) × (get_elem? ms i ≡ some m))
unfolding choose_marker
choose_marker-first ms m n j h g = elim (Bool-cases (length ms == 0)) [
  | inl e ↦ let z = rw (e, choose_marker) at h in cc
  | inr e ↦ elim (Bool-cases (ltb 1 (length (op_ids ms)))) [
    | inl s ↦ let z = rw (e, s, choose_marker) at h in cc
    | inr s ↦
        let r = first_convert-type ms m (rw (e, s, choose_marker) at h) in
        (
          one_id (op_ids ms) n.op_id m.op_id (ltb→le _ _ s) (is_member-op_ids ms j n g)
              (is_member-op_ids ms r.1.0 m r.1.1),
          r.0,
          r.1,
        )
  ]
]
