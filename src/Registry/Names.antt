-- ===== src/Registry/Names.antt =====
-- Names that differ by case only never meet in a registry, so the lookup that ignores case does not
-- depend on the order of iteration.
use safe_disk.Base.{
  Bool, true, false, ◌≡◌, refl, ap, sym, ◌∙◌, Option, none, some, List, [], ◌∷◌, Bool-cases,
  Option-cases, inl, inr,
}
use safe_disk.GoMap.{KeyEq, lookup, insert}
use safe_disk.GoMap.Laws.{eq_refl, lookup-insert_cases}
use safe_disk.Registry.{find_fold, get_or_nil_fold, contains_fold, register}

-- What `strings.EqualFold` is: an equivalence.
pub record FoldLaws {K : Type 0} (equal_fold : K → K → Bool) : Type 0 where
  pub fold_refl : (a : K) → equal_fold a a ≡ true
  pub fold_sym : (a b : K) → equal_fold a b ≡ true → equal_fold b a ≡ true
  pub fold_trans :
      (a b c : K) → equal_fold a b ≡ true → equal_fold b c ≡ true → equal_fold a c ≡ true

-- The entries' names are equal as soon as they are equal up to case.
pub record IsUnambiguous {K V : Type 0} (E : KeyEq K) (equal_fold : K → K → Bool) (r : List (K × V))
    : Type 0 where
  pub one_name :
      (a b : K) (v w : V)
      → lookup E a r ≡ some v
      → lookup E b r ≡ some w
      → equal_fold a b ≡ true
      → a ≡ b

module _ {K V : Type 0} (E : KeyEq K) (equal_fold : K → K → Bool) (laws : FoldLaws equal_fold) where
  -- An entry that matches is found, or another one that matches.
  find_fold-none :
      (name k : K) (v : V) (r : List (K × V))
      → find_fold equal_fold name r ≡ none
      → lookup E k r ≡ some v
      → equal_fold k name ≡ false
  find_fold-none name k v [] h l = cc
  find_fold-none name k v (x ∷ xs) h l = elim (Bool-cases (equal_fold x.0 name)) [
    | inl e ↦ let z = rw e at h in cc
    | inr e ↦ elim (Bool-cases (E.eq k x.0)) [
      | inl q ↦ ap (λ t. equal_fold t name) ((E.eq_iff k x.0).0 q) ∙ e
      | inr q ↦ find_fold-none name k v xs (rw e at h) (rw q at l)
    ]
  ]

  one_of_tail :
      (k : K) (x : K × V) (xs : List (K × V))
      → ((a : K) (w : V) → lookup E a (x ∷ xs) ≡ some w → equal_fold a k ≡ true → a ≡ k)
      → (a : K) (w : V) → lookup E a xs ≡ some w
      → equal_fold a k ≡ true
      → a ≡ k
  one_of_tail k x xs one a w m g = elim (Bool-cases (E.eq a x.0)) [
    | inl q ↦ one a x.1 (rw q refl) g
    | inr q ↦ one a w (rw q m) g
  ]

  -- A lookup that ignores case finds the entry with a matching name, wherever it stands in the order
  -- of iteration, if no other name is equal to it up to case.
  find_fold-lookup :
      (name k : K) (v : V) (r : List (K × V))
      → ((a : K) (w : V) → lookup E a r ≡ some w → equal_fold a k ≡ true → a ≡ k)
      → lookup E k r ≡ some v
      → equal_fold k name ≡ true
      → find_fold equal_fold name r ≡ some v
  find_fold-lookup name k v [] one l f = cc
  find_fold-lookup name k v (x ∷ xs) one l f = elim (Bool-cases (equal_fold x.0 name)) [
    | inl e ↦
        let same : x.0 ≡ k =
          one x.0 x.1 (rw (eq_refl E x.0) refl)
            (laws.fold_trans x.0 name k e (laws.fold_sym k name f)) in
        let here : E.eq k x.0 ≡ true = (E.eq_iff k x.0).1 (sym same) in rw e (rw here at l)
    | inr e ↦ elim (Bool-cases (E.eq k x.0)) [
      | inl q ↦ let z = (E.eq_iff k x.0).0 q in cc
      | inr q ↦ rw e (find_fold-lookup name k v xs (one_of_tail k x xs one) (rw q at l) f)
    ]
  ]

  -- `GetOrNilFold` finds the entry whose name is equal to the one asked for up to case, in
  -- whatever order the map is iterated, if no two names of the registry are equal up to case.
  pub get_or_nil_fold-lookup :
      (name k : K) (v : V) (r : List (K × V))
      → IsUnambiguous E equal_fold r
      → lookup E k r ≡ some v
      → equal_fold k name ≡ true
      → get_or_nil_fold E equal_fold name r ≡ some v
  unfolding get_or_nil_fold
  get_or_nil_fold-lookup name k v r u l f = elim (Option-cases (lookup E name r)) [
    | inl e ↦
        rw (e, get_or_nil_fold)
          (find_fold-lookup name k v r (λ a w m g. u.one_name a k w v m l g) l f)
    | inr (w, e) ↦
        let same : k ≡ name = u.one_name k name v w l e f in
        rw (e, get_or_nil_fold) (sym (ap (λ t. lookup E t r) same ∙ e) ∙ l)
  ]

  contains_fold-false :
      (name k : K) (v : V) (r : List (K × V))
      → contains_fold E equal_fold name r ≡ false
      → lookup E k r ≡ some v
      → equal_fold k name ≡ false
  unfolding contains_fold
  contains_fold-false name k v r h l = elim (Option-cases (lookup E name r)) [
    | inr (w, e) ↦ let z = rw e at h in cc
    | inl e ↦ elim (Option-cases (find_fold equal_fold name r)) [
      | inr (w, d) ↦ let z = rw (e, d) at h in cc
      | inl d ↦ find_fold-none name k v r d l
    ]
  ]

  -- A new name that is not equal to any other up to case.
  insert-IsUnambiguous :
      (name : K) (v : V) (r : List (K × V))
      → contains_fold E equal_fold name r ≡ false
      → IsUnambiguous E equal_fold r
      → IsUnambiguous E equal_fold (insert E name v r)
  insert-IsUnambiguous name v r h u = record {
    one_name = λ a b x y la lb f. elim (lookup-insert_cases E a name v r) [
      | inl p ↦ elim (lookup-insert_cases E b name v r) [
        | inl q ↦ p ∙ sym q
        | inr q ↦
            let apart = contains_fold-false name b y r h (sym q ∙ lb) in
            let together = laws.fold_sym a b f in let there = ap (λ t. equal_fold b t) p in cc
      ]
      | inr p ↦ elim (lookup-insert_cases E b name v r) [
        | inl q ↦
            let apart = contains_fold-false name a x r h (sym p ∙ la) in
            let there = ap (λ t. equal_fold a t) q in cc
        | inr q ↦ u.one_name a b x y (sym p ∙ la) (sym q ∙ lb) f
      ]
    ];
  }

module _ {K V : Type 0} (E : KeyEq K) (equal_fold : K → K → Bool) (laws : FoldLaws equal_fold)
    (is_empty : K → Bool) where
  -- `Register` keeps the names apart up to case, whether it accepts the factory or refuses it.
  pub register-IsUnambiguous :
      (f : Option (K × V)) (r : List (K × V))
      → IsUnambiguous E equal_fold r
      → IsUnambiguous E equal_fold (register E equal_fold is_empty f r).1
  unfolding register
  register-IsUnambiguous none r u = u
  register-IsUnambiguous (some f) r u = elim (Bool-cases (is_empty f.0)) [
    | inl e ↦ rw (e, register) u
    | inr e ↦ elim (Bool-cases (contains_fold E equal_fold f.0 r)) [
      | inl c ↦ rw (e, c, register) u
      | inr c ↦ rw (e, c, register) (insert-IsUnambiguous E equal_fold laws f.0 f.1 r c u)
    ]
  ]
