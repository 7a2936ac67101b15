-- ===== src/GoMap/Laws.antt =====
-- Lookups after an insertion and a deletion.
use safe_disk.Base.{
  true, false, ◌≡◌, ◌≢◌, refl, ap, sym, ◌∙◌, none, some, List, [], ◌∷◌, if◌then◌else◌, Bool-cases,
  ◌⊎◌, inl, inr,
}
use safe_disk.GoMap.{KeyEq, lookup, delete, insert}

module _ {ℓ} {K : Type ℓ} (E : KeyEq K) where
  pub eq_refl : (k : K) → E.eq k k ≡ true
  eq_refl k = (E.eq_iff k k).1 refl

  pub eq_other : (a b : K) → a ≢ b → E.eq a b ≡ false
  eq_other a b h = elim (Bool-cases (E.eq a b)) [
    | inl e ↦ absurd (h ((E.eq_iff a b).0 e))
    | inr e ↦ e
  ]

module _ {ℓ ℓv} {K : Type ℓ} {V : Type ℓv} (E : KeyEq K) where
  pub lookup-delete : (k : K) (xs : List (K × V)) → lookup E k (delete E k xs) ≡ none
  lookup-delete k [] = refl
  lookup-delete k (x ∷ xs) = elim (Bool-cases (E.eq k x.0)) [
    | inl e ↦ rw e (lookup-delete k xs)
    | inr e ↦ rw (e, e) (lookup-delete k xs)
  ]

  pub lookup-delete_other :
      (j k : K) (xs : List (K × V)) → j ≢ k → lookup E j (delete E k xs) ≡ lookup E j xs
  lookup-delete_other j k [] h = refl
  lookup-delete_other j k (x ∷ xs) h = elim (Bool-cases (E.eq k x.0)) [
    | inl e ↦
        let ne : E.eq j x.0 ≡ false = eq_other E j x.0 (λ q. h (q ∙ sym ((E.eq_iff k x.0).0 e))) in
        rw (e, ne) (lookup-delete_other j k xs h)
    | inr e ↦ rw e (ap (λ t. if E.eq j x.0 then some x.1 else t) (lookup-delete_other j k xs h))
  ]

  pub lookup-insert : (k : K) (v : V) (xs : List (K × V)) → lookup E k (insert E k v xs) ≡ some v
  lookup-insert k v xs = rw (eq_refl E k)

  pub lookup-insert_other :
      (j k : K) (v : V) (xs : List (K × V)) → j ≢ k → lookup E j (insert E k v xs) ≡ lookup E j xs
  lookup-insert_other j k v xs h = rw (eq_other E j k h) (lookup-delete_other j k xs h)

  -- A lookup after an insertion is of the new key or as before.
  pub lookup-insert_cases :
      (j k : K) (v : V) (xs : List (K × V))
      → (j ≡ k) ⊎ (lookup E j (insert E k v xs) ≡ lookup E j xs)
  lookup-insert_cases j k v xs = elim (Bool-cases (E.eq j k)) [
    | inl e ↦ inl ((E.eq_iff j k).0 e)
    | inr e ↦ inr (lookup-insert_other j k v xs (λ q. let z = (E.eq_iff j k).1 q in cc))
  ]
