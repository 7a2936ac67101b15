-- ===== src/IdStore/Handles.antt =====
-- A handle stands for the item it was given out for until that item is removed, and no handle is
-- given out twice.
use safe_disk.Base.{
  ℕ, suc, ◌+◌, ◌≤◌, ◌<◌, ◌≡◌, ◌≢◌, refl, sym, ◌∙◌, Bool, true, false, ◌==◌, none, some, List, [],
  ◌∷◌, zero, length, get_elem?, arith, Bool-cases, Option-cases, inl, inr,
}
use safe_disk.Base.Int.{two_63}
use safe_disk.GoMap.{lookup, is_some}
use safe_disk.GoMap.Laws.{
  lookup-delete, lookup-delete_other, lookup-insert, lookup-insert_other, lookup-insert_cases,
}
use safe_disk.IdStore.{IdStore, id_eq, add, get, len, remove, taken, left, take_where}

-- The ids in use are below the counter, which has not run over.
pub record IsValid {T : Type 0} (s : IdStore T) : Type 0 where
  pub below : (id : ℕ) (v : T) → get id s ≡ some v → id < s.next_id
  pub bound : s.next_id ≤ two_63

-- The steps of a store: what the methods that change it do.
pub data IsStep {T : Type 0} : IdStore T → IdStore T → Type 0 where
  adds : (item : T) (s : IdStore T) → s.next_id < two_63 → IsStep s (add item s).1
  removes : (id : ℕ) (s : IdStore T) → IsStep s (remove id s).1
  takes : (p : T → Bool) (s : IdStore T) → IsStep s (take_where p s).1

-- Any number of steps.
pub data IsLater {T : Type 0} : IdStore T → IdStore T → Type 0 where
  now : (s : IdStore T) → IsLater s s
  after : (s t u : IdStore T) → IsLater s t → IsStep t u → IsLater s u

module _ {T : Type 0} where
  lookup-left :
      (p : T → Bool) (id : ℕ) (v : T) (xs : List (ℕ × T))
      → lookup id_eq id (left p xs) ≡ some v
      → p v ≡ false
  lookup-left p id v [] h = cc
  lookup-left p id v (x ∷ xs) h = elim (Bool-cases (p x.1)) [
    | inl e ↦ lookup-left p id v xs (rw e at h)
    | inr e ↦ elim (Bool-cases (id == x.0)) [
      | inl q ↦ let z = rw (e, q) at h in cc
      | inr q ↦ lookup-left p id v xs (rw (e, q) at h)
    ]
  ]

  -- `Add` to a valid store whose counter is below 2^63 gives an id that was not in use, that is
  -- found with its item, and that changes no other; the store stays valid.
  pub add-get :
      (item : T) (s : IdStore T)
      → IsValid s
      → s.next_id < two_63
      → let r = add item s in
        (get r.0 s ≡ none)
        × (get r.0 r.1 ≡ some item)
        × ((id : ℕ) → id ≢ r.0 → get id r.1 ≡ get id s)
        × IsValid r.1
  unfolding add
  add-get item s v h = (
    elim (Option-cases (lookup id_eq s.next_id s.items)) [
      | inl e ↦ e
      | inr (x, e) ↦ absurd (omega (arith, v.below s.next_id x e))
    ],
    lookup-insert id_eq s.next_id item s.items,
    λ id n. lookup-insert_other id_eq id s.next_id item s.items n,
    record {
      below = λ id x e. elim (lookup-insert_cases id_eq id s.next_id item s.items) [
        | inl q ↦ omega arith
        | inr q ↦ omega (arith, v.below id x (sym q ∙ e))
      ];
      bound = omega arith;
    },
  )

  -- `Remove` reports whether the id was in use, takes it out and no other, and leaves the
  -- counter.
  pub remove-get :
      (id : ℕ) (s : IdStore T)
      → let r = remove id s in
        (r.0 ≡ is_some (get id s))
        × (get id r.1 ≡ none)
        × ((j : ℕ) → j ≢ id → get j r.1 ≡ get j s)
        × (r.1.next_id ≡ s.next_id)
  unfolding remove
  remove-get id s = elim (Option-cases (lookup id_eq id s.items)) [
    | inl e ↦ rw (e, remove) (refl, e, λ j n. refl, refl)
    | inr (v, e) ↦
        rw (e, remove)
          (
            refl,
            lookup-delete id_eq id s.items,
            λ j n. lookup-delete_other id_eq j id s.items n,
            refl,
          )
  ]

  step-next_id : (s t : IdStore T) → IsStep s t → s.next_id ≤ t.next_id
  unfolding add take_where
  step-next_id s t (adds item r h) = omega arith
  step-next_id s t (removes id r) = omega (arith, (remove-get id r).3)
  step-next_id s t (takes p r) = omega arith

  later-next_id : (s t : IdStore T) → IsLater s t → s.next_id ≤ t.next_id
  later-next_id s t (now r) = omega arith
  later-next_id s u (after a t b l x) = omega (arith, later-next_id s t l, step-next_id t u x)

  -- An id that was handed out below 2^63 is not handed out again, whatever steps the store takes
  -- in between while its counter stays below 2^63.
  pub add_unique :
      (a b : T) (s t : IdStore T)
      → s.next_id < two_63
      → IsLater (add a s).1 t
      → (add b t).0 ≢ (add a s).0
  unfolding add
  add_unique a b s t h l e = omega (arith, later-next_id (add a s).1 t l)

  taken-left :
      (p : T → Bool) (xs : List (ℕ × T)) → length (taken p xs) + length (left p xs) ≡ length xs
  taken-left p [] = refl
  taken-left p (x ∷ xs) = elim (Bool-cases (p x.1)) [
    | inl e ↦ rw e (omega (arith, taken-left p xs))
    | inr e ↦ rw e (omega (arith, taken-left p xs))
  ]

  get_elem?-taken :
      (p : T → Bool) (xs : List (ℕ × T)) (i : ℕ) (w : T)
      → get_elem? (taken p xs) i ≡ some w
      → p w ≡ true
  get_elem?-taken p [] i w h = cc
  get_elem?-taken p (x ∷ xs) zero w h = elim (Bool-cases (p x.1)) [
    | inr e ↦ get_elem?-taken p xs zero w (rw e at h)
    | inl e ↦ let z = rw e at h in cc
  ]
  get_elem?-taken p (x ∷ xs) (suc i) w h = elim (Bool-cases (p x.1)) [
    | inr e ↦ get_elem?-taken p xs (suc i) w (rw e at h)
    | inl e ↦ get_elem?-taken p xs i w (rw e at h)
  ]

  -- `TakeWhere` takes items that the predicate selects only, leaves none that it selects, and
  -- takes and leaves as many items as there were.
  pub take_where-left :
      (p : T → Bool) (s : IdStore T) (i id : ℕ) (v w : T)
      → get_elem? (take_where p s).0 i ≡ some w
      → get id (take_where p s).1 ≡ some v
      → (p w ≡ true) × (p v ≡ false) × (length (take_where p s).0 + len (take_where p s).1 ≡ len s)
  unfolding take_where
  take_where-left p s i id v w a b =
      (get_elem?-taken p s.items i w a, lookup-left p id v s.items b, taken-left p s.items)
