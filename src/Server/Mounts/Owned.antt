-- ===== src/Server/Mounts/Owned.antt =====
-- No mount is lost: each is a session's, held by a method, or one whose unmount failed.
use safe_disk.Base.{
  ℕ, true, ◌==◌, ==_iff, ◌≡◌, ◌≢◌, refl, ap, sym, ◌∙◌, Option, none, some, List, [], ◌∷◌, ◌++◌, ◌⊎◌,
  inl, inr, Bool-cases,
}
use safe_disk.Base.Strings.{Str, same, same_iff, same-apart}
use safe_disk.GoMap.{lookup, insert, delete}
use safe_disk.GoMap.Laws.{lookup-insert, lookup-insert_other, lookup-delete, lookup-delete_other}
use safe_disk.Config.Memory.{str_eq}
use safe_disk.Server.Types.{ActiveSession}
use safe_disk.Server.Sessions.{drop_root, mounts_of_root, all_mounts, add_mount}
use safe_disk.Server.Listening.{entry_made}
use safe_disk.Server.Mounts.{World, has, without}

-- Some session has the mount.
abbrev pub IsRecorded : ℕ → List (Str × ActiveSession) → Type 0
IsRecorded x xs =
    (id : Str) × (a : ActiveSession) × (lookup str_eq id xs ≡ some a) × (a.mounted ≡ some x)

abbrev pub IsOwned : ℕ → World → Type 0
IsOwned x w = IsRecorded x w.manager.sessions ⊎ ((has x w.held ≡ true) ⊎ (has x w.failed ≡ true))

abbrev pub AllOwned : World → Type 0
AllOwned w = (x : ℕ) → has x w.live ≡ true → IsOwned x w

same_entry :
    (i j : Str) (a b : ActiveSession) (xs : List (Str × ActiveSession))
    → same i j ≡ true
    → lookup str_eq i xs ≡ some a
    → lookup str_eq j xs ≡ some b
    → a ≡ b
same_entry i j a b xs s p q =
    entry_made a b (sym p ∙ ap (λ k. lookup str_eq k xs) ((same_iff i j).0 s) ∙ q)

module _ (x : ℕ) where
  pub has-without :
      (y : ℕ) (xs : List ℕ) → has x xs ≡ true → (x ≡ y) ⊎ (has x (without y xs) ≡ true)
  has-without y [] h = cc
  has-without y (z ∷ zs) h = elim (Bool-cases (y == z)) [
    | inl e ↦ elim (Bool-cases (x == z)) [
      | inl q ↦ inl ((==_iff x z).0 q ∙ sym ((==_iff y z).0 e))
      | inr q ↦ elim (has-without y zs (rw q at h)) [ inl r ↦ inl r | inr r ↦ inr (rw e r) ]
    ]
    | inr e ↦ elim (Bool-cases (x == z)) [
      | inl q ↦ inr (rw (e, q) refl)
      | inr q ↦ elim (has-without y zs (rw q at h)) [ inl r ↦ inl r | inr r ↦ inr (rw (e, q) r) ]
    ]
  ]

  pub without-has :
      (y : ℕ) (xs : List ℕ) → has x (without y xs) ≡ true → (x ≢ y) × (has x xs ≡ true)
  without-has y [] h = cc
  without-has y (z ∷ zs) h = elim (Bool-cases (y == z)) [
    | inl e ↦
        let (apart, more) = without-has y zs (rw e at h) in
        (apart, elim (Bool-cases (x == z)) [ inl q ↦ rw q refl | inr q ↦ rw q more ])
    | inr e ↦ elim (Bool-cases (x == z)) [
      | inl q ↦ (λ r. let z' = (==_iff y z).1 (sym r ∙ (==_iff x z).0 q) in cc, rw q refl)
      | inr q ↦
          let (apart, more) = without-has y zs (let p = rw e at h in rw q at p) in
          (apart, rw q more)
    ]
  ]

  pub has-append : (xs ys : List ℕ) → has x ys ≡ true → has x (xs ++ ys) ≡ true
  has-append [] ys h = h
  has-append (z ∷ zs) ys h = elim (Bool-cases (x == z)) [
    | inl e ↦ rw e refl
    | inr e ↦ rw e (has-append zs ys h)
  ]

  pub has-add_mount : (o : Option ℕ) (ys : List ℕ) → has x ys ≡ true → has x (add_mount o ys) ≡ true
  has-add_mount none ys h = h
  has-add_mount (some z) ys h = elim (Bool-cases (x == z)) [ inl e ↦ rw e refl | inr e ↦ rw e h ]

  pub has-own : (o : Option ℕ) (ys : List ℕ) → o ≡ some x → has x (add_mount o ys) ≡ true
  has-own none ys h = cc
  has-own (some z) ys h = let p : x ≡ z = cc in rw ((==_iff x z).1 p) refl

  -- The session of an id is replaced by one with the same mount.
  pub put-IsRecorded :
      (j : Str) (a b : ActiveSession) (xs : List (Str × ActiveSession))
      → lookup str_eq j xs ≡ some a
      → b.mounted ≡ a.mounted
      → IsRecorded x xs
      → IsRecorded x (insert str_eq j b xs)
  put-IsRecorded j a b xs e q (id, c, k, mount) = elim (Bool-cases (same id j)) [
    | inl s ↦ (
      j,
      b,
      lookup-insert str_eq j b xs,
      q ∙ ap (λ t. t.mounted) (sym (same_entry id j c a xs s k e)) ∙ mount,
    )
    | inr s ↦ (id, c, lookup-insert_other str_eq id j b xs (same-apart id j s) ∙ k, mount)
  ]

  -- A session of a new id is added.
  pub add-IsRecorded :
      (j : Str) (b : ActiveSession) (xs : List (Str × ActiveSession))
      → lookup str_eq j xs ≡ none
      → IsRecorded x xs
      → IsRecorded x (insert str_eq j b xs)
  add-IsRecorded j b xs e (id, c, k, mount) = (
    id,
    c,
    lookup-insert_other str_eq id j b xs
          (λ q. let z = sym k ∙ ap (λ i. lookup str_eq i xs) q ∙ e in cc)
        ∙ k,
    mount,
  )

  -- A session is taken out, with its mount.
  pub drop-IsRecorded :
      (j : Str) (a : ActiveSession) (xs : List (Str × ActiveSession))
      → lookup str_eq j xs ≡ some a
      → IsRecorded x xs
      → IsRecorded x (delete str_eq j xs) ⊎ (a.mounted ≡ some x)
  drop-IsRecorded j a xs e (id, c, k, mount) = elim (Bool-cases (same id j)) [
    | inl s ↦ inr (ap (λ t. t.mounted) (sym (same_entry id j c a xs s k e)) ∙ mount)
    | inr s ↦ inl (id, c, lookup-delete_other str_eq id j xs (same-apart id j s) ∙ k, mount)
  ]

  -- What is left without a session is left with another one in its place.
  pub over-IsRecorded :
      (j : Str) (b : ActiveSession) (xs : List (Str × ActiveSession))
      → IsRecorded x (delete str_eq j xs)
      → IsRecorded x (insert str_eq j b xs)
  over-IsRecorded j b xs (id, c, k, mount) = elim (Bool-cases (same id j)) [
    | inl s ↦
        let gone =
          ap (λ i. lookup str_eq i (delete str_eq j xs)) ((same_iff id j).0 s)
          ∙ lookup-delete str_eq j xs in
        let z = sym k ∙ gone in cc
    | inr s ↦ (id, c, rw s k, mount)
  ]

  pub root-IsRecorded :
      (root_key : Str) (id : Str) (a : ActiveSession) (xs : List (Str × ActiveSession))
      → lookup str_eq id xs ≡ some a
      → a.mounted ≡ some x
      → (lookup str_eq id (drop_root root_key xs) ≡ some a)
        ⊎ (has x (mounts_of_root root_key xs) ≡ true)
  root-IsRecorded root_key id a [] k mount = cc
  root-IsRecorded root_key id a (y ∷ ys) k mount =
      elim (Bool-cases (same y.1.session.root_key root_key)) [
        | inl r ↦ elim (Bool-cases (same id y.0)) [
          | inl e ↦
              let found : y.1 ≡ a = entry_made y.1 a (rw e at k) in
              inr (
                rw r (
                  has-own y.1.mounted (mounts_of_root root_key ys)
                    (ap (λ t. t.mounted) found ∙ mount)))
          | inr e ↦ elim (root-IsRecorded root_key id a ys (rw e at k) mount) [
            | inl q ↦ inl (rw r q)
            | inr q ↦ inr (rw r (has-add_mount y.1.mounted (mounts_of_root root_key ys) q))
          ]
        ]
        | inr r ↦ elim (Bool-cases (same id y.0)) [
          | inl e ↦ inl (rw (r, e) (rw e at k))
          | inr e ↦ elim (root-IsRecorded root_key id a ys (rw e at k) mount) [
            | inl q ↦ inl (rw (r, e) q)
            | inr q ↦ inr (rw r q)
          ]
        ]
      ]

  pub all_mounts-IsRecorded :
      (id : Str) (a : ActiveSession) (xs : List (Str × ActiveSession))
      → lookup str_eq id xs ≡ some a
      → a.mounted ≡ some x
      → has x (all_mounts xs) ≡ true
  all_mounts-IsRecorded id a [] k mount = cc
  all_mounts-IsRecorded id a (y ∷ ys) k mount = elim (Bool-cases (same id y.0)) [
    | inl e ↦
        let found : y.1 ≡ a = entry_made y.1 a (rw e at k) in
        has-own y.1.mounted (all_mounts ys) (ap (λ t. t.mounted) found ∙ mount)
    | inr e ↦
        has-add_mount y.1.mounted (all_mounts ys) (all_mounts-IsRecorded id a ys (rw e at k) mount)
  ]
