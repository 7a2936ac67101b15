-- ===== src/GoMap.antt =====
-- A Go map as a list of its entries, in some order of iteration, with the equality of its keys.
pub mod Laws
use safe_disk.Base.{
  ℕ, suc, Bool, true, false, ◌≡◌, ◌↔◌, Option, none, some, List, [], ◌∷◌, map, length,
  if◌then◌else◌,
}

-- The `==` of the keys.
pub record KeyEq {ℓ} (K : Type ℓ) : Type ℓ where
  pub eq : K → K → Bool
  pub eq_iff : (a b : K) → (eq a b ≡ true) ↔ (a ≡ b)

module _ {ℓ ℓv} {K : Type ℓ} {V : Type ℓv} (E : KeyEq K) where
  abbrev pub lookup : K → List (K × V) → Option V
  lookup k [] = none
  lookup k (x ∷ xs) = if E.eq k x.0 then some x.1 else lookup k xs

  abbrev pub delete : K → List (K × V) → List (K × V)
  delete k [] = []
  delete k (x ∷ xs) = if E.eq k x.0 then delete k xs else x ∷ delete k xs

  abbrev pub insert : K → V → List (K × V) → List (K × V)
  insert k v xs = (k, v) ∷ delete k xs

abbrev pub is_some {ℓ} : {A : Type ℓ} → Option A → Bool
is_some none = false
is_some (some a) = true
