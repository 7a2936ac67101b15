-- ===== src/Registry.antt =====
-- The registries of factories: sec_fs/internal/utils/registry.go and name_registry.go. A factory is
-- its name with its value. `strings.EqualFold` and the order in which Go iterates a map are
-- parameters; the order is that of the list of entries. The locks are left out: each method holds
-- the lock from its start to its end.
pub mod Names
mod Tests
use safe_disk.Base.{
  ℕ, Bool, true, false, ◌||◌, ◌≡◌, Option, none, some, List, [], ◌∷◌, map, length, if◌then◌else◌,
}
use safe_disk.GoMap.{KeyEq, lookup, delete, insert, is_some}

module _ {K V : Type 0} (E : KeyEq K) where
  -- `Registry`: Add, Get, Remove, Contains, Clear, Count, List and Keys.
  abbrev pub add : K → V → List (K × V) → List (K × V)
  add k v r = insert E k v r

  abbrev pub get : K → List (K × V) → Option V
  get k r = lookup E k r

  abbrev pub remove : K → List (K × V) → Bool × List (K × V)
  remove k r = if is_some (lookup E k r) then (true, delete E k r) else (false, r)

  abbrev pub contains : K → List (K × V) → Bool
  contains k r = is_some (lookup E k r)

abbrev pub clear : {K V : Type 0} → List (K × V) → List (K × V)
clear r = []

abbrev pub count : {K V : Type 0} → List (K × V) → ℕ
count r = length r

abbrev pub values : {K V : Type 0} → List (K × V) → List V
values r = map (λ x. x.1) r

abbrev pub keys : {K V : Type 0} → List (K × V) → List K
keys r = map (λ x. x.0) r

-- The errors of `Register`.
pub data RegisterError : Type 0 where
  nil_factory empty_name already_registered : RegisterError

module _ {K V : Type 0} (equal_fold : K → K → Bool) where
  -- The loops of `GetOrNilFold` and `ContainsFold`, which `ForEach` runs until the first match.
  abbrev pub find_fold : K → List (K × V) → Option V
  find_fold name [] = none
  find_fold name (x ∷ xs) = if equal_fold x.0 name then some x.1 else find_fold name xs

module _ {K V : Type 0} (E : KeyEq K) (equal_fold : K → K → Bool) where
  pub get_or_nil_fold : K → List (K × V) → Option V
  get_or_nil_fold name r = elim (lookup E name r) [
    | some v ↦ some v
    | none ↦ find_fold equal_fold name r
  ]

  pub contains_fold : K → List (K × V) → Bool
  contains_fold name r = if contains E name r then true else is_some (find_fold equal_fold name r)

module _ {K V : Type 0} (E : KeyEq K) (equal_fold : K → K → Bool) (is_empty : K → Bool) where
  -- `Register`, of no factory (nil) or of one with its name.
  pub register : Option (K × V) → List (K × V) → Option RegisterError × List (K × V)
  unfolding contains_fold
  register none r = (some nil_factory, r)
  register (some f) r =
      if is_empty f.0
      then (some empty_name, r)
      else if contains_fold E equal_fold f.0 r
      then (some already_registered, r)
      else (none, add E f.0 f.1 r)
