-- ===== src/IdStore.antt =====
-- ffi_sec_fs/idstore.go: the stores of the handles that the foreign interface hands out. Each method
-- holds the lock while it uses the map, so a method is one step; an iteration of the map has the order
-- of the list. `KeyValueMap` is the map of GoMap. The counter is an int64, kept as its bits.
pub mod Handles
mod Tests
use safe_disk.Base.{
  ℕ, ◌+◌, ◌%◌, Bool, true, false, not, ◌==◌, ==_iff, Option, none, some, List, [], ◌∷◌, map, length,
  if◌then◌else◌,
}
use safe_disk.Base.Int.{two_64}
use safe_disk.GoMap.{KeyEq, lookup, delete, insert, is_some}

abbrev pub id_eq : KeyEq ℕ
id_eq = record { eq = (λ a b. a == b); eq_iff = ==_iff }

pub record IdStore (T : Type 0) : Type 0 where
  pub items : List (ℕ × T)
  pub next_id : ℕ

-- `NewIDStore`
abbrev pub new_id_store : {T : Type 0} → IdStore T
new_id_store = record { items = []; next_id = 1 }

module _ {T : Type 0} where
  -- `Add`: the id is what the counter was before it moved on.
  pub add : T → IdStore T → ℕ × IdStore T
  add item s =
      let id = s.next_id in
      (id, record { items = insert id_eq id item s.items; next_id = (s.next_id + 1) % two_64 })

  abbrev pub get : ℕ → IdStore T → Option T
  get id s = lookup id_eq id s.items

  pub remove : ℕ → IdStore T → Bool × IdStore T
  remove id s =
      if is_some (lookup id_eq id s.items)
      then (true, record s { items = delete id_eq id s.items })
      else (false, s)

  abbrev pub len : IdStore T → ℕ
  len s = length s.items

  -- The loops of `Find` and of `TakeWhere`.
  abbrev pub find_in : (T → Bool) → List (ℕ × T) → Option T
  find_in predicate [] = none
  find_in predicate (x ∷ xs) = if predicate x.1 then some x.1 else find_in predicate xs

  abbrev pub find : (T → Bool) → IdStore T → Option T
  find predicate s = find_in predicate s.items

  abbrev pub taken : (T → Bool) → List (ℕ × T) → List T
  taken predicate [] = []
  taken predicate (x ∷ xs) = if predicate x.1 then x.1 ∷ taken predicate xs else taken predicate xs

  abbrev pub left : (T → Bool) → List (ℕ × T) → List (ℕ × T)
  left predicate [] = []
  left predicate (x ∷ xs) = if predicate x.1 then left predicate xs else x ∷ left predicate xs

  pub take_where : (T → Bool) → IdStore T → List T × IdStore T
  take_where predicate s = (taken predicate s.items, record s { items = left predicate s.items })

-- `KeyValueMap`: Get, Set and Remove.
module _ {K V : Type 0} (E : KeyEq K) where
  abbrev pub value_of : K → List (K × V) → Option V
  value_of key m = lookup E key m

  abbrev pub set : K → V → List (K × V) → List (K × V)
  set key value m = insert E key value m

  abbrev pub unset : K → List (K × V) → List (K × V)
  unset key m = delete E key m
