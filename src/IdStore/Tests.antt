-- ===== src/IdStore/Tests.antt =====
-- A store with two handles.
use safe_disk.Base.{ℕ, ◌≡◌, refl, ◌==◌, some, [], ◌∷◌, arith}
use safe_disk.IdStore.{IdStore, new_id_store, add, get, take_where}
use safe_disk.IdStore.Handles.{IsValid}

abbrev two : IdStore ℕ
two = record { items = (2, 40) ∷ (1, 30) ∷ []; next_id = 3 }

made : (add 40 (add 30 new_id_store).1).1 ≡ two
unfolding add
made = refl

empty-IsValid : IsValid {T = ℕ} new_id_store
empty-IsValid = record { below = (λ id v h. absurd cc); bound = omega arith }

takes_forty : (take_where (λ x. x == 40) two).0 ≡ 40 ∷ []
unfolding take_where
takes_forty = refl

leaves_thirty : get 1 (take_where (λ x. x == 40) two).1 ≡ some 30
unfolding take_where
leaves_thirty = refl
