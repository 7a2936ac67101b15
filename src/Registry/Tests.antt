-- ===== src/Registry/Tests.antt =====
-- A registry with two names, and an equality that ignores the hundreds.
use safe_disk.Base.{ℕ, ◌%◌, Bool, ◌==◌, ==_iff, List, [], ◌∷◌, arith}
use safe_disk.GoMap.{KeyEq}
use safe_disk.Registry.Names.{FoldLaws, IsUnambiguous}

abbrev name_eq : KeyEq ℕ
name_eq = record { eq = (λ a b. a == b); eq_iff = ==_iff }

abbrev fold : ℕ → ℕ → Bool
fold a b = a % 100 == b % 100

fold_laws : FoldLaws fold
fold_laws = record {
  fold_refl = λ a. ground arith;
  fold_sym = λ a b h. ground arith;
  fold_trans = λ a b c h k. ground arith;
}

abbrev two : List (ℕ × ℕ)
two = (107, 1) ∷ (208, 2) ∷ []

two-IsUnambiguous : IsUnambiguous name_eq fold two
two-IsUnambiguous = record { one_name = λ a b v w h k f. ground arith }
