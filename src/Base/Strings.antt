-- ===== src/Base/Strings.antt =====
-- Strings as lists of code points, and the tests on them that the code uses.
use safe_disk.Base.{
  ℕ, Bool, true, false, ◌&&◌, ◌||◌, ◌≡◌, ◌≢◌, ◌↔◌, refl, ap, sym, ◌∙◌, List, [], ◌∷◌, ◌++◌, ◌==◌,
  ==_iff, Bool-cases, inl, inr,
}
use Prim.Native.String.{String}
use Prim.Native.Char.{code}

abbrev pub Str : Type 0
Str = List ℕ

-- The code points of a text: its bytes, if it is ASCII.
abbrev pub codes : String → Str
codes String.[] = []
codes (String.◌∷◌ c s) = code c ∷ codes s

abbrev pub same : Str → Str → Bool
same [] [] = true
same [] (y ∷ ys) = false
same (x ∷ xs) [] = false
same (x ∷ xs) (y ∷ ys) = (x == y) && same xs ys

abbrev pub is_empty : Str → Bool
is_empty [] = true
is_empty (x ∷ xs) = false

abbrev pub has_char : ℕ → Str → Bool
has_char c [] = false
has_char c (x ∷ xs) = (c == x) || has_char c xs

abbrev pub all_chars : (ℕ → Bool) → Str → Bool
all_chars p [] = true
all_chars p (x ∷ xs) = p x && all_chars p xs

pub same_refl : (a : Str) → same a a ≡ true
same_refl [] = refl
same_refl (x ∷ xs) = rw ((==_iff x x).1 refl) (same_refl xs)

pub same_eq : (a b : Str) → same a b ≡ true → a ≡ b
same_eq [] [] h = refl
same_eq [] (y ∷ ys) h = cc
same_eq (x ∷ xs) [] h = cc
same_eq (x ∷ xs) (y ∷ ys) h = elim (Bool-cases (x == y)) [
  | inl e ↦ let p = (==_iff x y).0 e in let q = same_eq xs ys (rw e at h) in cc
  | inr e ↦ let z = rw e at h in cc
]

pub and_true : (a b : Bool) → (a && b) ≡ true → (a ≡ true) × (b ≡ true)
and_true true true h = (refl, refl)
and_true true false h = cc
and_true false b h = cc

pub or_false : (a b : Bool) → (a || b) ≡ false → (a ≡ false) × (b ≡ false)
or_false false false h = (refl, refl)
or_false false true h = cc
or_false true b h = cc

pub same_iff : (a b : Str) → (same a b ≡ true) ↔ (a ≡ b)
same_iff a b = (same_eq a b, λ e. ap (same a) (sym e) ∙ same_refl a)

pub same_prefix : (a b c : Str) → a ++ b ≡ a ++ c → b ≡ c
same_prefix [] b c e = e
same_prefix (x ∷ a) b c e = same_prefix a b c cc

pub same-apart : (a b : Str) → same a b ≡ false → a ≢ b
same-apart a b h e = let z = (same_iff a b).1 e in cc

abbrev pub starts_with : Str → Str → Bool
starts_with [] s = true
starts_with (c ∷ p) [] = false
starts_with (c ∷ p) (x ∷ s) = (c == x) && starts_with p s
