-- ===== src/Config/Values.antt =====
-- What JSON promises of a map of values, and when the maps of a store agree.
use safe_disk.Base.{ℕ, Bool, true, ◌≡◌, ◌≢◌, Option, none, some, List, [], ◌∷◌}
use safe_disk.Base.Int.{ℤ}
use safe_disk.Base.Strings.{Str}
use safe_disk.GoMap.{lookup}
use safe_disk.Config.Memory.{
  str_eq, Value, string_value, int_value, bool_value, float_value, other_value, Maps, get_str,
  get_int, get_bool,
}
use safe_disk.Config.File.{Json, AreDistinct}

module _ {A B : Type 0} where
  abbrev pub bind : Option A → (A → Option B) → Option B
  bind none f = none
  bind (some a) f = f a

abbrev pub as_str : Value → Option Str
as_str (string_value v) = some v
as_str (int_value v) = none
as_str (bool_value v) = none
as_str (float_value v) = none
as_str (other_value v) = none

abbrev pub as_int : (ℕ → ℤ) → Value → Option ℤ
as_int truncate (string_value v) = none
as_int truncate (int_value v) = some v
as_int truncate (bool_value v) = none
as_int truncate (float_value v) = some (truncate v)
as_int truncate (other_value v) = none

abbrev pub as_bool : Value → Option Bool
as_bool (string_value v) = none
as_bool (int_value v) = none
as_bool (bool_value v) = some v
as_bool (float_value v) = none
as_bool (other_value v) = none

-- A value that was written and read again: a string comes back as text, and an int as a float64.
abbrev pub reread : (Str → Str) → (ℤ → ℕ) → Value → Value
reread to_text to_float (string_value v) = string_value (to_text v)
reread to_text to_float (int_value v) = float_value (to_float v)
reread to_text to_float (bool_value v) = bool_value v
reread to_text to_float (float_value v) = float_value v
reread to_text to_float (other_value v) = other_value v

-- The keys of a map are text.
abbrev pub AreText : (Str → Bool) → List (Str × Value) → Type 0
AreText is_text [] = Unit
AreText is_text (x ∷ xs) = (is_text x.0 ≡ true) × AreText is_text xs

-- JSON keeps an object whose keys are valid UTF-8: its keys, once each, with their values, a string
-- with what is not UTF-8 in it replaced, and an int as the float64 next to it.
pub record JsonLaws (J : Json) : Type 0 where
  pub is_text : Str → Bool
  pub to_text : Str → Str
  pub text_kept : (s : Str) → is_text s ≡ true → to_text s ≡ s
  pub to_float : ℤ → ℕ
  pub not_empty : (d : List (Str × Value)) → J.marshal d ≢ []
  pub raw : List (Str × Value) → List (Str × Value)
  pub distinct : (d : List (Str × Value)) → AreDistinct (raw d)
  pub read_back : (d : List (Str × Value)) → J.unmarshal (J.marshal d) ≡ some (raw d)
  pub kept :
      (d : List (Str × Value)) (k : Str)
      → AreText is_text d
      → lookup str_eq k (raw d) ≡ bind (lookup str_eq k d) (λ v. some (reread to_text to_float v))

-- A value that JSON keeps: a string is valid UTF-8, and a float64 holds an int exactly.
abbrev pub IsExactValue : (J : Json) → JsonLaws J → Value → Type 0
IsExactValue J laws (string_value v) = laws.is_text v ≡ true
IsExactValue J laws (int_value v) = J.truncate (laws.to_float v) ≡ v
IsExactValue J laws (bool_value v) = Unit
IsExactValue J laws (float_value v) = Unit
IsExactValue J laws (other_value v) = Unit

-- The three maps hold what the map of all values holds.
pub record IsConsistent (J : Json) (m : Maps) : Type 0 where
  pub strs : (k : Str) → get_str k m ≡ bind (lookup str_eq k m.data_map) as_str
  pub ints : (k : Str) → get_int k m ≡ bind (lookup str_eq k m.data_map) (as_int J.truncate)
  pub bools : (k : Str) → get_bool k m ≡ bind (lookup str_eq k m.data_map) as_bool
