-- ===== src/Config/Memory.antt =====
-- `MemoryConfig`: a map of strings, one of integers, one of booleans, and one of all values.
use safe_disk.Base.{ℕ, Bool, refl, Option, none, List, []}
use safe_disk.Base.Int.{ℤ}
use safe_disk.GoMap.{KeyEq, lookup, insert}
use safe_disk.GoMap.Laws.{lookup-insert, lookup-insert_other}
use safe_disk.Base.Strings.{Str, same, same_iff}
use safe_disk.Config.{SharedConfig, ConfigLaws}

abbrev pub str_eq : KeyEq Str
str_eq = record { eq = same; eq_iff = same_iff }

-- A value of `data`, by its dynamic type. Only a file gives a float64, here its bits, or anything
-- else, here its text.
pub data Value : Type 0 where
  string_value : Str → Value
  int_value : ℤ → Value
  bool_value : Bool → Value
  float_value : ℕ → Value
  other_value : Str → Value

pub record Maps : Type 0 where
  pub data_map : List (Str × Value)
  pub str_map : List (Str × Str)
  pub int_map : List (Str × ℤ)
  pub bool_map : List (Str × Bool)

-- `NewMemoryConfig`
abbrev pub new_maps : Maps
new_maps = record { data_map = []; str_map = []; int_map = []; bool_map = [] }

-- GetStr, GetInt and GetBool.
abbrev pub get_str : Str → Maps → Option Str
get_str key m = lookup str_eq key m.str_map

abbrev pub get_int : Str → Maps → Option ℤ
get_int key m = lookup str_eq key m.int_map

abbrev pub get_bool : Str → Maps → Option Bool
get_bool key m = lookup str_eq key m.bool_map

-- What SetStr, SetInt and SetBool do to the maps.
abbrev pub put_str : Str → Str → Maps → Maps
put_str key val m = record m {
  str_map = insert str_eq key val m.str_map;
  data_map = insert str_eq key (string_value val) m.data_map;
}

abbrev pub put_int : Str → ℤ → Maps → Maps
put_int key val m = record m {
  int_map = insert str_eq key val m.int_map;
  data_map = insert str_eq key (int_value val) m.data_map;
}

abbrev pub put_bool : Str → Bool → Maps → Maps
put_bool key val m = record m {
  bool_map = insert str_eq key val m.bool_map;
  data_map = insert str_eq key (bool_value val) m.data_map;
}

abbrev pub memory_config : SharedConfig
memory_config = record {
  State = Maps;
  get_str = get_str;
  get_int = get_int;
  get_bool = get_bool;
  set_str = λ key val m. (none, put_str key val m);
  set_int = λ key val m. (none, put_int key val m);
  set_bool = λ key val m. (none, put_bool key val m);
}

pub memory_laws : ConfigLaws memory_config
memory_laws = record {
  str_same = λ k v m. lookup-insert str_eq k v m.str_map;
  str_other = λ j k v m h. lookup-insert_other str_eq j k v m.str_map h;
  str_int = λ j k v m. refl;
  str_bool = λ j k v m. refl;
  int_same = λ k v m. lookup-insert str_eq k v m.int_map;
  int_other = λ j k v m h. lookup-insert_other str_eq j k v m.int_map h;
  int_str = λ j k v m. refl;
  int_bool = λ j k v m. refl;
  bool_same = λ k v m. lookup-insert str_eq k v m.bool_map;
  bool_other = λ j k v m h. lookup-insert_other str_eq j k v m.bool_map h;
  bool_str = λ j k v m. refl;
  bool_int = λ j k v m. refl;
}
