-- ===== src/Config/File.antt =====
-- `FileConfig`: the maps of a MemoryConfig, written to a JSON file after every change. JSON is a
-- parameter.
use safe_disk.Base.{ℕ, Bool, true, false, ◌≡◌, refl, ap, ◌∙◌, Option, none, some, List, [], ◌∷◌}
use safe_disk.Base.Int.{ℤ}
use safe_disk.Base.Strings.{Str}
use safe_disk.GoMap.{lookup, insert}
use safe_disk.GoMap.Laws.{lookup-insert, lookup-insert_other}
use safe_disk.Config.{SetError, write_failed, chmod_failed, SharedConfig, ConfigLaws}
use safe_disk.Config.Memory.{
  str_eq, Value, string_value, int_value, bool_value, float_value, other_value, Maps, new_maps,
  get_str, get_int, get_bool, put_str, put_int, put_bool,
}

-- `json.MarshalIndent` of the map of all values, `json.Unmarshal` into one, and `int` of a float64.
-- No value of the map is one that `MarshalIndent` refuses.
pub record Json : Type 0 where
  pub marshal : List (Str × Value) → Str
  pub unmarshal : Str → Option (List (Str × Value))
  pub truncate : ℕ → ℤ

-- What `os.Stat` and `os.ReadFile` find under the path.
pub data Stored : Type 0 where
  missing unreadable : Stored
  holds : Str → Stored

-- How a write of the file goes: it succeeds, it fails and leaves some contents, or the mode cannot be
-- set afterwards.
pub data SaveOutcome : Type 0 where
  saved unprotected : SaveOutcome
  torn : Str → SaveOutcome

pub record FileState : Type 0 where
  pub maps : Maps
  pub stored : Stored
  pub outcomes : List SaveOutcome

-- The keys of a Go map are distinct.
abbrev pub AreDistinct {ℓ} : {V : Type ℓ} → List (Str × V) → Type ℓ
AreDistinct [] = Unit
AreDistinct (x ∷ xs) = (lookup str_eq x.0 xs ≡ none) × AreDistinct xs

module _ (J : Json) where
  -- One round of the loop of `load`: every value goes to `data`, and three kinds to their maps.
  abbrev pub load_kind : Str → Value → Maps → Maps
  load_kind key (string_value v) m = record m { str_map = insert str_eq key v m.str_map }
  load_kind key (float_value v) m = record m {
    int_map = insert str_eq key (J.truncate v) m.int_map;
  }
  load_kind key (bool_value v) m = record m { bool_map = insert str_eq key v m.bool_map }
  load_kind key (int_value v) m = m
  load_kind key (other_value v) m = m

  abbrev pub load_value : Str → Value → Maps → Maps
  load_value key value m =
      load_kind key value (record m { data_map = insert str_eq key value m.data_map })

  abbrev pub load_all : List (Str × Value) → Maps
  load_all [] = new_maps
  load_all (x ∷ xs) = load_value x.0 x.1 (load_all xs)

  -- `load`: none is an error, and an empty file changes nothing.
  abbrev pub load_text : Str → Maps → Option Maps
  load_text [] m = some m
  load_text (c ∷ cs) m = elim (J.unmarshal (c ∷ cs)) [
    | none ↦ none
    | some raw ↦ some (load_all raw)
  ]

  abbrev pub load : Stored → Maps → Option Maps
  load missing m = none
  load unreadable m = none
  load (holds text) m = load_text text m

  -- `NewFileConfig`, by whether the directory is there afterwards.
  abbrev pub opened : Stored → List SaveOutcome → Option Maps → Option FileState
  opened file os none = none
  opened file os (some m) = some (record { maps = m; stored = file; outcomes = os })

  abbrev pub new_file_config : Bool → Stored → List SaveOutcome → Option FileState
  new_file_config false file os = none
  new_file_config true missing os = opened missing os (some new_maps)
  new_file_config true unreadable os = opened unreadable os (load unreadable new_maps)
  new_file_config true (holds text) os = opened (holds text) os (load (holds text) new_maps)

  -- `Reload`
  abbrev pub reload : FileState → Option FileState
  reload s = elim (load s.stored s.maps) [ none ↦ none | some m ↦ some (record s { maps = m }) ]

  -- `save`, by the next outcome.
  abbrev pub save_as : List SaveOutcome → Str → FileState → Option SetError × FileState
  save_as [] text s = (none, record s { stored = holds text })
  save_as (saved ∷ os) text s = (none, record s { stored = holds text; outcomes = os })
  save_as (unprotected ∷ os) text s =
      (some chmod_failed, record s { stored = holds text; outcomes = os })
  save_as (torn rest ∷ os) text s =
      (some write_failed, record s { stored = holds rest; outcomes = os })

  abbrev pub save : FileState → Option SetError × FileState
  save s = save_as s.outcomes (J.marshal s.maps.data_map) s

  abbrev pub file_config : SharedConfig
  file_config = record {
    State = FileState;
    get_str = λ key s. get_str key s.maps;
    get_int = λ key s. get_int key s.maps;
    get_bool = λ key s. get_bool key s.maps;
    set_str = λ key val s. save (record s { maps = put_str key val s.maps });
    set_int = λ key val s. save (record s { maps = put_int key val s.maps });
    set_bool = λ key val s. save (record s { maps = put_bool key val s.maps });
  }

  save_as-maps :
      (os : List SaveOutcome) (text : Str) (s : FileState) → (save_as os text s).1.maps ≡ s.maps
  save_as-maps [] text s = refl
  save_as-maps (saved ∷ os) text s = refl
  save_as-maps (unprotected ∷ os) text s = refl
  save_as-maps (torn rest ∷ os) text s = refl

  -- A getter after a save reads the maps that were saved.
  read-save :
      {A : Type 0} (read : Maps → A) (m : Maps) (s : FileState)
      → read (save (record s { maps = m })).1.maps ≡ read m
  read-save read m s =
      ap read (save_as-maps s.outcomes (J.marshal m.data_map) (record s { maps = m }))

  -- A store in a file answers as a store should, also where its file cannot be written: a setter
  -- sets its key, for its own kind of value, and no other.
  pub file_laws : ConfigLaws file_config
  file_laws = record {
    str_same = λ k v s.
        read-save (get_str k) (put_str k v s.maps) s ∙ lookup-insert str_eq k v s.maps.str_map;
    str_other = λ j k v s h.
        read-save (get_str j) (put_str k v s.maps) s
        ∙ lookup-insert_other str_eq j k v s.maps.str_map h;
    str_int = λ j k v s. read-save (get_int j) (put_str k v s.maps) s;
    str_bool = λ j k v s. read-save (get_bool j) (put_str k v s.maps) s;
    int_same = λ k v s.
        read-save (get_int k) (put_int k v s.maps) s ∙ lookup-insert str_eq k v s.maps.int_map;
    int_other = λ j k v s h.
        read-save (get_int j) (put_int k v s.maps) s
        ∙ lookup-insert_other str_eq j k v s.maps.int_map h;
    int_str = λ j k v s. read-save (get_str j) (put_int k v s.maps) s;
    int_bool = λ j k v s. read-save (get_bool j) (put_int k v s.maps) s;
    bool_same = λ k v s.
        read-save (get_bool k) (put_bool k v s.maps) s ∙ lookup-insert str_eq k v s.maps.bool_map;
    bool_other = λ j k v s h.
        read-save (get_bool j) (put_bool k v s.maps) s
        ∙ lookup-insert_other str_eq j k v s.maps.bool_map h;
    bool_str = λ j k v s. read-save (get_str j) (put_bool k v s.maps) s;
    bool_int = λ j k v s. read-save (get_int j) (put_bool k v s.maps) s;
  }
