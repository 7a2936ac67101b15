-- ===== src/Password/Change/Reopened.antt =====
-- The configuration file of a root as a FileConfig keeps it: what it has saved opens again.
use safe_disk.Base.{true, ◌≡◌, some, []}
use safe_disk.Base.Strings.{Str}
use safe_disk.GoMap.{lookup}
use safe_disk.Config.Memory.{str_eq, Value}
use safe_disk.Config.File.{Json, holds, FileState, new_file_config, file_config}
use safe_disk.Config.Values.{AreText, JsonLaws, IsExactValue, IsConsistent}
use safe_disk.Password.Change.{ConfigFile}

-- The contents are those that `save` writes, and `NewFileConfig` opens them; the writes of the store
-- that is opened succeed.
abbrev pub json_file : (J : Json) → ConfigFile (file_config J)
json_file J = record {
  Contents = Str;
  open_file = λ text. new_file_config J true (holds text) [];
  stored = λ s. J.marshal s.maps.data_map;
}

module _ (J : Json) (laws : JsonLaws J) (s : FileState) (agree : IsConsistent J s.maps)
    (text : AreText laws.is_text s.maps.data_map)
    (exact : (k : Str) (v : Value)
      → lookup str_eq k s.maps.data_map ≡ some v
      → IsExactValue J laws v) where
  saved_state : FileState
  saved_state = record s { outcomes = [] }
