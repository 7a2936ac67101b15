-- ===== src/Marker.antt =====
-- The markers of unfinished operations: sec_fs/sec_transfer/v3/marker.go, and what convert.go asks of
-- a marker before it recovers from it. A string is the list of its code points; the markers that
-- `json.Unmarshal` reads, and `filepath.Clean` and `filepath.Ext`, are parameters.
pub mod Paths
pub mod Listing
mod Tests
use safe_disk.Base.{
  ℕ, Bool, true, false, not, ◌&&◌, ◌||◌, Option, none, some, List, [], ◌∷◌, ◌++◌, length, ltb, leb,
  ◌==◌, if◌then◌else◌,
}
use safe_disk.Base.Strings.{Str, same, is_empty, has_char, all_chars}

-- `sec_transfer.OperationType` and `EntryKind`; `other_type` and `other_kind` are any other strings.
pub data OperationType : Type 0 where
  import_type export_type convert_encrypt convert_decrypt other_type : OperationType

pub data EntryKind : Type 0 where
  file_kind directory_kind other_kind : EntryKind

pub record Marker : Type 0 where
  pub version : ℕ
  pub op_id : Str
  pub type : OperationType
  pub entry_kind : EntryKind
  pub status : Str
  pub root : Str
  pub work : Str
  pub backup : Str

pub data MarkerError : Type 0 where
  id_required invalid_id unsupported_version invalid_entry_kind incomplete unsupported_type :
      MarkerError
  wrong_root wrong_paths : MarkerError

abbrev pub marker_version : ℕ
marker_version = 3

-- Letters, digits, '-' and '_'.
abbrev pub is_id_char : ℕ → Bool
is_id_char c =
    (leb 97 c && leb c 122)
    || (leb 65 c && leb c 90)
    || (leb 48 c && leb c 57)
    || (c == 45)
    || (c == 95)

abbrev pub slash : ℕ
slash = 47

abbrev pub backslash : ℕ
backslash = 92

abbrev pub dot : Str
dot = 46 ∷ []

-- `validateOpID`
unfoldable pub validate_op_id : Str → Option MarkerError
validate_op_id id =
    if is_empty id
    then some id_required
    else if has_char slash id || has_char backslash id || same id dot || same id (dot ++ dot)
    then some invalid_id
    else if all_chars is_id_char id
    then none
    else some invalid_id

abbrev pub validate_transfer : Marker → Option MarkerError
validate_transfer m = elim m.entry_kind [
  | other_kind ↦ some invalid_entry_kind
  | file_kind ↦ if is_empty m.status then some incomplete else none
  | directory_kind ↦ if is_empty m.status then some incomplete else none
]

abbrev pub validate_type : OperationType → Marker → Option MarkerError
validate_type import_type m = validate_transfer m
validate_type export_type m = validate_transfer m
validate_type convert_encrypt m = none
validate_type convert_decrypt m = none
validate_type other_type m = some unsupported_type

abbrev pub is_convert : OperationType → Bool
is_convert convert_encrypt = true
is_convert convert_decrypt = true
is_convert import_type = false
is_convert export_type = false
is_convert other_type = false

-- `validateListedMarker`
unfoldable pub validate_listed_marker : Marker → Option MarkerError
validate_listed_marker m =
    if m.version == marker_version
    then (elim (validate_op_id m.op_id) [ some e ↦ some e | none ↦ validate_type m.type m ])
    else some unsupported_version

-- ".safe_disk.work." and ".safe_disk.backup."
abbrev pub work_infix : Str
work_infix =
    46 ∷ 115 ∷ 97 ∷ 102 ∷ 101 ∷ 95 ∷ 100 ∷ 105 ∷ 115 ∷ 107 ∷ 46 ∷ 119 ∷ 111 ∷ 114 ∷ 107 ∷ 46 ∷ []

abbrev pub backup_infix : Str
backup_infix =
    46 ∷ 115 ∷ 97 ∷ 102 ∷ 101 ∷ 95 ∷ 100 ∷ 105 ∷ 115 ∷ 107 ∷ 46 ∷ 98 ∷ 97 ∷ 99 ∷ 107 ∷ 117 ∷ 112
    ∷ 46 ∷ []

-- `validateConvertMarker`
unfoldable pub validate_convert_marker : (Str → Str) → Str → Marker → Option MarkerError
validate_convert_marker clean root_path m = elim (validate_op_id m.op_id) [
  | some e ↦ some e
  | none ↦
      let expected_root = clean root_path in
      if same (clean m.root) expected_root
      then (if same (clean m.work) (expected_root ++ (work_infix ++ m.op_id))
            && same (clean m.backup) (expected_root ++ (backup_infix ++ m.op_id))
          then none
          else some wrong_paths)
      else some wrong_root
]

-- An entry of the active directory, with the marker that its file holds, if it can be read.
pub record Entry : Type 0 where
  pub name : Str
  pub is_dir : Bool
  pub content : Option Marker

-- ".json"
abbrev pub json : Str
json = 46 ∷ 106 ∷ 115 ∷ 111 ∷ 110 ∷ []

abbrev pub prepend : Marker → Option (List Marker) → Option (List Marker)
prepend m none = none
prepend m (some ms) = some (m ∷ ms)

module _ (ext : Str → Str) where
  abbrev pub is_skipped : Entry → Bool
  is_skipped e = e.is_dir || not (same (ext e.name) json)

  -- A marker that is listed, with the rest of the list; none is ErrTransferMarkerCorrupt.
  abbrev pub list_one : Entry → Marker → Option (List Marker) → Option (List Marker)
  list_one e m rest = elim (validate_listed_marker m) [
    | some x ↦ none
    | none ↦ if same e.name (m.op_id ++ json) then prepend m rest else none
  ]

  abbrev pub list_readable : Entry → Option Marker → Option (List Marker) → Option (List Marker)
  list_readable e none rest = none
  list_readable e (some m) rest = list_one e m rest

  abbrev pub list_convert_readable :
      Entry → Option Marker → Option (List Marker) → Option (List Marker)
  list_convert_readable e none rest = none
  list_convert_readable e (some m) rest = if is_convert m.type then list_one e m rest else rest

  -- The loops of `listMarkers` and `listConvertMarkers`
  unfoldable pub list_markers : List Entry → Option (List Marker)
  list_markers [] = some []
  list_markers (e ∷ es) =
      let rest = list_markers es in if is_skipped e then rest else list_readable e e.content rest

  unfoldable pub list_convert_markers : List Entry → Option (List Marker)
  list_convert_markers [] = some []
  list_convert_markers (e ∷ es) =
      let rest = list_convert_markers es in
      if is_skipped e then rest else list_convert_readable e e.content rest

abbrev pub is_member : Str → List Str → Bool
is_member s [] = false
is_member s (x ∷ xs) = same s x || is_member s xs

-- The set of the ids of the markers.
abbrev pub op_ids : List Marker → List Str
op_ids [] = []
op_ids (m ∷ ms) = let rest = op_ids ms in if is_member m.op_id rest then rest else m.op_id ∷ rest

-- What `recoverConvert` does with the markers that it finds.
pub data Choice : Type 0 where
  nothing_found several_found : Choice
  recovers_from : Marker → Choice

abbrev pub first_convert : List Marker → Choice
first_convert [] = nothing_found
first_convert (m ∷ ms) = if is_convert m.type then recovers_from m else first_convert ms

unfoldable pub choose_marker : List Marker → Choice
choose_marker ms =
    if length ms == 0
    then nothing_found
    else if ltb 1 (length (op_ids ms))
    then several_found
    else first_convert ms
