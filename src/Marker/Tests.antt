-- ===== src/Marker/Tests.antt =====
-- A marker of a conversion under the root "/r", listed beside one of an import.
use safe_disk.Base.{◌≡◌, refl, false, none, some, List, [], ◌∷◌, ◌++◌}
use safe_disk.Base.Strings.{Str}
use safe_disk.Marker.{
  convert_encrypt, import_type, other_kind, Marker, Entry, json, work_infix, backup_infix,
  validate_op_id, wrong_paths, validate_listed_marker, validate_convert_marker,
  list_convert_markers, choose_marker, recovers_from,
}
use safe_disk.Marker.Paths.{validate_convert_marker-accepts}

abbrev root : Str
root = 47 ∷ 114 ∷ []

abbrev id : Str
id = 97 ∷ 45 ∷ 49 ∷ []

abbrev marker : Marker
marker = record {
  version = 3;
  op_id = id;
  type = convert_encrypt;
  entry_kind = other_kind;
  status = [];
  root = root;
  work = root ++ (work_infix ++ id);
  backup = root ++ (backup_infix ++ id);
}

abbrev ext : Str → Str
ext s = json

abbrev entries : List Entry
entries =
    record { name = id ++ json; is_dir = false; content = some marker }
    ∷ record { name = root; is_dir = false; content = some (record marker { type = import_type }) }
    ∷ []

accepts : validate_op_id id ≡ none
unfolding validate_op_id
accepts = refl

refuses : validate_convert_marker (λ s. s) root (record marker { work = root }) ≡ some wrong_paths
unfolding validate_convert_marker validate_op_id
refuses = refl

lists : list_convert_markers ext entries ≡ some (marker ∷ [])
unfolding list_convert_markers validate_listed_marker validate_op_id
lists = refl

chooses : choose_marker (marker ∷ marker ∷ []) ≡ recovers_from marker
unfolding choose_marker
chooses = refl

accepted : validate_convert_marker (λ s. s) root marker ≡ none
unfolding validate_op_id
accepted = validate_convert_marker-accepts (λ s. s) root marker refl refl refl refl
