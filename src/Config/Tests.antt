-- ===== src/Config/Tests.antt =====
-- Stores at concrete keys.
use safe_disk.Base.{subst, true, ◌≡◌, ◌≢◌, refl, Option, none, some, List, [], ◌∷◌}
use safe_disk.Base.Strings.{Str, same_iff}
use safe_disk.Config.{ConfigLaws}
use safe_disk.Config.Memory.{Value, new_maps, get_str, get_int, get_bool}
use safe_disk.Config.File.{
  missing, saved, torn, FileState, new_file_config, save, file_config, file_laws,
}
use safe_disk.Config.Values.{IsExactValue, IsConsistent}
use safe_disk.Config.Reload.{new_file_config-save}
use safe_disk.Config.Kinds.{str_kind, Edit, edit_str, edit_all, edit_all-IsConsistent}
use safe_disk.Config.Sample.{sample_json, sample_laws, ascii_is_text}

abbrev name_key : Str
name_key = b'n' ∷ []

abbrev count_key : Str
count_key = b'c' ∷ []

abbrev two_edits : List Edit
two_edits = edit_str name_key (7 ∷ []) ∷ edit_str count_key (8 ∷ []) ∷ []

two_edits-IsConsistent : IsConsistent sample_json (edit_all two_edits new_maps)
two_edits-IsConsistent =
    edit_all-IsConsistent sample_json (λ k. str_kind) two_edits (refl, (refl, tt))

edit_all-IsConsistent_example : IsConsistent sample_json (edit_all two_edits new_maps)
edit_all-IsConsistent_example =
    edit_all-IsConsistent sample_json (λ k. str_kind) two_edits (refl, (refl, tt))

file_laws_example : ConfigLaws (file_config sample_json)
file_laws_example = file_laws sample_json

not_same_name : ◌≢◌ {A = Str} (97 ∷ []) (98 ∷ [])
not_same_name e = let z = (same_iff (97 ∷ []) (98 ∷ [])).1 e in cc

abbrev sample_file : FileState
sample_file = record {
  maps = edit_all two_edits new_maps;
  stored = missing;
  outcomes = saved ∷ torn [] ∷ [];
}

abbrev IsExactOption : Option Value → Type 0
IsExactOption none = Unit
IsExactOption (some v) = IsExactValue sample_json sample_laws v

new_file_config-save_example :
    (t : FileState) × (new_file_config sample_json true (save sample_json sample_file).1.stored []
      ≡ some t)
    × (get_str name_key t.maps ≡ get_str name_key sample_file.maps)
    × (get_int name_key t.maps ≡ get_int name_key sample_file.maps)
    × (get_bool name_key t.maps ≡ get_bool name_key sample_file.maps)
new_file_config-save_example =
    new_file_config-save sample_json sample_laws sample_file [] name_key two_edits-IsConsistent
      (ascii_is_text _ refl, (ascii_is_text _ refl, tt))
      (λ v e. subst IsExactOption e (ascii_is_text (7 ∷ []) refl)) refl
