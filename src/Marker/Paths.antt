-- ===== src/Marker/Paths.antt =====
-- Markers that `validateConvertMarker` accepts.
use safe_disk.Base.{◌≡◌, refl, none, ◌++◌}
use safe_disk.Base.Strings.{Str, same_refl}
use safe_disk.Marker.{Marker, validate_op_id, validate_convert_marker, work_infix, backup_infix}

-- `validateConvertMarker` accepts every marker with a valid id whose cleaned paths are the root
-- and the work and backup paths made of it and the id.
pub validate_convert_marker-accepts :
    (clean : Str → Str) (root_path : Str) (m : Marker)
    → validate_op_id m.op_id ≡ none
    → clean m.root ≡ clean root_path
    → clean m.work ≡ clean root_path ++ (work_infix ++ m.op_id)
    → clean m.backup ≡ clean root_path ++ (backup_infix ++ m.op_id)
    → validate_convert_marker clean root_path m ≡ none
unfolding validate_convert_marker
validate_convert_marker-accepts clean root_path m e r w b =
    rw
      (
        e,
        r,
        w,
        b,
        same_refl (clean root_path),
        same_refl (clean root_path ++ (work_infix ++ m.op_id)),
        same_refl (clean root_path ++ (backup_infix ++ m.op_id)),
        validate_convert_marker,
      )
      refl
