-- ===== src/Convert/Tests.antt =====
-- Conversions that are cut off, and the recoveries from them.
use safe_disk.Base.{◌≡◌, refl, none, some, List, [], ◌∷◌, replicate}
use safe_disk.Convert.{
  renaming_work_to_root, original, converted, Disk, Outcome, done, refused, exec, convert_root,
  commit_convert_rename, recover_convert,
}
use safe_disk.Convert.Safe.{dir, disk, IsPreserved, begin}
use safe_disk.Convert.Recovery.{IsReached, converts, recovers, IsReached-IsPreserved}

-- Cut off between the two renames.
abbrev cut_off : List Outcome
cut_off = replicate 10 done

between :
    (exec convert_root cut_off begin).1
    ≡ disk none (dir converted none) (dir original (some renaming_work_to_root))
unfolding exec convert_root commit_convert_rename
between = refl

abbrev twice : Disk
twice =
    (exec (recover_convert (exec convert_root cut_off begin).1) (refused ∷ [])
      (exec convert_root cut_off begin).1).1

twice-IsReached : IsReached twice
twice-IsReached = recovers _ (refused ∷ []) (converts cut_off)

IsReached-IsPreserved_example : IsPreserved twice
IsReached-IsPreserved_example = IsReached-IsPreserved twice twice-IsReached
