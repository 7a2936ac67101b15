-- ===== src/Convert/Recovery.antt =====
-- A conversion, and any number of recoveries, each of them cut off anywhere.
use safe_disk.Base.{Option, none, some, List}
use safe_disk.Convert.{
  Phase, creating_work, copying_to_work, verifying_work, renaming_root_to_backup, needs_attention,
  Content, original, converted, Disk, Outcome, rerun, continue_rename, already_completed, attention,
  no_action, Result, acted, exec, convert_root, recover_convert,
}
use safe_disk.Convert.Safe.{
  dir, disk, tree, early, IsSafe, idle, working, committing, halfway, swapped, Late, IsPreserved,
  in_place, replaced, backed_up, begin, recover_convert-IsSafe, convert_root-IsSafe, late,
  late_marker, completed_marker,
}

-- The disks that come about.
pub data IsReached : Disk → Type 0 where
  converts : (os : List Outcome) → IsReached (exec convert_root os begin).1
  recovers :
      (d : Disk) (os : List Outcome) → IsReached d → IsReached (exec (recover_convert d) os d).1

-- The phases of a conversion before its commit, without a difference found.
pub data IsBegun : Phase → Type 0 where
  at_creation : IsBegun creating_work
  at_copy : IsBegun copying_to_work
  at_verification : IsBegun verifying_work

-- From which disk to which a recovery that is not cut off leads: nothing is left to do and the tree
-- that the conversion began with is the root, or it is the backup of the converted tree; or the marker
-- asks for help, and the disk is the one before.
pub data IsSettled : Disk → Option Result → Disk → Type 0 where
  nothing : IsSettled begin (some (acted no_action)) begin
  runs_again :
      (p : Phase) (w : Option Content)
      → IsBegun p
      → IsSettled (disk (dir original (some p)) (tree w) none) (some (acted rerun)) begin
  was_clean :
      IsSettled
        (disk (dir converted none) none (dir original none))
        (some (acted no_action))
        (disk (dir converted none) none (dir original none))
  commits :
      IsSettled
        (disk (dir original (some renaming_root_to_backup)) (dir converted none) none)
        (some (acted continue_rename))
        (disk (dir converted none) none (dir original none))
  continued :
      (l : Late)
      → IsSettled
          (disk none (dir converted none) (dir original (some (late l))))
          (some (acted continue_rename))
          (disk (dir converted none) none (dir original none))
  cleaned :
      (m b : Option Phase)
      → IsSettled
          (disk (dir converted m) none (dir original b))
          (some (acted already_completed))
          (disk (dir converted none) none (dir original none))
  asks :
      (w : Option Content)
      → IsSettled
          (disk (dir original (some needs_attention)) (tree w) none)
          (some (acted attention))
          (disk (dir original (some needs_attention)) (tree w) none)

IsReached-IsSafe : (d : Disk) → IsReached d → IsSafe d
IsReached-IsSafe d (converts os) = convert_root-IsSafe os
IsReached-IsSafe d (recovers e os r) = recover_convert-IsSafe e os (IsReached-IsSafe e r)

IsSafe-IsPreserved : (d : Disk) → IsSafe d → IsPreserved d
IsSafe-IsPreserved d idle = in_place none none
IsSafe-IsPreserved d (working e w) = in_place (some (early e)) (tree w)
IsSafe-IsPreserved d committing = in_place _ _
IsSafe-IsPreserved d (halfway l) = backed_up none (some (late l))
IsSafe-IsPreserved d (swapped m l) = replaced (completed_marker m) (late_marker l)

-- After a conversion and any number of recoveries, each of which may fail or be cut off at any
-- operation, the tree that the conversion began with is the root and there is no backup, or it
-- is the backup and the converted tree is whole, as the root or as the work tree.
pub IsReached-IsPreserved : (d : Disk) → IsReached d → IsPreserved d
IsReached-IsPreserved d r = IsSafe-IsPreserved d (IsReached-IsSafe d r)
