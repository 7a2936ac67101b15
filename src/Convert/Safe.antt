-- ===== src/Convert/Safe.antt =====
-- No crash and no failure of a conversion, or of a recovery from one, loses the tree that it began
-- with.
use safe_disk.Base.{Bool, true, false, Option, none, some, List, [], ◌∷◌}
use safe_disk.Convert.{
  Phase, creating_work, copying_to_work, verifying_work, renaming_root_to_backup,
  renaming_work_to_root, completed, needs_attention, Content, original, partial, converted, Dir,
  Disk, at_root, write_marker, Outcome, done, refused, torn, continue_rename, already_completed,
  Result, success, failure, acted, stop, verify, must, exec, clean, commit_convert_rename,
  record_verification_failure, convert_root, finish_recovered_work_rename, recover_work_rename,
  recover_root_rename, path_exists, discard_work, recover_from_marker, recover_convert,
}

abbrev pub dir : Content → Option Phase → Option Dir
dir c m = some (record { content = c; marker = m })

abbrev pub disk : Option Dir → Option Dir → Option Dir → Disk
disk r w b = record { root = r; work = w; backup = b }

abbrev pub tree : Option Content → Option Dir
tree none = none
tree (some c) = dir c none

-- The phases in which the root has not been touched.
pub data Early : Type 0 where
  creates copies verifies complains : Early

abbrev pub early : Early → Phase
early creates = creating_work
early copies = copying_to_work
early verifies = verifying_work
early complains = needs_attention

-- The phases between the renames.
pub data Late : Type 0 where
  first second : Late

abbrev pub late : Late → Phase
late first = renaming_root_to_backup
late second = renaming_work_to_root

abbrev pub late_marker : Option Late → Option Phase
late_marker none = none
late_marker (some l) = some (late l)

abbrev pub completed_marker : Bool → Option Phase
completed_marker true = some completed
completed_marker false = none

-- The disks that a conversion and its recoveries go through.
pub data IsSafe : Disk → Type 0 where
  idle : IsSafe (disk (dir original none) none none)
  working :
      (e : Early) (w : Option Content) → IsSafe (disk (dir original (some (early e))) (tree w) none)
  committing : IsSafe (disk (dir original (some renaming_root_to_backup)) (dir converted none) none)
  halfway : (l : Late) → IsSafe (disk none (dir converted none) (dir original (some (late l))))
  swapped :
      (m : Bool) (l : Option Late)
      → IsSafe (disk (dir converted (completed_marker m)) none (dir original (late_marker l)))

-- The tree that the conversion began with is in its place, or is the backup of the converted tree
-- that is in its place or about to be put there.
pub data IsPreserved : Disk → Type 0 where
  in_place : (m : Option Phase) (w : Option Dir) → IsPreserved (disk (dir original m) w none)
  replaced : (w b : Option Phase) → IsPreserved (disk (dir converted w) none (dir original b))
  backed_up : (w b : Option Phase) → IsPreserved (disk none (dir converted w) (dir original b))

clean-IsSafe :
    (r : Result) (m : Bool) (l : Option Late) (os : List Outcome)
    → IsSafe
        (exec
          (clean r)
          os
          (disk (dir converted (completed_marker m)) none (dir original (late_marker l)))).1
unfolding exec
clean-IsSafe r m l [] = swapped m l
clean-IsSafe r m l (refused ∷ []) = swapped m l
clean-IsSafe r m l (done ∷ []) = swapped false l
clean-IsSafe r m l (torn ∷ []) = swapped false l
clean-IsSafe r m l (refused ∷ refused ∷ os) = swapped m l
clean-IsSafe r m l (refused ∷ done ∷ os) = swapped m none
clean-IsSafe r m l (refused ∷ torn ∷ os) = swapped m none
clean-IsSafe r m l (done ∷ refused ∷ os) = swapped false l
clean-IsSafe r m l (done ∷ done ∷ os) = swapped false none
clean-IsSafe r m l (done ∷ torn ∷ os) = swapped false none
clean-IsSafe r m l (torn ∷ refused ∷ os) = swapped false l
clean-IsSafe r m l (torn ∷ done ∷ os) = swapped false none
clean-IsSafe r m l (torn ∷ torn ∷ os) = swapped false none

finish-IsSafe :
    (l : Late) (os : List Outcome)
    → IsSafe
        (exec finish_recovered_work_rename os
          (disk none (dir converted none) (dir original (some (late l))))).1
unfolding exec finish_recovered_work_rename
finish-IsSafe l [] = halfway l
finish-IsSafe l (refused ∷ os) = halfway l
finish-IsSafe l (done ∷ os) = clean-IsSafe (acted continue_rename) false (some l) os
finish-IsSafe l (torn ∷ os) = swapped false (some l)

discard-IsSafe :
    (e : Early) (w : Option Content) (os : List Outcome)
    → IsSafe
        (exec
          (discard_work true (path_exists (tree w)) false)
          os
          (disk (dir original (some (early e))) (tree w) none)).1
unfolding exec discard_work
discard-IsSafe e none [] = working e none
discard-IsSafe e (some c) [] = working e (some c)
discard-IsSafe e none (refused ∷ os) = working e none
discard-IsSafe e none (done ∷ os) = idle
discard-IsSafe e none (torn ∷ os) = idle
discard-IsSafe e (some c) (refused ∷ os) = working e (some partial)
discard-IsSafe e (some c) (torn ∷ os) = working e none
discard-IsSafe e (some c) (done ∷ []) = working e none
discard-IsSafe e (some c) (done ∷ refused ∷ os) = working e none
discard-IsSafe e (some c) (done ∷ done ∷ os) = idle
discard-IsSafe e (some c) (done ∷ torn ∷ os) = idle

root_rename-IsSafe :
    (os : List Outcome)
    → IsSafe
        (exec
          (recover_root_rename true true false)
          os
          (disk (dir original (some renaming_root_to_backup)) (dir converted none) none)).1
unfolding exec recover_root_rename
root_rename-IsSafe [] = committing
root_rename-IsSafe (refused ∷ os) = committing
root_rename-IsSafe (torn ∷ os) = halfway first
root_rename-IsSafe (done ∷ []) = halfway first
root_rename-IsSafe (done ∷ refused ∷ os) = halfway first
root_rename-IsSafe (done ∷ torn ∷ os) = halfway second
root_rename-IsSafe (done ∷ done ∷ os) = finish-IsSafe second os

working-IsSafe :
    (e : Early) (w : Option Content) (os : List Outcome)
    → IsSafe
        (exec
          (recover_from_marker (early e) true (path_exists (tree w)) false)
          os
          (disk (dir original (some (early e))) (tree w) none)).1
unfolding exec recover_from_marker
working-IsSafe creates w os = discard-IsSafe creates w os
working-IsSafe copies w os = discard-IsSafe copies w os
working-IsSafe verifies w os = discard-IsSafe verifies w os
working-IsSafe complains w os = working complains w

halfway-IsSafe :
    (l : Late) (os : List Outcome)
    → IsSafe
        (exec
          (recover_from_marker (late l) false true true)
          os
          (disk none (dir converted none) (dir original (some (late l))))).1
unfolding recover_from_marker recover_root_rename recover_work_rename
halfway-IsSafe first os = finish-IsSafe first os
halfway-IsSafe second os = finish-IsSafe second os

swapped-IsSafe :
    (m : Bool) (l : Option Late) (os : List Outcome)
    → let d = disk (dir converted (completed_marker m)) none (dir original (late_marker l)) in
      IsSafe (exec (recover_convert d) os d).1
unfolding exec recover_convert recover_from_marker recover_root_rename recover_work_rename
swapped-IsSafe true l os = clean-IsSafe (acted already_completed) true l os
swapped-IsSafe false none os = swapped false none
swapped-IsSafe false (some first) os = clean-IsSafe (acted already_completed) false (some first) os
swapped-IsSafe false (some second) os =
    clean-IsSafe (acted already_completed) false (some second) os

-- A recovery from a safe disk leaves a safe disk, whatever its operations do and wherever it stops.
pub recover_convert-IsSafe :
    (d : Disk) (os : List Outcome) → IsSafe d → IsSafe (exec (recover_convert d) os d).1
unfolding recover_convert exec
recover_convert-IsSafe d os idle = idle
recover_convert-IsSafe d os (working e w) = working-IsSafe e w os
recover_convert-IsSafe d os committing = root_rename-IsSafe os
recover_convert-IsSafe d os (halfway l) = halfway-IsSafe l os
recover_convert-IsSafe d os (swapped m l) = swapped-IsSafe m l os

commit-IsSafe :
    (os : List Outcome)
    → IsSafe
        (exec commit_convert_rename os
          (disk (dir original (some verifying_work)) (dir converted none) none)).1
unfolding exec commit_convert_rename
commit-IsSafe [] = working verifies (some converted)
commit-IsSafe (refused ∷ os) = working verifies (some converted)
commit-IsSafe (torn ∷ os) = committing
commit-IsSafe (done ∷ []) = committing
commit-IsSafe (done ∷ refused ∷ os) = committing
commit-IsSafe (done ∷ torn ∷ os) = halfway first
commit-IsSafe (done ∷ done ∷ []) = halfway first
commit-IsSafe (done ∷ done ∷ refused ∷ os) = halfway first
commit-IsSafe (done ∷ done ∷ torn ∷ os) = halfway first
commit-IsSafe (done ∷ done ∷ done ∷ []) = halfway first
commit-IsSafe (done ∷ done ∷ done ∷ refused ∷ os) = halfway first
commit-IsSafe (done ∷ done ∷ done ∷ torn ∷ os) = halfway second
commit-IsSafe (done ∷ done ∷ done ∷ done ∷ []) = halfway second
commit-IsSafe (done ∷ done ∷ done ∷ done ∷ refused ∷ os) = halfway second
commit-IsSafe (done ∷ done ∷ done ∷ done ∷ torn ∷ os) = swapped false (some second)
commit-IsSafe (done ∷ done ∷ done ∷ done ∷ done ∷ []) = swapped false (some second)
commit-IsSafe (done ∷ done ∷ done ∷ done ∷ done ∷ refused ∷ os) = swapped false (some second)
commit-IsSafe (done ∷ done ∷ done ∷ done ∷ done ∷ torn ∷ os) = swapped true (some second)
commit-IsSafe (done ∷ done ∷ done ∷ done ∷ done ∷ done ∷ os) =
    clean-IsSafe success true (some second) os

differs-IsSafe :
    (w : Option Content) (os : List Outcome)
    → IsSafe
        (exec record_verification_failure os
          (disk (dir original (some verifying_work)) (tree w) none)).1
unfolding exec record_verification_failure
differs-IsSafe w [] = working verifies w
differs-IsSafe w (refused ∷ os) = working verifies w
differs-IsSafe w (done ∷ os) = working complains w
differs-IsSafe w (torn ∷ os) = working complains w

-- The rest of a conversion from the marker behind the copy on.
verify-IsSafe :
    (c : Content) (os : List Outcome)
    → IsSafe
        (exec
          (must
            (write_marker at_root verifying_work)
            (verify commit_convert_rename record_verification_failure (stop failure)))
          os
          (disk (dir original (some copying_to_work)) (tree (some c)) none)).1
unfolding exec
verify-IsSafe c [] = working copies (some c)
verify-IsSafe c (refused ∷ os) = working copies (some c)
verify-IsSafe c (torn ∷ os) = working verifies (some c)
verify-IsSafe c (done ∷ []) = working verifies (some c)
verify-IsSafe c (done ∷ refused ∷ os) = working verifies (some c)
verify-IsSafe c (done ∷ torn ∷ os) = working verifies (some c)
verify-IsSafe converted (done ∷ done ∷ os) = commit-IsSafe os
verify-IsSafe original (done ∷ done ∷ os) = differs-IsSafe (some original) os
verify-IsSafe partial (done ∷ done ∷ os) = differs-IsSafe (some partial) os

abbrev pub begin : Disk
begin = disk (dir original none) none none

-- A conversion leaves a safe disk, whatever its operations do and wherever it stops.
pub convert_root-IsSafe : (os : List Outcome) → IsSafe (exec convert_root os begin).1
unfolding exec convert_root
convert_root-IsSafe [] = idle
convert_root-IsSafe (refused ∷ os) = idle
convert_root-IsSafe (torn ∷ os) = working creates none
convert_root-IsSafe (done ∷ []) = working creates none
convert_root-IsSafe (done ∷ refused ∷ os) = working creates none
convert_root-IsSafe (done ∷ torn ∷ os) = working creates (some partial)
convert_root-IsSafe (done ∷ done ∷ []) = working creates (some partial)
convert_root-IsSafe (done ∷ done ∷ refused ∷ os) = working creates (some partial)
convert_root-IsSafe (done ∷ done ∷ torn ∷ os) = working copies (some partial)
convert_root-IsSafe (done ∷ done ∷ done ∷ []) = working copies (some partial)
convert_root-IsSafe (done ∷ done ∷ done ∷ refused ∷ os) = working copies (some partial)
convert_root-IsSafe (done ∷ done ∷ done ∷ torn ∷ os) = verify-IsSafe partial os
convert_root-IsSafe (done ∷ done ∷ done ∷ done ∷ os) = verify-IsSafe converted os
