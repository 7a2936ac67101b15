-- ===== src/Copy.antt =====
-- `copyFileEntry` of native/sec_fs/copy.go: the destination, the temporary file that is written first,
-- and the backup of what it replaces. The contents of files are plain; each operation of a root
-- succeeds, fails, or the process dies in it.
pub mod Safe
mod Tests
use safe_disk.Base.{ℕ, Bool, true, false, not, Option, none, some, List, [], ◌∷◌}
use safe_disk.Base.Strings.{Str}

-- How an operation goes. A copy that fails or dies leaves some contents. The end of a list of
-- outcomes is the death of the process between two operations.
pub data Outcome : Type 0 where
  works : Outcome
  fails dies : Str → Outcome

pub record Disk : Type 0 where
  pub dst : Option Str
  pub temp : Option Str
  pub backup : Option Str

pub data CopyResult : Type 0 where
  copied destination_exists destination_is_directory failed : CopyResult

-- What is left to do: under outcomes, from a disk, to a result, none if the process dies, and a disk.
abbrev pub Rest : Type 0
Rest = List Outcome → Disk → Option CopyResult × Disk

abbrev pub finish : CopyResult → Rest
finish r os d = (some r, d)

abbrev pub step : (Disk → Disk) → Rest → Rest → Rest
step effect good bad [] d = (none, d)
step effect good bad (works ∷ os) d = good os (effect d)
step effect good bad (fails left ∷ os) d = bad os d
step effect good bad (dies left ∷ os) d = (none, d)

-- An operation that changes none of the three files.
abbrev pub try_op : Rest → Rest → Rest
try_op good bad = step (λ d. d) good bad

abbrev pub drop_temp : Disk → Disk
drop_temp d = record d { temp = none }

abbrev pub temp_to_dst : Disk → Disk
temp_to_dst d = record d { dst = d.temp; temp = none }

abbrev pub dst_to_backup : Disk → Disk
dst_to_backup d = record d { backup = d.dst; dst = none }

abbrev pub backup_to_dst : Disk → Disk
backup_to_dst d = record d { dst = d.backup; backup = none }

abbrev pub drop_backup : Disk → Disk
drop_backup d = record d { backup = none }

-- `_ = dstRoot.DeleteFile(temp)`, then the error.
abbrev pub discard_temp : Rest
discard_temp = step drop_temp (finish failed) (finish failed)

-- The rename to a destination that was not there.
abbrev pub commit_new : Rest
commit_new = step temp_to_dst (finish copied) discard_temp

-- The renames around a destination that is replaced.
abbrev pub commit_over : Rest
commit_over =
    try_op
      (step dst_to_backup
        (step temp_to_dst (step drop_backup (finish copied) (finish failed))
          (step backup_to_dst discard_temp discard_temp))
        discard_temp)
      discard_temp

abbrev pub commit : Bool → Rest
commit true = commit_over
commit false = commit_new

-- `io.Copy` and the Close of the temporary file.
abbrev pub copy_contents : Str → Rest → Rest
copy_contents text good [] d = (none, d)
copy_contents text good (works ∷ os) d = try_op good discard_temp os (record d { temp = some text })
copy_contents text good (fails left ∷ os) d =
    try_op discard_temp discard_temp os (record d { temp = some left })
copy_contents text good (dies left ∷ os) d = (none, record d { temp = some left })

-- The open of the source, the parent directory, the name and the creation of the temporary file.
abbrev pub write_temp : Bool → Str → Rest
write_temp exists text =
    try_op
      (try_op
        (try_op
          (step (λ d. record d { temp = some [] }) (copy_contents text (commit exists))
            (finish failed))
          (finish failed))
        (finish failed))
      (finish failed)

abbrev pub replace : Bool → Bool → Str → Rest
replace true overwrite text = finish destination_is_directory
replace false true text = write_temp true text
replace false false text = finish destination_exists

abbrev pub begin : Option Str → Bool → Bool → Str → Rest
begin none is_dir overwrite text = write_temp false text
begin (some old) is_dir overwrite text = try_op (replace is_dir overwrite text) (finish failed)

-- `copyFileEntry` of the contents of the source.
abbrev pub copy_file_entry : Bool → Bool → Str → Rest
copy_file_entry is_dir overwrite text os d = begin d.dst is_dir overwrite text os d
