-- ===== src/Convert.antt =====
-- The conversion of a root in place, and its recovery: sec_fs/sec_transfer/v3/convert.go, with the
-- markers of marker.go and the file operations of durability.go that it uses. The disk is the three
-- directories of one operation, each with its content and with the marker of the operation that it
-- holds; a run stops anywhere (`exec` with no more outcomes), and every operation can fail before or
-- after its effect. Which marker of several a recovery takes, and the checks of its paths, are in Marker.
pub mod Safe
pub mod Recovery
mod Tests
use safe_disk.Base.{Bool, true, false, Option, none, some, List, [], ◌∷◌}

-- The phases of a marker.
pub data Phase : Type 0 where
  creating_work copying_to_work verifying_work renaming_root_to_backup renaming_work_to_root : Phase
  completed needs_attention : Phase

-- What a directory holds: the tree that the conversion began with, anything less than the converted
-- tree, or the converted tree.
pub data Content : Type 0 where
  original partial converted : Content

pub record Dir : Type 0 where
  pub content : Content
  pub marker : Option Phase

pub record Disk : Type 0 where
  pub root : Option Dir
  pub work : Option Dir
  pub backup : Option Dir

pub data Place : Type 0 where
  at_root at_work at_backup : Place

abbrev pub dir_at : Place → Disk → Option Dir
dir_at at_root d = d.root
dir_at at_work d = d.work
dir_at at_backup d = d.backup

abbrev pub set_at : Place → Option Dir → Disk → Disk
set_at at_root x d = record d { root = x }
set_at at_work x d = record d { work = x }
set_at at_backup x d = record d { backup = x }

-- The operations on the disk: `writeMarker`, `removeMarker`, `renamePath`, `mkdirAllPath` and
-- `removeAllPath` on the work tree, and the copy that fills it.
pub data Op : Type 0 where
  write_marker : Place → Phase → Op
  remove_marker : Place → Op
  rename_path : Place → Place → Op
  make_work remove_work copy_to_work : Op

-- How an operation goes: it succeeds, it fails before its effect (of a removal or a copy a part may
-- have happened), or it fails after it, when the directory cannot be synced. A copy that is `torn`
-- ends without an error and with a wrong tree.
pub data Outcome : Type 0 where
  done refused torn : Outcome

-- The marker is written into a directory that `MkdirAll` makes if need be.
abbrev pub mark : Phase → Option Dir → Dir
mark p none = record { content = partial; marker = some p }
mark p (some r) = record r { marker = some p }

abbrev pub unmark : Option Dir → Option Dir
unmark none = none
unmark (some r) = some (record r { marker = none })

abbrev pub fill : Content → Option Dir → Option Dir
fill c none = none
fill c (some r) = some (record r { content = c })

abbrev pub make : Option Dir → Dir
make none = record { content = partial; marker = none }
make (some r) = r

-- A directory is renamed if it is there and the new name is free.
abbrev pub move : Place → Place → Option Dir → Option Dir → Disk → Option Disk
move from to none y d = none
move from to (some r) none d = some (set_at to (some r) (set_at from none d))
move from to (some r) (some s) d = none

-- The whole effect of an operation; `none` is its error.
pub apply : Op → Disk → Option Disk
apply (write_marker at p) d = some (set_at at (some (mark p (dir_at at d))) d)
apply (remove_marker at) d = some (set_at at (unmark (dir_at at d)) d)
apply (rename_path from to) d = move from to (dir_at from d) (dir_at to d) d
apply make_work d = some (record d { work = some (make d.work) })
apply remove_work d = some (record d { work = none })
apply copy_to_work d = some (record d { work = fill converted d.work })

-- What a refused operation leaves.
abbrev pub spoil : Op → Disk → Disk
spoil (write_marker at p) d = d
spoil (remove_marker at) d = d
spoil (rename_path from to) d = d
spoil make_work d = d
spoil remove_work d = record d { work = fill partial d.work }
spoil copy_to_work d = record d { work = fill partial d.work }

-- A torn operation has its effect and reports an error.
abbrev pub late_error : Option Disk → Disk → Bool × Disk
late_error none d = (false, d)
late_error (some e) d = (false, e)

abbrev pub outcome_of : Option Disk → Disk → Bool × Disk
outcome_of none d = (false, d)
outcome_of (some e) d = (true, e)

-- Whether the operation reports no error, and the disk after it.
pub perform : Op → Outcome → Disk → Bool × Disk
unfolding apply
perform o refused d = (false, spoil o d)
perform o done d = outcome_of (apply o d) d
perform copy_to_work torn d = (true, record d { work = fill partial d.work })
perform (write_marker at p) torn d = late_error (apply (write_marker at p) d) d
perform (remove_marker at) torn d = late_error (apply (remove_marker at) d) d
perform (rename_path from to) torn d = late_error (apply (rename_path from to) d) d
perform make_work torn d = late_error (apply make_work d) d
perform remove_work torn d = late_error (apply remove_work d) d

-- The actions of a `RecoverResult`.
pub data Action : Type 0 where
  no_action rerun continue_rename already_completed attention : Action

-- A conversion returns nil or an error, a recovery its action.
pub data Result : Type 0 where
  success failure : Result
  acted : Action → Result

-- A program: operations with what follows their success and their error, and the comparison of the
-- trees, which finds them the same, finds a difference, or fails.
pub data Prog : Type 0 where
  stop : Result → Prog
  act : Op → Prog → Prog → Prog
  verify : Prog → Prog → Prog → Prog

abbrev pub is_converted : Content → Bool
is_converted original = false
is_converted partial = false
is_converted converted = true

abbrev pub holds_converted : Option Dir → Bool
holds_converted none = false
holds_converted (some r) = is_converted r.content

-- A program on a disk under the outcomes of its operations: its result, or none where it was cut
-- off, and the disk that it leaves.
pub exec : Prog → List Outcome → Disk → Option Result × Disk
unfolding perform
exec (stop r) os d = (some r, d)
exec (act o ok err) [] d = (none, d)
exec (act o ok err) (x ∷ os) d =
    let r = perform o x d in elim r.0 [ true ↦ exec ok os r.1 | false ↦ exec err os r.1 ]
exec (verify same differs failed) [] d = (none, d)
exec (verify same differs failed) (refused ∷ os) d = exec failed os d
exec (verify same differs failed) (torn ∷ os) d = exec failed os d
exec (verify same differs failed) (done ∷ os) d = elim (holds_converted d.work) [
  | true ↦ exec same os d
  | false ↦ exec differs os d
]

-- An operation whose error is returned at once, and one whose error is dropped.
abbrev pub must : Op → Prog → Prog
must o next = act o next (stop failure)

abbrev pub try_to : Op → Prog → Prog
try_to o next = act o next next

abbrev pub or_attention : Op → Prog → Prog
or_attention o next = act o next (stop (acted attention))

-- The end of `commitConvertRename` and of every recovery that succeeds.
abbrev pub clean : Result → Prog
clean r = try_to (remove_marker at_root) (try_to (remove_marker at_backup) (stop r))

-- `commitConvertRename`
pub commit_convert_rename : Prog
commit_convert_rename = must (write_marker at_root renaming_root_to_backup) (
    must (rename_path at_root at_backup) (
      must (write_marker at_backup renaming_root_to_backup) (
        must (write_marker at_backup renaming_work_to_root) (
          must (rename_path at_work at_root)
            (must (write_marker at_root completed) (clean success))))))

-- `recordVerificationFailure`
pub record_verification_failure : Prog
record_verification_failure = must (write_marker at_root needs_attention) (stop failure)

-- `convertRoot` with `convertEncrypt` or `convertDecrypt`, which differ in the copy only.
pub convert_root : Prog
unfolding commit_convert_rename record_verification_failure
convert_root = must (write_marker at_root creating_work) (
    must make_work (
      must (write_marker at_root copying_to_work) (
        must copy_to_work (
          must (write_marker at_root verifying_work)
            (verify commit_convert_rename record_verification_failure (stop failure))))))

-- `finishRecoveredWorkRename`
pub finish_recovered_work_rename : Prog
finish_recovered_work_rename =
    or_attention (rename_path at_work at_root) (clean (acted continue_rename))

-- The case of `phaseRenamingWorkToRoot`, by whether root, work and backup exist.
pub recover_work_rename : Bool → Bool → Bool → Prog
unfolding finish_recovered_work_rename
recover_work_rename false true true = finish_recovered_work_rename
recover_work_rename true false true = clean (acted already_completed)
recover_work_rename true false false = stop (acted attention)
recover_work_rename true true b = stop (acted attention)
recover_work_rename false false b = stop (acted attention)
recover_work_rename false true false = stop (acted attention)

-- The case of `phaseRenamingRootToBackup`, which falls through to the other.
pub recover_root_rename : Bool → Bool → Bool → Prog
unfolding finish_recovered_work_rename recover_work_rename
recover_root_rename true true false =
    or_attention (rename_path at_root at_backup)
      (or_attention (write_marker at_backup renaming_work_to_root) finish_recovered_work_rename)
recover_root_rename true true true = recover_work_rename true true true
recover_root_rename true false b = recover_work_rename true false b
recover_root_rename false w b = recover_work_rename false w b

-- The case of the phases before the renames: the work tree goes, if there is one, then the marker.
pub discard_work : Bool → Bool → Bool → Prog
discard_work true true false =
    or_attention remove_work (or_attention (remove_marker at_root) (stop (acted rerun)))
discard_work true false false = or_attention (remove_marker at_root) (stop (acted rerun))
discard_work true w true = stop (acted attention)
discard_work false w b = stop (acted attention)

-- `recoverFromMarker`, for a marker whose paths are the operation's.
pub recover_from_marker : Phase → Bool → Bool → Bool → Prog
unfolding discard_work recover_root_rename recover_work_rename
recover_from_marker creating_work r w b = discard_work r w b
recover_from_marker copying_to_work r w b = discard_work r w b
recover_from_marker verifying_work r w b = discard_work r w b
recover_from_marker renaming_root_to_backup r w b = recover_root_rename r w b
recover_from_marker renaming_work_to_root r w b = recover_work_rename r w b
recover_from_marker completed r w b = clean (acted already_completed)
recover_from_marker needs_attention r w b = stop (acted attention)

-- `pathExists`
abbrev pub path_exists : Option Dir → Bool
path_exists none = false
path_exists (some r) = true

abbrev pub marker_in : Option Dir → Option Phase
marker_in none = none
marker_in (some r) = r.marker

-- The first marker that `findConvertMarkers` finds: that of the root, of the backup, of the work
-- tree.
abbrev pub first_of : Option Phase → Option Phase → Option Phase
first_of none q = q
first_of (some p) q = some p

abbrev pub find_convert_marker : Disk → Option Phase
find_convert_marker d =
    first_of (marker_in d.root) (first_of (marker_in d.backup) (marker_in d.work))

abbrev pub recover_by : Option Phase → Bool → Bool → Bool → Prog
unfolding recover_from_marker
recover_by none r w b = stop (acted no_action)
recover_by (some p) r w b = recover_from_marker p r w b

-- `recoverConvert`
pub recover_convert : Disk → Prog
unfolding recover_by
recover_convert d =
    recover_by (find_convert_marker d) (path_exists d.root) (path_exists d.work)
      (path_exists d.backup)
