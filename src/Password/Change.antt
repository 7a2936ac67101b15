-- ===== src/Password/Change.antt =====
-- `ChangeRootPasswordContext` of password_changeable.go, with `stageRootConfig` and
-- `commitStagedRootConfig`: the change is made in a copy of the configuration file, which then takes
-- the file's place. The process holds the lock of the root's configuration meanwhile.
pub mod Safe
pub mod Outcome
pub mod Whole
pub mod Reopened
use safe_disk.Base.{
  ℕ, Bool, true, false, not, ◌||◌, ◌≡◌, ◌≢◌, refl, ap, sym, ◌∙◌, Option, none, some, List, [],
  length, if◌then◌else◌, Bool-cases, Option-cases, inl, inr,
}
use safe_disk.Base.Int.{ℤ, same_int}
use safe_disk.Base.Strings.{Str, is_empty}
use safe_disk.Config.{SharedConfig}
use safe_disk.Password.{Primitives}
use safe_disk.Password.Result.{
  PasswordError, invalid_path, passwords_required, not_locked, not_loaded, change_unsupported,
  unsupported_version, not_staged, not_committed, no_deriver, no_key, Result, ok, err, ◌>>=◌, ◌>>◌,
  check, need,
}
use safe_disk.Password.Writer.{Writer, ◌>>-◌, resume}
use safe_disk.Password.Verifier.{verify_password, write_password_verifier}
use safe_disk.Password.Envelope.{
  envelope_version_key, format_version, unwrap_root_key, root_key_envelope_version,
  write_root_key_envelope,
}
use safe_disk.Password.Agree.{AgreeOn}
use safe_disk.Password.Open.{Deriver, Factories, get_open_factories, load_password_wrapping_key}

-- The contents of a configuration file, the store that `NewFileConfig` makes of them, and the contents
-- that a store has saved. A copy of a file opens as the file does.
pub record ConfigFile (C : SharedConfig) : Type 1 where
  pub Contents : Type 0
  pub open_file : Contents → Option C.State
  pub stored : C.State → Contents

-- What the store has saved opens again, as a store that answers as it does.
pub record IsReopened (C : SharedConfig) (file : ConfigFile C) (s : C.State) : Type 0 where
  pub again : C.State
  pub opens : file.open_file (file.stored s) ≡ some again
  pub same : AgreeOn C (λ k. true) s again

-- The file and its staged copy.
pub record Disk (F : Type 0) : Type 0 where
  pub current : F
  pub staged : Option F

-- How the change ends once the old password is accepted: nothing fails on the disk, or the sync or the
-- rename fails, or the process dies while the copy is written or on either side of the rename.
pub data Fate (F : Type 0) : Type 0 where
  finishes not_synced not_renamed dies_before_rename dies_after_rename : Fate F
  dies_staging : F → Fate F

-- What a call meets: the path it is given, the lock, the staging of the copy, the bytes of
-- crypto/rand.
pub record Attempt (F : Type 0) : Type 0 where
  pub has_path : Bool
  pub locked : Bool
  pub copied : Bool
  pub fate : Fate F
  pub challenge : Option Str
  pub nonce : Option Str

module _ (C : SharedConfig) (P : Primitives) (file : ConfigFile C) where
  -- Up to `unwrapRootKey`: the store, its deriver and the content key.
  abbrev pub unlock :
      Factories C.State
      → Attempt file.Contents
      → Str
      → Str
      → file.Contents
      → Result (C.State × Deriver C.State × Str)
  unlock factories attempt old new current = do
    check attempt.has_path invalid_path
    check (not (is_empty old || is_empty new)) passwords_required
    check attempt.locked not_locked
    cfg ← need (file.open_file current) not_loaded
    deriver ← get_open_factories C P factories cfg
    envelope ← root_key_envelope_version C P cfg
    version ← need envelope change_unsupported
    check (same_int version format_version) (unsupported_version envelope_version_key version)
    wrapping ← load_password_wrapping_key C P deriver old cfg
    verify_password C P wrapping cfg
    content ← unwrap_root_key C P wrapping cfg
    check attempt.copied not_staged
    ok (cfg, deriver, content)

  -- `stagedDeriver.NewKey`, and the two records in the copy.
  abbrev pub write_records : Attempt file.Contents → Str → Option Str → Writer C.State (Unit {0})
  write_records attempt content none s = (err no_key, s)
  write_records attempt content (some key) s =
      (write_password_verifier C P attempt.challenge key >>- λ _.
      write_root_key_envelope C P attempt.nonce key content)
        s

  abbrev pub restage :
      Attempt file.Contents → Deriver C.State → Str → Str → Writer C.State (Unit {0})
  restage attempt deriver new content s =
      if deriver.ready s
      then write_records attempt content (deriver.new_key new s).0 (deriver.new_key new s).1
      else (err no_deriver, s)

  -- `commitStagedRootConfig`, and the removal of the copy after an error; none if the process dies.
  abbrev pub commit :
      Fate file.Contents
      → Result (Unit {0}) × C.State
      → file.Contents
      → Option (Result (Unit {0})) × Disk file.Contents
  commit (dies_staging half) r current = (none, record { current = current; staged = some half })
  commit fate (err e, s) current = (some (err e), record { current = current; staged = none })
  commit not_synced (ok u, s) current =
      (some (err not_committed), record { current = current; staged = none })
  commit not_renamed (ok u, s) current =
      (some (err not_committed), record { current = current; staged = none })
  commit dies_before_rename (ok u, s) current =
      (none, record { current = current; staged = some (file.stored s) })
  commit dies_after_rename (ok u, s) current =
      (none, record { current = file.stored s; staged = none })
  commit finishes (ok u, s) current =
      (some (ok u), record { current = file.stored s; staged = none })

  abbrev pub change_with :
      Attempt file.Contents
      → Str
      → file.Contents
      → Result (C.State × Deriver C.State × Str)
      → Option (Result (Unit {0})) × Disk file.Contents
  change_with attempt new current (err e) =
      (some (err e), record { current = current; staged = none })
  change_with attempt new current (ok (cfg, deriver, content)) =
      commit attempt.fate (restage attempt deriver new content cfg) current

  -- `ChangeRootPasswordContext`
  abbrev pub change_root_password :
      Factories C.State
      → Attempt file.Contents
      → Str
      → Str
      → file.Contents
      → Option (Result (Unit {0})) × Disk file.Contents
  change_root_password factories attempt old new current =
      change_with attempt new current (unlock factories attempt old new current)
