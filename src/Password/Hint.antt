-- ===== src/Password/Hint.antt =====
-- The hint of password_hint.go: public text in the configuration, set after the password is verified.
pub mod Safe
use safe_disk.Base.{
  ℕ, Bool, false, not, leb, ◌≡◌, ◌≢◌, refl, ap, ◌∙◌, subst, Option, none, some, [], length, ◌⊎◌,
  inl, inr,
}
use safe_disk.Base.Int.{ℤ, same_int}
use safe_disk.Base.Strings.{Str, codes, same, is_empty}
use safe_disk.Config.{SharedConfig, ConfigLaws}
use safe_disk.Password.{Primitives}
use safe_disk.Password.Result.{
  hint_not_text, hint_too_long, unsupported_version, invalid_path, passwords_required, not_locked,
  not_loaded, not_staged, Result, ok, err, ◌>>=◌, ◌>>◌, check, need, need-ok, ok-injective,
  and_then-ok, Result-cases,
}
use safe_disk.Password.Writer.{Writer, store_str, resume, resume-ok, last_set-ok}
use safe_disk.Password.Agree.{AgreeOn, set_str-AgreeOn}
use safe_disk.Password.Verifier.{verifier_version_key, challenge_key, tag_key, verify_password}
use safe_disk.Password.Envelope.{
  envelope_version_key, nonce_key, ciphertext_key, format_version, unwrap_root_key,
}
use safe_disk.Password.Open.{
  Deriver, DeriverLaws, Factories, data_factory_key, name_factory_key, deriver_factory_key,
  get_open_factories, root_key_by, load_password_wrapping_key, load_root_key_for_open,
}
use safe_disk.Password.Same.{hint_key}
use safe_disk.Password.Change.{ConfigFile, Attempt, Disk, commit}
use safe_disk.Password.Change.Whole.{commit_cases}

abbrev pub max_hint_bytes : ℕ
max_hint_bytes = 256

-- `validatePasswordHint`, with `utf8.ValidString` of the bytes.
abbrev pub validate_hint : (Str → Bool) → Str → Result (Unit {0})
validate_hint is_text hint = do
  check (is_text hint) hint_not_text
  check (leb (length hint) max_hint_bytes) hint_too_long

module _ (C : SharedConfig) (P : Primitives) (file : ConfigFile C) (is_text : Str → Bool) where
  -- `ReadRootPasswordHint`: a hint that is not there is an empty one.
  abbrev pub hint_of : Option Str → Result Str
  hint_of none = ok []
  hint_of (some hint) = do validate_hint is_text hint; ok hint

  abbrev pub read_hint : Bool → file.Contents → Result Str
  read_hint has_path current = do
    check has_path invalid_path
    cfg ← need (file.open_file current) not_loaded
    hint_of (C.get_str hint_key cfg)

  -- `setPasswordHint`
  abbrev pub set_hint : Str → Writer C.State (Unit {0})
  set_hint hint s = resume (validate_hint is_text hint) s λ _. store_str C hint_key hint

  -- Up to the staging of `UpdateRootPasswordHintContext`: the store.
  abbrev pub unlock_hint :
      Factories C.State → Attempt file.Contents → Str → Str → file.Contents → Result C.State
  unlock_hint factories attempt password hint current = do
    check attempt.has_path invalid_path
    check (not (is_empty password)) passwords_required
    validate_hint is_text hint
    check attempt.locked not_locked
    cfg ← need (file.open_file current) not_loaded
    deriver ← get_open_factories C P factories cfg
    wrapping ← load_password_wrapping_key C P deriver password cfg
    verify_password C P wrapping cfg
    check attempt.copied not_staged
    ok cfg

  -- `UpdateRootPasswordHintContext`
  abbrev pub update_with :
      Attempt file.Contents
      → Str
      → file.Contents
      → Result C.State
      → Option (Result (Unit {0})) × Disk file.Contents
  update_with attempt hint current (err e) =
      (some (err e), record { current = current; staged = none })
  update_with attempt hint current (ok cfg) =
      commit C P file attempt.fate (set_hint hint cfg) current

  abbrev pub update_hint :
      Factories C.State
      → Attempt file.Contents
      → Str
      → Str
      → file.Contents
      → Option (Result (Unit {0})) × Disk file.Contents
  update_hint factories attempt password hint current =
      update_with attempt hint current (unlock_hint factories attempt password hint current)
