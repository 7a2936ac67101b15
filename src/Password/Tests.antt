-- ===== src/Password/Tests.antt =====
-- A root whose password is changed, at concrete bytes.
use safe_disk.Base.{
  ℕ, Bool, true, List, if◌then◌else◌, ◌≡◌, ◌≢◌, refl, ap, sym, length, Option, none, some, [], ◌∷◌,
  replicate, ◌⊎◌, arith,
}
use safe_disk.Base.Int.{pos}
use safe_disk.Base.Strings.{Str, codes, same}
use safe_disk.Config.Memory.{Maps, new_maps, put_str, put_int, memory_config, memory_laws}
use safe_disk.Config.{SetError}
use safe_disk.Config.Memory.{Value, string_value}
use safe_disk.Config.File.{missing, FileState}
use safe_disk.Config.Values.{IsExactValue}
use safe_disk.Config.Kinds.{Edit, edit_str, edit_all}
use safe_disk.Config.Sample.{sample_json, sample_laws}
use safe_disk.Password.Result.{
  no_random, verifier_missing, invalid_password, not_stored, Result, ok, err,
}
use safe_disk.Password.Verifier.{
  verifier_version_key, write_password_verifier, verify_password, verify_password-write,
  write_password_verifier-incomplete,
}
use safe_disk.Password.Envelope.{
  envelope_version_key, format_version, unwrap_root_key, root_key_envelope_version,
  write_root_key_envelope,
}
use safe_disk.Password.Sealed.{unwrap_root_key-write}
use safe_disk.Password.Open.{DeriverLaws, data_factory_key, name_factory_key, deriver_factory_key}
use safe_disk.Password.Pbkdf2.{pbkdf2}
use safe_disk.Password.Pbkdf2.Laws.{pbkdf2-DeriverLaws}
use safe_disk.Password.Change.{
  ConfigFile, IsReopened, Attempt, Disk, finishes, change_root_password,
}
use safe_disk.Password.Change.Safe.{FillsRandom}
use safe_disk.Password.Change.Whole.{IsChanged, change_root_password-outcome}
use safe_disk.Password.Hint.{update_hint}
use safe_disk.Password.Hint.Safe.{IsHinted, update_hint-outcome}
use safe_disk.Password.Sample.{
  pad, sample_primitives, sample-PrimitiveLaws, sample_deriver, sample-DeriverLaws,
  sample_factories, sample_derives, sample_derive, fresh_salt, fresh_bytes, sample_name,
}

abbrev old_password : Str
old_password = 1 ∷ []

abbrev new_password : Str
new_password = 2 ∷ []

abbrev content_key : Str
content_key = replicate 32 9

abbrev some_challenge : Str
some_challenge = replicate 32 5

abbrev old_salt : Str
old_salt = 3 ∷ 255 ∷ []

abbrev old_key : Str
old_key = sample_derive old_password old_salt (pos 1000) (pos 32)

abbrev derived : Maps
derived = put_str (codes "pbkdf2_salt") (codes "03ff") (
    put_int (codes "pbkdf2_iterations") (pos 1000)
      (put_int (codes "pbkdf2_key_length") (pos 32) new_maps))

abbrev named : Maps
named =
    put_str data_factory_key (1 ∷ [])
      (put_str name_factory_key (1 ∷ []) (put_str deriver_factory_key sample_name derived))

abbrev verified : Maps
verified =
    (write_password_verifier memory_config sample_primitives (some some_challenge) old_key named).1

abbrev sample_root : Maps
sample_root =
    (write_root_key_envelope memory_config sample_primitives (some (3 ∷ 4 ∷ [])) old_key content_key
      verified).1

abbrev sample_files : ConfigFile memory_config
sample_files = record { Contents = Maps; open_file = some; stored = λ s. s }

abbrev sample_attempt : Attempt Maps
sample_attempt = record {
  has_path = true;
  locked = true;
  copied = true;
  fate = finishes;
  challenge = some some_challenge;
  nonce = some (7 ∷ 8 ∷ []);
}

abbrev size : Option Str → ℕ
size none = 0
size (some b) = length b

fills_sample : FillsRandom sample_primitives sample_attempt
fills_sample = record {
  challenge_size = λ b e. ap size (sym e);
  nonce_size = λ b e. ap size (sym e);
}

-- Without a failure, the change is made.
changed :
    (change_root_password memory_config sample_primitives sample_files sample_factories
      sample_attempt old_password new_password sample_root).0
    ≡ some (ok tt)
changed = refl

verify_password-write_example :
    verify_password memory_config sample_primitives (pad new_password) verified
    ≡ err invalid_password
verify_password-write_example =
    verify_password-write memory_config sample_primitives memory_laws sample-PrimitiveLaws
      some_challenge old_key (pad new_password) named verified tt refl refl refl

not_version : (x : SetError) → no_random ≢ not_stored verifier_version_key x
not_version x e = cc

write_password_verifier-incomplete_example :
    verify_password memory_config sample_primitives old_key named ≡ err verifier_missing
write_password_verifier-incomplete_example =
    write_password_verifier-incomplete memory_config sample_primitives memory_laws none old_key
      old_key named named no_random refl refl refl not_version

unwrap_root_key-write_example :
    (root_key_envelope_version memory_config sample_primitives sample_root
      ≡ ok (some format_version))
    × (unwrap_root_key memory_config sample_primitives old_key sample_root ≡ ok content_key)
unwrap_root_key-write_example =
    unwrap_root_key-write memory_config sample_primitives memory_laws sample-PrimitiveLaws
      (3 ∷ 4 ∷ []) old_key content_key verified sample_root tt refl (omega arith) refl

not_envelope : (x : SetError) → no_random ≢ not_stored envelope_version_key x
not_envelope x e = cc

-- A call of the change and of the update at these inputs.
abbrev change_sample : Option (Result (Unit {0})) × Disk Maps
change_sample =
    change_root_password memory_config sample_primitives sample_files sample_factories
      sample_attempt old_password new_password sample_root

reopens_all : (s : Maps) → IsReopened memory_config sample_files s
reopens_all s = record {
  again = s;
  opens = refl;
  same = record { strs = λ k h. refl; ints = λ k h. refl; bools = λ k h. refl };
}

change_root_password-outcome_example :
    ((change_sample.1.current ≡ sample_root) × (change_sample.0 ≢ some (ok tt)))
    ⊎ ((t : Maps) × (some change_sample.1.current ≡ some t)
        × ((change_sample.0 ≡ some (ok tt)) ⊎ (change_sample.0 ≡ none))
        × IsChanged memory_config sample_primitives sample_files sample_factories old_password
            new_password sample_root t)
change_root_password-outcome_example =
    change_root_password-outcome memory_config sample_primitives sample_files memory_laws
      sample-PrimitiveLaws sample_factories sample_derives sample_attempt old_password new_password
      sample_root fills_sample (λ r q o. reopens_all _)

abbrev hint_sample : Option (Result (Unit {0})) × Disk Maps
hint_sample =
    update_hint memory_config sample_primitives sample_files (λ b. true) sample_factories
      sample_attempt old_password (codes "my dog") sample_root

hint_set : hint_sample.0 ≡ some (ok tt)
hint_set = refl

update_hint-outcome_example :
    ((hint_sample.1.current ≡ sample_root) × (hint_sample.0 ≢ some (ok tt)))
    ⊎ ((t : Maps) × (some hint_sample.1.current ≡ some t)
        × ((hint_sample.0 ≡ some (ok tt)) ⊎ (hint_sample.0 ≡ none))
        × IsHinted memory_config sample_primitives sample_files
            (λ b. true)
            sample_factories
            sample_deriver
            (codes "my dog")
            sample_root
            t)
update_hint-outcome_example =
    update_hint-outcome memory_config sample_primitives memory_laws sample_files (λ b. true)
      sample_factories sample_deriver sample-DeriverLaws sample_attempt old_password
      (codes "my dog") sample_root (λ s q o. reopens_all _)

pbkdf2-DeriverLaws_example :
    DeriverLaws memory_config (pbkdf2 memory_config sample_derive (some fresh_salt))
pbkdf2-DeriverLaws_example =
    pbkdf2-DeriverLaws memory_config memory_laws sample_derive (some fresh_salt) fresh_bytes

abbrev label : Str
label = codes "n"

abbrev one_edit : List Edit
one_edit = edit_str label (7 ∷ []) ∷ []

abbrev labelled : FileState
labelled = record { maps = edit_all one_edit new_maps; stored = missing; outcomes = [] }

abbrev IsExactOption : Option Value → Type 0
IsExactOption none = Unit
IsExactOption (some v) = IsExactValue sample_json sample_laws v

abbrev at_key : Bool → Option Value
at_key b = if b then some (string_value (7 ∷ [])) else none
