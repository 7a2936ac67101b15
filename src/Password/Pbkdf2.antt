-- ===== src/Password/Pbkdf2.antt =====
-- The deriver of native/sec_fs/crypto_hkdf/algorithm_impl/pbkdf2/factory.go, over any configuration
-- store. `pbkdf2.Key` of golang.org/x/crypto with SHA-256, where it returns, and what crypto/rand gives
-- are parameters.
pub mod Laws
use safe_disk.Base.{ℕ, true, suc, zero, Option, none, some, if◌then◌else◌}
use safe_disk.Base.Int.{ℤ, pos, negsuc}
use safe_disk.Base.Strings.{Str, codes, is_empty}
use safe_disk.Config.{SharedConfig}
use safe_disk.Config.Prefixed.{with_group}
use safe_disk.Server.Auth.Hex.{encode_hex, decode_hex}
use safe_disk.Password.Open.{Deriver}

abbrev pub stable_config_group : Str
stable_config_group = codes "pbkdf2"

abbrev pub renamed_config_group : Str
renamed_config_group = codes "PBKDF2"

abbrev pub salt_key : Str
salt_key = codes "salt"

abbrev pub iterations_key : Str
iterations_key = codes "iterations"

abbrev pub key_length_key : Str
key_length_key = codes "key_length"

-- A value of the configuration, or its default.
abbrev pub or_default : ℤ → Option ℤ → ℤ
or_default default none = default
or_default default (some v) = v

-- A stored parameter that is there and positive.
abbrev pub positive : Option ℤ → Option ℤ
positive none = none
positive (some (pos zero)) = none
positive (some (pos (suc n))) = some (pos (suc n))
positive (some (negsuc n)) = none

module _ (C : SharedConfig) (derive_key : Str → Str → ℤ → ℤ → Str) (random : Option Str) where
  -- `LoadKey`, from the values of the group.
  abbrev pub key_of_salt : Str → Option ℤ → Option ℤ → Option Str → Option (Option Str)
  key_of_salt password iterations key_length none = none
  key_of_salt password iterations key_length (some salt) = some (
      some (
        derive_key password salt (or_default (pos 100000) iterations)
          (or_default (pos 32) key_length)))

  abbrev pub key_of : Str → Option ℤ → Option ℤ → Option Str → Option (Option Str)
  key_of password iterations key_length none = none
  key_of password iterations key_length (some salt_hex) =
      key_of_salt password iterations key_length (decode_hex salt_hex)

  abbrev pub load_group : Str → Str → C.State → Option (Option Str)
  load_group group password s =
      let cfg = with_group group C in
      key_of password (cfg.get_int iterations_key s) (cfg.get_int key_length_key s)
        (cfg.get_str salt_key s)

  -- `configGroupForLoad`, by what the stable group has as its salt.
  abbrev pub config_group_for_load : Option Str → Str → C.State → Option (Option Str)
  config_group_for_load none = load_group renamed_config_group
  config_group_for_load (some salt_hex) = load_group stable_config_group

  abbrev pub load_key : Str → C.State → Option (Option Str)
  load_key password s =
      config_group_for_load ((with_group stable_config_group C).get_str salt_key s) password s

  -- The parameters in the configuration; the errors of the setters are dropped.
  abbrev pub save_parameters : Str → ℤ → ℤ → C.State → C.State
  save_parameters salt iterations key_length s =
      let cfg = with_group stable_config_group C in
      let with_salt = (cfg.set_str salt_key (encode_hex salt) s).1 in
      let with_iterations = (cfg.set_int iterations_key iterations with_salt).1 in
      (cfg.set_int key_length_key key_length with_iterations).1

  -- `NewKey` with ReuseStoredParameters and without StaticSalt, as `ChangeRootPasswordContext` calls it.
  abbrev pub new_key_with : Str → Option Str → Option ℤ → Option ℤ → C.State → Option Str × C.State
  new_key_with password none iterations key_length s = (none, s)
  new_key_with password (some salt) none key_length s = (none, s)
  new_key_with password (some salt) (some iterations) none s = (none, s)
  new_key_with password (some salt) (some iterations) (some key_length) s = (
    some (derive_key password salt iterations key_length),
    save_parameters salt iterations key_length s,
  )

  abbrev pub new_key : Str → C.State → Option Str × C.State
  new_key password s =
      let cfg = with_group stable_config_group C in
      if is_empty password
      then (none, s)
      else new_key_with password random (positive (cfg.get_int iterations_key s))
          (positive (cfg.get_int key_length_key s)) s

  abbrev pub pbkdf2 : Deriver C.State
  pbkdf2 = record { ready = λ s. true; load_key = load_key; new_key = new_key }
