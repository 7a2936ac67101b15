-- ===== src/Password/Open.antt =====
-- The key that opens a root: `getOpenFactories` of sec_root_factory.go, and `loadPasswordWrappingKey` and
-- `loadRootKeyForOpen`. The registries and the derivers are parameters.
use safe_disk.Base.{Bool, true, false, not, ◌≡◌, Option, none, some}
use safe_disk.Base.Int.{ℤ, same_int}
use safe_disk.Base.Strings.{Str, codes, is_empty, starts_with}
use safe_disk.Config.{SharedConfig}
use safe_disk.Password.{Primitives}
use safe_disk.Password.Result.{
  bad_factories, no_deriver, no_key, unsupported_version, Result, ok, ◌>>=◌, ◌>>◌, check, need,
}
use safe_disk.Password.Agree.{AgreeOn}
use safe_disk.Password.Verifier.{verify_password}
use safe_disk.Password.Envelope.{
  envelope_version_key, format_version, unwrap_root_key, root_key_envelope_version,
}

-- A deriver over a store: whether `NewDeriver` succeeds, `LoadKey`, which fails or gives a key, maybe
-- nil, and `NewKey` that reuses the stored parameters.
pub record Deriver (S : Type 0) : Type 0 where
  pub ready : S → Bool
  pub load_key : Str → S → Option (Option Str)
  pub new_key : Str → S → Option Str × S

-- The registries of the factories, by name.
pub record Factories (S : Type 0) : Type 0 where
  pub has_data : Str → Bool
  pub has_name : Str → Bool
  pub deriver : Str → Option (Deriver S)

-- A name that is missing or empty is refused.
abbrev pub factory_name : Option Str → Result Str
factory_name found = do
  name ← need found bad_factories
  check (not (is_empty name)) bad_factories
  ok name

-- `getOpenFactories`, of which this code uses the deriver, by the three names that are stored.
abbrev pub open_factories :
    {S : Type 0} → Factories S → Option Str → Option Str → Option Str → Result (Deriver S)
open_factories F stored_data stored_name stored_deriver = do
  data_name ← factory_name stored_data
  check (F.has_data data_name) bad_factories
  name_name ← factory_name stored_name
  check (F.has_name name_name) bad_factories
  deriver_name ← factory_name stored_deriver
  need (F.deriver deriver_name) bad_factories

abbrev pub data_factory_key : Str
data_factory_key = codes "sec_fs_factory"

abbrev pub name_factory_key : Str
name_factory_key = codes "sec_name_factory"

abbrev pub deriver_factory_key : Str
deriver_factory_key = codes "sec_deriver_factory"

module _ (C : SharedConfig) (P : Primitives) where
  abbrev pub get_open_factories : Factories C.State → C.State → Result (Deriver C.State)
  get_open_factories F s =
      open_factories F (C.get_str data_factory_key s) (C.get_str name_factory_key s)
        (C.get_str deriver_factory_key s)

  -- `loadPasswordWrappingKey`
  abbrev pub load_password_wrapping_key : Deriver C.State → Str → C.State → Result Str
  load_password_wrapping_key D password s = do
    check (D.ready s) no_deriver
    key ← need (D.load_key password s) no_key
    need key no_key

  -- The end of `loadRootKeyForOpen`, by the version of the envelope.
  abbrev pub root_key_by : Option ℤ → Str → C.State → Result Str
  root_key_by none wrapping s = do verify_password C P wrapping s; ok wrapping
  root_key_by (some version) wrapping s = do
    check (same_int version format_version) (unsupported_version envelope_version_key version)
    verify_password C P wrapping s
    unwrap_root_key C P wrapping s

  -- `loadRootKeyForOpen`
  abbrev pub load_root_key_for_open : Deriver C.State → Str → C.State → Result Str
  load_root_key_for_open D password s = do
    wrapping ← load_password_wrapping_key D password s
    version ← root_key_envelope_version C P s
    root_key_by version wrapping s

-- What a deriver promises: it keeps its parameters under its own keys, reads no others, and gives for a
-- password the key that it made for it.
pub record DeriverLaws (C : SharedConfig) (D : Deriver C.State) : Type 0 where
  pub own : Str → Bool
  pub ready_same : (s t : C.State) → AgreeOn C own s t → D.ready t ≡ D.ready s
  pub load_same :
      (password : Str) (s t : C.State)
      → AgreeOn C own s t
      → D.load_key password t ≡ D.load_key password s
  pub new_key_others :
      (password : Str) (s : C.State) → AgreeOn C (λ k. not (own k)) s (D.new_key password s).1
  pub own_other : (k : Str) → starts_with (codes "sec_") k ≡ true → own k ≡ false
  pub load-new :
      (password key : Str) (s t : C.State)
      → D.new_key password s ≡ (some key, t)
      → (D.ready t ≡ true) × (D.load_key password t ≡ some (some key))

module _ (C : SharedConfig) (P : Primitives) where
  -- A root opens if its parts do.
  pub load_root_key-opens :
      (D : Deriver C.State) (password wrapping content : Str) (s : C.State)
      → load_password_wrapping_key C P D password s ≡ ok wrapping
      → root_key_envelope_version C P s ≡ ok (some format_version)
      → verify_password C P wrapping s ≡ ok tt
      → unwrap_root_key C P wrapping s ≡ ok content
      → load_root_key_for_open C P D password s ≡ ok content
  load_root_key-opens D password wrapping content s w v p u =
      rw (w, load_root_key_for_open) (rw v (rw (p, root_key_by) u))
