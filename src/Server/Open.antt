-- ===== src/Server/Open.antt =====
-- `OpenWithOptions`, `newActiveSession`, `restorePersistent` and `RestorePersistent`.
pub mod Outcome
pub mod Restored
pub mod Reopened
pub mod Added
use safe_disk.Base.{
  ℕ, Bool, true, false, not, ◌||◌, ◌&&◌, Option, none, some, List, [], ◌∷◌, ◌++◌, if◌then◌else◌,
}
use safe_disk.Base.Int.{ℤ, pos, negsuc, same_int}
use safe_disk.Base.Strings.{Str, codes, same, is_empty}
use safe_disk.GoMap.{lookup, insert, is_some}
use safe_disk.Config.Memory.{str_eq}
use safe_disk.WebDav.{Library}
use safe_disk.WebDav.Options.{OpenOptions, normalize_open_options}
use safe_disk.Server.Paths.{clean_relative_path}
use safe_disk.Server.Types.{
  Session, PersistentSession, AuthState, SecureFileSystem, ActiveSession, Listener, Manager,
  read_only_policy, is_lasting, ServerError, bad_options, invalid_root_key, no_provider,
  invalid_path, not_found, store_unavailable, record_invalid, no_random, not_loaded, Result, err,
  ok, SaveOutcome,
}
use safe_disk.Server.Auth.{Reader, new_value, new_auth, auth_from_persistent}
use safe_disk.Server.Records.{Store, records_of, save_persistent}
use safe_disk.Server.Listeners.{Started, ensure_server, stop_if_idle, webdav_url_scheme}

-- The arguments of `OpenWithOptions`, with the outcomes of what it calls: whether the provider finds the
-- path, how a listener starts, what the random reader gives, and how the store loads and saves.
pub record OpenCall : Type 0 where
  pub root_key : Str
  pub display_name : Str
  pub exposed_path : Str
  pub provider : Option ℕ
  pub options : OpenOptions
  pub exists : Bool
  pub started : Started
  pub reader : Reader
  pub loads : Bool
  pub saves : SaveOutcome

abbrev pub url_of : Bool → Listener → Str → Str
url_of tls l id = webdav_url_scheme tls ++ (l.address ++ (codes "/webdav/" ++ (id ++ codes "/")))

-- `newSecureFileSystem`
abbrev pub new_secure_file_system : ℕ → Str → Str → SecureFileSystem
new_secure_file_system provider base write_policy = record {
  provider = provider;
  base = base;
  write_policy = write_policy;
}

-- `newActiveSession`
abbrev pub new_active_session : Session → AuthState → ℕ → ActiveSession
new_active_session s auth provider = record {
  session = s;
  auth = auth;
  files = new_secure_file_system provider s.exposed_path s.write_policy;
  mounted = none;
  last_accessed_at = none;
  active_requests = 0;
}

-- The session that `OpenWithOptions` makes; its WritePolicy is left empty.
abbrev pub new_session : OpenCall → OpenOptions → Str → Listener → Str → AuthState → Session
new_session c o path l id auth = record {
  id = id;
  root_key = c.root_key;
  token = auth.token;
  auth_mode = auth.mode;
  username = auth.username;
  password = auth.password;
  realm = auth.realm;
  url = url_of o.tls l id;
  display_name = c.display_name;
  exposed_path = path;
  read_only = same o.write_policy read_only_policy;
  write_policy = [];
  credential_visibility = o.credential_visibility;
  session_lifetime = o.session_lifetime;
  port = l.port;
  tls = o.tls;
}

abbrev pub add_session : ActiveSession → Manager → Manager
add_session a m = record m { sessions = insert str_eq a.session.id a m.sessions }

-- The end of an open that stores the session first.
abbrev pub after_save : ActiveSession → Option ServerError × Manager → Result Session × Manager
after_save a (some e, m) = (err e, stop_if_idle m)
after_save a (none, m) = (ok a.session, add_session a m)

abbrev pub enter : OpenCall → ActiveSession → Manager → Result Session × Manager
enter c a m = elim (is_lasting a.session.session_lifetime) [
  | true ↦ after_save a (save_persistent c.loads c.saves a m)
  | false ↦ (ok a.session, add_session a m)
]

abbrev pub open_authorized :
    OpenCall
    → OpenOptions
    → ℕ
    → Str
    → Listener
    → Str
    → Option AuthState
    → Manager
    → Result Session × Manager
open_authorized c o provider path l id none m = (err no_random, m)
open_authorized c o provider path l id (some auth) m =
    enter c (new_active_session (new_session c o path l id auth) auth provider) m

abbrev pub open_named :
    OpenCall
    → OpenOptions
    → ℕ
    → Str
    → Listener
    → Option (Str × Reader)
    → Manager
    → Result Session × Manager
open_named c o provider path l none m = (err no_random, m)
open_named c o provider path l (some (id, rest)) m =
    open_authorized c o provider path l id (new_auth o.auth_mode rest) m

abbrev pub open_listening :
    OpenCall → OpenOptions → ℕ → Str → Result Listener × Manager → Result Session × Manager
open_listening c o provider path (err e, m) = (err e, m)
open_listening c o provider path (ok l, m) =
    open_named c o provider path l (new_value 18 c.reader) m

-- What `OpenWithOptions` does under the lock.
abbrev pub open_locked : OpenCall → OpenOptions → ℕ → Str → Manager → Result Session × Manager
open_locked c o provider path m = elim (is_lasting o.session_lifetime && not (is_some m.store)) [
  | true ↦ (err store_unavailable, m)
  | false ↦ open_listening c o provider path (ensure_server o.tls o.port c.started m)
]

abbrev pub open_cleaned :
    OpenCall → OpenOptions → ℕ → Option Str → Manager → Result Session × Manager
open_cleaned c o provider none m = (err invalid_path, m)
open_cleaned c o provider (some path) m = elim c.exists [
  | false ↦ (err not_found, m)
  | true ↦ open_locked c o provider path m
]

abbrev pub open_provided : OpenCall → OpenOptions → Option ℕ → Manager → Result Session × Manager
open_provided c o none m = (err no_provider, m)
open_provided c o (some provider) m =
    open_cleaned c o provider (clean_relative_path c.exposed_path) m

module _ (L : Library) where
  abbrev pub open_normalized : OpenCall → Option OpenOptions → Manager → Result Session × Manager
  open_normalized c none m = (err bad_options, m)
  open_normalized c (some o) m = elim (is_empty (L.trim_space c.root_key)) [
    | true ↦ (err invalid_root_key, m)
    | false ↦ open_provided c o c.provider m
  ]

  -- `OpenWithOptions`
  unfoldable pub open_with_options : OpenCall → Manager → Result Session × Manager
  open_with_options c m = open_normalized c (normalize_open_options c.options) m

-- The arguments of `RestorePersistent`, with the outcomes for a record: whether the provider finds its
-- path, and how a listener starts.
pub record RestoreCall : Type 0 where
  pub root_key : Str
  pub provider : ℕ
  pub exists : PersistentSession → Bool
  pub started : PersistentSession → Started

abbrev pub is_above_zero : ℤ → Bool
is_above_zero (pos n) = not (same_int (pos n) (pos 0))
is_above_zero (negsuc n) = false

-- The first test of `restorePersistent`.
abbrev pub is_usable : Str → PersistentSession → Bool
is_usable root_key p =
    same_int p.version (pos 1)
    && (same p.root_key root_key
        && (not (is_empty p.id) && (is_lasting p.session_lifetime && is_above_zero p.port)))

abbrev pub restored_session : RestoreCall → PersistentSession → Listener → Session
restored_session c p l = record {
  id = p.id;
  root_key = c.root_key;
  token = p.token;
  auth_mode = p.auth_mode;
  username = p.username;
  password = p.password;
  realm = p.realm;
  url = url_of p.tls l p.id;
  display_name = p.display_name;
  exposed_path = p.exposed_path;
  read_only = p.read_only;
  write_policy = p.write_policy;
  credential_visibility = p.credential_visibility;
  session_lifetime = codes "persistent";
  port = p.port;
  tls = p.tls;
}

abbrev pub restore_listening :
    RestoreCall
    → PersistentSession
    → AuthState
    → Result Listener × Manager
    → Option ServerError × Manager
restore_listening c p auth (err e, m) = (some e, m)
restore_listening c p auth (ok l, m) =
    (none, add_session (new_active_session (restored_session c p l) auth c.provider) m)

abbrev pub restore_locked :
    RestoreCall → PersistentSession → Option AuthState → Manager → Option ServerError × Manager
restore_locked c p none m = (some record_invalid, m)
restore_locked c p (some auth) m = elim (is_some (lookup str_eq p.id m.sessions)) [
  | true ↦ (some record_invalid, m)
  | false ↦ restore_listening c p auth (ensure_server p.tls p.port (c.started p) m)
]

-- `restorePersistent`; none is nil.
unfoldable pub restore_one :
    RestoreCall → PersistentSession → Manager → Option ServerError × Manager
restore_one c p m = elim (is_usable c.root_key p) [
  | false ↦ (some record_invalid, m)
  | true ↦ elim (c.exists p) [
    | false ↦ (some not_found, m)
    | true ↦ restore_locked c p (auth_from_persistent p) m
  ]
]

abbrev pub add_error : Option ServerError → List ServerError → List ServerError
add_error none errors = errors
add_error (some e) errors = e ∷ errors

-- The loop of `RestorePersistent`, which takes the lock anew for each record.
abbrev pub restore_all : RestoreCall → List PersistentSession → Manager → List ServerError × Manager
restore_all c [] m = ([], m)
restore_all c (p ∷ ps) m =
    let first = restore_one c p m in
    let rest = restore_all c ps first.1 in (add_error first.0 rest.0, rest.1)

abbrev pub restore_stored : RestoreCall → Bool → Option Store → Manager → List ServerError × Manager
restore_stored c loads none m = (store_unavailable ∷ [], m)
restore_stored c false (some s) m = (not_loaded ∷ [], m)
restore_stored c true (some s) m = restore_all c (records_of c.root_key s) m

-- `RestorePersistent`
unfoldable pub restore_persistent : RestoreCall → Bool → Manager → List ServerError × Manager
restore_persistent c loads m = restore_stored c loads m.store m
