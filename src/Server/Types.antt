-- ===== src/Server/Types.antt =====
-- The data of sec_webdav/server.go and auth.go. An object that the code holds by a pointer, a provider or
-- a mount, is a number. A call of the outside world has its outcome among the arguments of the operation.
use safe_disk.Base.{ℕ, Bool, Option, none, List, [], if◌then◌else◌}
use safe_disk.Base.Int.{ℤ}
use safe_disk.Base.Strings.{Str, codes, same}
use safe_disk.WebDav.Digest.{DigestState}

-- `Session`
pub record Session : Type 0 where
  pub id : Str
  pub root_key : Str
  pub token : Str
  pub auth_mode : Str
  pub username : Str
  pub password : Str
  pub realm : Str
  pub url : Str
  pub display_name : Str
  pub exposed_path : Str
  pub read_only : Bool
  pub write_policy : Str
  pub credential_visibility : Str
  pub session_lifetime : Str
  pub port : ℤ
  pub tls : Bool

-- `PersistentSession`
pub record PersistentSession : Type 0 where
  pub version : ℤ
  pub id : Str
  pub root_key : Str
  pub token : Str
  pub auth_mode : Str
  pub username : Str
  pub password : Str
  pub realm : Str
  pub digest_key : Str
  pub basic_auth_username : Str
  pub basic_auth_password : Str
  pub display_name : Str
  pub exposed_path : Str
  pub credential_visibility : Str
  pub session_lifetime : Str
  pub port : ℤ
  pub tls : Bool
  pub read_only : Bool
  pub write_policy : Str

-- `authState`
pub record AuthState : Type 0 where
  pub mode : Str
  pub token : Str
  pub basic_username : Str
  pub basic_password : Str
  pub username : Str
  pub password : Str
  pub realm : Str
  pub digest : Option DigestState

-- `secureFileSystem`
pub record SecureFileSystem : Type 0 where
  pub provider : ℕ
  pub base : Str
  pub write_policy : Str

-- `activeSession`; `files` is the file system of its handler.
pub record ActiveSession : Type 0 where
  pub session : Session
  pub auth : AuthState
  pub files : SecureFileSystem
  pub mounted : Option ℕ
  pub last_accessed_at : Option ℕ
  pub active_requests : ℕ

-- `listenerState`: its port, and the address that it shows.
pub record Listener : Type 0 where
  pub port : ℤ
  pub address : Str

-- `Manager`. A `PersistentStore` gives back the records that were last saved for a root; null is none.
pub record Manager : Type 0 where
  pub http : Option Listener
  pub https : Option Listener
  pub sessions : List (Str × ActiveSession)
  pub store : Option (List (Str × List PersistentSession))

-- `NewManager` and `NewManagerWithPersistentStore`
abbrev pub new_manager : Option (List (Str × List PersistentSession)) → Manager
new_manager store = record { http = none; https = none; sessions = []; store = store }

abbrev pub listener_of : Bool → Manager → Option Listener
listener_of tls m = if tls then m.https else m.http

abbrev pub with_listener : Bool → Option Listener → Manager → Manager
with_listener tls l m = if tls then record m { https = l } else record m { http = l }

abbrev pub read_only_policy : Str
read_only_policy = codes "readOnly"

abbrev pub is_lasting : Str → Bool
is_lasting lifetime = same lifetime (codes "persistent")

-- What ends a call of the manager early.
pub data ServerError : Type 0 where
  bad_options invalid_root_key no_provider invalid_path not_found : ServerError
  store_unavailable record_invalid port_conflict not_listening no_random : ServerError
  not_loaded not_saved session_closed not_revealable unsupported_mode : ServerError

pub data Result {ℓ} (A : Type ℓ) : Type ℓ where
  err : ServerError → Result A
  ok : A → Result A

-- How a `Save` ends; one that fails leaves some records for the root.
pub data SaveOutcome : Type 0 where
  saved : SaveOutcome
  save_failed : List PersistentSession → SaveOutcome
