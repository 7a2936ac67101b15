-- ===== src/Server/Records.antt =====
-- The records of sessions in the persistent store: `persistentRecordFromActive`, `savePersistentLocked` and
-- `deletePersistentLocked`.
use safe_disk.Base.{Bool, true, false, Option, none, some, List, [], ◌∷◌, if◌then◌else◌}
use safe_disk.Base.Int.{pos}
use safe_disk.Base.Strings.{Str, same}
use safe_disk.GoMap.{lookup, insert}
use safe_disk.Config.Memory.{str_eq}
use safe_disk.WebDav.Digest.{DigestState}
use safe_disk.Server.Types.{
  PersistentSession, ActiveSession, Manager, ServerError, store_unavailable, not_loaded, not_saved,
  SaveOutcome, saved, save_failed,
}
use safe_disk.Server.Auth.{basic}
use safe_disk.Server.Auth.Hex.{encode_hex}

abbrev pub Store : Type 0
Store = List (Str × List PersistentSession)

abbrev pub digest_key_of : Option DigestState → Str
digest_key_of none = []
digest_key_of (some d) = encode_hex d.key

-- `persistentRecordFromActive`, which leaves ReadOnly and WritePolicy as they are in an empty record.
abbrev pub persistent_record : ActiveSession → PersistentSession
persistent_record a = record {
  version = pos 1;
  id = a.session.id;
  root_key = a.session.root_key;
  token = a.session.token;
  auth_mode = a.session.auth_mode;
  username = a.session.username;
  password = a.session.password;
  realm = a.session.realm;
  digest_key = digest_key_of a.auth.digest;
  basic_auth_username = if same a.auth.mode basic then a.auth.basic_username else [];
  basic_auth_password = if same a.auth.mode basic then a.auth.basic_password else [];
  display_name = a.session.display_name;
  exposed_path = a.session.exposed_path;
  credential_visibility = a.session.credential_visibility;
  session_lifetime = a.session.session_lifetime;
  port = a.session.port;
  tls = a.session.tls;
  read_only = false;
  write_policy = [];
}

abbrev pub or_empty : Option (List PersistentSession) → List PersistentSession
or_empty none = []
or_empty (some records) = records

-- The records of a root.
abbrev pub records_of : Str → Store → List PersistentSession
records_of root_key s = or_empty (lookup str_eq root_key s)

-- The loop of `savePersistentLocked`, with the append behind it.
abbrev pub put_record : PersistentSession → List PersistentSession → List PersistentSession
put_record r [] = r ∷ []
put_record r (x ∷ xs) = if same x.id r.id then r ∷ xs else x ∷ put_record r xs

-- The loop of `deletePersistentLocked`.
abbrev pub drop_record : Str → List PersistentSession → List PersistentSession
drop_record id [] = []
drop_record id (x ∷ xs) = if same x.id id then drop_record id xs else x ∷ drop_record id xs

abbrev pub save_records :
    SaveOutcome → Str → List PersistentSession → Store → Option ServerError × Store
save_records saved root_key records s = (none, insert str_eq root_key records s)
save_records (save_failed left) root_key records s = (some not_saved, insert str_eq root_key left s)

-- The end of both functions: what the store holds is loaded, changed and saved.
abbrev pub change_records :
    Bool
    → SaveOutcome
    → Str
    → (List PersistentSession → List PersistentSession)
    → Store
    → Option ServerError × Store
change_records false outcome root_key change s = (some not_loaded, s)
change_records true outcome root_key change s =
    save_records outcome root_key (change (records_of root_key s)) s

abbrev pub change_store :
    Bool
    → SaveOutcome
    → Str
    → (List PersistentSession → List PersistentSession)
    → Option Store
    → Manager
    → Option ServerError × Manager
change_store loads outcome root_key change none m = (some store_unavailable, m)
change_store loads outcome root_key change (some s) m =
    let changed = change_records loads outcome root_key change s in
    (changed.0, record m { store = some changed.1 })

-- `savePersistentLocked`
abbrev pub save_persistent :
    Bool → SaveOutcome → ActiveSession → Manager → Option ServerError × Manager
save_persistent loads outcome a m =
    change_store loads outcome a.session.root_key (put_record (persistent_record a)) m.store m

-- `deletePersistentLocked`
abbrev pub delete_persistent :
    Bool → SaveOutcome → Str → Str → Manager → Option ServerError × Manager
delete_persistent loads outcome root_key id m =
    change_store loads outcome root_key (drop_record id) m.store m
