-- ===== src/Server/Sessions.antt =====
-- The other methods of `Manager`: `Reveal`, `Revoke`, `RevokeRoot`, `Count`, `List`, `Close`, and the parts
-- of `Mount` and `Unmount` that hold the lock. A method that unmounts behind the lock gives the mounts.
pub mod Forgotten
use safe_disk.Base.{
  ℕ, Bool, true, false, not, ◌||◌, ◌&&◌, ◌==◌, ltb, Option, none, some, List, [], ◌∷◌, length,
  if◌then◌else◌,
}
use safe_disk.Base.Int.{ℤ}
use safe_disk.Base.Strings.{Str, codes, same, is_empty}
use safe_disk.GoMap.{lookup, insert, delete, is_some}
use safe_disk.Config.Memory.{str_eq}
use safe_disk.Server.Types.{
  Session, AuthState, ActiveSession, Manager, is_lasting, ServerError, session_closed,
  not_revealable, Result, err, ok, SaveOutcome,
}
use safe_disk.Server.Records.{delete_persistent}
use safe_disk.Server.Listeners.{stop_if_idle}

abbrev pub find_session : Str → Manager → Option ActiveSession
find_session id m = lookup str_eq id m.sessions

abbrev pub put_session : Str → ActiveSession → Manager → Manager
put_session id a m = record m { sessions = insert str_eq id a m.sessions }

abbrev pub reveal_found : Option ActiveSession → Result Session
reveal_found none = err session_closed
reveal_found (some a) =
    if same a.session.credential_visibility (codes "persistent")
    then ok a.session
    else err not_revealable

-- `Reveal`
abbrev pub reveal : Str → Manager → Result Session
reveal id m = reveal_found (find_session id m)

-- `Revoke` forgets the error of the store.
abbrev pub forget_record : Bool → SaveOutcome → Str → ActiveSession → Manager → Manager
forget_record loads outcome id a m =
    if is_lasting a.session.session_lifetime && is_some m.store
    then (delete_persistent loads outcome a.session.root_key id m).1
    else m

abbrev pub drop_session : Str → Manager → Manager
drop_session id m = record m { sessions = delete str_eq id m.sessions }

abbrev pub revoke_found :
    Bool → SaveOutcome → Str → Option ActiveSession → Manager → Manager × Option ℕ
revoke_found loads outcome id none m = (m, none)
revoke_found loads outcome id (some a) m =
    (stop_if_idle (forget_record loads outcome id a (drop_session id m)), a.mounted)

-- `Revoke`
unfoldable pub revoke : Bool → SaveOutcome → Str → Manager → Manager × Option ℕ
revoke loads outcome id m = revoke_found loads outcome id (find_session id m) m

abbrev pub add_mount : Option ℕ → List ℕ → List ℕ
add_mount none mounts = mounts
add_mount (some x) mounts = x ∷ mounts

-- The loop of `RevokeRoot`: the sessions that stay, and the mounts of those that go.
abbrev pub drop_root : Str → List (Str × ActiveSession) → List (Str × ActiveSession)
drop_root root_key [] = []
drop_root root_key (x ∷ xs) =
    if same x.1.session.root_key root_key then drop_root root_key xs else x ∷ drop_root root_key xs

abbrev pub mounts_of_root : Str → List (Str × ActiveSession) → List ℕ
mounts_of_root root_key [] = []
mounts_of_root root_key (x ∷ xs) =
    if same x.1.session.root_key root_key
    then add_mount x.1.mounted (mounts_of_root root_key xs)
    else mounts_of_root root_key xs

-- `RevokeRoot`
unfoldable pub revoke_root : Str → Manager → Manager × List ℕ
revoke_root root_key m = (
  stop_if_idle (record m { sessions = drop_root root_key m.sessions }),
  mounts_of_root root_key m.sessions,
)

-- `Count`
abbrev pub count : Manager → ℕ
count m = length m.sessions

abbrev pub all_mounts : List (Str × ActiveSession) → List ℕ
all_mounts [] = []
all_mounts (x ∷ xs) = add_mount x.1.mounted (all_mounts xs)

-- `Close`, with whether the servers close without an error.
unfoldable pub close : Bool → Bool → Manager → (Manager × List ℕ) × Bool
close http_closes https_closes m = (
  (record m { http = none; https = none; sessions = [] }, all_mounts m.sessions),
  (http_closes || not (is_some m.http)) && (https_closes || not (is_some m.https)),
)

-- What `Mount` does next: it fails, it has the mount already, or it mounts the session.
pub data MountPlan : Type 0 where
  mount_closed : MountPlan
  mount_known : ℕ → MountPlan
  mount_needed : Session → MountPlan

abbrev pub plan_mounted : ActiveSession → Option ℕ → MountPlan
plan_mounted a none = mount_needed a.session
plan_mounted a (some x) = mount_known x

abbrev pub plan_found : Option ActiveSession → MountPlan
plan_found none = mount_closed
plan_found (some a) = plan_mounted a a.mounted

-- The first part of `Mount`.
abbrev pub mount_begin : Str → Manager → MountPlan
mount_begin id m = plan_found (find_session id m)

abbrev pub attach : Str → ℕ → ActiveSession → Option ℕ → Manager → (Result ℕ × Option ℕ) × Manager
attach id new a none m = ((ok new, none), put_session id (record a { mounted = some new }) m)
attach id new a (some existing) m = ((ok existing, some new), m)

abbrev pub attach_found : Str → ℕ → Option ActiveSession → Manager → (Result ℕ × Option ℕ) × Manager
attach_found id new none m = ((err session_closed, some new), m)
attach_found id new (some a) m = attach id new a a.mounted m

-- The second part of `Mount`, with the new mount: the result, and the mount to take down again.
unfoldable pub mount_end : Str → ℕ → Manager → (Result ℕ × Option ℕ) × Manager
mount_end id new m = attach_found id new (find_session id m) m

abbrev pub mount_of : Option ActiveSession → Option ℕ
mount_of none = none
mount_of (some a) = a.mounted

-- The first part of `Unmount`: the mount to take down.
abbrev pub unmount_begin : Str → Manager → Option ℕ
unmount_begin id m = mount_of (find_session id m)

abbrev pub is_mount : ℕ → Option ℕ → Bool
is_mount x none = false
is_mount x (some y) = y == x

abbrev pub detach_found : Str → ℕ → Option ActiveSession → Manager → Manager
detach_found id old none m = m
detach_found id old (some a) m =
    if is_mount old a.mounted then put_session id (record a { mounted = none }) m else m

-- The second part of `Unmount`, behind an unmount that worked.
unfoldable pub unmount_end : Str → ℕ → Manager → Manager
unmount_end id old m = detach_found id old (find_session id m) m

-- `SessionStatus`
pub record SessionStatus : Type 0 where
  pub id : Str
  pub display_name : Str
  pub exposed_path : Str
  pub url : Str
  pub read_only : Bool
  pub write_policy : Str
  pub auth_mode : Str
  pub last_accessed_at : Option ℕ
  pub active_requests : ℕ
  pub mounted : Bool
  pub mount_path : Str
  pub credential_visibility : Str
  pub session_lifetime : Str
  pub port : ℤ
  pub tls : Bool

module _ (path_of : ℕ → Str) where
  abbrev pub mount_path_of : Option ℕ → Str
  mount_path_of none = []
  mount_path_of (some x) = path_of x

  -- `statusFromActive`, of the paths of the mounts.
  abbrev pub status_from_active : ActiveSession → SessionStatus
  status_from_active a = record {
    id = a.session.id;
    display_name = a.session.display_name;
    exposed_path = a.session.exposed_path;
    url = a.session.url;
    read_only = a.session.read_only;
    write_policy = [];
    auth_mode = a.session.auth_mode;
    last_accessed_at = a.last_accessed_at;
    active_requests = a.active_requests;
    mounted = is_some a.mounted;
    mount_path = mount_path_of a.mounted;
    credential_visibility = a.session.credential_visibility;
    session_lifetime = a.session.session_lifetime;
    port = a.session.port;
    tls = a.session.tls;
  }

  -- The loop of `List`.
  abbrev pub statuses_of : Str → List (Str × ActiveSession) → List SessionStatus
  statuses_of root_key [] = []
  statuses_of root_key (x ∷ xs) =
      if not (is_empty root_key) && not (same x.1.session.root_key root_key)
      then statuses_of root_key xs
      else status_from_active x.1 ∷ statuses_of root_key xs

-- The `<` of strings.
abbrev pub before : Str → Str → Bool
before s [] = false
before [] (y ∷ ys) = true
before (x ∷ xs) (y ∷ ys) = if x == y then before xs ys else ltb x y

abbrev pub is_before : SessionStatus → SessionStatus → Bool
is_before a b =
    if same a.display_name b.display_name
    then before a.id b.id
    else before a.display_name b.display_name

abbrev pub insert_status : SessionStatus → List SessionStatus → List SessionStatus
insert_status s [] = s ∷ []
insert_status s (x ∷ xs) = if is_before x s then x ∷ insert_status s xs else s ∷ x ∷ xs

-- `sort.Slice` by the order of `List`, which is total on statuses of different ids.
abbrev pub sort_statuses : List SessionStatus → List SessionStatus
sort_statuses [] = []
sort_statuses (x ∷ xs) = insert_status x (sort_statuses xs)

-- `List`
unfoldable pub list_statuses : (ℕ → Str) → Str → Manager → List SessionStatus
list_statuses path_of root_key m = sort_statuses (statuses_of path_of root_key m.sessions)
