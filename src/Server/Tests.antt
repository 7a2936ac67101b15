-- ===== src/Server/Tests.antt =====
-- Sessions of the server at concrete inputs.
use safe_disk.Base.{true, false, ◌≡◌, refl, none, some, List, [], ◌∷◌, replicate, ◌++◌}
use safe_disk.Base.Int.{pos}
use safe_disk.Base.Strings.{Str, codes}
use safe_disk.GoMap.{insert}
use safe_disk.Config.Memory.{str_eq}
use safe_disk.WebDav.Digest.{Request}
use safe_disk.WebDav.Options.{OpenOptions}
use safe_disk.WebDav.Sample.{sample_library, sample_header, sample_now}
use safe_disk.Server.Paths.{split_url_path, valid_url_segments}
use safe_disk.Server.Paths.Below.{resolve-below}
use safe_disk.Server.Types.{
  Session, AuthState, ActiveSession, Listener, Manager, new_manager, ok, saved,
}
use safe_disk.Server.Auth.{
  digest_auth, new_auth, Reader, Moment, auth_from_persistent, authenticate, bearer_challenge,
}
use safe_disk.Server.Auth.Hex.{encode_hex}
use safe_disk.Server.Records.{Store, persistent_record}
use safe_disk.Server.Open.{
  OpenCall, new_session, new_active_session, add_session, open_with_options, RestoreCall,
  restore_one,
}
use safe_disk.Server.Open.Outcome.{Outcome}
use safe_disk.Server.Open.Reopened.{reopened, restore_one-opened, restored-replay}
use safe_disk.Server.Sessions.{find_session, revoke, close}
use safe_disk.Server.Sessions.Forgotten.{has_record, stored, revoke-stored}
use safe_disk.Server.Handle.{acquire_authorized}
use safe_disk.Server.Files.ReadOnly.{Accepts, open_with_options-Accepts}
use safe_disk.Server.Listening.{IsListening}
use safe_disk.Server.Calls.{Call, opens, acquires, releases, run}
use safe_disk.Server.Mounts.{World, with_held, mounts, closes, now, after}
use safe_disk.Server.Mounts.Owned.{AllOwned}
use safe_disk.Server.Mounts.Kept.{IsLater-AllOwned}
use safe_disk.Server.Calls.Invariant.{run-IsListening}
use safe_disk.Server.Calls.Revoked.{acquire_authorized-revoke}

resolve-below_example :
    (split_url_path (codes "docs/a/b") ≡ codes "docs" ∷ codes "a" ∷ codes "b" ∷ [])
    × (valid_url_segments (split_url_path (codes "docs/a/b")) ≡ true)
resolve-below_example = resolve-below (codes "docs") (codes "/a/b/") (codes "docs/a/b") refl refl

abbrev sample_reader : Reader
sample_reader =
    some (replicate 18 1)
    ∷ some (replicate 12 2)
    ∷ some (replicate 24 3)
    ∷ some (replicate 12 4)
    ∷ some (replicate 32 5)
    ∷ []

abbrev sample_options : OpenOptions
sample_options = record {
  auth_mode = codes "digest";
  credential_visibility = [];
  session_lifetime = codes "persistent";
  tls = false;
  port = pos 0;
  write_policy = codes "readOnly";
}

abbrev sample_call : OpenCall
sample_call = record {
  root_key = codes "root-path:/r";
  display_name = codes "docs";
  exposed_path = codes "/docs/";
  provider = some 1;
  options = sample_options;
  exists = true;
  started = some (8080, codes "127.0.0.1:8080");
  reader = sample_reader;
  loads = true;
  saves = saved;
}

abbrev sample_id : Str
sample_id = encode_hex (replicate 18 1)

abbrev empty_manager : Manager
empty_manager = new_manager (some [])

abbrev opened_manager : Manager
unfolding open_with_options new_auth
opened_manager = (open_with_options sample_library sample_call empty_manager).1

abbrev full_options : OpenOptions
full_options = record sample_options { credential_visibility = codes "once" }

abbrev sample_auth : AuthState
sample_auth =
    digest_auth (encode_hex (replicate 12 2)) (encode_hex (replicate 24 3))
      (encode_hex (replicate 12 4)) (replicate 32 5)

abbrev sample_listener : Listener
sample_listener = record { port = pos 8080; address = codes "127.0.0.1:8080" }

abbrev sample_session : Session
sample_session =
    new_session sample_call full_options (codes "docs") sample_listener sample_id sample_auth

abbrev sample_active : ActiveSession
sample_active = new_active_session sample_session sample_auth 1

opened : (open_with_options sample_library sample_call empty_manager).0 ≡ ok sample_session
unfolding open_with_options new_auth
opened = refl

found :
    find_session sample_id (open_with_options sample_library sample_call empty_manager).1
    ≡ some sample_active
unfolding open_with_options new_auth
found = refl

-- A session of the policy "readOnly" that accepts writes.
open_with_options-Accepts_example :
    (sample_session.read_only ≡ true)
    × Accepts sample_session (open_with_options sample_library sample_call empty_manager).1
open_with_options-Accepts_example =
    open_with_options-Accepts sample_library sample_call full_options empty_manager sample_session
      refl opened

abbrev sample_moment : Moment
sample_moment = record { now = sample_now; random = none }

abbrev sample_request : Request
sample_request = record {
  authorization = sample_header (encode_hex (replicate 12 2)) (encode_hex (replicate 12 4));
  method = codes "GET";
  uri = codes "/f";
}

-- An open, a request that is let in, the same request again, and its end.
abbrev sample_calls : List Call
sample_calls =
    opens sample_call
    ∷ acquires sample_id sample_moment sample_request
    ∷ acquires sample_id sample_moment sample_request
    ∷ releases sample_id
    ∷ []

run-IsListening_example : IsListening (run sample_library sample_calls empty_manager)
run-IsListening_example = run-IsListening sample_library sample_calls empty_manager tt

acquire_authorized-revoke_example :
    acquire_authorized sample_library sample_id sample_moment sample_request
      (run sample_library [] (revoke true saved sample_id opened_manager).0)
    ≡ (
      (bearer_challenge, none),
      run sample_library [] (revoke true saved sample_id opened_manager).0,
    )
acquire_authorized-revoke_example =
    acquire_authorized-revoke sample_library true saved sample_id opened_manager [] sample_moment
      sample_request refl

abbrev sample_restore : RestoreCall
sample_restore = record {
  root_key = codes "root-path:/r";
  provider = 2;
  exists = λ p. true;
  started = λ p. some (9090, codes "127.0.0.1:8080");
}

abbrev restarted : Manager
restarted = record empty_manager { http = some sample_listener }

restore_one-opened_example :
    restore_one sample_restore (persistent_record sample_active) empty_manager ≡ (
      none,
      add_session
          (new_active_session (reopened sample_session sample_listener) sample_auth 2)
          restarted,
    )
restore_one-opened_example =
    restore_one-opened sample_library sample_call sample_restore empty_manager empty_manager
      restarted sample_session sample_active sample_listener refl opened found refl refl refl refl
      refl refl

let_in : (authenticate sample_library sample_moment sample_request sample_auth).0.1 ≡ true
unfolding authenticate
let_in = refl

abbrev sample_store : Store
sample_store = insert str_eq (codes "root-path:/r") (persistent_record sample_active ∷ []) []

restored-replay_example :
    ((authenticate sample_library sample_moment sample_request
        (authenticate sample_library sample_moment sample_request sample_auth).1).0.1
      ≡ false)
    × (b : AuthState) × (auth_from_persistent (persistent_record sample_active) ≡ some b)
    × ((authenticate sample_library sample_moment sample_request b).0.1 ≡ true)
restored-replay_example =
    restored-replay sample_library sample_call empty_manager sample_session sample_active
      sample_request sample_moment sample_moment refl opened found refl let_in let_in

revoke-stored_example :
    (has_record sample_id
        (stored (codes "root-path:/r") (revoke true saved sample_id opened_manager).0.store)
      ≡ false)
    × (has_record []
          (stored (codes "root-path:/r") (revoke true saved sample_id opened_manager).0.store)
        ≡ false)
    × ((revoke false saved sample_id opened_manager).0.store ≡ some sample_store)
    × (find_session sample_id (revoke false saved sample_id opened_manager).0 ≡ none)
unfolding opened_manager open_with_options new_auth
revoke-stored_example =
    revoke-stored sample_id sample_active opened_manager sample_store [] saved refl found refl refl

abbrev mount_world : World
mount_world = record { manager = opened_manager; live = []; held = []; failed = [] }

abbrev mounted_world : World
mounted_world = record mount_world { live = 7 ∷ []; held = 7 ∷ [] }

-- The system mounts the session, and the manager is closed before `Mount` goes on.
abbrev closed_world : World
closed_world =
    with_held mounted_world (close true true opened_manager).0.0
      ((close true true opened_manager).0.1 ++ 7 ∷ [])

IsLater-AllOwned_example : AllOwned closed_world
IsLater-AllOwned_example =
    IsLater-AllOwned sample_library mount_world closed_world
      (after mount_world mounted_world closed_world
        (after mount_world mount_world mounted_world (now mount_world) (mounts 7 mount_world))
        (closes true true mounted_world))
      (λ x h. cc)
