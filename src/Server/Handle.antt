-- ===== src/Server/Handle.antt =====
-- `Manager.handle` with `acquireAuthorized` and `releaseRequest`. The parts that hold the lock are
-- functions of the manager; what runs between them is the reply.
use safe_disk.Base.{
  suc, ◌-◌, Bool, true, false, ◌||◌, ltb, Option, none, some, List, [], ◌∷◌, if◌then◌else◌,
}
use safe_disk.Base.Strings.{Str, codes, same}
use safe_disk.WebDav.{Library}
use safe_disk.WebDav.Digest.{Request}
use safe_disk.Server.Paths.{split_url_path, valid_url_segments}
use safe_disk.Server.Types.{AuthState, SecureFileSystem, ActiveSession, Manager, read_only_policy}
use safe_disk.Server.Auth.{Moment, authenticate, bearer_challenge}
use safe_disk.Server.Sessions.{find_session, put_session}

-- The state of a session behind `acquireAuthorized`: the counters of the digest are kept by a pointer, so
-- they stay also where the request is refused.
abbrev pub touched : Moment → Bool → AuthState → ActiveSession → ActiveSession
touched t true auth a = record a {
  auth = auth;
  last_accessed_at = some t.now;
  active_requests = suc a.active_requests;
}
touched t false auth a = record a { auth = auth }

abbrev pub admitted : Bool → Str → ActiveSession → (Str × Option ActiveSession)
admitted true challenge a = ([], some a)
admitted false challenge a = (challenge, none)

module _ (L : Library) where
  abbrev pub acquire_found :
      Str
      → Moment
      → Request
      → Option ActiveSession
      → Manager
      → (Str × Option ActiveSession) × Manager
  acquire_found id t r none m = ((bearer_challenge, none), m)
  acquire_found id t r (some a) m =
      let v = authenticate L t r a.auth in
      let a' = touched t v.0.1 v.1 a in (admitted v.0.1 v.0.0 a', put_session id a' m)

  -- `acquireAuthorized`: the challenge, and the session of a request that is let in.
  unfoldable pub acquire_authorized :
      Str → Moment → Request → Manager → (Str × Option ActiveSession) × Manager
  acquire_authorized id t r m = acquire_found id t r (find_session id m) m

abbrev pub release_found : Str → Option ActiveSession → Manager → Manager
release_found id none m = m
release_found id (some a) m =
    put_session id
      (if ltb 0 a.active_requests then record a { active_requests = a.active_requests - 1 } else a)
      m

-- `releaseRequest`
unfoldable pub release_request : Str → Manager → Manager
release_request id m = release_found id (find_session id m) m

abbrev pub method_allow_read_only : Str
method_allow_read_only = codes "OPTIONS, GET, HEAD, PROPFIND"

abbrev pub method_allow_read_write : Str
method_allow_read_write = codes "OPTIONS, GET, HEAD, PROPFIND, PUT, DELETE, MKCOL, MOVE, COPY"

abbrev pub allow_of : Str → Str
allow_of write_policy =
    if same write_policy read_only_policy then method_allow_read_only else method_allow_read_write

abbrev pub is_one_of : List Str → Str → Bool
is_one_of [] s = false
is_one_of (x ∷ xs) s = same x s || is_one_of xs s

-- The methods that go to the handler whatever the policy is.
abbrev pub open_methods : List Str
open_methods =
    codes "GET"
    ∷ codes "HEAD"
    ∷ codes "PROPFIND"
    ∷ codes "PROPPATCH"
    ∷ codes "COPY"
    ∷ codes "LOCK"
    ∷ codes "UNLOCK"
    ∷ []

abbrev pub write_methods : List Str
write_methods = codes "PUT" ∷ codes "DELETE" ∷ codes "MKCOL" ∷ codes "MOVE" ∷ []

-- What a request is answered with: an error, the methods allowed, or what the handler of
-- golang.org/x/net/webdav answers over a file system.
pub data Reply : Type 0 where
  not_found : Reply
  unauthorized : Str → Reply
  bad_request : Reply
  options_allow forbidden : Str → Reply
  served : SecureFileSystem → Reply

-- The switch of `handle`.
abbrev pub answer : Str → ActiveSession → Reply
answer method a =
    if same method (codes "OPTIONS")
    then options_allow (allow_of a.session.write_policy)
    else if is_one_of open_methods method
    then served a.files
    else if is_one_of write_methods method
    then if same a.session.write_policy read_only_policy
      then forbidden method_allow_read_only
      else served a.files
    else forbidden (allow_of a.session.write_policy)

abbrev pub answer_valid : List Str → Str → ActiveSession → Reply
answer_valid rest method a = if valid_url_segments rest then answer method a else bad_request

abbrev pub or_bearer : Str → Str
or_bearer [] = bearer_challenge
or_bearer (c ∷ cs) = c ∷ cs

-- The reply, by what `acquireAuthorized` gives.
abbrev pub answer_acquired : List Str → Str → Str × Option ActiveSession → Reply
answer_acquired rest method (challenge, none) = unauthorized (or_bearer challenge)
answer_acquired rest method (challenge, some a) = answer_valid rest method a

abbrev pub route : List Str → Option (Str × List Str)
route [] = none
route (s ∷ []) = none
route (s ∷ id ∷ rest) = if same s (codes "webdav") then some (id, rest) else none

abbrev pub release_acquired : Str → Option ActiveSession → Manager → Manager
release_acquired id none m = m
release_acquired id (some a) m = release_request id m

module _ (L : Library) where
  abbrev pub handle_routed : Option (Str × List Str) → Moment → Request → Manager → Reply × Manager
  handle_routed none t r m = (not_found, m)
  handle_routed (some (id, rest)) t r m =
      let acquired = acquire_authorized L id t r m in
      (answer_acquired rest r.method acquired.0, release_acquired id acquired.0.1 acquired.1)

  -- `handle`, of a request to a path, if no other method takes the lock before it is answered.
  unfoldable pub handle : Str → Moment → Request → Manager → Reply × Manager
  handle path t r m = handle_routed (route (split_url_path path)) t r m
