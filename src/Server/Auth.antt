-- ===== src/Server/Auth.antt =====
-- The credentials of a session: `newAuthLocked`, `authFromPersistent` and `authenticateLocked` of auth.go.
pub mod Hex
use safe_disk.Base.{
  ℕ, ◌/◌, Bool, true, false, not, ◌||◌, ◌==◌, Option, none, some, List, [], ◌∷◌, ◌++◌, length,
  if◌then◌else◌,
}
use safe_disk.Base.Strings.{Str, codes, same, is_empty}
use safe_disk.WebDav.{Library}
use safe_disk.WebDav.Nonce.{second, new_nonce}
use safe_disk.WebDav.Digest.{DigestState, Request, verify}
use safe_disk.WebDav.Credentials.{bearer_authorized, basic_authorized}
use safe_disk.Server.Types.{PersistentSession, AuthState, ActiveSession}
use Hex.{encode_hex, decode_hex}

abbrev pub bearer : Str
bearer = codes "bearer"

abbrev pub digest_mode : Str
digest_mode = codes "digest"

abbrev pub basic : Str
basic = codes "basic"

-- What a reader of random bytes gives, call by call; none is an error.
abbrev pub Reader : Type 0
Reader = List (Option Str)

-- `io.ReadFull` into a buffer of a size.
abbrev pub read_full : ℕ → Reader → Option (Str × Reader)
read_full size [] = none
read_full size (none ∷ rest) = none
read_full size (some bytes ∷ rest) = if length bytes == size then some (bytes, rest) else none

abbrev pub in_hex : Option (Str × Reader) → Option (Str × Reader)
in_hex none = none
in_hex (some (bytes, rest)) = some (encode_hex bytes, rest)

-- `newValueLocked`
abbrev pub new_value : ℕ → Reader → Option (Str × Reader)
new_value size reader = in_hex (read_full size reader)

infixl 5 ◌>>=◌
abbrev pub ◌>>=◌ {u v} : {A : Type u} {B : Type v} → Option A → (A → Option B) → Option B
none >>= next = none
some a >>= next = next a

abbrev pub bearer_auth : Str → AuthState
bearer_auth token = record {
  mode = bearer;
  token = token;
  basic_username = [];
  basic_password = [];
  username = [];
  password = [];
  realm = [];
  digest = none;
}

abbrev pub digest_auth : Str → Str → Str → Str → AuthState
digest_auth username password realm key = record {
  mode = digest_mode;
  token = [];
  basic_username = [];
  basic_password = [];
  username = username;
  password = password;
  realm = realm;
  digest =
      some (record {
        username = username;
        password = password;
        realm = realm;
        key = key;
        max_nc = [];
      });
}

abbrev pub basic_auth : Str → Str → AuthState
basic_auth username password = record {
  mode = basic;
  token = [];
  basic_username = username;
  basic_password = password;
  username = username;
  password = password;
  realm = [];
  digest = none;
}

abbrev pub new_bearer : Reader → Option AuthState
new_bearer r = do (token, rest) ← new_value 32 r; some (bearer_auth token)

abbrev pub new_digest : Reader → Option AuthState
new_digest r = do
  (username, r1) ← new_value 12 r
  (password, r2) ← new_value 24 r1
  (realm, r3) ← new_value 12 r2
  (key, rest) ← read_full 32 r3
  some (digest_auth username password realm key)

abbrev pub new_basic : Reader → Option AuthState
new_basic r = do
  (username, r1) ← new_value 12 r
  (password, rest) ← new_value 32 r1
  some (basic_auth username password)

-- `newAuthLocked`; none is an error.
unfoldable pub new_auth : Str → Reader → Option AuthState
new_auth mode r =
    if is_empty mode || same mode bearer
    then new_bearer r
    else if same mode digest_mode
    then new_digest r
    else if same mode basic
    then new_basic r
    else none

abbrev pub digest_from : PersistentSession → Option Str → Option AuthState
digest_from p none = none
digest_from p (some key) =
    if length key == 32 then some (digest_auth p.username p.password p.realm key) else none

-- `authFromPersistent`; none is ErrPersistentRecordInvalid.
unfoldable pub auth_from_persistent : PersistentSession → Option AuthState
auth_from_persistent p =
    if same p.auth_mode bearer
    then if is_empty p.token then none else some (bearer_auth p.token)
    else if same p.auth_mode digest_mode
    then if is_empty p.username
        || (is_empty p.password || (is_empty p.realm || is_empty p.digest_key))
      then none
      else digest_from p (decode_hex p.digest_key)
    else if same p.auth_mode basic
    then if is_empty p.basic_auth_username || is_empty p.basic_auth_password
      then none
      else some (basic_auth p.basic_auth_username p.basic_auth_password)
    else none

abbrev pub bearer_challenge : Str
bearer_challenge = codes "Bearer realm=\"safe-disk\""

abbrev pub basic_challenge : Str
basic_challenge = codes "Basic realm=\"safe-disk\""

-- The time of a request in nanoseconds, and the random bytes for a nonce.
pub record Moment : Type 0 where
  pub now : ℕ
  pub random : Option Str

abbrev pub challenge_text : DigestState → Bool → Option Str → Str
challenge_text d stale none = []
challenge_text d stale (some nonce) =
    codes "Digest realm=\""
    ++ (d.realm
        ++ (codes "\", nonce=\""
            ++ (nonce
                ++ (codes "\", algorithm=SHA-256, qop=\"auth\""
                    ++ (if stale then codes ", stale=true" else [])))))

module _ (L : Library) where
  -- `digestChallengeLocked`
  abbrev pub digest_challenge : Moment → DigestState → Bool → Str
  digest_challenge t d stale = challenge_text d stale (new_nonce L d.key (t.now / second) t.random)

  abbrev pub check_digest :
      Moment → Request → AuthState → Option DigestState → (Str × Bool) × AuthState
  check_digest t r a none = (([], false), a)
  check_digest t r a (some d) =
      let v = verify L d r t.now in
      ((digest_challenge t v.1 v.0.1, v.0.0), record a { digest = some v.1 })

  -- `authenticateLocked`: the challenge, whether the request is let in, and the credentials with the
  -- counters of the digest, which the session holds by a pointer.
  unfoldable pub authenticate : Moment → Request → AuthState → (Str × Bool) × AuthState
  authenticate t r a =
      if same a.mode bearer
      then (
        (
          if bearer_authorized r.authorization a.token then [] else bearer_challenge,
          bearer_authorized r.authorization a.token,
        ),
        a,
      )
      else if same a.mode digest_mode
      then check_digest t r a a.digest
      else if same a.mode basic
      then (
        (
          if basic_authorized L r.authorization a.basic_username a.basic_password
              then []
              else basic_challenge,
          basic_authorized L r.authorization a.basic_username a.basic_password,
        ),
        a,
      )
      else (([], false), a)
