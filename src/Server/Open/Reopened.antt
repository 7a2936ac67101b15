-- ===== src/Server/Open/Reopened.antt =====
-- A session that `OpenWithOptions` made and that `restorePersistent` makes again from its record.
use safe_disk.Base.{true, false, ◌≡◌, refl, ap, sym, ◌∙◌, subst, Option, none, some, [], inl, inr}
use safe_disk.Base.Strings.{codes, same_iff, same_eq, is_empty}
use safe_disk.GoMap.{lookup}
use safe_disk.GoMap.Laws.{lookup-insert}
use safe_disk.Config.Memory.{str_eq}
use safe_disk.WebDav.{Library}
use safe_disk.WebDav.Digest.{Request}
use safe_disk.WebDav.Replay.{verify_replay}
use safe_disk.Server.Types.{
  Session, AuthState, ActiveSession, Listener, Manager, is_lasting, Result, ok,
}
use safe_disk.Server.Auth.{bearer, digest_mode, basic, auth_from_persistent, Moment, authenticate}
use safe_disk.Server.Records.{persistent_record}
use safe_disk.Server.Listeners.{ensure_server}
use safe_disk.Server.Sessions.{find_session}
use safe_disk.Server.Open.{
  OpenCall, new_session, new_active_session, url_of, add_session, open_with_options, RestoreCall,
  is_above_zero, is_usable, restored_session, restore_listening, restore_locked, restore_one,
}
use safe_disk.Server.Open.Outcome.{IsOpened, open_with_options-Outcome}
use safe_disk.Server.Open.Restored.{
  are_bytes, new_value-some, IsMade, made_bearer, made_digest, made_basic, new_auth-IsMade, Owns,
  auth_from_persistent-record,
}

-- The session behind its record: the address is new, and what the record does not hold is empty.
abbrev pub reopened : Session → Listener → Session
reopened s l = record s { url = url_of s.tls l s.id; read_only = false; write_policy = [] }

-- What `OpenWithOptions` keeps of a session it made.
record IsOwn (a : ActiveSession) : Type 0 where
  made : IsMade a.auth
  owns : Owns a
  has_id : is_empty a.session.id ≡ false

active_of : (a b : ActiveSession) → ◌≡◌ {A = Option ActiveSession} (some a) (some b) → a ≡ b
active_of a b h = cc

opened-IsOwn :
    (c : OpenCall) (m : Manager) (s : Session) (a : ActiveSession) (r : Result Session × Manager)
    → are_bytes c.reader ≡ true
    → r.0 ≡ ok s
    → find_session s.id r.1 ≡ some a
    → IsOpened c m r
    → IsOwn a × (a.session ≡ s)
opened-IsOwn c m s a r bytes result found v =
    let made = new_session c v.options v.path v.listener v.id v.auth in
    let active = new_active_session made v.auth v.provider in
    let z : ◌≡◌ {A = Result Session} (ok made) (ok s) = sym v.result ∙ result in
    let same_session : made ≡ s = cc in
    let e : active ≡ a = active_of active a (
      sym (lookup-insert str_eq v.id active m.sessions)
      ∙ ap (λ xs. lookup str_eq v.id xs) (sym v.sessions)
      ∙ ap (λ i. find_session i r.1) (ap (λ t. t.id) same_session)
      ∙ found) in
    let (full, more) = new_value-some 17 c.reader v.id v.rest v.named bytes in
    (
      subst IsOwn e (record {
        made = new_auth-IsMade v.options.auth_mode v.rest v.auth more v.authorized;
        owns = (refl, refl, refl, refl, refl);
        has_id = full;
      }),
      ap (λ x. x.session) (sym e) ∙ same_session,
    )

module _ (a : ActiveSession) (c : RestoreCall) (m n : Manager) (l : Listener) where
  restore_one-record :
      IsOwn a
      → is_lasting a.session.session_lifetime ≡ true
      → is_above_zero a.session.port ≡ true
      → c.root_key ≡ a.session.root_key
      → c.exists (persistent_record a) ≡ true
      → find_session a.session.id m ≡ none
      → ensure_server a.session.tls a.session.port (c.started (persistent_record a)) m ≡ (ok l, n)
      → restore_one c (persistent_record a) m
        ≡ (none, add_session (new_active_session (reopened a.session l) a.auth c.provider) n)
  unfolding restore_one
  restore_one-record own lasting port root found absent started =
      let p = persistent_record a in
      let usable : is_usable c.root_key p ≡ true =
        rw ((same_iff a.session.root_key c.root_key).1 (sym root), own.has_id, lasting, port)
          refl in
      let auth : auth_from_persistent p ≡ some a.auth =
        auth_from_persistent-record a own.made own.owns in
      let life : codes "persistent" ≡ a.session.session_lifetime =
        sym (same_eq a.session.session_lifetime (codes "persistent") lasting) in
      let session : restored_session c p l ≡ reopened a.session l =
        λ i. record (reopened a.session l) { root_key = root i; session_lifetime = life i } in
      rw (usable, found, auth, restore_one)
        (rw (absent, restore_locked)
          (ap (restore_listening c p a.auth) started
            ∙ ap (λ s. (none, add_session (new_active_session s a.auth c.provider) n)) session))

-- The record of a session that OpenWithOptions has just made, with random bytes, is restored in
-- any manager that does not have its id and whose listener starts or runs on the port, if the
-- session is a persistent one on a port above zero, the root is the same and the provider finds
-- the path: the session has the id and all it had, save for the address, ReadOnly, and the
-- provider, with its credentials as new.
pub restore_one-opened :
    (L : Library) (c : OpenCall) (k : RestoreCall) (m m' n : Manager) (s : Session)
    (a : ActiveSession) (l : Listener)
    → are_bytes c.reader ≡ true
    → (open_with_options L c m).0 ≡ ok s
    → find_session s.id (open_with_options L c m).1 ≡ some a
    → is_lasting s.session_lifetime ≡ true
    → is_above_zero s.port ≡ true
    → k.root_key ≡ s.root_key
    → k.exists (persistent_record a) ≡ true
    → find_session s.id m' ≡ none
    → ensure_server s.tls s.port (k.started (persistent_record a)) m' ≡ (ok l, n)
    → restore_one k (persistent_record a) m'
      ≡ (none, add_session (new_active_session (reopened s l) a.auth k.provider) n)
restore_one-opened L c k m m' n s a l bytes result found lasting port root there absent started =
    elim (open_with_options-Outcome L c m) [
      | inl (e, q, _) ↦ let z = sym q ∙ result in cc
      | inr v ↦
          let (own, e) = opened-IsOwn c m s a (open_with_options L c m) bytes result found v in
          restore_one-record a k m' n l own (ap (λ t. is_lasting t.session_lifetime) e ∙ lasting)
            (ap (λ t. is_above_zero t.port) e ∙ port) (root ∙ ap (λ t. t.root_key) (sym e)) there
            (ap (λ t. find_session t.id m') e ∙ absent)
            (ap (λ t. ensure_server t.tls t.port (k.started (persistent_record a)) m') e ∙ started)
          ∙ ap (λ t. (none, add_session (new_active_session (reopened t l) a.auth k.provider) n)) e
    ]

used_up :
    (L : Library) (r : Request) (t u : Moment) (a : AuthState)
    → IsMade a
    → a.mode ≡ digest_mode
    → (authenticate L t r a).0.1 ≡ true
    → (authenticate L u r (authenticate L t r a).1).0.1 ≡ false
unfolding authenticate
used_up L r t u a (made_bearer token n) m h = let z = (same_iff bearer digest_mode).1 m in cc
used_up L r t u a (made_basic user pass n k) m h = let z = (same_iff basic digest_mode).1 m in cc
used_up L r t u a (made_digest user pass realm key n1 n2 n3 size bytes) m h =
    verify_replay L
      (record { username = user; password = pass; realm = realm; key = key; max_nc = [] }) r t.now
      u.now [] h

-- A digest request that a session has let in is refused by the session when it comes again; but
-- the credentials that are restored from the record of the session let it in again, at each time
-- at which the new session would have.
pub restored-replay :
    (L : Library) (c : OpenCall) (m : Manager) (s : Session) (a : ActiveSession) (r : Request)
    (t u : Moment)
    → are_bytes c.reader ≡ true
    → (open_with_options L c m).0 ≡ ok s
    → find_session s.id (open_with_options L c m).1 ≡ some a
    → a.auth.mode ≡ digest_mode
    → (authenticate L t r a.auth).0.1 ≡ true
    → (authenticate L u r a.auth).0.1 ≡ true
    → ((authenticate L u r (authenticate L t r a.auth).1).0.1 ≡ false)
      × (b : AuthState) × (auth_from_persistent (persistent_record a) ≡ some b)
      × ((authenticate L u r b).0.1 ≡ true)
restored-replay L c m s a r t u bytes result found mode first valid =
    elim (open_with_options-Outcome L c m) [
      | inl (e, q, _) ↦ let z = sym q ∙ result in cc
      | inr v ↦
          let (own, e) = opened-IsOwn c m s a (open_with_options L c m) bytes result found v in
          (
            used_up L r t u a.auth own.made mode first,
            a.auth,
            auth_from_persistent-record a own.made own.owns,
            valid,
          )
    ]
