-- ===== src/Server/Calls/Invariant.antt =====
-- Every call keeps the invariant of the listeners.
use safe_disk.Base.{
  ℕ, Bool, true, false, not, ◌&&◌, ◌-◌, ltb, ◌≡◌, refl, sym, subst, Option, none, some, List, [],
  ◌∷◌, Bool-cases, Option-cases, inl, inr,
}
use safe_disk.Base.Int.{ℤ, pos, negsuc, same_int}
use safe_disk.Base.Strings.{Str, same, is_empty, and_true}
use safe_disk.GoMap.{lookup, is_some}
use safe_disk.Config.Memory.{str_eq}
use safe_disk.WebDav.{Library}
use safe_disk.WebDav.Digest.{Request}
use safe_disk.Server.Types.{
  PersistentSession, AuthState, ActiveSession, Listener, Manager, is_lasting, Result, err, ok,
  SaveOutcome,
}
use safe_disk.Server.Auth.{Moment, authenticate, auth_from_persistent}
use safe_disk.Server.Listeners.{ensure_server}
use safe_disk.Server.Open.{
  restored_session, new_active_session, RestoreCall, is_above_zero, is_usable, restore_listening,
  restore_locked, restore_one,
}
use safe_disk.Server.Sessions.{
  find_session, put_session, forget_record, drop_session, revoke_found, revoke, revoke_root, close,
  attach, attach_found, mount_end, is_mount, detach_found, unmount_end,
}
use safe_disk.Server.Handle.{
  touched, acquire_found, acquire_authorized, release_found, release_request,
}
use safe_disk.Server.Listening.{
  IsServed, IsListening, AllServed-delete, AllServed-drop_root, AllServed-lookup,
  stop_if_idle-IsListening, ensure_server-IsListening, HasListener, ensure_server-HasListener,
}
use safe_disk.Server.Calls.{
  Call, opens, restores, revokes, revokes_root, closes, acquires, releases, mounts, unmounts, step,
  run,
}
use safe_disk.Server.Calls.Opens.{
  put_session-IsListening, change_store-IsListening, open_with_options-IsListening,
}

above_zero : (port : ℤ) → is_above_zero port ≡ true → same_int port (pos 0) ≡ false
above_zero (pos n) h = elim (Bool-cases (same_int (pos n) (pos 0))) [
  | inl e ↦ let z = rw e at h in cc
  | inr e ↦ e
]
above_zero (negsuc n) h = cc

restored-IsListening :
    (c : RestoreCall) (p : PersistentSession) (auth : AuthState) (r : Result Listener × Manager)
    → same_int p.port (pos 0) ≡ false
    → HasListener p.tls p.port r
    → IsListening r.1
    → IsListening (restore_listening c p auth r).1
restored-IsListening c p auth (err e, m) z s h = h
restored-IsListening c p auth (ok l, m) z s h =
    put_session-IsListening p.id (new_active_session (restored_session c p l) auth c.provider) m
      (refl, l, s.0, s.1 z) h

restore_locked-IsListening :
    (c : RestoreCall) (p : PersistentSession) (auth : Option AuthState) (m : Manager)
    → same_int p.port (pos 0) ≡ false
    → IsListening m
    → IsListening (restore_locked c p auth m).1
restore_locked-IsListening c p none m z h = h
restore_locked-IsListening c p (some auth) m z h =
    elim (Bool-cases (is_some (lookup str_eq p.id m.sessions))) [
      | inl e ↦ rw (e, restore_locked) h
      | inr e ↦
          rw (e, restore_locked)
            (restored-IsListening c p auth (ensure_server p.tls p.port (c.started p) m) z
              (ensure_server-HasListener p.tls p.port (c.started p) m)
              (ensure_server-IsListening p.tls p.port (c.started p) m h))
    ]

pub usable_port :
    (root_key : Str) (p : PersistentSession)
    → is_usable root_key p ≡ true
    → is_above_zero p.port ≡ true
usable_port root_key p h =
    let (_, a) = and_true (same_int p.version (pos 1)) _ h in
    let (_, b) = and_true (same p.root_key root_key) _ a in
    let (_, d) = and_true (not (is_empty p.id)) _ b in
    (and_true (is_lasting p.session_lifetime) _ d).1

restore_one-IsListening :
    (c : RestoreCall) (p : PersistentSession) (m : Manager)
    → IsListening m
    → IsListening (restore_one c p m).1
unfolding restore_one
restore_one-IsListening c p m h = elim (Bool-cases (is_usable c.root_key p)) [
  | inr e ↦ rw (e, restore_one) h
  | inl e ↦ elim (Bool-cases (c.exists p)) [
    | inr x ↦ rw (e, x, restore_one) h
    | inl x ↦
        rw (e, x, restore_one)
          (restore_locked-IsListening c p (auth_from_persistent p) m
            (above_zero p.port (usable_port c.root_key p e)) h)
  ]
]

forget-IsListening :
    (loads : Bool) (outcome : SaveOutcome) (id : Str) (a : ActiveSession) (m : Manager)
    → IsListening m
    → IsListening (forget_record loads outcome id a m)
forget-IsListening loads outcome id a m h =
    elim (Bool-cases (is_lasting a.session.session_lifetime && is_some m.store)) [
      | inl e ↦ rw e (change_store-IsListening _ _ _ _ m.store m h)
      | inr e ↦ rw e h
    ]

revoke_found-IsListening :
    (loads : Bool) (outcome : SaveOutcome) (id : Str) (a : Option ActiveSession) (m : Manager)
    → IsListening m
    → IsListening (revoke_found loads outcome id a m).0
revoke_found-IsListening loads outcome id none m h = h
revoke_found-IsListening loads outcome id (some a) m h =
    stop_if_idle-IsListening (forget_record loads outcome id a (drop_session id m)) (
      forget-IsListening loads outcome id a (drop_session id m)
        (AllServed-delete m.http m.https id m.sessions h))

-- A session that is found may be replaced by one with the same description.
replace-IsListening :
    (id : Str) (a b : ActiveSession) (m : Manager)
    → find_session id m ≡ some a
    → b.session ≡ a.session
    → IsListening m
    → IsListening (put_session id b m)
replace-IsListening id a b m e q h =
    put_session-IsListening id b m
      (subst (λ s. IsServed m.http m.https (id, record b { session = s })) (sym q)
        (AllServed-lookup m.http m.https id a m.sessions h e))
      h

acquire-IsListening :
    (L : Library) (id : Str) (t : Moment) (r : Request) (a : Option ActiveSession) (m : Manager)
    → find_session id m ≡ a
    → IsListening m
    → IsListening (acquire_found L id t r a m).1
acquire-IsListening L id t r none m e h = h
acquire-IsListening L id t r (some a) m e h =
    let v = authenticate L t r a.auth in
    replace-IsListening id a (touched t v.0.1 v.1 a) m e (touched_session v.0.1 v.1) h
  where
    touched_session : (b : Bool) (auth : AuthState) → (touched t b auth a).session ≡ a.session
    touched_session true auth = refl
    touched_session false auth = refl

release-IsListening :
    (id : Str) (a : Option ActiveSession) (m : Manager)
    → find_session id m ≡ a
    → IsListening m
    → IsListening (release_found id a m)
release-IsListening id none m e h = h
release-IsListening id (some a) m e h = elim (Bool-cases (ltb 0 a.active_requests)) [
  | inl q ↦
      rw q
        (replace-IsListening id a (record a { active_requests = a.active_requests - 1 }) m e refl h)
  | inr q ↦ rw q (replace-IsListening id a a m e refl h)
]

attach-IsListening :
    (id : Str) (new : ℕ) (a : Option ActiveSession) (m : Manager)
    → find_session id m ≡ a
    → IsListening m
    → IsListening (attach_found id new a m).1
attach-IsListening id new none m e h = h
attach-IsListening id new (some a) m e h = elim (Option-cases a.mounted) [
  | inl q ↦ rw (q, attach) (replace-IsListening id a (record a { mounted = some new }) m e refl h)
  | inr (x, q) ↦ rw (q, attach) h
]

detach-IsListening :
    (id : Str) (old : ℕ) (a : Option ActiveSession) (m : Manager)
    → find_session id m ≡ a
    → IsListening m
    → IsListening (detach_found id old a m)
detach-IsListening id old none m e h = h
detach-IsListening id old (some a) m e h = elim (Bool-cases (is_mount old a.mounted)) [
  | inl q ↦ rw q (replace-IsListening id a (record a { mounted = none }) m e refl h)
  | inr q ↦ rw q h
]

module _ (L : Library) where
  step-IsListening : (c : Call) (m : Manager) → IsListening m → IsListening (step L c m)
  unfolding step revoke revoke_root close mount_end unmount_end acquire_authorized release_request
  step-IsListening (opens c) m h = open_with_options-IsListening L c m h
  step-IsListening (restores c p) m h = restore_one-IsListening c p m h
  step-IsListening (revokes loads outcome id) m h =
      revoke_found-IsListening loads outcome id (find_session id m) m h
  step-IsListening (revokes_root root_key) m h =
      stop_if_idle-IsListening (record m { sessions = _ })
        (AllServed-drop_root m.http m.https root_key m.sessions h)
  step-IsListening (closes http https) m h = tt
  step-IsListening (acquires id t r) m h = acquire-IsListening L id t r (find_session id m) m refl h
  step-IsListening (releases id) m h = release-IsListening id (find_session id m) m refl h
  step-IsListening (mounts id new) m h = attach-IsListening id new (find_session id m) m refl h
  step-IsListening (unmounts id old) m h = detach-IsListening id old (find_session id m) m refl h

  -- Whatever opens, restorations, revocations, requests and mounts take the lock of the manager,
  -- in whatever order and with whatever outcomes of the network, the random reader and the
  -- store: if before every session is kept under its id and the listener of its scheme runs on
  -- its port, so it is behind.
  pub run-IsListening : (cs : List Call) (m : Manager) → IsListening m → IsListening (run L cs m)
  unfolding run
  run-IsListening [] m h = h
  run-IsListening (c ∷ cs) m h = run-IsListening cs (step L c m) (step-IsListening c m h)
