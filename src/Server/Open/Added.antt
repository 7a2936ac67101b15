-- ===== src/Server/Open/Added.antt =====
-- What `restorePersistent` makes of the sessions: nothing, or one more under an id that was free.
use safe_disk.Base.{
  true, false, ◌≡◌, refl, ap, Option, none, some, ◌⊎◌, inl, inr, Bool-cases, Option-cases,
}
use safe_disk.GoMap.{lookup, insert, is_some}
use safe_disk.Config.Memory.{str_eq}
use safe_disk.Server.Types.{
  PersistentSession, AuthState, ActiveSession, Listener, Manager, Result, err, ok,
}
use safe_disk.Server.Auth.{auth_from_persistent}
use safe_disk.Server.Listeners.{ensure_server}
use safe_disk.Server.Open.{
  new_active_session, RestoreCall, is_usable, restored_session, restore_listening, restore_locked,
  restore_one,
}
use safe_disk.Server.Open.Outcome.{ensure_server-sessions}

abbrev pub IsAdded : PersistentSession → Manager → Manager → Type 0
IsAdded p m n =
    (n.sessions ≡ m.sessions)
    ⊎ ((a : ActiveSession) × (lookup str_eq p.id m.sessions ≡ none)
        × (n.sessions ≡ insert str_eq p.id a m.sessions))

listening-IsAdded :
    (c : RestoreCall) (p : PersistentSession) (auth : AuthState) (m : Manager)
    (r : Result Listener × Manager)
    → lookup str_eq p.id m.sessions ≡ none
    → r.1.sessions ≡ m.sessions
    → IsAdded p m (restore_listening c p auth r).1
listening-IsAdded c p auth m (err e, n) free h = inl h
listening-IsAdded c p auth m (ok l, n) free h =
    let a = new_active_session (restored_session c p l) auth c.provider in
    inr (a, free, ap (insert str_eq p.id a) h)

locked-IsAdded :
    (c : RestoreCall) (p : PersistentSession) (auth : Option AuthState) (m : Manager)
    → IsAdded p m (restore_locked c p auth m).1
locked-IsAdded c p none m = inl refl
locked-IsAdded c p (some auth) m = elim (Option-cases (lookup str_eq p.id m.sessions)) [
  | inl e ↦
      let free : is_some (lookup str_eq p.id m.sessions) ≡ false = ap is_some e in
      rw (free, restore_locked)
        (listening-IsAdded c p auth m (ensure_server p.tls p.port (c.started p) m) e
          (ensure_server-sessions p.tls p.port (c.started p) m))
  | inr (a, e) ↦
      let used : is_some (lookup str_eq p.id m.sessions) ≡ true = ap is_some e in
      rw (used, restore_locked) (inl refl)
]

pub restore_one-IsAdded :
    (c : RestoreCall) (p : PersistentSession) (m : Manager) → IsAdded p m (restore_one c p m).1
unfolding restore_one
restore_one-IsAdded c p m = elim (Bool-cases (is_usable c.root_key p)) [
  | inr e ↦ rw (e, restore_one) (inl refl)
  | inl e ↦ elim (Bool-cases (c.exists p)) [
    | inr x ↦ rw (e, x, restore_one) (inl refl)
    | inl x ↦ rw (e, x, restore_one) (locked-IsAdded c p (auth_from_persistent p) m)
  ]
]
