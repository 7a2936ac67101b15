-- ===== src/Server/Calls/Absent.antt =====
-- What `OpenWithOptions`, `restorePersistent` and `Revoke` make of an id that has no session.
use safe_disk.Base.{
  Bool, false, ◌||◌, ◌&&◌, ◌≡◌, ◌≢◌, refl, ap, sym, ◌∙◌, Option, none, some, List, [], ◌∷◌, inl,
  inr, Bool-cases, Option-cases,
}
use safe_disk.Base.Strings.{Str, same, same_iff, same-apart}
use safe_disk.GoMap.{lookup, delete, is_some}
use safe_disk.GoMap.Laws.{lookup-insert_other, lookup-delete, lookup-delete_other}
use safe_disk.Config.Memory.{str_eq}
use safe_disk.Server.Types.{
  Session, PersistentSession, AuthState, ActiveSession, Listener, Manager, is_lasting, Result, err,
  ok, SaveOutcome,
}
use safe_disk.Server.Auth.{Reader, new_value, auth_from_persistent}
use safe_disk.Server.Listeners.{ensure_server}
use safe_disk.Server.Open.{
  OpenCall, RestoreCall, is_usable, restore_listening, restore_locked, restore_one,
}
use safe_disk.Server.Open.Outcome.{Outcome, change_store-sessions, ensure_server-sessions}
use safe_disk.Server.Sessions.{
  find_session, put_session, forget_record, drop_session, revoke_found, revoke, drop_root,
}
use safe_disk.Server.Calls.{
  Call, opens, restores, revokes, revokes_root, closes, acquires, releases, mounts, unmounts,
}

abbrev id_drawn : Option (Str × Reader) → Str → Bool
id_drawn none id = false
id_drawn (some (drawn, rest)) id = same drawn id

-- The calls that may make a session of an id: an open that draws it, and a restoration of it.
abbrev pub brings : Str → Call → Bool
brings id (opens c) = id_drawn (new_value 18 c.reader) id
brings id (restores c p) = same p.id id
brings id (revokes loads outcome j) = false
brings id (revokes_root root_key) = false
brings id (closes http https) = false
brings id (acquires j t r) = false
brings id (releases j) = false
brings id (mounts j new) = false
brings id (unmounts j old) = false

abbrev pub any_brings : Str → List Call → Bool
any_brings id [] = false
any_brings id (c ∷ cs) = brings id c || any_brings id cs

abbrev pub IsAbsent : Str → Manager → Type 0
IsAbsent id m = find_session id m ≡ none

pub absent_apart :
    (id j : Str) (a : ActiveSession) (m : Manager)
    → IsAbsent id m
    → find_session j m ≡ some a
    → id ≢ j
absent_apart id j a m h e q = let z = sym h ∙ ap (λ k. find_session k m) q ∙ e in cc

-- A session that is replaced is another one.
pub put-IsAbsent :
    (id j : Str) (a b : ActiveSession) (m : Manager)
    → find_session j m ≡ some a
    → IsAbsent id m
    → IsAbsent id (put_session j b m)
put-IsAbsent id j a b m e h =
    lookup-insert_other str_eq id j b m.sessions (absent_apart id j a m h e) ∙ h

kept-IsAbsent : (id : Str) (m n : Manager) → n.sessions ≡ m.sessions → IsAbsent id m → IsAbsent id n
kept-IsAbsent id m n e h = ap (λ xs. lookup str_eq id xs) e ∙ h

lookup-delete_absent :
    (id j : Str) (xs : List (Str × ActiveSession))
    → lookup str_eq id xs ≡ none
    → lookup str_eq id (delete str_eq j xs) ≡ none
lookup-delete_absent id j xs h = elim (Bool-cases (same id j)) [
  | inl e ↦
      ap (λ k. lookup str_eq k (delete str_eq j xs)) ((same_iff id j).0 e)
      ∙ lookup-delete str_eq j xs
  | inr e ↦ lookup-delete_other str_eq id j xs (same-apart id j e) ∙ h
]

pub lookup-drop_root_absent :
    (id k : Str) (xs : List (Str × ActiveSession))
    → lookup str_eq id xs ≡ none
    → lookup str_eq id (drop_root k xs) ≡ none
lookup-drop_root_absent id k [] h = h
lookup-drop_root_absent id k (x ∷ xs) h = elim (Bool-cases (same id x.0)) [
  | inl e ↦ let z = rw e at h in cc
  | inr e ↦ elim (Bool-cases (same x.1.session.root_key k)) [
    | inl q ↦ rw q (lookup-drop_root_absent id k xs (rw e at h))
    | inr q ↦ rw (q, e) (lookup-drop_root_absent id k xs (rw e at h))
  ]
]

pub opened-IsAbsent :
    (id : Str) (c : OpenCall) (m : Manager) (r : Result Session × Manager)
    → brings id (opens c) ≡ false
    → Outcome c m r
    → IsAbsent id m
    → IsAbsent id r.1
opened-IsAbsent id c m r b (inl (e, q, k)) h = kept-IsAbsent id m r.1 k h
opened-IsAbsent id c m r b (inr v) h =
    let drawn : same v.id id ≡ false = ap (λ o. id_drawn o id) (sym v.named) ∙ b in
    ap (λ xs. lookup str_eq id xs) v.sessions
    ∙ lookup-insert_other str_eq id v.id _ m.sessions (λ q. same-apart v.id id drawn (sym q))
    ∙ h

restored-IsAbsent :
    (id : Str) (c : RestoreCall) (p : PersistentSession) (auth : AuthState) (m : Manager)
    (r : Result Listener × Manager)
    → same p.id id ≡ false
    → r.1.sessions ≡ m.sessions
    → IsAbsent id m
    → IsAbsent id (restore_listening c p auth r).1
restored-IsAbsent id c p auth m (err e, n) b k h = kept-IsAbsent id m n k h
restored-IsAbsent id c p auth m (ok l, n) b k h =
    lookup-insert_other str_eq id p.id _ n.sessions (λ q. same-apart p.id id b (sym q))
    ∙ kept-IsAbsent id m n k h

restore_locked-IsAbsent :
    (id : Str) (c : RestoreCall) (p : PersistentSession) (auth : Option AuthState) (m : Manager)
    → same p.id id ≡ false
    → IsAbsent id m
    → IsAbsent id (restore_locked c p auth m).1
restore_locked-IsAbsent id c p none m b h = h
restore_locked-IsAbsent id c p (some auth) m b h =
    elim (Bool-cases (is_some (lookup str_eq p.id m.sessions))) [
      | inl e ↦ rw (e, restore_locked) h
      | inr e ↦
          rw (e, restore_locked)
            (restored-IsAbsent id c p auth m (ensure_server p.tls p.port (c.started p) m) b
              (ensure_server-sessions p.tls p.port (c.started p) m) h)
    ]

pub restore_one-IsAbsent :
    (id : Str) (c : RestoreCall) (p : PersistentSession) (m : Manager)
    → same p.id id ≡ false
    → IsAbsent id m
    → IsAbsent id (restore_one c p m).1
unfolding restore_one
restore_one-IsAbsent id c p m b h = elim (Bool-cases (is_usable c.root_key p)) [
  | inr e ↦ rw (e, restore_one) h
  | inl e ↦ elim (Bool-cases (c.exists p)) [
    | inr x ↦ rw (e, x, restore_one) h
    | inl x ↦ rw (e, x, restore_one) (restore_locked-IsAbsent id c p (auth_from_persistent p) m b h)
  ]
]

pub forget-sessions :
    (loads : Bool) (outcome : SaveOutcome) (id : Str) (a : ActiveSession) (m : Manager)
    → (forget_record loads outcome id a m).sessions ≡ m.sessions
forget-sessions loads outcome id a m =
    elim (Bool-cases (is_lasting a.session.session_lifetime && is_some m.store)) [
      | inl e ↦ rw e (change_store-sessions _ _ _ _ m.store m)
      | inr e ↦ rw e refl
    ]

pub revoke_found-IsAbsent :
    (loads : Bool) (outcome : SaveOutcome) (id j : Str) (a : Option ActiveSession) (m : Manager)
    → IsAbsent id m
    → IsAbsent id (revoke_found loads outcome j a m).0
revoke_found-IsAbsent loads outcome id j none m h = h
revoke_found-IsAbsent loads outcome id j (some a) m h =
    kept-IsAbsent id (drop_session j m) (forget_record loads outcome j a (drop_session j m))
      (forget-sessions loads outcome j a (drop_session j m))
      (lookup-delete_absent id j m.sessions h)

-- What `Revoke` leaves has no session of the id.
pub revoked-IsAbsent :
    (loads : Bool) (outcome : SaveOutcome) (id : Str) (m : Manager)
    → IsAbsent id (revoke loads outcome id m).0
unfolding revoke
revoked-IsAbsent loads outcome id m = elim (Option-cases (find_session id m)) [
  | inl e ↦ rw (e, revoke_found) e
  | inr (a, e) ↦
      rw (e, revoke_found)
        (kept-IsAbsent id (drop_session id m) (forget_record loads outcome id a (drop_session id m))
          (forget-sessions loads outcome id a (drop_session id m))
          (lookup-delete str_eq id m.sessions))
]
