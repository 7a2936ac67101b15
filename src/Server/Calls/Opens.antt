-- ===== src/Server/Calls/Opens.antt =====
-- `OpenWithOptions` keeps the invariant of the listeners.
use safe_disk.Base.{ℕ, Bool, not, ◌&&◌, refl, Option, none, some, List, Bool-cases, inl, inr}
use safe_disk.Base.Strings.{Str, is_empty}
use safe_disk.GoMap.{is_some}
use safe_disk.WebDav.{Library}
use safe_disk.WebDav.Options.{OpenOptions, normalize_open_options}
use safe_disk.Server.Paths.{clean_relative_path}
use safe_disk.Server.Types.{
  PersistentSession, AuthState, ActiveSession, Listener, Manager, is_lasting, ServerError, Result,
  err, ok, SaveOutcome,
}
use safe_disk.Server.Auth.{Reader, new_value, new_auth}
use safe_disk.Server.Records.{Store, change_store, save_persistent}
use safe_disk.Server.Listeners.{ensure_server}
use safe_disk.Server.Open.{
  OpenCall, new_session, new_active_session, after_save, enter, open_authorized, open_named,
  open_listening, open_locked, open_cleaned, open_provided, open_normalized, open_with_options,
}
use safe_disk.Server.Sessions.{put_session}
use safe_disk.Server.Listening.{
  IsServed, IsListening, AllServed-delete, stop_if_idle-IsListening, ensure_server-IsListening,
  HasListener, ensure_server-HasListener,
}

-- A session that is served may be put under its id.
pub put_session-IsListening :
    (id : Str) (a : ActiveSession) (m : Manager)
    → IsServed m.http m.https (id, a)
    → IsListening m
    → IsListening (put_session id a m)
put_session-IsListening id a m s h = (s, AllServed-delete m.http m.https id m.sessions h)

pub change_store-IsListening :
    (loads : Bool) (outcome : SaveOutcome) (root_key : Str)
    (change : List PersistentSession → List PersistentSession) (s : Option Store) (m : Manager)
    → IsListening m
    → IsListening (change_store loads outcome root_key change s m).1
change_store-IsListening loads outcome root_key change none m h = h
change_store-IsListening loads outcome root_key change (some s) m h = h

-- The listener that a session asks for runs.
abbrev pub Fits : ActiveSession → Manager → Type 0
Fits a m = IsServed m.http m.https (a.session.id, a)

after_save-IsListening :
    (a : ActiveSession) (p : Option ServerError × Manager)
    → Fits a p.1
    → IsListening p.1
    → IsListening (after_save a p).1
after_save-IsListening a (some e, m) s h = stop_if_idle-IsListening m h
after_save-IsListening a (none, m) s h = put_session-IsListening a.session.id a m s h

save_persistent-Fits :
    (loads : Bool) (outcome : SaveOutcome) (root_key : Str)
    (change : List PersistentSession → List PersistentSession) (s : Option Store)
    (a : ActiveSession) (m : Manager)
    → Fits a m
    → Fits a (change_store loads outcome root_key change s m).1
save_persistent-Fits loads outcome root_key change none a m h = h
save_persistent-Fits loads outcome root_key change (some s) a m h = h

enter-IsListening :
    (c : OpenCall) (a : ActiveSession) (m : Manager)
    → Fits a m
    → IsListening m
    → IsListening (enter c a m).1
enter-IsListening c a m s h = elim (Bool-cases (is_lasting a.session.session_lifetime)) [
  | inl e ↦
      rw (e, enter)
        (after_save-IsListening a (save_persistent c.loads c.saves a m)
          (save_persistent-Fits _ _ _ _ m.store a m s)
          (change_store-IsListening _ _ _ _ m.store m h))
  | inr e ↦ rw (e, enter) (put_session-IsListening a.session.id a m s h)
]

module _ (c : OpenCall) (o : OpenOptions) (provider : ℕ) (path : Str) where
  authorized-IsListening :
      (l : Listener) (id : Str) (auth : Option AuthState) (m : Manager)
      → HasListener o.tls o.port (ok l, m)
      → IsListening m
      → IsListening (open_authorized c o provider path l id auth m).1
  authorized-IsListening l id none m s h = h
  authorized-IsListening l id (some auth) m s h =
      enter-IsListening c (new_active_session (new_session c o path l id auth) auth provider) m
        (refl, l, s.0, refl) h

  named-IsListening :
      (l : Listener) (id : Option (Str × Reader)) (m : Manager)
      → HasListener o.tls o.port (ok l, m)
      → IsListening m
      → IsListening (open_named c o provider path l id m).1
  named-IsListening l none m s h = h
  named-IsListening l (some (id, rest)) m s h =
      authorized-IsListening l id (new_auth o.auth_mode rest) m s h

  open_listening-IsListening :
      (p : Result Listener × Manager)
      → HasListener o.tls o.port p
      → IsListening p.1
      → IsListening (open_listening c o provider path p).1
  open_listening-IsListening (err e, m) s h = h
  open_listening-IsListening (ok l, m) s h = named-IsListening l (new_value 18 c.reader) m s h

  locked-IsListening :
      (m : Manager) → IsListening m → IsListening (open_locked c o provider path m).1
  locked-IsListening m h =
      elim (Bool-cases (is_lasting o.session_lifetime && not (is_some m.store))) [
        | inl e ↦ rw (e, open_locked) h
        | inr e ↦
            rw (e, open_locked)
              (open_listening-IsListening (ensure_server o.tls o.port c.started m)
                (ensure_server-HasListener o.tls o.port c.started m)
                (ensure_server-IsListening o.tls o.port c.started m h))
      ]

cleaned-IsListening :
    (c : OpenCall) (o : OpenOptions) (provider : ℕ) (path : Option Str) (m : Manager)
    → IsListening m
    → IsListening (open_cleaned c o provider path m).1
cleaned-IsListening c o provider none m h = h
cleaned-IsListening c o provider (some path) m h = elim (Bool-cases c.exists) [
  | inl e ↦ rw (e, open_cleaned) (locked-IsListening c o provider path m h)
  | inr e ↦ rw (e, open_cleaned) h
]

provided-IsListening :
    (c : OpenCall) (o : OpenOptions) (provider : Option ℕ) (m : Manager)
    → IsListening m
    → IsListening (open_provided c o provider m).1
provided-IsListening c o none m h = h
provided-IsListening c o (some provider) m h =
    cleaned-IsListening c o provider (clean_relative_path c.exposed_path) m h

normalized-IsListening :
    (L : Library) (c : OpenCall) (o : Option OpenOptions) (m : Manager)
    → IsListening m
    → IsListening (open_normalized L c o m).1
normalized-IsListening L c none m h = h
normalized-IsListening L c (some o) m h = elim (Bool-cases (is_empty (L.trim_space c.root_key))) [
  | inl e ↦ rw (e, open_normalized) h
  | inr e ↦ rw (e, open_normalized) (provided-IsListening c o c.provider m h)
]

pub open_with_options-IsListening :
    (L : Library) (c : OpenCall) (m : Manager)
    → IsListening m
    → IsListening (open_with_options L c m).1
unfolding open_with_options
open_with_options-IsListening L c m h =
    normalized-IsListening L c (normalize_open_options c.options) m h
