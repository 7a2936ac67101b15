-- ===== src/Server/Open/Outcome.antt =====
-- What `OpenWithOptions` comes to: an error with the sessions as they were, or one more session.
use safe_disk.Base.{
  ℕ, Bool, true, false, not, ◌&&◌, ◌||◌, ◌≡◌, refl, ap, ◌∙◌, Option, none, some, List, ◌⊎◌,
  Bool-cases, Option-cases, inl, inr,
}
use safe_disk.Base.Int.{ℤ, pos, same_int}
use safe_disk.Base.Strings.{Str, is_empty}
use safe_disk.GoMap.{insert, is_some}
use safe_disk.Config.Memory.{str_eq}
use safe_disk.WebDav.{Library}
use safe_disk.WebDav.Options.{OpenOptions, normalize_open_options}
use safe_disk.Server.Paths.{clean_relative_path}
use safe_disk.Server.Types.{
  Session, PersistentSession, AuthState, ActiveSession, Listener, Manager, listener_of, is_lasting,
  ServerError, bad_options, invalid_root_key, no_provider, invalid_path, not_found,
  store_unavailable, no_random, Result, err, ok, SaveOutcome,
}
use safe_disk.Server.Auth.{Reader, new_value, new_auth}
use safe_disk.Server.Records.{Store, change_store, save_persistent}
use safe_disk.Server.Listeners.{
  Started, start_listener, reuse_listener, ensure_scheme_listener, ensure_server,
}
use safe_disk.Server.Open.{
  OpenCall, new_session, new_active_session, after_save, enter, open_authorized, open_named,
  open_listening, open_locked, open_cleaned, open_provided, open_normalized, open_with_options,
}

-- One more session, of the options with their defaults, the cleaned path and a new id.
pub record IsOpened (c : OpenCall) (m : Manager) (r : Result Session × Manager) : Type 0 where
  pub options : OpenOptions
  pub provider : ℕ
  pub path : Str
  pub listener : Listener
  pub id : Str
  pub rest : Reader
  pub auth : AuthState
  pub normalized : normalize_open_options c.options ≡ some options
  pub cleaned : clean_relative_path c.exposed_path ≡ some path
  pub named : new_value 18 c.reader ≡ some (id, rest)
  pub authorized : new_auth options.auth_mode rest ≡ some auth
  pub result : r.0 ≡ ok (new_session c options path listener id auth)
  pub sessions :
      r.1.sessions
      ≡ insert str_eq id
          (new_active_session (new_session c options path listener id auth) auth provider)
          m.sessions

abbrev pub IsRefused : Manager → Result Session × Manager → Type 0
IsRefused m r = (e : ServerError) × (r.0 ≡ err e) × (r.1.sessions ≡ m.sessions)

abbrev pub Outcome : OpenCall → Manager → Result Session × Manager → Type 0
Outcome c m r = IsRefused m r ⊎ IsOpened c m r

pub change_store-sessions :
    (loads : Bool) (outcome : SaveOutcome) (root_key : Str)
    (change : List PersistentSession → List PersistentSession) (s : Option Store) (m : Manager)
    → (change_store loads outcome root_key change s m).1.sessions ≡ m.sessions
change_store-sessions loads outcome root_key change none m = refl
change_store-sessions loads outcome root_key change (some s) m = refl

abbrev Entered : ActiveSession → Manager → Result Session × Manager → Type 0
Entered a m r =
    IsRefused m r
    ⊎ ((r.0 ≡ ok a.session) × (r.1.sessions ≡ insert str_eq a.session.id a m.sessions))

after_save-Entered :
    (a : ActiveSession) (m : Manager) (p : Option ServerError × Manager)
    → p.1.sessions ≡ m.sessions
    → Entered a m (after_save a p)
after_save-Entered a m (some e, n) h = inl (e, refl, h)
after_save-Entered a m (none, n) h = inr (refl, ap (insert str_eq a.session.id a) h)

enter-Entered : (c : OpenCall) (a : ActiveSession) (m : Manager) → Entered a m (enter c a m)
enter-Entered c a m = elim (Bool-cases (is_lasting a.session.session_lifetime)) [
  | inl e ↦
      rw (e, enter)
        (after_save-Entered a m (save_persistent c.loads c.saves a m)
          (change_store-sessions _ _ _ _ m.store m))
  | inr e ↦ rw (e, enter) (inr (refl, refl))
]

start-sessions :
    (tls : Bool) (port : ℤ) (s : Started) (m : Manager)
    → (start_listener tls port s m).1.sessions ≡ m.sessions
start-sessions tls port none m = refl
start-sessions true port (some (free, address)) m = refl
start-sessions false port (some (free, address)) m = refl

pub ensure_server-sessions :
    (tls : Bool) (port : ℤ) (s : Started) (m : Manager)
    → (ensure_server tls port s m).1.sessions ≡ m.sessions
ensure_server-sessions tls port s m = elim (Option-cases (listener_of tls m)) [
  | inl e ↦ rw (e, ensure_scheme_listener) (start-sessions tls port s m)
  | inr (l, e) ↦
      rw (e, ensure_scheme_listener)
        (elim (Bool-cases (same_int port (pos 0) || same_int l.port port)) [
          | inl q ↦ rw (q, reuse_listener) refl
          | inr q ↦ rw (q, reuse_listener) refl
        ])
]

module _ (c : OpenCall) (o : OpenOptions)
    (normalized : normalize_open_options c.options ≡ some o) where
  module _ (provider : ℕ) (path : Str)
      (cleaned : clean_relative_path c.exposed_path ≡ some path) where
    authorized-Outcome :
        (l : Listener) (id : Str) (rest : Reader) (auth : Option AuthState) (m n : Manager)
        → new_value 18 c.reader ≡ some (id, rest)
        → new_auth o.auth_mode rest ≡ auth
        → n.sessions ≡ m.sessions
        → Outcome c m (open_authorized c o provider path l id auth n)
    authorized-Outcome l id rest none m n named e h = inl (no_random, refl, h)
    authorized-Outcome l id rest (some auth) m n named e h =
        let s = new_session c o path l id auth in
        elim (enter-Entered c (new_active_session s auth provider) n) [
          | inl (why, q, k) ↦ inl (why, q, k ∙ h)
          | inr (q, k) ↦ inr (record {
            options = o;
            provider = provider;
            path = path;
            listener = l;
            id = id;
            rest = rest;
            auth = auth;
            normalized = normalized;
            cleaned = cleaned;
            named = named;
            authorized = e;
            result = q;
            sessions = k ∙ ap (insert str_eq id (new_active_session s auth provider)) h;
          })
        ]

    named-Outcome :
        (l : Listener) (id : Option (Str × Reader)) (m n : Manager)
        → new_value 18 c.reader ≡ id
        → n.sessions ≡ m.sessions
        → Outcome c m (open_named c o provider path l id n)
    named-Outcome l none m n e h = inl (no_random, refl, h)
    named-Outcome l (some (id, rest)) m n e h =
        authorized-Outcome l id rest (new_auth o.auth_mode rest) m n e refl h

    open_listening-Outcome :
        (p : Result Listener × Manager) (m : Manager)
        → p.1.sessions ≡ m.sessions
        → Outcome c m (open_listening c o provider path p)
    open_listening-Outcome (err e, n) m h = inl (e, refl, h)
    open_listening-Outcome (ok l, n) m h = named-Outcome l (new_value 18 c.reader) m n refl h

    locked-Outcome : (m : Manager) → Outcome c m (open_locked c o provider path m)
    locked-Outcome m = elim (Bool-cases (is_lasting o.session_lifetime && not (is_some m.store))) [
      | inl e ↦ rw (e, open_locked) (inl (store_unavailable, refl, refl))
      | inr e ↦
          rw (e, open_locked)
            (open_listening-Outcome (ensure_server o.tls o.port c.started m) m
              (ensure_server-sessions o.tls o.port c.started m))
    ]

  cleaned-Outcome :
      (provider : ℕ) (path : Option Str) (m : Manager)
      → clean_relative_path c.exposed_path ≡ path
      → Outcome c m (open_cleaned c o provider path m)
  cleaned-Outcome provider none m e = inl (invalid_path, refl, refl)
  cleaned-Outcome provider (some path) m e = by_test c.exists
    where
      by_test :
          (found : Bool)
          → Outcome c m (elim found as (λ _. Result Session × Manager) [
            | false ↦ (err not_found, m)
            | true ↦ open_locked c o provider path m
          ])
      by_test false = inl (not_found, refl, refl)
      by_test true = locked-Outcome provider path e m

  provided-Outcome :
      (provider : Option ℕ) (m : Manager) → Outcome c m (open_provided c o provider m)
  provided-Outcome none m = inl (no_provider, refl, refl)
  provided-Outcome (some provider) m =
      cleaned-Outcome provider (clean_relative_path c.exposed_path) m refl

normalized-Outcome :
    (L : Library) (c : OpenCall) (o : Option OpenOptions) (m : Manager)
    → normalize_open_options c.options ≡ o
    → Outcome c m (open_normalized L c o m)
normalized-Outcome L c none m e = inl (bad_options, refl, refl)
normalized-Outcome L c (some o) m e = elim (Bool-cases (is_empty (L.trim_space c.root_key))) [
  | inl q ↦ rw (q, open_normalized) (inl (invalid_root_key, refl, refl))
  | inr q ↦ rw (q, open_normalized) (provided-Outcome c o e c.provider m)
]

pub open_with_options-Outcome :
    (L : Library) (c : OpenCall) (m : Manager) → Outcome c m (open_with_options L c m)
unfolding open_with_options
open_with_options-Outcome L c m = normalized-Outcome L c (normalize_open_options c.options) m refl
