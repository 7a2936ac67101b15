-- ===== src/Server/Listening.antt =====
-- A listener runs on its port for every session, whatever the order of the calls.
use safe_disk.Base.{
  ℕ, suc, Bool, true, false, ◌||◌, ◌==◌, ◌≡◌, refl, sym, ◌∙◌, Option, none, some, List, [], ◌∷◌,
  Bool-cases, Option-cases, subst, zero, ◌≤◌, ◌<◌, arith, inl, inr, if◌then◌else◌,
}
use safe_disk.Base.Int.{ℤ, pos, same_int, same_int-eq}
use safe_disk.Base.Strings.{Str, same, same_iff}
use safe_disk.GoMap.{lookup, delete}
use safe_disk.Config.Memory.{str_eq}
use safe_disk.Server.Types.{
  ActiveSession, Listener, Manager, listener_of, with_listener, Result, err, ok,
}
use safe_disk.Server.Listeners.{
  Started, bound_port, start_listener, reuse_listener, ensure_scheme_listener, ensure_server,
  agrees, stop_if_idle, count_sessions, unless_idle,
}
use safe_disk.Server.Sessions.{drop_root}

-- The session is kept under its own id, and the listener of its scheme runs on its port.
abbrev pub IsServed : Option Listener → Option Listener → Str × ActiveSession → Type 0
IsServed http https x =
    (x.1.session.id ≡ x.0)
    × (l : Listener) × ((if x.1.session.tls then https else http) ≡ some l)
    × (l.port ≡ x.1.session.port)

abbrev pub AllServed : Option Listener → Option Listener → List (Str × ActiveSession) → Type 0
AllServed http https [] = Unit
AllServed http https (x ∷ xs) = IsServed http https x × AllServed http https xs

-- The invariant of a manager.
abbrev pub IsListening : Manager → Type 0
IsListening m = AllServed m.http m.https m.sessions

pub entry_made : (a b : ActiveSession) → ◌≡◌ {A = Option ActiveSession} (some a) (some b) → a ≡ b
entry_made a b h = cc

module _ (http https : Option Listener) where
  pub AllServed-delete :
      (k : Str) (xs : List (Str × ActiveSession))
      → AllServed http https xs
      → AllServed http https (delete str_eq k xs)
  AllServed-delete k [] h = h
  AllServed-delete k (x ∷ xs) h = elim (Bool-cases (same k x.0)) [
    | inl e ↦ rw e (AllServed-delete k xs h.1)
    | inr e ↦ rw e (h.0, AllServed-delete k xs h.1)
  ]

  pub AllServed-drop_root :
      (k : Str) (xs : List (Str × ActiveSession))
      → AllServed http https xs
      → AllServed http https (drop_root k xs)
  AllServed-drop_root k [] h = h
  AllServed-drop_root k (x ∷ xs) h = elim (Bool-cases (same x.1.session.root_key k)) [
    | inl e ↦ rw e (AllServed-drop_root k xs h.1)
    | inr e ↦ rw e (h.0, AllServed-drop_root k xs h.1)
  ]

  pub AllServed-lookup :
      (k : Str) (a : ActiveSession) (xs : List (Str × ActiveSession))
      → AllServed http https xs
      → lookup str_eq k xs ≡ some a
      → IsServed http https (k, a)
  AllServed-lookup k a [] h e = cc
  AllServed-lookup k a (x ∷ xs) h e = elim (Bool-cases (same k x.0)) [
    | inl q ↦
        let key : k ≡ x.0 = (same_iff k x.0).0 q in
        let found : x.1 ≡ a = entry_made x.1 a (rw q at e) in
        subst (λ b. IsServed http https (k, b)) found
          (subst (λ j. IsServed http https (j, x.1)) (sym key) h.0)
    | inr q ↦ AllServed-lookup k a xs h.1 (rw q at e)
  ]

-- Listeners that only come up keep every session served.
AllServed-mono :
    (http https http' https' : Option Listener) (xs : List (Str × ActiveSession))
    → ((l : Listener) → http ≡ some l → http' ≡ some l)
    → ((l : Listener) → https ≡ some l → https' ≡ some l)
    → AllServed http https xs
    → AllServed http' https' xs
AllServed-mono http https http' https' [] f g h = h
AllServed-mono http https http' https' (x ∷ xs) f g h =
    let (id, l, runs, port) = h.0 in
    (
      (id, l, picked x.1.session.tls l runs, port),
      AllServed-mono http https http' https' xs f g h.1,
    )
  where
    picked :
        (t : Bool) (l : Listener)
        → (if t then https else http) ≡ some l
        → (if t then https' else http') ≡ some l
    picked true l e = g l e
    picked false l e = f l e

kept_running : (n : ℕ) (l : Option Listener) → 0 < n → unless_idle n l ≡ l
kept_running zero l h = absurd (omega arith)
kept_running (suc n) l h = rw (not_idle n, unless_idle) refl
  where
    not_idle : (n : ℕ) → (suc n == 0) ≡ false
    not_idle n = ground arith

AllServed-unless_idle :
    (http https : Option Listener) (f t : ℕ) (xs : List (Str × ActiveSession))
    → count_sessions false xs ≤ f
    → count_sessions true xs ≤ t
    → AllServed http https xs
    → AllServed (unless_idle f http) (unless_idle t https) xs
AllServed-unless_idle http https f t [] p q h = h
AllServed-unless_idle http https f t (x ∷ xs) p q h =
    let (id, l, runs, port) = h.0 in
    let (more_f, more_t, here) =
      counted x.1.session.tls (count_sessions false xs) (count_sessions true xs) l p q runs in
    ((id, l, here, port), AllServed-unless_idle http https f t xs more_f more_t h.1)
  where
    counted :
        (tls : Bool) (a b : ℕ) (l : Listener)
        → (if agrees false tls then suc a else a) ≤ f
        → (if agrees true tls then suc b else b) ≤ t
        → (if tls then https else http) ≡ some l
        → (a ≤ f) × (b ≤ t) × ((if tls then unless_idle t https else unless_idle f http) ≡ some l)
    counted true a b l p q e = (p, omega arith, kept_running t https (omega arith) ∙ e)
    counted false a b l p q e = (omega arith, q, kept_running f http (omega arith) ∙ e)

pub stop_if_idle-IsListening : (m : Manager) → IsListening m → IsListening (stop_if_idle m)
stop_if_idle-IsListening m h =
    AllServed-unless_idle m.http m.https (count_sessions false m.sessions)
      (count_sessions true m.sessions) m.sessions (omega arith) (omega arith) h

started-IsListening :
    (tls : Bool) (l : Option Listener) (m : Manager)
    → listener_of tls m ≡ none
    → IsListening m
    → IsListening (with_listener tls l m)
started-IsListening true l m e h =
    AllServed-mono m.http m.https m.http l m.sessions (λ k p. p) (λ k p. let z = sym e ∙ p in cc) h
started-IsListening false l m e h =
    AllServed-mono m.http m.https l m.https m.sessions (λ k p. let z = sym e ∙ p in cc) (λ k p. p) h

pub ensure_server-IsListening :
    (tls : Bool) (port : ℤ) (started : Started) (m : Manager)
    → IsListening m
    → IsListening (ensure_server tls port started m).1
ensure_server-IsListening tls port started m h = elim (Option-cases (listener_of tls m)) [
  | inl e ↦ rw (e, ensure_scheme_listener) (starting started e)
  | inr (l, e) ↦
      rw (e, ensure_scheme_listener)
        (elim (Bool-cases (same_int port (pos 0) || same_int l.port port)) [
          | inl q ↦ rw (q, reuse_listener) h
          | inr q ↦ rw (q, reuse_listener) h
        ])
]
  where
    starting :
        (s : Started) → listener_of tls m ≡ none → IsListening (start_listener tls port s m).1
    starting none e = h
    starting (some (free, address)) e =
        started-IsListening tls (some (record { port = bound_port port free; address = address })) m
          e h

abbrev pub HasListener : Bool → ℤ → Result Listener × Manager → Type 0
HasListener tls port (err e, m) = Unit
HasListener tls port (ok l, m) =
    (listener_of tls m ≡ some l) × (same_int port (pos 0) ≡ false → l.port ≡ port)

start_listener-HasListener :
    (tls : Bool) (port : ℤ) (s : Started) (m : Manager)
    → HasListener tls port (start_listener tls port s m)
start_listener-HasListener tls port none m = tt
start_listener-HasListener true port (some (free, address)) m = (refl, λ e. rw (e, bound_port) refl)
start_listener-HasListener false port (some (free, address)) m =
    (refl, λ e. rw (e, bound_port) refl)

-- The listener that is given runs, on the port that was asked for unless that is 0.
pub ensure_server-HasListener :
    (tls : Bool) (port : ℤ) (started : Started) (m : Manager)
    → HasListener tls port (ensure_server tls port started m)
ensure_server-HasListener tls port started m = elim (Option-cases (listener_of tls m)) [
  | inl e ↦ rw (e, ensure_scheme_listener) (start_listener-HasListener tls port started m)
  | inr (l, e) ↦
      rw (e, ensure_scheme_listener)
        (elim (Bool-cases (same_int port (pos 0) || same_int l.port port)) [
          | inl q ↦ rw (q, reuse_listener) (e, λ z. same_int-eq l.port port (rw z at q))
          | inr q ↦ rw (q, reuse_listener) tt
        ])
]
