-- ===== src/Server/Listeners.antt =====
-- The listeners, one for each scheme: `ensureServerLocked`, `ensureSchemeListenerLocked`,
-- `countSessionsBySchemeLocked` and `stopIfIdleLocked`. Starting a listener is `net.Listen` with the TLS
-- configuration of an HTTPS one; it listens on the port asked for, or on a free one if that is 0.
use safe_disk.Base.{
  ℕ, suc, Bool, true, false, not, ◌||◌, ◌==◌, Option, none, some, List, [], ◌∷◌, if◌then◌else◌,
}
use safe_disk.Base.Int.{ℤ, pos, same_int}
use safe_disk.Base.Strings.{Str, codes}
use safe_disk.Server.Types.{
  ActiveSession, Listener, Manager, listener_of, with_listener, Result, err, ok, port_conflict,
  not_listening,
}

-- What starting a listener gives: a free port and the address, if it works.
abbrev pub Started : Type 0
Started = Option (ℕ × Str)

abbrev pub bound_port : ℤ → ℕ → ℤ
bound_port port free = if same_int port (pos 0) then pos free else port

abbrev pub start_listener : Bool → ℤ → Started → Manager → Result Listener × Manager
start_listener tls port none m = (err not_listening, m)
start_listener tls port (some (free, address)) m =
    let l : Listener = record { port = bound_port port free; address = address } in
    (ok l, with_listener tls (some l) m)

abbrev pub reuse_listener : ℤ → Listener → Manager → Result Listener × Manager
reuse_listener port l m =
    if same_int port (pos 0) || same_int l.port port then (ok l, m) else (err port_conflict, m)

abbrev pub ensure_scheme_listener :
    Bool → ℤ → Started → Option Listener → Manager → Result Listener × Manager
ensure_scheme_listener tls port started none m = start_listener tls port started m
ensure_scheme_listener tls port started (some l) m = reuse_listener port l m

-- `ensureServerLocked`
abbrev pub ensure_server : Bool → ℤ → Started → Manager → Result Listener × Manager
ensure_server tls port started m = ensure_scheme_listener tls port started (listener_of tls m) m

abbrev pub agrees : Bool → Bool → Bool
agrees true b = b
agrees false b = not b

-- `countSessionsBySchemeLocked`, of one scheme.
abbrev pub count_sessions : Bool → List (Str × ActiveSession) → ℕ
count_sessions tls [] = 0
count_sessions tls (x ∷ xs) =
    if agrees tls x.1.session.tls then suc (count_sessions tls xs) else count_sessions tls xs

abbrev pub unless_idle : ℕ → Option Listener → Option Listener
unless_idle count l = if count == 0 then none else l

-- `stopIfIdleLocked`
abbrev pub stop_if_idle : Manager → Manager
stop_if_idle m = record m {
  http = unless_idle (count_sessions false m.sessions) m.http;
  https = unless_idle (count_sessions true m.sessions) m.https;
}

-- `webdavURLScheme`
abbrev pub webdav_url_scheme : Bool → Str
webdav_url_scheme tls = if tls then codes "https://" else codes "http://"
