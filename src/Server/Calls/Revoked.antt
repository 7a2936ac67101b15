-- ===== src/Server/Calls/Revoked.antt =====
-- A session that was revoked lets no request in, until it is opened or restored again.
use safe_disk.Base.{
  ℕ, Bool, false, ◌≡◌, refl, ap, Option, none, some, List, [], ◌∷◌, inl, inr, Bool-cases,
  Option-cases,
}
use safe_disk.Base.Strings.{Str, or_false}
use safe_disk.WebDav.{Library}
use safe_disk.WebDav.Digest.{Request}
use safe_disk.Server.Types.{ActiveSession, Manager, SaveOutcome}
use safe_disk.Server.Auth.{Moment, authenticate, bearer_challenge}
use safe_disk.Server.Open.{open_with_options}
use safe_disk.Server.Open.Outcome.{open_with_options-Outcome}
use safe_disk.Server.Sessions.{
  find_session, revoke, revoke_root, close, attach, attach_found, mount_end, is_mount, detach_found,
  unmount_end,
}
use safe_disk.Server.Handle.{
  touched, acquire_found, acquire_authorized, release_found, release_request,
}
use safe_disk.Server.Calls.{
  Call, opens, restores, revokes, revokes_root, closes, acquires, releases, mounts, unmounts, step,
  run,
}
use safe_disk.Server.Calls.Absent.{
  brings, any_brings, IsAbsent, put-IsAbsent, opened-IsAbsent, restore_one-IsAbsent,
  revoke_found-IsAbsent, revoked-IsAbsent, lookup-drop_root_absent,
}

module _ (id : Str) where
  acquire-IsAbsent :
      (L : Library) (j : Str) (t : Moment) (r : Request) (a : Option ActiveSession) (m : Manager)
      → find_session j m ≡ a
      → IsAbsent id m
      → IsAbsent id (acquire_found L j t r a m).1
  acquire-IsAbsent L j t r none m e h = h
  acquire-IsAbsent L j t r (some a) m e h =
      let v = authenticate L t r a.auth in put-IsAbsent id j a (touched t v.0.1 v.1 a) m e h

  release-IsAbsent :
      (j : Str) (a : Option ActiveSession) (m : Manager)
      → find_session j m ≡ a
      → IsAbsent id m
      → IsAbsent id (release_found j a m)
  release-IsAbsent j none m e h = h
  release-IsAbsent j (some a) m e h = put-IsAbsent id j a _ m e h

  attach-IsAbsent :
      (j : Str) (new : ℕ) (a : Option ActiveSession) (m : Manager)
      → find_session j m ≡ a
      → IsAbsent id m
      → IsAbsent id (attach_found j new a m).1
  attach-IsAbsent j new none m e h = h
  attach-IsAbsent j new (some a) m e h = elim (Option-cases a.mounted) [
    | inl q ↦ rw (q, attach) (put-IsAbsent id j a (record a { mounted = some new }) m e h)
    | inr (x, q) ↦ rw (q, attach) h
  ]

  detach-IsAbsent :
      (j : Str) (old : ℕ) (a : Option ActiveSession) (m : Manager)
      → find_session j m ≡ a
      → IsAbsent id m
      → IsAbsent id (detach_found j old a m)
  detach-IsAbsent j old none m e h = h
  detach-IsAbsent j old (some a) m e h = elim (Bool-cases (is_mount old a.mounted)) [
    | inl q ↦ rw q (put-IsAbsent id j a (record a { mounted = none }) m e h)
    | inr q ↦ rw q h
  ]

module _ (L : Library) (id : Str) where
  step-IsAbsent :
      (c : Call) (m : Manager) → brings id c ≡ false → IsAbsent id m → IsAbsent id (step L c m)
  unfolding step revoke revoke_root close mount_end unmount_end acquire_authorized release_request
  step-IsAbsent (opens c) m b h =
      opened-IsAbsent id c m (open_with_options L c m) b (open_with_options-Outcome L c m) h
  step-IsAbsent (restores c p) m b h = restore_one-IsAbsent id c p m b h
  step-IsAbsent (revokes loads outcome j) m b h =
      revoke_found-IsAbsent loads outcome id j (find_session j m) m h
  step-IsAbsent (revokes_root root_key) m b h = lookup-drop_root_absent id root_key m.sessions h
  step-IsAbsent (closes http https) m b h = refl
  step-IsAbsent (acquires j t r) m b h = acquire-IsAbsent id L j t r (find_session j m) m refl h
  step-IsAbsent (releases j) m b h = release-IsAbsent id j (find_session j m) m refl h
  step-IsAbsent (mounts j new) m b h = attach-IsAbsent id j new (find_session j m) m refl h
  step-IsAbsent (unmounts j old) m b h = detach-IsAbsent id j old (find_session j m) m refl h

  run-IsAbsent :
      (cs : List Call) (m : Manager)
      → any_brings id cs ≡ false
      → IsAbsent id m
      → IsAbsent id (run L cs m)
  unfolding run
  run-IsAbsent [] m b h = h
  run-IsAbsent (c ∷ cs) m b h =
      let (here, later) = or_false (brings id c) (any_brings id cs) b in
      run-IsAbsent cs (step L c m) later (step-IsAbsent c m here h)

-- A request for a session that was revoked is refused with the challenge of the scheme Bearer
-- and changes nothing, whatever calls take the lock in between, if no open draws the id again
-- and no record with the id is restored.
pub acquire_authorized-revoke :
    (L : Library) (loads : Bool) (outcome : SaveOutcome) (id : Str) (m : Manager) (cs : List Call)
    (t : Moment) (r : Request)
    → any_brings id cs ≡ false
    → let n = run L cs (revoke loads outcome id m).0 in
      acquire_authorized L id t r n ≡ ((bearer_challenge, none), n)
unfolding acquire_authorized
acquire_authorized-revoke L loads outcome id m cs t r b =
    let n = run L cs (revoke loads outcome id m).0 in
    let gone =
      run-IsAbsent L id cs (revoke loads outcome id m).0 b (revoked-IsAbsent loads outcome id m) in
    ap (λ a. acquire_found L id t r a n) gone
