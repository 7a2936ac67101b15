-- ===== src/Server/Calls.antt =====
-- The manager as a transition system: a call is one of the sections of its methods that hold the lock, so
-- that a list of calls is an interleaving of requests, opens, revocations and mounts.
pub mod Opens
pub mod Invariant
pub mod Absent
pub mod Revoked
use safe_disk.Base.{ℕ, Bool, true, false, Option, none, some, List, [], ◌∷◌}
use safe_disk.Base.Strings.{Str}
use safe_disk.WebDav.{Library}
use safe_disk.WebDav.Digest.{Request}
use safe_disk.Server.Types.{PersistentSession, Manager, SaveOutcome}
use safe_disk.Server.Auth.{Moment}
use safe_disk.Server.Open.{OpenCall, open_with_options, RestoreCall, restore_one}
use safe_disk.Server.Sessions.{revoke, revoke_root, close, mount_end, unmount_end}
use safe_disk.Server.Handle.{acquire_authorized, release_request}

pub data Call : Type 0 where
  opens : OpenCall → Call
  restores : RestoreCall → PersistentSession → Call
  revokes : Bool → SaveOutcome → Str → Call
  revokes_root : Str → Call
  closes : Bool → Bool → Call
  acquires : Str → Moment → Request → Call
  releases : Str → Call
  mounts : Str → ℕ → Call
  unmounts : Str → ℕ → Call

module _ (L : Library) where
  pub step : Call → Manager → Manager
  step (opens c) m = (open_with_options L c m).1
  step (restores c p) m = (restore_one c p m).1
  step (revokes loads outcome id) m = (revoke loads outcome id m).0
  step (revokes_root root_key) m = (revoke_root root_key m).0
  step (closes http https) m = (close http https m).0.0
  step (acquires id t r) m = (acquire_authorized L id t r m).1
  step (releases id) m = release_request id m
  step (mounts id new) m = (mount_end id new m).1
  step (unmounts id old) m = unmount_end id old m

  pub run : List Call → Manager → Manager
  run [] m = m
  run (c ∷ cs) m = run cs (step c m)
