-- ===== src/Server/Mounts.antt =====
-- The mounts of sessions and the methods that work on them at the same time: `Mount` and `Unmount` of
-- server.go release the lock while the system mounts or unmounts, and `Revoke`, `RevokeRoot` and `Close`
-- unmount behind it.
pub mod Owned
pub mod Kept
use safe_disk.Base.{
  ℕ, Bool, true, false, ◌||◌, ◌==◌, ◌≡◌, Option, none, some, List, [], ◌∷◌, ◌++◌, if◌then◌else◌,
}
use safe_disk.Base.Strings.{Str}
use safe_disk.WebDav.{Library}
use safe_disk.WebDav.Digest.{Request}
use safe_disk.Server.Types.{PersistentSession, ActiveSession, Manager, SaveOutcome}
use safe_disk.Server.Auth.{Reader, Moment, new_value}
use safe_disk.Server.Open.{OpenCall, open_with_options, RestoreCall, restore_one}
use safe_disk.Server.Sessions.{
  find_session, revoke, revoke_root, close, add_mount, mount_end, unmount_end,
}
use safe_disk.Server.Handle.{acquire_authorized, release_request}

-- The manager with the mounts of the system, those that a method holds and will attach or take down, and
-- those whose unmount failed behind `Mount`, `Revoke`, `RevokeRoot` or `Close`, which drop the error.
pub record World : Type 0 where
  pub manager : Manager
  pub live : List ℕ
  pub held : List ℕ
  pub failed : List ℕ

abbrev pub has : ℕ → List ℕ → Bool
has x [] = false
has x (y ∷ ys) = x == y || has x ys

abbrev pub without : ℕ → List ℕ → List ℕ
without x [] = []
without x (y ∷ ys) = if x == y then without x ys else y ∷ without x ys

-- The id that an open draws is not in use.
abbrev pub IsFresh : OpenCall → Manager → Type 0
IsFresh c m =
    (id : Str) (rest : Reader) → new_value 18 c.reader ≡ some (id, rest) → find_session id m ≡ none

abbrev pub with_manager : World → Manager → World
with_manager w m = record w { manager = m }

abbrev pub with_held : World → Manager → List ℕ → World
with_held w m held = record w { manager = m; held = held }

-- The steps, each atomic: a section under the lock, or a mount or unmount of the system.
pub data IsStep (L : Library) : World → World → Type 0 where
  opens :
      (c : OpenCall) (w : World)
      → IsFresh c w.manager
      → IsStep L w (with_manager w (open_with_options L c w.manager).1)
  restores :
      (c : RestoreCall) (p : PersistentSession) (w : World)
      → IsStep L w (with_manager w (restore_one c p w.manager).1)
  acquires :
      (id : Str) (t : Moment) (r : Request) (w : World)
      → IsStep L w (with_manager w (acquire_authorized L id t r w.manager).1)
  releases : (id : Str) (w : World) → IsStep L w (with_manager w (release_request id w.manager))
  -- `MountSession` works, between the two parts of `Mount`.
  mounts : (x : ℕ) (w : World) → IsStep L w (record w { live = x ∷ w.live; held = x ∷ w.held })
  -- The second part of `Mount`.
  attaches :
      (id : Str) (x : ℕ) (w : World)
      → IsStep L w (
          with_held w
            (mount_end id x w.manager).1
            (add_mount (mount_end id x w.manager).0.1 (without x w.held)))
  -- The unmount of `Unmount` works.
  unmounts : (x : ℕ) (w : World) → IsStep L w (record w { live = without x w.live })
  -- The second part of `Unmount`, of a mount that is gone.
  detaches :
      (id : Str) (x : ℕ) (w : World)
      → has x w.live ≡ false
      → IsStep L w (with_manager w (unmount_end id x w.manager))
  revokes :
      (loads : Bool) (outcome : SaveOutcome) (id : Str) (w : World)
      → IsStep L w (
          with_held w
            (revoke loads outcome id w.manager).0
            (add_mount (revoke loads outcome id w.manager).1 w.held))
  revokes_root :
      (root_key : Str) (w : World)
      → IsStep L w (
          with_held w
            (revoke_root root_key w.manager).0
            ((revoke_root root_key w.manager).1 ++ w.held))
  closes :
      (http https : Bool) (w : World)
      → IsStep L w (
          with_held w (close http https w.manager).0.0 ((close http https w.manager).0.1 ++ w.held))
  -- The unmount of a mount that is held works, or fails.
  takes_down :
      (x : ℕ) (w : World)
      → IsStep L w (record w { live = without x w.live; held = without x w.held })
  fails :
      (x : ℕ) (w : World) → IsStep L w (record w { held = without x w.held; failed = x ∷ w.failed })

-- Any number of steps.
pub data IsLater (L : Library) : World → World → Type 0 where
  now : (w : World) → IsLater L w w
  after : (u v w : World) → IsLater L u v → IsStep L v w → IsLater L u w
