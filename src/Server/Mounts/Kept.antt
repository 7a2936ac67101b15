-- ===== src/Server/Mounts/Kept.antt =====
-- Every step keeps every mount accounted for.
use safe_disk.Base.{
  ℕ, Bool, true, false, ◌-◌, ltb, ◌==◌, ==_iff, ◌≡◌, ◌≢◌, refl, ap, sym, ◌∙◌, subst, Option, none,
  some, List, [], ◌∷◌, ◌++◌, ◌⊎◌, inl, inr, Bool-cases, Option-cases,
}
use safe_disk.Base.Strings.{Str}
use safe_disk.GoMap.Laws.{lookup-insert}
use safe_disk.Config.Memory.{str_eq}
use safe_disk.WebDav.{Library}
use safe_disk.WebDav.Digest.{Request}
use safe_disk.Server.Types.{
  Session, PersistentSession, AuthState, ActiveSession, Manager, Result, SaveOutcome,
}
use safe_disk.Server.Auth.{Moment, authenticate}
use safe_disk.Server.Open.{OpenCall, open_with_options, restore_one}
use safe_disk.Server.Open.Outcome.{Outcome, open_with_options-Outcome}
use safe_disk.Server.Open.Added.{IsAdded, restore_one-IsAdded}
use safe_disk.Server.Sessions.{
  find_session, drop_session, revoke_found, revoke, drop_root, mounts_of_root, revoke_root,
  all_mounts, close, add_mount, attach, attach_found, mount_end, is_mount, detach_found,
  unmount_end,
}
use safe_disk.Server.Handle.{
  touched, acquire_found, acquire_authorized, release_found, release_request,
}
use safe_disk.Server.Calls.Absent.{forget-sessions}
use safe_disk.Server.Mounts.{
  World, with_held, has, without, IsFresh, IsStep, opens, restores, acquires, releases, mounts,
  attaches, unmounts, detaches, revokes, revokes_root, closes, takes_down, fails, IsLater, now,
  after,
}
use safe_disk.Server.Mounts.Owned.{
  IsRecorded, IsOwned, AllOwned, has-without, without-has, has-append, has-own, has-add_mount,
  put-IsRecorded, add-IsRecorded, drop-IsRecorded, over-IsRecorded, root-IsRecorded,
  all_mounts-IsRecorded,
}

mount_found : (y : ℕ) (o : Option ℕ) → is_mount y o ≡ true → o ≡ some y
mount_found y none h = cc
mount_found y (some z) h = ap some ((==_iff z y).0 h)

module _ (x : ℕ) where
  -- A step of the manager alone.
  same_held :
      (w : World) (m : Manager)
      → (IsRecorded x w.manager.sessions → IsRecorded x m.sessions)
      → IsOwned x w
      → IsOwned x (record w { manager = m })
  same_held w m f (inl r) = inl (f r)
  same_held w m f (inr o) = inr o

  opened-IsRecorded :
      (c : OpenCall) (m : Manager) (r : Result Session × Manager)
      → Outcome c m r
      → IsFresh c m
      → IsRecorded x m.sessions
      → IsRecorded x r.1.sessions
  opened-IsRecorded c m r (inl (e, q, k)) f h = subst (IsRecorded x) (sym k) h
  opened-IsRecorded c m r (inr v) f h =
      subst (IsRecorded x) (sym v.sessions)
        (add-IsRecorded x v.id _ m.sessions (f v.id v.rest v.named) h)

  restored-IsRecorded :
      (p : PersistentSession) (m n : Manager)
      → IsAdded p m n
      → IsRecorded x m.sessions
      → IsRecorded x n.sessions
  restored-IsRecorded p m n (inl e) h = subst (IsRecorded x) (sym e) h
  restored-IsRecorded p m n (inr (a, free, e)) h =
      subst (IsRecorded x) (sym e) (add-IsRecorded x p.id a m.sessions free h)

  acquired-IsRecorded :
      (L : Library) (j : Str) (t : Moment) (r : Request) (o : Option ActiveSession) (m : Manager)
      → find_session j m ≡ o
      → IsRecorded x m.sessions
      → IsRecorded x (acquire_found L j t r o m).1.sessions
  acquired-IsRecorded L j t r none m e h = h
  acquired-IsRecorded L j t r (some a) m e h =
      let v = authenticate L t r a.auth in
      put-IsRecorded x j a (touched t v.0.1 v.1 a) m.sessions e (touched_mounted v.0.1 v.1) h
    where
      touched_mounted : (b : Bool) (auth : AuthState) → (touched t b auth a).mounted ≡ a.mounted
      touched_mounted true auth = refl
      touched_mounted false auth = refl

  released-IsRecorded :
      (j : Str) (o : Option ActiveSession) (m : Manager)
      → find_session j m ≡ o
      → IsRecorded x m.sessions
      → IsRecorded x (release_found j o m).sessions
  released-IsRecorded j none m e h = h
  released-IsRecorded j (some a) m e h = elim (Bool-cases (ltb 0 a.active_requests)) [
    | inl q ↦ rw q (
        put-IsRecorded x j a (record a { active_requests = a.active_requests - 1 }) m.sessions e
          refl h)
    | inr q ↦ rw q (put-IsRecorded x j a a m.sessions e refl h)
  ]

  -- What `mount_end` does: every mount that was a session's stays one, and the new one is a session's or
  -- given back.
  attached :
      (j : Str) (new : ℕ) (o : Option ActiveSession) (m : Manager)
      → find_session j m ≡ o
      → (IsRecorded x m.sessions → IsRecorded x (attach_found j new o m).1.sessions)
        × (x ≡ new
            → IsRecorded x (attach_found j new o m).1.sessions
              ⊎ ((attach_found j new o m).0.1 ≡ some x))
  attached j new none m e = (λ h. h, λ q. inr (ap some (sym q)))
  attached j new (some a) m e = elim (Option-cases a.mounted) [
    | inr (y, k) ↦ rw (k, attach) (λ h. h, λ q. inr (ap some (sym q)))
    | inl k ↦
        rw (k, attach)
          (
            λ h. elim (drop-IsRecorded x j a m.sessions e h) [
              | inl d ↦ over-IsRecorded x j (record a { mounted = some new }) m.sessions d
              | inr d ↦ let z = sym k ∙ d in cc
            ],
            λ q. inl (
              j,
              record a { mounted = some new },
              lookup-insert str_eq j _ m.sessions,
              ap some (sym q),
            ),
          )
  ]

  -- `unmount_end` forgets no other mount.
  detached :
      (j : Str) (old : ℕ) (o : Option ActiveSession) (m : Manager)
      → find_session j m ≡ o
      → x ≢ old
      → IsRecorded x m.sessions
      → IsRecorded x (detach_found j old o m).sessions
  detached j old none m e n h = h
  detached j old (some a) m e n h = elim (Bool-cases (is_mount old a.mounted)) [
    | inr q ↦ rw q h
    | inl q ↦ rw q (elim (drop-IsRecorded x j a m.sessions e h) [
      | inl d ↦ over-IsRecorded x j (record a { mounted = none }) m.sessions d
      | inr d ↦
          let z : ◌≡◌ {A = Option ℕ} (some old) (some x) = sym (mount_found old a.mounted q) ∙ d in
          absurd (n cc)
    ])
  ]

  -- A session that `Revoke` takes out leaves its mount to be taken down.
  revoked :
      (loads : Bool) (outcome : SaveOutcome) (j : Str) (o : Option ActiveSession) (m : Manager)
      → find_session j m ≡ o
      → IsRecorded x m.sessions
      → IsRecorded x (revoke_found loads outcome j o m).0.sessions
        ⊎ ((revoke_found loads outcome j o m).1 ≡ some x)
  revoked loads outcome j none m e h = inl h
  revoked loads outcome j (some a) m e h = elim (drop-IsRecorded x j a m.sessions e h) [
    | inl d ↦
        inl (subst (IsRecorded x) (sym (forget-sessions loads outcome j a (drop_session j m))) d)
    | inr d ↦ inr d
  ]

  -- A mount of a session that `RevokeRoot` takes out is given to be taken down.
  root_revoked :
      (root_key : Str) (m : Manager)
      → IsRecorded x m.sessions
      → IsRecorded x (drop_root root_key m.sessions)
        ⊎ (has x (mounts_of_root root_key m.sessions) ≡ true)
  root_revoked root_key m (id, a, k, mount) =
      elim (root-IsRecorded x root_key id a m.sessions k mount) [
        | inl q ↦ inl (id, a, q, mount)
        | inr q ↦ inr q
      ]

-- By who owned the mount before.
by_owner :
    (x : ℕ) (v w : World)
    → (IsRecorded x v.manager.sessions → IsOwned x w)
    → (has x v.held ≡ true → IsOwned x w)
    → (has x v.failed ≡ true → IsOwned x w)
    → IsOwned x v
    → IsOwned x w
by_owner x v w f g k (inl r) = f r
by_owner x v w f g k (inr (inl r)) = g r
by_owner x v w f g k (inr (inr r)) = k r

has_head : (x y : ℕ) (ys : List ℕ) → x ≡ y → has x (y ∷ ys) ≡ true
has_head x y ys e = rw ((==_iff x y).1 e) refl

has_tail : (x y : ℕ) (ys : List ℕ) → has x ys ≡ true → has x (y ∷ ys) ≡ true
has_tail x y ys h = has-add_mount x (some y) ys h

has_cases : (x y : ℕ) (ys : List ℕ) → has x (y ∷ ys) ≡ true → (x ≡ y) ⊎ (has x ys ≡ true)
has_cases x y ys h = elim (Bool-cases (x == y)) [
  | inl e ↦ inl ((==_iff x y).0 e)
  | inr e ↦ inr (rw e at h)
]

has-append_left : (x : ℕ) (xs ys : List ℕ) → has x xs ≡ true → has x (xs ++ ys) ≡ true
has-append_left x [] ys h = cc
has-append_left x (z ∷ zs) ys h = elim (Bool-cases (x == z)) [
  | inl e ↦ rw e refl
  | inr e ↦ rw e (has-append_left x zs ys (rw e at h))
]

module _ (L : Library) where
  step-AllOwned : (v w : World) → IsStep L v w → AllOwned v → AllOwned w
  unfolding acquire_authorized release_request mount_end unmount_end revoke revoke_root close
  step-AllOwned v w (opens c u f) h x l =
      let r = open_with_options L c u.manager in
      same_held x u r.1
        (opened-IsRecorded x c u.manager r (open_with_options-Outcome L c u.manager) f) (h x l)
  step-AllOwned v w (restores c p u) h x l =
      let n = (restore_one c p u.manager).1 in
      same_held x u n (restored-IsRecorded x p u.manager n (restore_one-IsAdded c p u.manager))
        (h x l)
  step-AllOwned v w (acquires id t r u) h x l =
      same_held x u (acquire_authorized L id t r u.manager).1
        (acquired-IsRecorded x L id t r (find_session id u.manager) u.manager refl) (h x l)
  step-AllOwned v w (releases id u) h x l =
      same_held x u (release_request id u.manager)
        (released-IsRecorded x id (find_session id u.manager) u.manager refl) (h x l)
  step-AllOwned v w (mounts y u) h x l = elim (has_cases x y u.live l) [
    | inl e ↦ inr (inl (has_head x y u.held e))
    | inr e ↦
        by_owner x u (record u { live = y ∷ u.live; held = y ∷ u.held }) (λ r. inl r)
          (λ r. inr (inl (has_tail x y u.held r))) (λ r. inr (inr r)) (h x e)
  ]
  step-AllOwned v w (attaches id y u) h x l =
      let (keeps, gives) = attached x id y (find_session id u.manager) u.manager refl in
      let r = mount_end id y u.manager in
      let after_step = with_held u r.1 (add_mount r.0.1 (without y u.held)) in
      by_owner x u after_step (λ q. inl (keeps q))
        (λ q. elim (has-without x y u.held q) [
          | inl e ↦ elim (gives e) [
            | inl g ↦ inl g
            | inr g ↦ inr (inl (has-own x r.0.1 (without y u.held) g))
          ]
          | inr e ↦ inr (inl (has-add_mount x r.0.1 (without y u.held) e))
        ])
        (λ q. inr (inr q)) (h x l)
  step-AllOwned v w (unmounts y u) h x l = h x (without-has x y u.live l).1
  step-AllOwned v w (detaches id y u gone) h x l =
      same_held x u (unmount_end id y u.manager)
        (detached x id y (find_session id u.manager) u.manager refl
          (λ q. let z = sym (ap (λ t. has t u.live) q) ∙ l in let z' = sym gone ∙ z in cc))
        (h x l)
  step-AllOwned v w (revokes loads outcome id u) h x l =
      let r = revoke loads outcome id u.manager in
      by_owner x u (with_held u r.0 (add_mount r.1 u.held))
        (λ q. elim (revoked x loads outcome id (find_session id u.manager) u.manager refl q) [
          | inl g ↦ inl g
          | inr g ↦ inr (inl (has-own x r.1 u.held g))
        ])
        (λ q. inr (inl (has-add_mount x r.1 u.held q))) (λ q. inr (inr q)) (h x l)
  step-AllOwned v w (revokes_root root_key u) h x l =
      let ms = mounts_of_root root_key u.manager.sessions in
      by_owner x u (with_held u (revoke_root root_key u.manager).0 (ms ++ u.held))
        (λ q. elim (root_revoked x root_key u.manager q) [
          | inl g ↦ inl g
          | inr g ↦ inr (inl (has-append_left x ms u.held g))
        ])
        (λ q. inr (inl (has-append x ms u.held q))) (λ q. inr (inr q)) (h x l)
  step-AllOwned v w (closes http https u) h x l =
      let ms = all_mounts u.manager.sessions in
      by_owner x u (with_held u (close http https u.manager).0.0 (ms ++ u.held))
        (λ (id, a, k, mount). inr (
          inl (
            has-append_left x ms u.held (all_mounts-IsRecorded x id a u.manager.sessions k mount))))
        (λ q. inr (inl (has-append x ms u.held q))) (λ q. inr (inr q)) (h x l)
  step-AllOwned v w (takes_down y u) h x l =
      let (apart, was) = without-has x y u.live l in
      by_owner x u (record u { live = without y u.live; held = without y u.held }) (λ q. inl q)
        (λ q. elim (has-without x y u.held q) [ inl e ↦ absurd (apart e) | inr e ↦ inr (inl e) ])
        (λ q. inr (inr q)) (h x was)
  step-AllOwned v w (fails y u) h x l =
      by_owner x u (record u { held = without y u.held; failed = y ∷ u.failed }) (λ q. inl q)
        (λ q. elim (has-without x y u.held q) [
          | inl e ↦ inr (inr (has_head x y u.failed e))
          | inr e ↦ inr (inl e)
        ])
        (λ q. inr (inr (has_tail x y u.failed q))) (h x l)

  -- Whatever opens of fresh ids, restorations, requests, revocations, mounts and unmounts
  -- interleave, where Mount and Unmount let go of the lock while the system works and Unmount
  -- ends with a mount that is gone: if before every mount of the system is that of a session, or
  -- held by a method that will attach it or take it down, or one whose unmount failed with its
  -- error dropped, so it is behind.
  pub IsLater-AllOwned : (v w : World) → IsLater L v w → AllOwned v → AllOwned w
  IsLater-AllOwned v w (now u) h = h
  IsLater-AllOwned v w (after u t n l s) h = step-AllOwned t n s (IsLater-AllOwned u t l h)
