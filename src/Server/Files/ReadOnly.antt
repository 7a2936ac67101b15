-- ===== src/Server/Files/ReadOnly.antt =====
-- The write policy of a session: what the sessions that `OpenWithOptions` makes are let do.
use safe_disk.Base.{
  false, ◌≡◌, refl, ap, sym, ◌∙◌, Option, some, List, [], ◌∷◌, inl, inr, if◌then◌else◌,
}
use safe_disk.Base.Strings.{Str, same}
use safe_disk.GoMap.{lookup}
use safe_disk.GoMap.Laws.{lookup-insert}
use safe_disk.Config.Memory.{str_eq}
use safe_disk.WebDav.{Library}
use safe_disk.WebDav.Options.{OpenOptions, normalize_open_options}
use safe_disk.Server.Types.{Session, ActiveSession, Manager, read_only_policy, Result, ok}
use safe_disk.Server.Open.{OpenCall, new_session, new_active_session, open_with_options}
use safe_disk.Server.Open.Outcome.{IsOpened, open_with_options-Outcome}
use safe_disk.Server.Sessions.{find_session}
use safe_disk.Server.Handle.{
  Reply, served, forbidden, answer, write_methods, method_allow_read_only,
}
use safe_disk.Server.Files.{is_guarded}

abbrev pub AllOf : (Str → Type 0) → List Str → Type 0
AllOf P [] = Unit
AllOf P (x ∷ xs) = P x × AllOf P xs

-- What PUT, DELETE, MKCOL and MOVE are answered with.
abbrev answer_write : ActiveSession → Reply
answer_write a =
    if same a.session.write_policy read_only_policy
    then forbidden method_allow_read_only
    else served a.files

-- Each of the four goes the same way.
answer-write :
    (a : ActiveSession) → AllOf (λ method. answer method a ≡ answer_write a) write_methods
answer-write a = (refl, (refl, (refl, (refl, tt))))

-- A session that is found, writes through whose methods go to its handler, and whose files are not
-- guarded.
abbrev pub Accepts : Session → Manager → Type 0
Accepts s m =
    (a : ActiveSession) × (find_session s.id m ≡ some a)
    × (a.session ≡ s)
    × AllOf (λ method. answer method a ≡ served a.files) write_methods
    × (is_guarded a.files ≡ false)

session_of : (s t : Session) → ◌≡◌ {A = Result Session} (ok s) (ok t) → s ≡ t
session_of s t h = cc

opened-Accepts :
    (c : OpenCall) (o : OpenOptions) (m : Manager) (s : Session) (r : Result Session × Manager)
    → normalize_open_options c.options ≡ some o
    → r.0 ≡ ok s
    → IsOpened c m r
    → (s.read_only ≡ same o.write_policy read_only_policy) × Accepts s r.1
opened-Accepts c o m s r n h v =
    let made = new_session c v.options v.path v.listener v.id v.auth in
    let a = new_active_session made v.auth v.provider in
    let q : made ≡ s = session_of made s (sym v.result ∙ h) in
    let p : ◌≡◌ {A = Option OpenOptions} (some v.options) (some o) = sym v.normalized ∙ n in
    let same_options : v.options ≡ o = cc in
    (
      ap (λ t. t.read_only) (sym q) ∙ ap (λ x. same x.write_policy read_only_policy) same_options,
      (
        a,
        ap (λ i. find_session i r.1) (ap (λ t. t.id) (sym q))
            ∙ ap (λ xs. lookup str_eq v.id xs) v.sessions
            ∙ lookup-insert str_eq v.id a m.sessions,
        q,
        answer-write a,
        refl,
      ),
    )

-- A session that OpenWithOptions has made reports as read-only whether its write policy, with
-- its default, is readOnly, and whatever that policy is: PUT, DELETE, MKCOL and MOVE go to its
-- handler, whose file system is not guarded.
pub open_with_options-Accepts :
    (L : Library) (c : OpenCall) (o : OpenOptions) (m : Manager) (s : Session)
    → normalize_open_options c.options ≡ some o
    → (open_with_options L c m).0 ≡ ok s
    → (s.read_only ≡ same o.write_policy read_only_policy) × Accepts s (open_with_options L c m).1
open_with_options-Accepts L c o m s n h = elim (open_with_options-Outcome L c m) [
  | inl (e, q, k) ↦ let z = sym q ∙ h in cc
  | inr v ↦ opened-Accepts c o m s (open_with_options L c m) n h v
]
