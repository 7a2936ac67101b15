-- ===== src/Server/Open/Restored.antt =====
-- What `restorePersistent` makes of the record of a session.
use safe_disk.Base.{
  ℕ, suc, Bool, true, false, ◌||◌, ◌&&◌, ◌==◌, ==_iff, ◌≡◌, refl, ap, sym, ◌∙◌, subst, Option, none,
  some, [], ◌∷◌, inl, inr, Bool-cases, Option-cases, if◌then◌else◌, length, arith,
}
use safe_disk.Base.Strings.{Str, same, is_empty, all_chars, and_true}
use safe_disk.Server.Types.{PersistentSession, AuthState, ActiveSession}
use safe_disk.Server.Auth.{
  bearer, digest_mode, basic, Reader, read_full, in_hex, new_value, bearer_auth, digest_auth,
  basic_auth, new_bearer, new_digest, new_basic, new_auth, digest_from, ◌>>=◌, auth_from_persistent,
}
use safe_disk.Server.Auth.Hex.{encode_hex, is_byte, decode_hex-encode}
use safe_disk.Server.Records.{persistent_record, digest_key_of}

-- The reader gives bytes.
abbrev pub are_bytes : Reader → Bool
are_bytes [] = true
are_bytes (none ∷ rest) = are_bytes rest
are_bytes (some b ∷ rest) = all_chars is_byte b && are_bytes rest

-- A read that works gives as many bytes as asked for.
read_full-some :
    (n : ℕ) (r : Reader) (b : Str) (rest : Reader)
    → read_full n r ≡ some (b, rest)
    → are_bytes r ≡ true
    → (length b ≡ n) × (all_chars is_byte b ≡ true) × (are_bytes rest ≡ true)
read_full-some n [] b rest h g = cc
read_full-some n (none ∷ r) b rest h g = cc
read_full-some n (some c ∷ r) b rest h g = elim (Bool-cases (length c == n)) [
  | inl e ↦
      let z : ◌≡◌ {A = Option (Str × Reader)} (some (c, r)) (some (b, rest)) = rw e at h in
      let p : c ≡ b = cc in
      let q : r ≡ rest = cc in
      let (bytes, more) = and_true (all_chars is_byte c) (are_bytes r) g in
      (
        ap length (sym p) ∙ (==_iff (length c) n).0 e,
        ap (all_chars is_byte) (sym p) ∙ bytes,
        ap are_bytes (sym q) ∙ more,
      )
  | inr e ↦ let z = rw e at h in cc
]

pub new_value-some :
    (n : ℕ) (r : Reader) (v : Str) (rest : Reader)
    → new_value (suc n) r ≡ some (v, rest)
    → are_bytes r ≡ true
    → (is_empty v ≡ false) × (are_bytes rest ≡ true)
new_value-some n r v rest h g = elim (Option-cases (read_full (suc n) r)) [
  | inl e ↦ let z = rw (e, in_hex) at h in cc
  | inr ((b, more), e) ↦
      let z : ◌≡◌ {A = Option (Str × Reader)} (some (encode_hex b, more)) (some (v, rest)) =
        rw (e, in_hex) at h in
      let (size, bytes, good) = read_full-some (suc n) r b more e g in
      let p : encode_hex b ≡ v = cc in
      let q : more ≡ rest = cc in (ap is_empty (sym p) ∙ full b n size, ap are_bytes (sym q) ∙ good)
]
  where
    full : (b : Str) (n : ℕ) → length b ≡ suc n → is_empty (encode_hex b) ≡ false
    full [] n h = absurd (omega arith)
    full (x ∷ xs) n h = refl

-- Credentials as `newAuthLocked` makes them.
pub data IsMade : AuthState → Type 0 where
  made_bearer : (token : Str) → is_empty token ≡ false → IsMade (bearer_auth token)
  made_digest :
      (username password realm key : Str)
      → is_empty username ≡ false
      → is_empty password ≡ false
      → is_empty realm ≡ false
      → length key ≡ 32
      → all_chars is_byte key ≡ true
      → IsMade (digest_auth username password realm key)
  made_basic :
      (username password : Str)
      → is_empty username ≡ false
      → is_empty password ≡ false
      → IsMade (basic_auth username password)

auth_made : (a b : AuthState) → ◌≡◌ {A = Option AuthState} (some a) (some b) → a ≡ b
auth_made a b h = cc

bind-some :
    {A B : Type 0} (m : Option A) (next : A → Option B) (b : B)
    → (m >>= next) ≡ some b
    → (a : A) × (m ≡ some a) × (next a ≡ some b)
bind-some none next b h = cc
bind-some (some a) next b h = (a, refl, h)

new_bearer-IsMade :
    (r : Reader) (a : AuthState) → are_bytes r ≡ true → new_bearer r ≡ some a → IsMade a
new_bearer-IsMade r a g h =
    let ((t, rest), e, k) = bind-some (new_value 32 r) _ a h in
    subst IsMade (auth_made (bearer_auth t) a k) (made_bearer t (new_value-some 31 r t rest e g).0)

new_digest-IsMade :
    (r : Reader) (a : AuthState) → are_bytes r ≡ true → new_digest r ≡ some a → IsMade a
new_digest-IsMade r a g h =
    let ((user, r1), e1, k1) = bind-some (new_value 12 r) _ a h in
    let ((pass, r2), e2, k2) = bind-some (new_value 24 r1) _ a k1 in
    let ((realm, r3), e3, k3) = bind-some (new_value 12 r2) _ a k2 in
    let ((key, rest), e4, k4) = bind-some (read_full 32 r3) _ a k3 in
    let (n1, g1) = new_value-some 11 r user r1 e1 g in
    let (n2, g2) = new_value-some 23 r1 pass r2 e2 g1 in
    let (n3, g3) = new_value-some 11 r2 realm r3 e3 g2 in
    let (size, bytes, _) = read_full-some 32 r3 key rest e4 g3 in
    subst IsMade (auth_made (digest_auth user pass realm key) a k4)
      (made_digest user pass realm key n1 n2 n3 size bytes)

new_basic-IsMade :
    (r : Reader) (a : AuthState) → are_bytes r ≡ true → new_basic r ≡ some a → IsMade a
new_basic-IsMade r a g h =
    let ((user, r1), e1, k1) = bind-some (new_value 12 r) _ a h in
    let ((pass, rest), e2, k2) = bind-some (new_value 32 r1) _ a k1 in
    let (n1, g1) = new_value-some 11 r user r1 e1 g in
    let (n2, g2) = new_value-some 31 r1 pass rest e2 g1 in
    subst IsMade (auth_made (basic_auth user pass) a k2) (made_basic user pass n1 n2)

pub new_auth-IsMade :
    (mode : Str) (r : Reader) (a : AuthState)
    → are_bytes r ≡ true
    → new_auth mode r ≡ some a
    → IsMade a
unfolding new_auth
new_auth-IsMade mode r a g h = elim (Bool-cases (is_empty mode || same mode bearer)) [
  | inl e ↦ new_bearer-IsMade r a g (rw (e, new_auth) at h)
  | inr e ↦ elim (Bool-cases (same mode digest_mode)) [
    | inl d ↦ new_digest-IsMade r a g (rw (e, d, new_auth) at h)
    | inr d ↦ elim (Bool-cases (same mode basic)) [
      | inl b ↦ new_basic-IsMade r a g (rw (e, d, b, new_auth) at h)
      | inr b ↦ let z = rw (e, d, b, new_auth) at h in cc
    ]
  ]
]

full_hex : (key : Str) → length key ≡ 32 → is_empty (encode_hex key) ≡ false
full_hex [] h = absurd (omega arith)
full_hex (x ∷ xs) h = refl

-- The record of an active session whose credentials are the session's, as `OpenWithOptions` makes it.
abbrev pub Owns : ActiveSession → Type 0
Owns a =
    (a.session.token ≡ a.auth.token)
    × (a.session.auth_mode ≡ a.auth.mode)
    × (a.session.username ≡ a.auth.username)
    × (a.session.password ≡ a.auth.password)
    × (a.session.realm ≡ a.auth.realm)

-- A record with the fields of some credentials gives those credentials.
abbrev Holds : PersistentSession → AuthState → Type 0
Holds p a =
    (p.token ≡ a.token)
    × (p.auth_mode ≡ a.mode)
    × (p.username ≡ a.username)
    × (p.password ≡ a.password)
    × (p.realm ≡ a.realm)
    × (p.digest_key ≡ digest_key_of a.digest)
    × (p.basic_auth_username ≡ (if same a.mode basic then a.basic_username else []))
    × (p.basic_auth_password ≡ (if same a.mode basic then a.basic_password else []))

held_auth :
    (p : PersistentSession) (a : AuthState) → IsMade a → Holds p a → auth_from_persistent p ≡ some a
unfolding auth_from_persistent
held_auth p a (made_bearer token n) (t, m, _, _, _, _, _, _) = rw (m, t) (rw n refl)
held_auth p a (made_digest user pass realm key n1 n2 n3 size bytes) (_, m, u, w, r, k, _, _) =
    rw (m, u, w, r, k)
      (rw (n1, n2, n3, full_hex key size)
        (rw (decode_hex-encode key bytes, digest_from) (rw ((==_iff (length key) 32).1 size) refl)))
held_auth p a (made_basic user pass n1 n2) (_, m, _, _, _, _, u, w) =
    rw (m, u, w) (rw (n1, n2) refl)

pub auth_from_persistent-record :
    (a : ActiveSession)
    → IsMade a.auth
    → Owns a
    → auth_from_persistent (persistent_record a) ≡ some a.auth
auth_from_persistent-record a made (t, m, u, w, r) =
    held_auth (persistent_record a) a.auth made (t, m, u, w, r, refl, refl, refl)
