-- ===== src/Password/Verifier.antt =====
-- The verifier of a password: a random challenge and its MAC under the derived key, with a version that
-- is written last.
use safe_disk.Base.{
  ℕ, false, not, ◌==◌, ==_iff, ◌≡◌, ◌≢◌, refl, ap, sym, ◌∙◌, Option, none, some, [], ◌∷◌, ◌++◌,
  length, Bool-cases, Option-cases, inl, inr,
}
use safe_disk.Base.Int.{ℤ, pos, same_int}
use safe_disk.Base.Strings.{Str, codes, same, same-apart, is_empty}
use safe_disk.Config.{SetError, SharedConfig, ConfigLaws}
use safe_disk.Password.{Primitives, PrimitiveLaws}
use safe_disk.Password.Result.{
  PasswordError, config_required, no_random, verifier_missing, invalid_password,
  unsupported_version, incomplete, malformed, bad_length, not_stored, Result, ok, err, ◌>>=◌, ◌>>◌,
  check, need,
}
use safe_disk.Password.Writer.{
  Writer, ◌>>-◌, resume, set-ok, set-err, last_set-ok, last_set-err, store_str, store_int,
}

abbrev pub verifier_version_key : Str
verifier_version_key = codes "sec_password_verifier_version"

abbrev pub challenge_key : Str
challenge_key = codes "sec_password_verifier_challenge"

abbrev pub tag_key : Str
tag_key = codes "sec_password_verifier_tag"

abbrev pub verifier_version : ℤ
verifier_version = pos 1

abbrev pub challenge_len : ℕ
challenge_len = 32

abbrev pub tag_len : ℕ
tag_len = 32

abbrev pub verifier_domain : Str
verifier_domain = codes "safe-disk/password-verifier/v1" ++ 0 ∷ []

-- `calculatePasswordVerifierTag`
abbrev pub calculate_tag : Primitives → Str → Str → Str
calculate_tag P key challenge = P.hmac key (verifier_domain ++ challenge)

module _ (C : SharedConfig) (P : Primitives) where
  -- The sets of `writePasswordVerifier`, in their order.
  abbrev pub store_tag : Str → Writer C.State (Unit {0})
  store_tag tag =
      store_str C tag_key (P.encode tag) >>- λ _. store_int C verifier_version_key verifier_version

  abbrev pub store_verifier : Str → Str → Writer C.State (Unit {0})
  store_verifier challenge tag =
      store_str C challenge_key (P.encode challenge) >>- λ _. store_tag tag

  -- `writePasswordVerifier`, with what `rand.Read` gives.
  abbrev pub write_password_verifier : Option Str → Str → Writer C.State (Unit {0})
  write_password_verifier random key s =
      resume (do check (not (is_empty key)) config_required; need random no_random) s
        λ challenge. store_verifier challenge (calculate_tag P key challenge)

  -- `readPasswordVerifierBytes`
  abbrev pub read_verifier_bytes : Str → ℕ → C.State → Result Str
  read_verifier_bytes key required_len s = do
    encoded ← need (C.get_str key s) (incomplete key)
    decoded ← need (P.decode encoded) (malformed key)
    check (length decoded == required_len) (bad_length key (length decoded))
    ok decoded

  -- `verifyPassword`
  abbrev pub verify_password : Str → C.State → Result (Unit {0})
  verify_password key s = do
    check (not (is_empty key)) config_required
    version ← need (C.get_int verifier_version_key s) verifier_missing
    check (same_int version verifier_version) (unsupported_version verifier_version_key version)
    challenge ← read_verifier_bytes challenge_key challenge_len s
    stored ← read_verifier_bytes tag_key tag_len s
    check (same stored (calculate_tag P key challenge)) invalid_password

-- What a complete record reads as.
module _ (C : SharedConfig) (P : Primitives) (laws : PrimitiveLaws P) where
  read-stored :
      (key value : Str) (n : ℕ) (s : C.State)
      → C.get_str key s ≡ some (P.encode value)
      → length value ≡ n
      → read_verifier_bytes C P key n s ≡ ok value
  read-stored key value n s h len =
      rw (h, read_verifier_bytes)
        (rw (laws.decode-encode value, (==_iff (length value) n).1 len) refl)

  pub verify-stored :
      (key challenge tag : Str) (s : C.State)
      → is_empty key ≡ false
      → C.get_int verifier_version_key s ≡ some verifier_version
      → C.get_str challenge_key s ≡ some (P.encode challenge)
      → C.get_str tag_key s ≡ some (P.encode tag)
      → length challenge ≡ challenge_len
      → length tag ≡ tag_len
      → verify_password C P key s
        ≡ check (same tag (calculate_tag P key challenge)) invalid_password
  verify-stored key challenge tag s e v c t lc lt =
      rw (e, verify_password)
        (rw v (
          rw (read-stored challenge_key challenge challenge_len s c lc)
            (rw (read-stored tag_key tag tag_len s t lt) refl)))

challenge_apart : challenge_key ≢ tag_key
challenge_apart = same-apart challenge_key tag_key refl

module _ (C : SharedConfig) (P : Primitives) (kept : ConfigLaws C) where
  -- What the sets leave in the store, if none of them fails.
  pub store_verifier-ok :
      (challenge tag : Str) (s t : C.State) (u : Unit {0})
      → store_verifier C P challenge tag s ≡ (ok u, t)
      → (C.get_int verifier_version_key t ≡ some verifier_version)
        × (C.get_str challenge_key t ≡ some (P.encode challenge))
        × (C.get_str tag_key t ≡ some (P.encode tag))
  store_verifier-ok challenge tag s t u h =
      let one = C.set_str challenge_key (P.encode challenge) s in
      let two = C.set_str tag_key (P.encode tag) one.1 in
      let three = C.set_int verifier_version_key verifier_version two.1 in
      let (_, h1) = set-ok challenge_key one.0 one.1 t (store_tag C P tag) u h in
      let (_, h2) =
        set-ok tag_key two.0 two.1 t (store_int C verifier_version_key verifier_version) u h1 in
      let (_, e) = last_set-ok verifier_version_key three.0 three.1 t u h2 in
      (
        ap (C.get_int verifier_version_key) (sym e)
            ∙ kept.int_same verifier_version_key verifier_version two.1,
        ap (C.get_str challenge_key) (sym e)
            ∙ kept.int_str challenge_key verifier_version_key verifier_version two.1
            ∙ kept.str_other challenge_key tag_key (P.encode tag) one.1 challenge_apart
            ∙ kept.str_same challenge_key (P.encode challenge) s,
        ap (C.get_str tag_key) (sym e)
            ∙ kept.int_str tag_key verifier_version_key verifier_version two.1
            ∙ kept.str_same tag_key (P.encode tag) one.1,
      )

  -- Until the version is set, no integer of the store has changed.
  store_verifier-version :
      (challenge tag : Str) (s t : C.State) (e : PasswordError)
      → store_verifier C P challenge tag s ≡ (err e, t)
      → ((x : SetError) → e ≢ not_stored verifier_version_key x)
      → C.get_int verifier_version_key t ≡ C.get_int verifier_version_key s
  store_verifier-version challenge tag s t e h other =
      let one = C.set_str challenge_key (P.encode challenge) s in
      let two = C.set_str tag_key (P.encode tag) one.1 in
      let three = C.set_int verifier_version_key verifier_version two.1 in
      let int_one = kept.str_int verifier_version_key challenge_key (P.encode challenge) s in
      let int_two = kept.str_int verifier_version_key tag_key (P.encode tag) one.1 in
      elim (set-err challenge_key one.0 one.1 t (store_tag C P tag) e h) [
        | inl a ↦ ap (C.get_int verifier_version_key) a ∙ int_one
        | inr h1 ↦
            elim (set-err tag_key two.0 two.1 t (store_int C verifier_version_key verifier_version)
              e h1) [
                | inl a ↦ ap (C.get_int verifier_version_key) a ∙ int_two ∙ int_one
                | inr h2 ↦
                    let (x, q) = last_set-err verifier_version_key three.0 three.1 t e h2 in
                    absurd (other x q)
              ]
      ]

  pub write_password_verifier-ok :
      (challenge key : Str) (s t : C.State) (u : Unit {0})
      → write_password_verifier C P (some challenge) key s ≡ (ok u, t)
      → (is_empty key ≡ false)
        × (store_verifier C P challenge (calculate_tag P key challenge) s ≡ (ok u, t))
  write_password_verifier-ok challenge key s t u h = elim (Bool-cases (is_empty key)) [
    | inl e ↦ let z = rw (e, write_password_verifier) at h in cc
    | inr e ↦ (e, rw (e, write_password_verifier) at h)
  ]

  verify-missing :
      (key : Str) (s : C.State)
      → is_empty key ≡ false
      → C.get_int verifier_version_key s ≡ none
      → verify_password C P key s ≡ err verifier_missing
  verify-missing key s e v = rw (e, verify_password) (rw v refl)

  -- Where `writePasswordVerifier` has ended without an error on a challenge of 32 bytes,
  -- `verifyPassword` accepts a key that is not empty if its tag of the challenge is that of the
  -- key written, and else reports a wrong password.
  pub verify_password-write :
      (laws : PrimitiveLaws P) (challenge key other : Str) (s t : C.State) (u : Unit {0})
      → length challenge ≡ challenge_len
      → is_empty other ≡ false
      → write_password_verifier C P (some challenge) key s ≡ (ok u, t)
      → verify_password C P other t
        ≡ check
            (same (calculate_tag P key challenge) (calculate_tag P other challenge))
            invalid_password
  verify_password-write laws challenge key other s t u n o h =
      let (_, z) = write_password_verifier-ok challenge key s t u h in
      let (v, c, g) = store_verifier-ok challenge (calculate_tag P key challenge) s t u z in
      verify-stored C P laws other challenge (calculate_tag P key challenge) t o v c g n
        (laws.hmac_size key (verifier_domain ++ challenge))

  -- A `writePasswordVerifier` that fails, before the version is set, on a store without a
  -- verifier leaves a store that `verifyPassword` reports to have none.
  pub write_password_verifier-incomplete :
      (random : Option Str) (key other : Str) (s t : C.State) (e : PasswordError)
      → is_empty other ≡ false
      → C.get_int verifier_version_key s ≡ none
      → write_password_verifier C P random key s ≡ (err e, t)
      → ((x : SetError) → e ≢ not_stored verifier_version_key x)
      → verify_password C P other t ≡ err verifier_missing
  write_password_verifier-incomplete random key other s t e o fresh h apart =
      elim (Bool-cases (is_empty key)) [
        | inl a ↦
            let z = rw (a, write_password_verifier) at h in
            verify-missing other t o
              (ap (C.get_int verifier_version_key) (sym (ap (λ p. p.1) z)) ∙ fresh)
        | inr a ↦
            let z = rw (a, write_password_verifier) at h in
            elim (Option-cases random) [
              | inl r ↦
                  let y = rw r at z in
                  verify-missing other t o
                    (ap (C.get_int verifier_version_key) (sym (ap (λ p. p.1) y)) ∙ fresh)
              | inr (challenge, r) ↦
                  let y = rw r at z in
                  verify-missing other t o (
                    store_verifier-version challenge (calculate_tag P key challenge) s t e y apart
                    ∙ fresh)
            ]
      ]
