-- ===== src/Password/Change/Safe.antt =====
-- A change of the password leaves the old configuration or a whole new one.
use safe_disk.Base.{
  ◌≤◌, Bool, true, false, ◌≡◌, refl, ◌∙◌, Option, none, some, length, Bool-cases, inl, inr,
}
use safe_disk.Base.Strings.{Str, same, is_empty}
use safe_disk.Config.{SharedConfig, ConfigLaws}
use safe_disk.Password.{Primitives, PrimitiveLaws}
use safe_disk.Password.Result.{invalid_password, ok, check, Result-cases}
use safe_disk.Password.Agree.{
  AgreeOn, AgreeOn-trans, store_verifier-AgreeOn, store_envelope-AgreeOn,
}
use safe_disk.Password.Verifier.{
  verifier_version_key, challenge_key, tag_key, challenge_len, calculate_tag, verify_password,
  write_password_verifier, write_password_verifier-ok, store_verifier-ok, verify-stored,
}
use safe_disk.Password.Envelope.{
  envelope_version_key, nonce_key, ciphertext_key, format_version, wrapping_key_length,
  envelope_cipher, unwrap_root_key, root_key_envelope_version, write_root_key_envelope,
  seal_content,
}
use safe_disk.Password.Sealed.{write_root_key_envelope-ok, unwrap_root_key-write}
use safe_disk.Password.Open.{Deriver, DeriverLaws, load_password_wrapping_key}
use safe_disk.Password.Change.{Attempt}

-- crypto/rand fills what it is given.
pub record FillsRandom (P : Primitives) {F : Type 0} (attempt : Attempt F) : Type 0 where
  pub challenge_size : (b : Str) → attempt.challenge ≡ some b → length b ≡ challenge_len
  pub nonce_size : (b : Str) → attempt.nonce ≡ some b → length b ≡ P.nonce_size

-- What the copy holds once both records are written: a key that the new password gives, the verifier
-- of that key, and the content key in its envelope.
pub record IsRewritten (C : SharedConfig) (P : Primitives) (D : Deriver C.State)
    (new content challenge : Str) (t : C.State) : Type 0 where
  pub wrapping : Str
  pub loads : load_password_wrapping_key C P D new t ≡ ok wrapping
  pub not_empty : is_empty wrapping ≡ false
  pub version : root_key_envelope_version C P t ≡ ok (some format_version)
  pub verifies :
      (other : Str)
      → is_empty other ≡ false
      → verify_password C P other t
        ≡ check
            (same (calculate_tag P wrapping challenge) (calculate_tag P other challenge))
            invalid_password
  pub unwraps : unwrap_root_key C P wrapping t ≡ ok content

-- A set of keys that has none of the two records.
pub record LeavesRecords (own : Str → Bool) : Type 0 where
  pub challenge_out : own challenge_key ≡ false
  pub tag_out : own tag_key ≡ false
  pub verifier_out : own verifier_version_key ≡ false
  pub nonce_out : own nonce_key ≡ false
  pub ciphertext_out : own ciphertext_key ≡ false
  pub envelope_out : own envelope_version_key ≡ false

module _ (C : SharedConfig) (P : Primitives) (kept : ConfigLaws C) (laws : PrimitiveLaws P) where
  -- The verifier is still there after the envelope is written.
  verify-records :
      (challenge nonce key other content : Str) (s r t : C.State) (u v : Unit {0})
      → length challenge ≡ challenge_len
      → is_empty other ≡ false
      → write_password_verifier C P (some challenge) key s ≡ (ok u, r)
      → write_root_key_envelope C P (some nonce) key content r ≡ (ok v, t)
      → verify_password C P other t
        ≡ check
            (same (calculate_tag P key challenge) (calculate_tag P other challenge))
            invalid_password
  verify-records challenge nonce key other content s r t u v n o h g =
      let (_, z) = write_password_verifier-ok C P kept challenge key s r u h in
      let (a, b, c) =
        store_verifier-ok C P kept challenge (calculate_tag P key challenge) s r u z in
      let (p, _, y) = write_root_key_envelope-ok C P kept (some nonce) key content r t v g in
      let keep = λ (k : Str). store_envelope-AgreeOn C kept (λ j. same j k) P p.0 p.1 r t v y in
      verify-stored C P laws other challenge (calculate_tag P key challenge) t o
        ((keep verifier_version_key refl refl refl).ints verifier_version_key refl ∙ a)
        ((keep challenge_key refl refl refl).strs challenge_key refl ∙ b)
        ((keep tag_key refl refl refl).strs tag_key refl ∙ c) n (laws.hmac_size key _)

  -- Both records leave other keys as they were.
  pub records-AgreeOn :
      (own : Str → Bool) (challenge nonce key content : Str) (s r t : C.State) (u v : Unit {0})
      → LeavesRecords own
      → write_password_verifier C P (some challenge) key s ≡ (ok u, r)
      → write_root_key_envelope C P (some nonce) key content r ≡ (ok v, t)
      → AgreeOn C own s t
  records-AgreeOn own challenge nonce key content s r t u v x h g =
      let (_, z) = write_password_verifier-ok C P kept challenge key s r u h in
      let (p, _, w) = write_root_key_envelope-ok C P kept (some nonce) key content r t v g in
      AgreeOn-trans C own s r t
        (store_verifier-AgreeOn C kept own P challenge (calculate_tag P key challenge) s r u z
          x.challenge_out x.tag_out x.verifier_out)
        (store_envelope-AgreeOn C kept own P p.0 p.1 r t v w x.nonce_out x.ciphertext_out
          x.envelope_out)

  no_challenge :
      (key : Str) (s t : C.State) (u : Unit {0})
      → ¬ (write_password_verifier C P none key s ≡ (ok u, t))
  no_challenge key s t u h = elim (Bool-cases (is_empty key)) [
    | inl e ↦ let z = rw (e, write_password_verifier) at h in cc
    | inr e ↦ let z = rw (e, write_password_verifier) at h in cc
  ]

  no_nonce :
      (key content : Str) (s t : C.State) (u : Unit {0})
      → ¬ (write_root_key_envelope C P none key content s ≡ (ok u, t))
  no_nonce key content s t u h =
      let (p, e, _) = write_root_key_envelope-ok C P kept none key content s t u h in
      elim (Bool-cases (is_empty content)) [
        | inl a ↦ let z = rw (a, seal_content) at e in cc
        | inr a ↦
            let z = rw (a, seal_content) at e in
            elim (Result-cases (envelope_cipher key)) [
              | inl (gcm, w) ↦ let y = rw w at z in cc
              | inr (x, w) ↦ let y = rw w at z in cc
            ]
      ]

  pub given_bytes :
      (challenge nonce : Option Str) (key content : Str) (s r t : C.State) (u v : Unit {0})
      → write_password_verifier C P challenge key s ≡ (ok u, r)
      → write_root_key_envelope C P nonce key content r ≡ (ok v, t)
      → (c n : Str) × (challenge ≡ some c) × (nonce ≡ some n)
  given_bytes none drawn key content s r t u v h g = absurd (no_challenge key s r u h)
  given_bytes (some c) none key content s r t u v h g = absurd (no_nonce key content r t v g)
  given_bytes (some c) (some n) key content s r t u v h g = (c, n, refl, refl)

  load-made :
      (D : Deriver C.State) (password key : Str) (t : C.State)
      → D.ready t ≡ true
      → D.load_key password t ≡ some (some key)
      → load_password_wrapping_key C P D password t ≡ ok key
  load-made D password key t r l = rw (r, load_password_wrapping_key) (rw l refl)

  module _ (D : Deriver C.State) (derives : DeriverLaws C D) where
    -- The rewritten copy, from the two writes that succeeded.
    pub rewritten :
        (new key content challenge nonce : Str) (s b r t : C.State) (u v : Unit {0})
        → D.new_key new s ≡ (some key, b)
        → length challenge ≡ challenge_len
        → length nonce ≡ P.nonce_size
        → wrapping_key_length ≤ length content
        → write_password_verifier C P (some challenge) key b ≡ (ok u, r)
        → write_root_key_envelope C P (some nonce) key content r ≡ (ok v, t)
        → IsRewritten C P D new content challenge t
    rewritten new key content challenge nonce s b r t u v made lc ln long h g =
        let sec = derives.own_other in
        let leaves : LeavesRecords derives.own = record {
          challenge_out = sec challenge_key refl;
          tag_out = sec tag_key refl;
          verifier_out = sec verifier_version_key refl;
          nonce_out = sec nonce_key refl;
          ciphertext_out = sec ciphertext_key refl;
          envelope_out = sec envelope_version_key refl;
        } in
        let agree = records-AgreeOn derives.own challenge nonce key content b r t u v leaves h g in
        let (ready, loaded) = derives.load-new new key s b made in
        let (version, unwraps) =
          unwrap_root_key-write C P kept laws nonce key content r t v ln long g in
        record {
          wrapping = key;
          loads =
              load-made D new key t (derives.ready_same b t agree ∙ ready)
                (derives.load_same new b t agree ∙ loaded);
          not_empty = (write_password_verifier-ok C P kept challenge key b r u h).0;
          version = version;
          verifies = λ other o. verify-records challenge nonce key other content b r t u v lc o h g;
          unwraps = unwraps;
        }
