-- ===== src/Password/Sealed.antt =====
-- What `writeRootKeyEnvelope` leaves in a store, whether it ends or stops before the version.
use safe_disk.Base.{◌≤◌, ◌≡◌, ◌≢◌, refl, ap, sym, ◌∙◌, Option, some, length, Bool-cases, inl, inr}
use safe_disk.Base.Strings.{Str, is_empty}
use safe_disk.Config.{SetError, SharedConfig, ConfigLaws}
use safe_disk.Password.{Primitives, PrimitiveLaws}
use safe_disk.Password.Result.{PasswordError, not_stored, ok, err, Result-cases, ok-injective}
use safe_disk.Password.Writer.{resume, set-ok, set-err, last_set-ok, last_set-err, store_int}
use safe_disk.Password.Envelope.{
  envelope_version_key, nonce_key, ciphertext_key, format_version, envelope_domain,
  wrapping_key_length, envelope_cipher, store_ciphertext, store_envelope, seal_content,
  write_root_key_envelope, unwrap_root_key, version_of, root_key_envelope_version, unwrap-stored,
  nonce_apart, version_apart_nonce, version_apart_ciphertext,
}

module _ (C : SharedConfig) (P : Primitives) (kept : ConfigLaws C) where
  pub store_envelope-ok :
      (nonce sealed : Str) (s t : C.State) (u : Unit {0})
      → store_envelope C P nonce sealed s ≡ (ok u, t)
      → (C.get_int envelope_version_key t ≡ some format_version)
        × (C.get_str nonce_key t ≡ some (P.encode_raw nonce))
        × (C.get_str ciphertext_key t ≡ some (P.encode_raw sealed))
  store_envelope-ok nonce sealed s t u h =
      let one = C.set_str nonce_key (P.encode_raw nonce) s in
      let two = C.set_str ciphertext_key (P.encode_raw sealed) one.1 in
      let three = C.set_int envelope_version_key format_version two.1 in
      let (_, h1) = set-ok nonce_key one.0 one.1 t (store_ciphertext C P sealed) u h in
      let (_, h2) =
        set-ok ciphertext_key two.0 two.1 t (store_int C envelope_version_key format_version) u
          h1 in
      let (_, e) = last_set-ok envelope_version_key three.0 three.1 t u h2 in
      (
        ap (C.get_int envelope_version_key) (sym e)
            ∙ kept.int_same envelope_version_key format_version two.1,
        ap (C.get_str nonce_key) (sym e)
            ∙ kept.int_str nonce_key envelope_version_key format_version two.1
            ∙ kept.str_other nonce_key ciphertext_key (P.encode_raw sealed) one.1 nonce_apart
            ∙ kept.str_same nonce_key (P.encode_raw nonce) s,
        ap (C.get_str ciphertext_key) (sym e)
            ∙ kept.int_str ciphertext_key envelope_version_key format_version two.1
            ∙ kept.str_same ciphertext_key (P.encode_raw sealed) one.1,
      )

  -- The bytes that a seal stores.
  pub seal_content-ok :
      (nonce wrapping content : Str) (p : Str × Str)
      → seal_content C P (some nonce) wrapping content ≡ ok p
      → (gcm : Str) × (envelope_cipher wrapping ≡ ok gcm)
        × (p ≡ (nonce, P.seal gcm nonce content envelope_domain))
  seal_content-ok nonce wrapping content p h = elim (Bool-cases (is_empty content)) [
    | inl e ↦ let z = rw (e, seal_content) at h in cc
    | inr e ↦
        let z = rw (e, seal_content) at h in
        elim (Result-cases (envelope_cipher wrapping)) [
          | inl (gcm, w) ↦
              let y = rw w at z in
              (gcm, w, sym (ok-injective (nonce, P.seal gcm nonce content envelope_domain) p y))
          | inr (x, w) ↦ let y = rw w at z in cc
        ]
  ]

  pub version-read :
      (s : C.State)
      → C.get_int envelope_version_key s ≡ some format_version
      → root_key_envelope_version C P s ≡ ok (some format_version)
  version-read s h = rw (h, version_of) refl

  pub write_root_key_envelope-ok :
      (random : Option Str) (wrapping content : Str) (s t : C.State) (u : Unit {0})
      → write_root_key_envelope C P random wrapping content s ≡ (ok u, t)
      → (p : Str × Str) × (seal_content C P random wrapping content ≡ ok p)
        × (store_envelope C P p.0 p.1 s ≡ (ok u, t))
  write_root_key_envelope-ok random wrapping content s t u h =
      elim (Result-cases (seal_content C P random wrapping content)) [
        | inr (x, e) ↦ let z = rw (e, write_root_key_envelope, resume) at h in cc
        | inl (p, e) ↦ (p, e, rw (e, write_root_key_envelope, resume) at h)
      ]

  -- Where `writeRootKeyEnvelope` has ended without an error, for a nonce of the right size and a
  -- content key of 32 bytes at least, the version of the envelope is there and `unwrapRootKey`
  -- with the same wrapping key gives the content key.
  pub unwrap_root_key-write :
      (laws : PrimitiveLaws P) (nonce wrapping content : Str) (s t : C.State) (u : Unit {0})
      → length nonce ≡ P.nonce_size
      → wrapping_key_length ≤ length content
      → write_root_key_envelope C P (some nonce) wrapping content s ≡ (ok u, t)
      → (root_key_envelope_version C P t ≡ ok (some format_version))
        × (unwrap_root_key C P wrapping t ≡ ok content)
  unwrap_root_key-write laws nonce wrapping content s t u ln lc h =
      let (p, e, z) = write_root_key_envelope-ok (some nonce) wrapping content s t u h in
      let (gcm, w, q) = seal_content-ok nonce wrapping content p e in
      let (v, n, c) = store_envelope-ok p.0 p.1 s t u z in
      (
        version-read t v,
        unwrap-stored C P laws wrapping gcm nonce content t w
            (n ∙ ap (λ r. some (P.encode_raw r.0)) q) (c ∙ ap (λ r. some (P.encode_raw r.1)) q) ln
            lc,
      )

  -- A step that sets no key of the version keeps what the version reads as.
  version-same :
      (s t : C.State)
      → C.get_int envelope_version_key t ≡ C.get_int envelope_version_key s
      → C.get_str envelope_version_key t ≡ C.get_str envelope_version_key s
      → C.get_bool envelope_version_key t ≡ C.get_bool envelope_version_key s
      → root_key_envelope_version C P t ≡ root_key_envelope_version C P s
  version-same s t i r b =
      ap (λ x. version_of x (C.get_str envelope_version_key t) (C.get_bool envelope_version_key t))
        i
      ∙ ap
          (λ x. version_of (C.get_int envelope_version_key s) x (C.get_bool envelope_version_key t))
          r
      ∙ ap (λ x. version_of (C.get_int envelope_version_key s) (C.get_str envelope_version_key s) x)
          b

  version-set :
      (key v : Str) (s : C.State)
      → envelope_version_key ≢ key
      → root_key_envelope_version C P (C.set_str key v s).1 ≡ root_key_envelope_version C P s
  version-set key v s apart =
      version-same s (C.set_str key v s).1 (kept.str_int envelope_version_key key v s)
        (kept.str_other envelope_version_key key v s apart)
        (kept.str_bool envelope_version_key key v s)

  -- An envelope whose write fails before the version is set leaves the version as it was.
  pub write_root_key_envelope-incomplete :
      (random : Option Str) (wrapping content : Str) (s t : C.State) (e : PasswordError)
      → write_root_key_envelope C P random wrapping content s ≡ (err e, t)
      → ((x : SetError) → e ≢ not_stored envelope_version_key x)
      → root_key_envelope_version C P t ≡ root_key_envelope_version C P s
  write_root_key_envelope-incomplete random wrapping content s t e h other =
      elim (Result-cases (seal_content C P random wrapping content)) [
        | inr (x, a) ↦
            let z = rw (a, write_root_key_envelope, resume) at h in
            ap (root_key_envelope_version C P) (sym (ap (λ p. p.1) z))
        | inl (p, a) ↦
            let z = rw (a, write_root_key_envelope, resume) at h in
            let one = C.set_str nonce_key (P.encode_raw p.0) s in
            let two = C.set_str ciphertext_key (P.encode_raw p.1) one.1 in
            let three = C.set_int envelope_version_key format_version two.1 in
            let same_one = version-set nonce_key (P.encode_raw p.0) s version_apart_nonce in
            let same_two =
              version-set ciphertext_key (P.encode_raw p.1) one.1 version_apart_ciphertext in
            elim (set-err nonce_key one.0 one.1 t (store_ciphertext C P p.1) e z) [
              | inl b ↦ ap (root_key_envelope_version C P) b ∙ same_one
              | inr y ↦
                  elim (set-err ciphertext_key two.0 two.1 t
                    (store_int C envelope_version_key format_version) e y) [
                      | inl b ↦ ap (root_key_envelope_version C P) b ∙ same_two ∙ same_one
                      | inr w ↦
                          let (x, q) = last_set-err envelope_version_key three.0 three.1 t e w in
                          absurd (other x q)
                    ]
            ]
      ]
