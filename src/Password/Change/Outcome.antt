-- ===== src/Password/Change/Outcome.antt =====
-- What a change of the password comes to, however it ends.
use safe_disk.Base.{
  ◌≤◌, true, not, ltb, ◌||◌, ◌==◌, ◌≡◌, refl, ap, ◌∙◌, subst, some, length, Bool-cases,
  Option-cases, inl, inr, arith,
}
use safe_disk.Base.Int.{same_int, same_int-eq}
use safe_disk.Base.Strings.{Str, codes, same, is_empty, starts_with}
use safe_disk.Config.{SharedConfig, ConfigLaws}
use safe_disk.Password.{Primitives, PrimitiveLaws}
use safe_disk.Password.Result.{
  invalid_path, passwords_required, not_locked, not_loaded, change_unsupported, unsupported_version,
  not_staged, bad_nonce, envelope_refused, content_key_too_short, bad_factories, ok-injective, ◌>>◌,
  ok, and_then-ok, check, check-ok, need, need-ok,
}
use safe_disk.Password.Writer.{resume-ok}
use safe_disk.Password.Verifier.{verify_password, write_password_verifier}
use safe_disk.Password.Envelope.{
  format_version, wrapping_key_length, envelope_cipher, nonce_key, ciphertext_key, envelope_domain,
  envelope_version_key, read_envelope_value, unwrap_root_key, root_key_envelope_version,
  write_root_key_envelope,
}
use safe_disk.Password.Open.{
  Deriver, DeriverLaws, Factories, factory_name, open_factories, data_factory_key, name_factory_key,
  deriver_factory_key, get_open_factories, load_password_wrapping_key, load_root_key_for_open,
  load_root_key-opens,
}
use safe_disk.Password.Change.{ConfigFile, Attempt, write_records, restage, unlock}
use safe_disk.Password.Change.Safe.{
  FillsRandom, IsRewritten, rewritten, given_bytes, LeavesRecords, records-AgreeOn,
}

long_text :
    (text content : Str)
    → (check (not (ltb (length text) wrapping_key_length)) content_key_too_short >> ok text)
      ≡ ok content
    → wrapping_key_length ≤ length content
long_text text content h = elim (Bool-cases (ltb (length text) wrapping_key_length)) [
  | inl e ↦ let z = rw e at h in cc
  | inr e ↦
      let z = rw e at h in
      let long : wrapping_key_length ≤ length text = ground arith in
      subst (λ b. wrapping_key_length ≤ length b) (ok-injective text content z) long
]

module _ (C : SharedConfig) (P : Primitives) where
  -- A content key that is unwrapped is long enough to be wrapped again.
  unwrap_root_key-long :
      (wrapping content : Str) (s : C.State)
      → unwrap_root_key C P wrapping s ≡ ok content
      → wrapping_key_length ≤ length content
  unwrap_root_key-long wrapping content s h =
      let (gcm, _, h1) = and_then-ok (envelope_cipher wrapping) _ content h in
      let (nonce, _, h2) = and_then-ok (read_envelope_value C P nonce_key s) _ content h1 in
      let (_, _, h3) = and_then-ok (check (length nonce == P.nonce_size) bad_nonce) _ content h2 in
      let (sealed, _, h4) = and_then-ok (read_envelope_value C P ciphertext_key s) _ content h3 in
      let (text, _, h5) =
        and_then-ok (need (P.unseal gcm nonce sealed envelope_domain) envelope_refused) _ content
          h4 in
      long_text text content h5

  -- A root whose password can be changed is one that the old password opens.
  pub unlock-ok :
      (file : ConfigFile C) (factories : Factories C.State) (attempt : Attempt file.Contents)
      (old new : Str) (current : file.Contents) (r : C.State × Deriver C.State × Str)
      → unlock C P file factories attempt old new current ≡ ok r
      → (file.open_file current ≡ some r.0)
        × (get_open_factories C P factories r.0 ≡ ok r.1)
        × (load_root_key_for_open C P r.1 old r.0 ≡ ok r.2)
        × (wrapping_key_length ≤ length r.2)
  unlock-ok file factories attempt old new current r h =
      let (_, _, h1) = and_then-ok (check attempt.has_path invalid_path) _ r h in
      let (_, _, h2) =
        and_then-ok (check (not (is_empty old || is_empty new)) passwords_required) _ r h1 in
      let (_, _, h3) = and_then-ok (check attempt.locked not_locked) _ r h2 in
      let (cfg, opened, h4) = and_then-ok (need (file.open_file current) not_loaded) _ r h3 in
      let (deriver, found, h5) = and_then-ok (get_open_factories C P factories cfg) _ r h4 in
      let (envelope, seen, h6) = and_then-ok (root_key_envelope_version C P cfg) _ r h5 in
      let (version, some_version, h7) = and_then-ok (need envelope change_unsupported) _ r h6 in
      let (_, one, h8) =
        and_then-ok
          (check (same_int version format_version)
            (unsupported_version envelope_version_key version))
          _ r h7 in
      let (wrapping, loaded, h9) =
        and_then-ok (load_password_wrapping_key C P deriver old cfg) _ r h8 in
      let (_, verified, h10) = and_then-ok (verify_password C P wrapping cfg) _ r h9 in
      let (content, unwrapped, h11) = and_then-ok (unwrap_root_key C P wrapping cfg) _ r h10 in
      let (_, _, h12) = and_then-ok (check attempt.copied not_staged) _ r h11 in
      let present : root_key_envelope_version C P cfg ≡ ok (some format_version) =
        seen
        ∙ ap ok (
            need-ok envelope change_unsupported version some_version
            ∙ ap some (
                same_int-eq version format_version (
                  check-ok (same_int version format_version)
                    (unsupported_version envelope_version_key version) _ one))) in
      subst
        (λ (x : C.State × Deriver C.State × Str).
          (file.open_file current ≡ some x.0)
          × (get_open_factories C P factories x.0 ≡ ok x.1)
          × (load_root_key_for_open C P x.1 old x.0 ≡ ok x.2)
          × (wrapping_key_length ≤ length x.2))
        (ok-injective (cfg, deriver, content) r h12)
        (
          need-ok (file.open_file current) not_loaded cfg opened,
          found,
          load_root_key-opens C P deriver old wrapping content cfg loaded present verified
              unwrapped,
          unwrap_root_key-long wrapping content cfg unwrapped,
        )

  -- The deriver of a root is one that is registered.
  pub get_open_factories-registered :
      (factories : Factories C.State) (s : C.State) (D : Deriver C.State)
      → get_open_factories C P factories s ≡ ok D
      → (name : Str) × (factories.deriver name ≡ some D)
  get_open_factories-registered factories s D h =
      let (data_name, _, h1) = and_then-ok (factory_name (C.get_str data_factory_key s)) _ D h in
      let (_, _, h2) = and_then-ok (check (factories.has_data data_name) bad_factories) _ D h1 in
      let (name_name, _, h3) = and_then-ok (factory_name (C.get_str name_factory_key s)) _ D h2 in
      let (_, _, h4) = and_then-ok (check (factories.has_name name_name) bad_factories) _ D h3 in
      let (name, _, h5) = and_then-ok (factory_name (C.get_str deriver_factory_key s)) _ D h4 in
      (name, need-ok (factories.deriver name) bad_factories D h5)

module _ (C : SharedConfig) (P : Primitives) (kept : ConfigLaws C) (laws : PrimitiveLaws P)
    (file : ConfigFile C) (D : Deriver C.State) (derives : DeriverLaws C D) where
  -- Setting no name of a factory, the new records leave the factories of the root.
  factory_kept :
      (key new : Str) (challenge nonce made content : Str) (s b r t : C.State) (u v : Unit {0})
      → b ≡ (D.new_key new s).1
      → starts_with (codes "sec_") key ≡ true
      → same key key ≡ true
      → LeavesRecords (λ j. same j key)
      → write_password_verifier C P (some challenge) made b ≡ (ok u, r)
      → write_root_key_envelope C P (some nonce) made content r ≡ (ok v, t)
      → C.get_str key t ≡ C.get_str key s
  factory_kept key new challenge nonce made content s b r t u v e sec own leaves h g =
      (records-AgreeOn C P kept laws (λ j. same j key) challenge nonce made content b r t u v leaves
          h g).strs
        key own
      ∙ ap (C.get_str key) e
      ∙ (derives.new_key_others new s).strs key (rw (derives.own_other key sec) refl)

  factories_kept :
      (factories : Factories C.State) (new challenge nonce made content : Str) (s b r t : C.State)
      (u v : Unit {0})
      → b ≡ (D.new_key new s).1
      → write_password_verifier C P (some challenge) made b ≡ (ok u, r)
      → write_root_key_envelope C P (some nonce) made content r ≡ (ok v, t)
      → get_open_factories C P factories t ≡ get_open_factories C P factories s
  factories_kept factories new challenge nonce made content s b r t u v e h g =
      ap
        (λ x.
          open_factories factories x (C.get_str name_factory_key t)
            (C.get_str deriver_factory_key t))
        (factory_kept data_factory_key new challenge nonce made content s b r t u v e refl refl
          (record {
            challenge_out = refl;
            tag_out = refl;
            verifier_out = refl;
            nonce_out = refl;
            ciphertext_out = refl;
            envelope_out = refl;
          })
          h g)
      ∙ ap
          (λ x.
            open_factories factories (C.get_str data_factory_key s) x
              (C.get_str deriver_factory_key t))
          (factory_kept name_factory_key new challenge nonce made content s b r t u v e refl refl
            (record {
              challenge_out = refl;
              tag_out = refl;
              verifier_out = refl;
              nonce_out = refl;
              ciphertext_out = refl;
              envelope_out = refl;
            })
            h g)
      ∙ ap
          (λ x.
            open_factories factories (C.get_str data_factory_key s) (C.get_str name_factory_key s)
              x)
          (factory_kept deriver_factory_key new challenge nonce made content s b r t u v e refl refl
            (record {
              challenge_out = refl;
              tag_out = refl;
              verifier_out = refl;
              nonce_out = refl;
              ciphertext_out = refl;
              envelope_out = refl;
            })
            h g)

  -- What the copy holds after a change that met no error.
  pub restage-ok :
      (factories : Factories C.State) (attempt : Attempt file.Contents) (new content : Str)
      (s t : C.State) (u : Unit {0})
      → FillsRandom P attempt
      → wrapping_key_length ≤ length content
      → restage C P file attempt D new content s ≡ (ok u, t)
      → (challenge : Str) × (attempt.challenge ≡ some challenge)
        × IsRewritten C P D new content challenge t
        × (get_open_factories C P factories t ≡ get_open_factories C P factories s)
  restage-ok factories attempt new content s t u fills long h = elim (Bool-cases (D.ready s)) [
    | inr e ↦ let z = rw (e, restage) at h in cc
    | inl e ↦
        let z = rw (e, restage) at h in
        let b = (D.new_key new s).1 in
        elim (Option-cases (D.new_key new s).0) [
          | inl q ↦ let y = rw (q, write_records) at z in cc
          | inr (made, q) ↦
              let y = rw (q, write_records) at z in
              let verifier = write_password_verifier C P attempt.challenge made b in
              let (a, p, g) =
                resume-ok verifier.0 verifier.1 t
                  (λ _. write_root_key_envelope C P attempt.nonce made content) u y in
              let h : verifier ≡ (ok a, verifier.1) = ap (λ o. (o, verifier.1)) p in
              let (c, n, ec, en) =
                given_bytes C P kept laws attempt.challenge attempt.nonce made content b verifier.1
                  t a u h g in
              let h' =
                subst (λ o. write_password_verifier C P o made b ≡ (ok a, verifier.1)) ec h in
              let g' =
                subst (λ o. write_root_key_envelope C P o made content verifier.1 ≡ (ok u, t)) en
                  g in
              (
                c,
                ec,
                rewritten C P kept laws D derives new made content c n s b verifier.1 t a u
                    (ap (λ o. (o, b)) q) (fills.challenge_size c ec) (fills.nonce_size n en) long h'
                    g',
                factories_kept factories new c n made content s b verifier.1 t a u refl h' g',
              )
        ]
  ]
