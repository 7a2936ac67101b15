-- ===== src/Password/Change/Whole.antt =====
-- A change of the password as a whole: the file holds the old configuration or the new one.
use safe_disk.Base.{
  Bool, true, false, not, ◌≡◌, ◌≢◌, refl, ap, sym, ◌∙◌, none, some, Bool-cases, ◌⊎◌, inl, inr,
}
use safe_disk.Base.Strings.{Str, same, same_refl, is_empty}
use safe_disk.Config.{SharedConfig, ConfigLaws}
use safe_disk.Password.{Primitives, PrimitiveLaws}
use safe_disk.Password.Result.{
  config_required, invalid_password, Result, ok, err, ◌>>=◌, ◌>>◌, >>_assoc, check, Result-cases,
}
use safe_disk.Password.Verifier.{calculate_tag, verify_password}
use safe_disk.Password.Agree.{AgreeOn, AgreeOn-all}
use safe_disk.Password.Envelope.{nonce_key, ciphertext_key, unwrap_root_key}
use safe_disk.Password.Open.{
  Deriver, DeriverLaws, Factories, get_open_factories, load_password_wrapping_key,
  load_root_key_for_open, load_root_key-opens,
}
use safe_disk.Password.Same.{
  hint_key, unwrap-same, wrapping_key-same, root_key-same, get_open_factories-same,
}
use safe_disk.Password.Change.{
  ConfigFile, IsReopened, Attempt, Fate, finishes, not_synced, not_renamed, dies_before_rename,
  dies_after_rename, dies_staging, restage, unlock, commit, change_with, change_root_password,
}
use safe_disk.Password.Change.Safe.{FillsRandom, IsRewritten}
use safe_disk.Password.Change.Outcome.{unlock-ok, restage-ok, get_open_factories-registered}

-- The store `t` opens with the new password to the content key that the old file opened to with the old
-- one, and to any other password by the tag of its key.
pub record IsChanged (C : SharedConfig) (P : Primitives) (file : ConfigFile C)
    (factories : Factories C.State) (old new : Str) (current : file.Contents) (t : C.State)
    : Type 0 where
  pub cfg : C.State
  pub deriver : Deriver C.State
  pub content : Str
  pub wrapping : Str
  pub challenge : Str
  pub opened : file.open_file current ≡ some cfg
  pub found : get_open_factories C P factories cfg ≡ ok deriver
  pub before : load_root_key_for_open C P deriver old cfg ≡ ok content
  pub found_after : get_open_factories C P factories t ≡ ok deriver
  pub after : load_root_key_for_open C P deriver new t ≡ ok content
  pub by_tag :
      (password : Str)
      → load_root_key_for_open C P deriver password t ≡ (
          load_password_wrapping_key C P deriver password t >>= λ other.
          check (not (is_empty other)) config_required
          >> (check
                (same (calculate_tag P wrapping challenge) (calculate_tag P other challenge))
                invalid_password
              >> unwrap_root_key C P other t))

module _ (C : SharedConfig) (P : Primitives) where
  opens_rewritten :
      (D : Deriver C.State) (new content challenge : Str) (t : C.State)
      → IsRewritten C P D new content challenge t
      → load_root_key_for_open C P D new t ≡ ok content
  opens_rewritten D new content challenge t r =
      let tag = calculate_tag P r.wrapping challenge in
      load_root_key-opens C P D new r.wrapping content t r.loads r.version
        (r.verifies r.wrapping r.not_empty ∙ ap (λ b. check b invalid_password) (same_refl tag))
        r.unwraps

  -- Any other password, by the tag of its key.
  verify_rewritten :
      (D : Deriver C.State) (new content challenge : Str) (t : C.State)
      (r : IsRewritten C P D new content challenge t) (other : Str)
      → verify_password C P other t ≡ (
          check (not (is_empty other)) config_required
          >> check
              (same (calculate_tag P r.wrapping challenge) (calculate_tag P other challenge))
              invalid_password)
  verify_rewritten D new content challenge t r other = elim (Bool-cases (is_empty other)) [
    | inl e ↦ rw (e, verify_password) refl
    | inr e ↦ r.verifies other e ∙ rw e refl
  ]

  by_tag_rewritten :
      (D : Deriver C.State) (new content challenge : Str) (t : C.State)
      (r : IsRewritten C P D new content challenge t) (password : Str)
      → load_root_key_for_open C P D password t ≡ (
          load_password_wrapping_key C P D password t >>= λ other.
          check (not (is_empty other)) config_required
          >> (check
                (same (calculate_tag P r.wrapping challenge) (calculate_tag P other challenge))
                invalid_password
              >> unwrap_root_key C P other t))
  by_tag_rewritten D new content challenge t r password =
      elim (Result-cases (load_password_wrapping_key C P D password t)) [
        | inr (e, q) ↦ rw (q, load_root_key_for_open) refl
        | inl (other, q) ↦
            rw (q, load_root_key_for_open)
              (rw r.version (
                ap (λ x. x >> unwrap_root_key C P other t)
                  (verify_rewritten D new content challenge t r other)
                ∙ >>_assoc (check (not (is_empty other)) config_required)
                    (check
                      (same (calculate_tag P r.wrapping challenge)
                        (calculate_tag P other challenge))
                      invalid_password)
                    (unwrap_root_key C P other t)))
      ]

  -- A judgement by the tag, in two stores that unwrap alike.
  by_tag_same :
      (wrapping challenge : Str) (s t : C.State) (m n : Result Str)
      → n ≡ m
      → ((other : Str) → unwrap_root_key C P other t ≡ unwrap_root_key C P other s)
      → (n >>= λ other.
          check (not (is_empty other)) config_required
          >> (check
                (same (calculate_tag P wrapping challenge) (calculate_tag P other challenge))
                invalid_password
              >> unwrap_root_key C P other t))
        ≡ (m >>= λ other.
            check (not (is_empty other)) config_required
            >> (check
                  (same (calculate_tag P wrapping challenge) (calculate_tag P other challenge))
                  invalid_password
                >> unwrap_root_key C P other s))
  by_tag_same wrapping challenge s t (err e) n h u = rw h refl
  by_tag_same wrapping challenge s t (ok other) n h u = rw (h, u other) refl

module _ (C : SharedConfig) (P : Primitives) (file : ConfigFile C) where
  -- A commit keeps the file or puts the copy in its place.
  pub commit_cases :
      (fate : Fate file.Contents) (p : Result (Unit {0}) × C.State) (current : file.Contents)
      → (((commit C P file fate p current).1.current ≡ current)
          × ((commit C P file fate p current).0 ≢ some (ok tt)))
        ⊎ ((p.0 ≡ ok tt)
            × ((commit C P file fate p current).1.current ≡ file.stored p.1)
            × (((commit C P file fate p current).0 ≡ some (ok tt))
                ⊎ ((commit C P file fate p current).0 ≡ none)))
  commit_cases (dies_staging half) p current = inl (refl, λ h. cc)
  commit_cases finishes (err e, s) current = inl (refl, λ h. cc)
  commit_cases not_synced (err e, s) current = inl (refl, λ h. cc)
  commit_cases not_renamed (err e, s) current = inl (refl, λ h. cc)
  commit_cases dies_before_rename (err e, s) current = inl (refl, λ h. cc)
  commit_cases dies_after_rename (err e, s) current = inl (refl, λ h. cc)
  commit_cases not_synced (ok u, s) current = inl (refl, λ h. cc)
  commit_cases not_renamed (ok u, s) current = inl (refl, λ h. cc)
  commit_cases dies_before_rename (ok u, s) current = inl (refl, λ h. cc)
  commit_cases dies_after_rename (ok u, s) current = inr (refl, refl, inr refl)
  commit_cases finishes (ok u, s) current = inr (refl, refl, inl refl)

  -- Of a store that answers as a changed one the same holds.
  IsChanged-again :
      (factories : Factories C.State)
      (derives : (name : Str) (D : Deriver C.State)
        → factories.deriver name ≡ some D
        → DeriverLaws C D)
      (old new : Str) (current : file.Contents) (s t : C.State)
      → AgreeOn C (λ k. true) s t
      → IsChanged C P file factories old new current s
      → IsChanged C P file factories old new current t
  IsChanged-again factories derives old new current s t a c =
      let agree = λ (own : Str → Bool) (n : own hint_key ≡ false). AgreeOn-all C own s t a in
      let (name, named) = get_open_factories-registered C P factories c.cfg c.deriver c.found in
      let laws = derives name c.deriver named in
      let same_unwrap = λ (other : Str).
        unwrap-same C P other s t (a.strs nonce_key refl) (a.strs ciphertext_key refl) in
      record {
        cfg = c.cfg;
        deriver = c.deriver;
        content = c.content;
        wrapping = c.wrapping;
        challenge = c.challenge;
        opened = c.opened;
        found = c.found;
        before = c.before;
        found_after = get_open_factories-same C P s t agree factories ∙ c.found_after;
        after = root_key-same C P s t agree c.deriver laws new ∙ c.after;
        by_tag = λ password.
            root_key-same C P s t agree c.deriver laws password
            ∙ c.by_tag password
            ∙ sym (
                by_tag_same C P c.wrapping c.challenge s t _ _
                  (wrapping_key-same C P s t agree c.deriver laws password) same_unwrap);
      }

  change_cases :
      (kept : ConfigLaws C) (laws : PrimitiveLaws P) (factories : Factories C.State)
      (derives : (name : Str) (D : Deriver C.State)
        → factories.deriver name ≡ some D
        → DeriverLaws C D)
      (attempt : Attempt file.Contents) (old new : Str) (current : file.Contents)
      → FillsRandom P attempt
      → (r : C.State × Deriver C.State × Str)
      → unlock C P file factories attempt old new current ≡ ok r
      → ((restage C P file attempt r.1 new r.2 r.0).0 ≡ ok tt
          → IsReopened C file (restage C P file attempt r.1 new r.2 r.0).1)
      → (((change_with C P file attempt new current (ok r)).1.current ≡ current)
          × ((change_with C P file attempt new current (ok r)).0 ≢ some (ok tt)))
        ⊎ ((t : C.State) × (file.open_file
                (change_with C P file attempt new current (ok r)).1.current
              ≡ some t)
            × (((change_with C P file attempt new current (ok r)).0 ≡ some (ok tt))
                ⊎ ((change_with C P file attempt new current (ok r)).0 ≡ none))
            × IsChanged C P file factories old new current t)
  change_cases kept laws factories derives attempt old new current fills (cfg, D, content) q
        reopens =
      let (opened, found, before, long) =
        unlock-ok C P file factories attempt old new current (cfg, D, content) q in
      let (name, named) = get_open_factories-registered C P factories cfg D found in
      let staged = restage C P file attempt D new content cfg in
      elim (commit_cases attempt.fate staged current) [
        | inl same ↦ inl same
        | inr (o, now, how) ↦
            let (c, _, r, kept_factories) =
              restage-ok C P kept laws file D (derives name D named) factories attempt new content
                cfg staged.1 tt fills long (ap (λ x. (x, staged.1)) o) in
            let changed : IsChanged C P file factories old new current staged.1 = record {
              cfg = cfg;
              deriver = D;
              content = content;
              wrapping = r.wrapping;
              challenge = c;
              opened = opened;
              found = found;
              before = before;
              found_after = kept_factories ∙ found;
              after = opens_rewritten C P D new content c staged.1 r;
              by_tag = by_tag_rewritten C P D new content c staged.1 r;
            } in
            let back = reopens o in
            inr (
              back.again,
              ap file.open_file now ∙ back.opens,
              how,
              IsChanged-again factories derives old new current staged.1 back.again back.same
                  changed,
            )
      ]

  -- However a change of the password ends, an error or the death of the process at any step
  -- included: either the configuration file is as before and the call has not succeeded; or the
  -- call has succeeded or the process died after the rename, and the file opens to a store with
  -- these properties: the old password opened the old file to a content key, the new password
  -- opens this store to the same one, with the same deriver, and any other password is judged by
  -- the tag of its key. This holds if crypto/rand fills what it is given, if the store, the
  -- primitives and the registered derivers keep their laws, and if the store that the change has
  -- written without an error, once it is saved, opens again to one that answers alike.
  pub change_root_password-outcome :
      (kept : ConfigLaws C) (laws : PrimitiveLaws P) (factories : Factories C.State)
      (derives : (name : Str) (D : Deriver C.State)
        → factories.deriver name ≡ some D
        → DeriverLaws C D)
      (attempt : Attempt file.Contents) (old new : Str) (current : file.Contents)
      → FillsRandom P attempt
      → ((r : C.State × Deriver C.State × Str)
          → unlock C P file factories attempt old new current ≡ ok r
          → (restage C P file attempt r.1 new r.2 r.0).0 ≡ ok tt
          → IsReopened C file (restage C P file attempt r.1 new r.2 r.0).1)
      → (((change_root_password C P file factories attempt old new current).1.current ≡ current)
          × ((change_root_password C P file factories attempt old new current).0 ≢ some (ok tt)))
        ⊎ ((t : C.State) × (file.open_file
                (change_root_password C P file factories attempt old new current).1.current
              ≡ some t)
            × (((change_root_password C P file factories attempt old new current).0 ≡ some (ok tt))
                ⊎ ((change_root_password C P file factories attempt old new current).0 ≡ none))
            × IsChanged C P file factories old new current t)
  change_root_password-outcome kept laws factories derives attempt old new current fills reopens =
      elim (Result-cases (unlock C P file factories attempt old new current)) [
        | inr (e, q) ↦ rw (q, change_root_password) (inl (refl, λ h. cc))
        | inl (r, q) ↦
            rw (q, change_root_password)
              (change_cases kept laws factories derives attempt old new current fills r q
                (reopens r q))
      ]
