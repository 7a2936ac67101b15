-- ===== src/Password/Hint/Safe.antt =====
-- An update of the hint leaves the old configuration or one that opens as it does.
use safe_disk.Base.{
  Bool, true, false, not, ◌≡◌, ◌≢◌, refl, ap, ◌∙◌, subst, none, some, ◌⊎◌, inl, inr,
}
use safe_disk.Base.Strings.{Str, same, is_empty}
use safe_disk.Config.{SharedConfig, ConfigLaws}
use safe_disk.Password.{Primitives}
use safe_disk.Password.Result.{
  invalid_path, passwords_required, not_locked, not_loaded, not_staged, ok, ◌>>◌, check, need,
  need-ok, ok-injective, and_then-ok, Result-cases,
}
use safe_disk.Password.Writer.{store_str, resume-ok, last_set-ok}
use safe_disk.Password.Agree.{AgreeOn, AgreeOn-all, set_str-AgreeOn}
use safe_disk.Password.Verifier.{verify_password}
use safe_disk.Password.Open.{
  Deriver, DeriverLaws, Factories, get_open_factories, load_password_wrapping_key,
  load_root_key_for_open,
}
use safe_disk.Password.Change.{ConfigFile, IsReopened, Attempt}
use safe_disk.Password.Change.Whole.{commit_cases}
use safe_disk.Password.Hint.{validate_hint, hint_of, set_hint, unlock_hint, update_hint}
use safe_disk.Password.Same.{hint_key, root_key-same, get_open_factories-same}

-- The new file has the hint, and every password opens it as it opened the old one.
pub record IsHinted (C : SharedConfig) (P : Primitives) (file : ConfigFile C) (is_text : Str → Bool)
    (factories : Factories C.State) (D : Deriver C.State) (hint : Str) (current : file.Contents)
    (t : C.State) : Type 0 where
  pub cfg : C.State
  pub opened : file.open_file current ≡ some cfg
  pub has_hint : hint_of C P file is_text (C.get_str hint_key t) ≡ ok hint
  pub same_factories : get_open_factories C P factories t ≡ get_open_factories C P factories cfg
  pub same_key :
      (password : Str)
      → load_root_key_for_open C P D password t ≡ load_root_key_for_open C P D password cfg

module _ (C : SharedConfig) (P : Primitives) (kept : ConfigLaws C) (file : ConfigFile C)
    (is_text : Str → Bool) where
  unlock_hint-opened :
      (factories : Factories C.State) (attempt : Attempt file.Contents) (password hint : Str)
      (current : file.Contents) (cfg : C.State)
      → unlock_hint C P file is_text factories attempt password hint current ≡ ok cfg
      → file.open_file current ≡ some cfg
  unlock_hint-opened factories attempt password hint current cfg h =
      let (_, _, h1) = and_then-ok (check attempt.has_path invalid_path) _ cfg h in
      let (_, _, h2) = and_then-ok (check (not (is_empty password)) passwords_required) _ cfg h1 in
      let (_, _, h3) = and_then-ok (validate_hint is_text hint) _ cfg h2 in
      let (_, _, h4) = and_then-ok (check attempt.locked not_locked) _ cfg h3 in
      let (s, opened, h5) = and_then-ok (need (file.open_file current) not_loaded) _ cfg h4 in
      let (D, _, h6) = and_then-ok (get_open_factories C P factories s) _ cfg h5 in
      let (wrapping, _, h7) = and_then-ok (load_password_wrapping_key C P D password s) _ cfg h6 in
      let (_, _, h8) = and_then-ok (verify_password C P wrapping s) _ cfg h7 in
      let (_, _, h9) = and_then-ok (check attempt.copied not_staged) _ cfg h8 in
      need-ok (file.open_file current) not_loaded s opened ∙ ap some (ok-injective s cfg h9)

  set_hint-ok :
      (hint : Str) (s t : C.State) (u : Unit {0})
      → set_hint C P file is_text hint s ≡ (ok u, t)
      → ((C.set_str hint_key hint s).1 ≡ t) × (validate_hint is_text hint ≡ ok tt)
  set_hint-ok hint s t u h =
      let (_, v, z) =
        resume-ok (validate_hint is_text hint) s t (λ _. store_str C hint_key hint) u h in
      let set = C.set_str hint_key hint s in ((last_set-ok hint_key set.0 set.1 t u z).1, v)

  hinted :
      (factories : Factories C.State) (D : Deriver C.State) (derives : DeriverLaws C D) (hint : Str)
      (current : file.Contents) (s : C.State)
      → file.open_file current ≡ some s
      → validate_hint is_text hint ≡ ok tt
      → IsHinted C P file is_text factories D hint current (C.set_str hint_key hint s).1
  hinted factories D derives hint current s opened valid =
      let t = (C.set_str hint_key hint s).1 in
      let agree = λ (own : Str → Bool) (n : own hint_key ≡ false).
        set_str-AgreeOn C kept own hint_key hint s n in
      record {
        cfg = s;
        opened = opened;
        has_hint =
            ap (hint_of C P file is_text) (kept.str_same hint_key hint s)
            ∙ ap (λ r. r >> ok hint) valid;
        same_factories = get_open_factories-same C P s t agree factories;
        same_key = λ password. root_key-same C P s t agree D derives password;
      }

  IsHinted-again :
      (factories : Factories C.State) (D : Deriver C.State) (derives : DeriverLaws C D) (hint : Str)
      (current : file.Contents) (s t : C.State)
      → AgreeOn C (λ k. true) s t
      → IsHinted C P file is_text factories D hint current s
      → IsHinted C P file is_text factories D hint current t
  IsHinted-again factories D derives hint current s t a h =
      let agree = λ (own : Str → Bool) (n : own hint_key ≡ false). AgreeOn-all C own s t a in
      record {
        cfg = h.cfg;
        opened = h.opened;
        has_hint = ap (hint_of C P file is_text) (a.strs hint_key refl) ∙ h.has_hint;
        same_factories = get_open_factories-same C P s t agree factories ∙ h.same_factories;
        same_key = λ password. root_key-same C P s t agree D derives password ∙ h.same_key password;
      }

  -- However an update of the hint ends, either the configuration file is as before and the call
  -- has not succeeded; or the call has succeeded or the process died after the rename, and the
  -- file opens to a store from which the hint is read, whose factories are found as before, and
  -- which every password opens, through a deriver that keeps its laws, to what it opened the old
  -- file to. This holds if the store that the update has written without an error, once it is
  -- saved, opens again to one that answers alike.
  pub update_hint-outcome :
      (factories : Factories C.State) (D : Deriver C.State) (derives : DeriverLaws C D)
      (attempt : Attempt file.Contents) (password hint : Str) (current : file.Contents)
      → ((s : C.State)
          → unlock_hint C P file is_text factories attempt password hint current ≡ ok s
          → (set_hint C P file is_text hint s).0 ≡ ok tt
          → IsReopened C file (set_hint C P file is_text hint s).1)
      → (((update_hint C P file is_text factories attempt password hint current).1.current
            ≡ current)
          × ((update_hint C P file is_text factories attempt password hint current).0
              ≢ some (ok tt)))
        ⊎ ((t : C.State) × (file.open_file
                (update_hint C P file is_text factories attempt password hint current).1.current
              ≡ some t)
            × (((update_hint C P file is_text factories attempt password hint current).0
                  ≡ some (ok tt))
                ⊎ ((update_hint C P file is_text factories attempt password hint current).0 ≡ none))
            × IsHinted C P file is_text factories D hint current t)
  update_hint-outcome factories D derives attempt password hint current reopens =
      elim (Result-cases (unlock_hint C P file is_text factories attempt password hint current)) [
        | inr (e, q) ↦ rw (q, update_hint) (inl (refl, λ h. cc))
        | inl (s, q) ↦
            let opened = unlock_hint-opened factories attempt password hint current s q in
            let staged = set_hint C P file is_text hint s in
            rw (q, update_hint)
              (elim (commit_cases C P file attempt.fate staged current) [
                | inl same ↦ inl same
                | inr (o, now, how) ↦
                    let (e, valid) = set_hint-ok hint s staged.1 tt (ap (λ x. (x, staged.1)) o) in
                    let back = reopens s q o in
                    inr (
                      back.again,
                      ap file.open_file now ∙ back.opens,
                      how,
                      IsHinted-again factories D derives hint current staged.1 back.again back.same
                          (subst (IsHinted C P file is_text factories D hint current) e
                            (hinted factories D derives hint current s opened valid)),
                    )
              ])
      ]
