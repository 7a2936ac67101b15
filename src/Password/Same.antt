-- ===== src/Password/Same.antt =====
-- What opens a root does not hang on its hint, nor on anything but the answers of the store.
use safe_disk.Base.{Bool, false, not, ◌≡◌, refl, ap, ◌∙◌, Option, none, some}
use safe_disk.Base.Int.{ℤ, same_int}
use safe_disk.Base.Strings.{Str, codes, same}
use safe_disk.Config.{SharedConfig}
use safe_disk.Password.{Primitives}
use safe_disk.Password.Result.{unsupported_version, ok, ◌>>◌, check}
use safe_disk.Password.Agree.{AgreeOn}
use safe_disk.Password.Verifier.{verifier_version_key, challenge_key, tag_key, verify_password}
use safe_disk.Password.Envelope.{
  envelope_version_key, nonce_key, ciphertext_key, format_version, unwrap_root_key,
}
use safe_disk.Password.Open.{
  Deriver, DeriverLaws, Factories, data_factory_key, name_factory_key, deriver_factory_key,
  get_open_factories, root_key_by, load_password_wrapping_key, load_root_key_for_open,
}

abbrev pub hint_key : Str
hint_key = codes "sec_password_hint"

module _ (C : SharedConfig) (P : Primitives) where
  -- Two stores that agree on the keys of the verifier verify alike.
  verify-same :
      (key : Str) (s t : C.State)
      → C.get_int verifier_version_key t ≡ C.get_int verifier_version_key s
      → C.get_str challenge_key t ≡ C.get_str challenge_key s
      → C.get_str tag_key t ≡ C.get_str tag_key s
      → verify_password C P key t ≡ verify_password C P key s
  verify-same key s t v c g = simp (v, c, g)

  pub unwrap-same :
      (key : Str) (s t : C.State)
      → C.get_str nonce_key t ≡ C.get_str nonce_key s
      → C.get_str ciphertext_key t ≡ C.get_str ciphertext_key s
      → unwrap_root_key C P key t ≡ unwrap_root_key C P key s
  unwrap-same key s t n c = simp (n, c)

  by_version :
      (s t : C.State) (version : Option ℤ) (wrapping : Str)
      → verify_password C P wrapping t ≡ verify_password C P wrapping s
      → unwrap_root_key C P wrapping t ≡ unwrap_root_key C P wrapping s
      → root_key_by C P version wrapping t ≡ root_key_by C P version wrapping s
  by_version s t none wrapping v u = ap (λ r. r >> ok wrapping) v
  by_version s t (some version) wrapping v u =
      ap
        (λ r.
          check (same_int version format_version) (unsupported_version envelope_version_key version)
          >> (r >> unwrap_root_key C P wrapping t))
        v
      ∙ ap
          (λ r.
            check (same_int version format_version)
              (unsupported_version envelope_version_key version)
            >> (verify_password C P wrapping s >> r))
          u

  -- What opens a root does not hang on the hint.
  module _ (s t : C.State)
      (agree : (own : Str → Bool) → own hint_key ≡ false → AgreeOn C own s t) where
    abbrev not_hint : Str → Bool
    not_hint k = not (same k hint_key)

    root_key_by-same :
        (version : Option ℤ) (wrapping : Str)
        → root_key_by C P version wrapping t ≡ root_key_by C P version wrapping s
    root_key_by-same version wrapping =
        let a = agree not_hint refl in
        let v =
          verify-same wrapping s t (a.ints verifier_version_key refl) (a.strs challenge_key refl)
            (a.strs tag_key refl) in
        let u = unwrap-same wrapping s t (a.strs nonce_key refl) (a.strs ciphertext_key refl) in
        by_version s t version wrapping v u

    pub wrapping_key-same :
        (D : Deriver C.State) (derives : DeriverLaws C D) (password : Str)
        → load_password_wrapping_key C P D password t ≡ load_password_wrapping_key C P D password s
    wrapping_key-same D derives password =
        let mine = agree derives.own (derives.own_other hint_key refl) in
        simp (derives.ready_same s t mine, derives.load_same password s t mine)

    pub root_key-same :
        (D : Deriver C.State) (derives : DeriverLaws C D) (password : Str)
        → load_root_key_for_open C P D password t ≡ load_root_key_for_open C P D password s
    root_key-same D derives password =
        let a = agree not_hint refl in
        let mine = agree derives.own (derives.own_other hint_key refl) in
        simp (
          derives.ready_same s t mine,
          derives.load_same password s t mine,
          a.ints envelope_version_key refl,
          a.strs envelope_version_key refl,
          a.bools envelope_version_key refl,
          root_key_by-same,
        )

    pub get_open_factories-same :
        (factories : Factories C.State)
        → get_open_factories C P factories t ≡ get_open_factories C P factories s
    get_open_factories-same factories =
        let a = agree not_hint refl in
        simp (
          a.strs data_factory_key refl,
          a.strs name_factory_key refl,
          a.strs deriver_factory_key refl,
        )
