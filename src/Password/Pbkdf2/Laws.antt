-- ===== src/Password/Pbkdf2/Laws.antt =====
-- The deriver of PBKDF2 keeps what the password change asks of a deriver.
use safe_disk.Base.{
  Bool, true, false, not, ◌||◌, ◌==◌, ==_iff, ◌≡◌, ◌≢◌, refl, ap, sym, ◌∙◌, subst, Option, none,
  some, [], ◌∷◌, Bool-cases, inl, inr,
}
use safe_disk.Base.Int.{ℤ}
use safe_disk.Base.Strings.{Str, codes, same_iff, is_empty, starts_with, all_chars, and_true}
use safe_disk.Config.{SharedConfig, ConfigLaws}
use safe_disk.Server.Auth.Hex.{encode_hex, decode_hex-encode, is_byte}
use safe_disk.Password.Agree.{AgreeOn, AgreeOn-trans, set_str-AgreeOn, set_int-AgreeOn}
use safe_disk.Password.Open.{DeriverLaws}
use safe_disk.Password.Pbkdf2.{
  config_group_for_load, load_key, save_parameters, new_key_with, new_key, pbkdf2,
}

abbrev stable_prefix : Str
stable_prefix = codes "pbkdf2_"

abbrev renamed_prefix : Str
renamed_prefix = codes "PBKDF2_"

abbrev stable_salt : Str
stable_salt = codes "pbkdf2_salt"

abbrev stable_iterations : Str
stable_iterations = codes "pbkdf2_iterations"

abbrev stable_length : Str
stable_length = codes "pbkdf2_key_length"

-- The keys of the two groups.
abbrev own_key : Str → Bool
own_key k = starts_with stable_prefix k || starts_with renamed_prefix k

own_key-sec : (k : Str) → starts_with (codes "sec_") k ≡ true → own_key k ≡ false
own_key-sec [] h = cc
own_key-sec (c ∷ cs) h =
    let e = (==_iff 115 c).0 (and_true (115 == c) _ h).0 in
    subst (λ x. own_key (x ∷ cs) ≡ false) e refl

other_parameter : stable_iterations ≢ stable_length
other_parameter e = let z = (same_iff stable_iterations stable_length).1 e in cc

module _ (C : SharedConfig) (kept : ConfigLaws C) (derive_key : Str → Str → ℤ → ℤ → Str)
    (random : Option Str) where
  -- A group is read alike in stores that agree on it.
  config_group_for_load-same :
      (found : Option Str) (password : Str) (s t : C.State)
      → AgreeOn C own_key s t
      → config_group_for_load C derive_key random found password t
        ≡ config_group_for_load C derive_key random found password s
  config_group_for_load-same none password s t a = simp (
    a.ints (codes "PBKDF2_iterations") refl,
    a.ints (codes "PBKDF2_key_length") refl,
    a.strs (codes "PBKDF2_salt") refl,
  )
  config_group_for_load-same (some salt) password s t a =
      simp (a.ints stable_iterations refl, a.ints stable_length refl, a.strs stable_salt refl)

  load_key-same :
      (password : Str) (s t : C.State)
      → AgreeOn C own_key s t
      → load_key C derive_key random password t ≡ load_key C derive_key random password s
  load_key-same password s t a =
      ap (λ o. config_group_for_load C derive_key random o password t) (a.strs stable_salt refl)
      ∙ config_group_for_load-same (C.get_str stable_salt s) password s t a

  save_parameters-AgreeOn :
      (salt : Str) (iterations key_length : ℤ) (s : C.State)
      → AgreeOn C
          (λ k. not (own_key k))
          s
          (save_parameters C derive_key random salt iterations key_length s)
  save_parameters-AgreeOn salt iterations key_length s =
      let other = λ (k : Str). not (own_key k) in
      let one = (C.set_str stable_salt (encode_hex salt) s).1 in
      let two = (C.set_int stable_iterations iterations one).1 in
      let three = (C.set_int stable_length key_length two).1 in
      AgreeOn-trans C other s two three
        (AgreeOn-trans C other s one two
          (set_str-AgreeOn C kept other stable_salt (encode_hex salt) s refl)
          (set_int-AgreeOn C kept other stable_iterations iterations one refl))
        (set_int-AgreeOn C kept other stable_length key_length two refl)

  unchanged : (own : Str → Bool) (s : C.State) → AgreeOn C own s s
  unchanged own s = record { strs = λ k h. refl; ints = λ k h. refl; bools = λ k h. refl }

  new_key_with-AgreeOn :
      (password : Str) (salt : Option Str) (iterations key_length : Option ℤ) (s : C.State)
      → AgreeOn C
          (λ k. not (own_key k))
          s
          (new_key_with C derive_key random password salt iterations key_length s).1
  new_key_with-AgreeOn password none i l s = unchanged _ s
  new_key_with-AgreeOn password (some salt) none l s = unchanged _ s
  new_key_with-AgreeOn password (some salt) (some i) none s = unchanged _ s
  new_key_with-AgreeOn password (some salt) (some i) (some l) s = save_parameters-AgreeOn salt i l s

  new_key-AgreeOn :
      (password : Str) (s : C.State)
      → AgreeOn C (λ k. not (own_key k)) s (new_key C derive_key random password s).1
  new_key-AgreeOn password s = elim (Bool-cases (is_empty password)) [
    | inl e ↦ rw (e, new_key) (unchanged _ s)
    | inr e ↦ rw (e, new_key) (new_key_with-AgreeOn password random _ _ s)
  ]

  -- What was saved is loaded, and gives the key that was made.
  load_key-save :
      (password salt : Str) (iterations key_length : ℤ) (s : C.State)
      → all_chars is_byte salt ≡ true
      → load_key C derive_key random password
          (save_parameters C derive_key random salt iterations key_length s)
        ≡ some (some (derive_key password salt iterations key_length))
  load_key-save password salt i l s bytes =
      let one = (C.set_str stable_salt (encode_hex salt) s).1 in
      let two = (C.set_int stable_iterations i one).1 in
      let three = (C.set_int stable_length l two).1 in
      let salted : C.get_str stable_salt three ≡ some (encode_hex salt) =
        kept.int_str stable_salt stable_length l two
        ∙ kept.int_str stable_salt stable_iterations i one
        ∙ kept.str_same stable_salt (encode_hex salt) s in
      let counted : C.get_int stable_iterations three ≡ some i =
        kept.int_other stable_iterations stable_length l two other_parameter
        ∙ kept.int_same stable_iterations i one in
      let sized : C.get_int stable_length three ≡ some l = kept.int_same stable_length l two in
      ap (λ o. config_group_for_load C derive_key random o password three) salted
      ∙ rw (salted, counted, sized) (rw (decode_hex-encode salt bytes) refl)

  new_key_with-load :
      (password key : Str) (salt : Option Str) (iterations key_length : Option ℤ) (s t : C.State)
      → ((b : Str) → salt ≡ some b → all_chars is_byte b ≡ true)
      → new_key_with C derive_key random password salt iterations key_length s ≡ (some key, t)
      → load_key C derive_key random password t ≡ some (some key)
  new_key_with-load password key none i l s t bytes h = cc
  new_key_with-load password key (some salt) none l s t bytes h = cc
  new_key_with-load password key (some salt) (some i) none s t bytes h = cc
  new_key_with-load password key (some salt) (some i) (some l) s t bytes h =
      let saved = load_key-save password salt i l s (bytes salt refl) in
      ap (λ (p : Option Str × C.State). load_key C derive_key random password p.1) (sym h)
      ∙ saved
      ∙ ap (λ (p : Option Str × C.State). some p.0) h

  new_key-load :
      (password key : Str) (s t : C.State)
      → ((b : Str) → random ≡ some b → all_chars is_byte b ≡ true)
      → new_key C derive_key random password s ≡ (some key, t)
      → load_key C derive_key random password t ≡ some (some key)
  new_key-load password key s t bytes h = elim (Bool-cases (is_empty password)) [
    | inl e ↦ let z = rw (e, new_key) at h in cc
    | inr e ↦ let z = rw (e, new_key) at h in new_key_with-load password key random _ _ s t bytes z
  ]

  -- Over a store with its laws, the deriver of PBKDF2 keeps what the change of a password asks
  -- of a deriver: `NewKey` with the stored parameters, also where it fails, leaves all keys but
  -- its own alone, and none of its own begins with "sec_"; `LoadKey` reads no other keys, and
  -- after a `NewKey` that gave a key it gives that key for the same password. crypto/rand gives
  -- bytes.
  pub pbkdf2-DeriverLaws :
      ((b : Str) → random ≡ some b → all_chars is_byte b ≡ true)
      → DeriverLaws C (pbkdf2 C derive_key random)
  pbkdf2-DeriverLaws bytes = record {
    own = own_key;
    ready_same = λ s t a. refl;
    load_same = load_key-same;
    new_key_others = new_key-AgreeOn;
    own_other = own_key-sec;
    load-new = λ password key s t h. (refl, new_key-load password key s t bytes h);
  }
