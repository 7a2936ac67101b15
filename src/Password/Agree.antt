-- ===== src/Password/Agree.antt =====
-- Stores that agree on the keys that a predicate selects, and what the writes of this code leave alone.
use safe_disk.Base.{Bool, true, false, ◌≡◌, ◌≢◌, refl, ap, ◌∙◌, subst}
use safe_disk.Base.Int.{ℤ}
use safe_disk.Base.Strings.{Str}
use safe_disk.Config.{SharedConfig, ConfigLaws}
use safe_disk.Password.{Primitives}
use safe_disk.Password.Result.{ok}
use safe_disk.Password.Writer.{set-ok, last_set-ok, store_int}
use safe_disk.Password.Verifier.{
  verifier_version_key, challenge_key, tag_key, verifier_version, store_tag, store_verifier,
}
use safe_disk.Password.Envelope.{
  envelope_version_key, nonce_key, ciphertext_key, format_version, store_ciphertext, store_envelope,
}

pub record AgreeOn (C : SharedConfig) (own : Str → Bool) (s t : C.State) : Type 0 where
  pub strs : (k : Str) → own k ≡ true → C.get_str k t ≡ C.get_str k s
  pub ints : (k : Str) → own k ≡ true → C.get_int k t ≡ C.get_int k s
  pub bools : (k : Str) → own k ≡ true → C.get_bool k t ≡ C.get_bool k s

module _ (C : SharedConfig) (own : Str → Bool) where
  pub AgreeOn-trans : (r s t : C.State) → AgreeOn C own r s → AgreeOn C own s t → AgreeOn C own r t
  AgreeOn-trans r s t a b = record {
    strs = λ k h. b.strs k h ∙ a.strs k h;
    ints = λ k h. b.ints k h ∙ a.ints k h;
    bools = λ k h. b.bools k h ∙ a.bools k h;
  }

  -- Stores that agree on every key agree on some.
  pub AgreeOn-all : (s t : C.State) → AgreeOn C (λ k. true) s t → AgreeOn C own s t
  AgreeOn-all s t a = record {
    strs = λ k h. a.strs k refl;
    ints = λ k h. a.ints k refl;
    bools = λ k h. a.bools k refl;
  }

  not_own : (j k : Str) → own k ≡ false → own j ≡ true → j ≢ k
  not_own j k n h e = let z : own j ≡ own k = ap own e in cc

module _ (C : SharedConfig) (kept : ConfigLaws C) (own : Str → Bool) where
  pub set_str-AgreeOn :
      (k v : Str) (s : C.State) → own k ≡ false → AgreeOn C own s (C.set_str k v s).1
  set_str-AgreeOn k v s n = record {
    strs = λ j h. kept.str_other j k v s (not_own C own j k n h);
    ints = λ j h. kept.str_int j k v s;
    bools = λ j h. kept.str_bool j k v s;
  }

  pub set_int-AgreeOn :
      (k : Str) (v : ℤ) (s : C.State) → own k ≡ false → AgreeOn C own s (C.set_int k v s).1
  set_int-AgreeOn k v s n = record {
    strs = λ j h. kept.int_str j k v s;
    ints = λ j h. kept.int_other j k v s (not_own C own j k n h);
    bools = λ j h. kept.int_bool j k v s;
  }

  -- Two strings and an integer.
  three_sets :
      (a v b w c : Str) (n : ℤ) (s : C.State)
      → own a ≡ false
      → own b ≡ false
      → own c ≡ false
      → AgreeOn C own s (C.set_int c n (C.set_str b w (C.set_str a v s).1).1).1
  three_sets a v b w c n s x y z =
      let one = (C.set_str a v s).1 in
      let two = (C.set_str b w one).1 in
      AgreeOn-trans C own s two (C.set_int c n two).1
        (AgreeOn-trans C own s one two (set_str-AgreeOn a v s x) (set_str-AgreeOn b w one y))
        (set_int-AgreeOn c n two z)

  pub store_verifier-AgreeOn :
      (P : Primitives) (challenge tag : Str) (s t : C.State) (u : Unit {0})
      → store_verifier C P challenge tag s ≡ (ok u, t)
      → own challenge_key ≡ false
      → own tag_key ≡ false
      → own verifier_version_key ≡ false
      → AgreeOn C own s t
  store_verifier-AgreeOn P challenge tag s t u h x y z =
      let one = C.set_str challenge_key (P.encode challenge) s in
      let two = C.set_str tag_key (P.encode tag) one.1 in
      let three = C.set_int verifier_version_key verifier_version two.1 in
      let (_, h1) = set-ok challenge_key one.0 one.1 t (store_tag C P tag) u h in
      let (_, h2) =
        set-ok tag_key two.0 two.1 t (store_int C verifier_version_key verifier_version) u h1 in
      let (_, e) = last_set-ok verifier_version_key three.0 three.1 t u h2 in
      subst (AgreeOn C own s) e (
        three_sets challenge_key (P.encode challenge) tag_key (P.encode tag) verifier_version_key
          verifier_version s x y z)

  pub store_envelope-AgreeOn :
      (P : Primitives) (nonce sealed : Str) (s t : C.State) (u : Unit {0})
      → store_envelope C P nonce sealed s ≡ (ok u, t)
      → own nonce_key ≡ false
      → own ciphertext_key ≡ false
      → own envelope_version_key ≡ false
      → AgreeOn C own s t
  store_envelope-AgreeOn P nonce sealed s t u h x y z =
      let one = C.set_str nonce_key (P.encode_raw nonce) s in
      let two = C.set_str ciphertext_key (P.encode_raw sealed) one.1 in
      let three = C.set_int envelope_version_key format_version two.1 in
      let (_, h1) = set-ok nonce_key one.0 one.1 t (store_ciphertext C P sealed) u h in
      let (_, h2) =
        set-ok ciphertext_key two.0 two.1 t (store_int C envelope_version_key format_version) u
          h1 in
      let (_, e) = last_set-ok envelope_version_key three.0 three.1 t u h2 in
      subst (AgreeOn C own s) e (
        three_sets nonce_key (P.encode_raw nonce) ciphertext_key (P.encode_raw sealed)
          envelope_version_key format_version s x y z)
