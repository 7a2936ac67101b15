-- ===== src/WebDav/Replay.antt =====
-- No request is let in twice.
use safe_disk.Base.{
  ℕ, ◌≤◌, Bool, true, false, not, ◌&&◌, leb, ◌==◌, ◌≡◌, refl, ap, sym, ◌∙◌, Option, none, some,
  List, [], ◌∷◌, length, Bool-cases, inl, inr, arith,
}
use safe_disk.Base.Strings.{Str, codes, same, same_eq, and_true, is_empty}
use safe_disk.GoMap.{lookup, insert}
use safe_disk.GoMap.Laws.{lookup-insert, lookup-insert_cases}
use safe_disk.Config.Memory.{str_eq}
use safe_disk.WebDav.{Library}
use safe_disk.WebDav.Fields.{Parsed, fields, malformed, no_fuel, parse_digest_authorization}
use safe_disk.WebDav.Nonce.{valid_nonce}
use safe_disk.WebDav.Digest.{
  DigestState, Request, field, parse_hex, Verdict, refused, passed, ensure, counter_key,
  is_lower_hex, expected_response, admit_counter, admit_parsed, admit, count_by, conclude, verify,
}

ensure-passed :
    (test stale : Bool) (next : Verdict) (k : Str) (n : ℕ)
    → ensure test stale next ≡ passed k n
    → (test ≡ true) × (next ≡ passed k n)
ensure-passed true stale next k n h = (refl, h)
ensure-passed false stale next k n h = cc

passed-injective : (k j : Str) (n m : ℕ) → passed k n ≡ passed j m → (k ≡ j) × (n ≡ m)
passed-injective k j n m h = (cc, cc)

module _ (L : Library) where
  admit_counter-passed :
      (d : DigestState) (r : Request) (m : List (Str × Str)) (o : Option ℕ) (k : Str) (n : ℕ)
      → admit_counter L d r m o ≡ passed k n
      → (o ≡ some n)
        × (k ≡ counter_key m)
        × (same (expected_response L d r m) (field (codes "response") m) ≡ true)
  admit_counter-passed d r m none k n h = cc
  admit_counter-passed d r m (some nc) k n h =
      let response = field (codes "response") m in
      let (_, h1) =
        ensure-passed (not (nc == 0) && not (is_empty (field (codes "cnonce") m))) false _ k n h in
      let (_, h2) = ensure-passed (is_lower_hex response 64) false _ k n h1 in
      let (signed, h3) = ensure-passed (same (expected_response L d r m) response) false _ k n h2 in
      let (p, q) = passed-injective (counter_key m) k nc n h3 in (ap some q, sym p, signed)

  -- What a request that passes has shown, and what it is counted as.
  pub admit-passed :
      (d : DigestState) (r : Request) (now : ℕ) (k : Str) (n : ℕ) (p : Parsed)
      → admit_parsed L d r now p ≡ passed k n
      → (m : List (Str × Str)) × (p ≡ fields m)
        × (k ≡ counter_key m)
        × (parse_hex (some 0) (field (codes "nc") m) ≡ some n)
        × (field (codes "username") m ≡ d.username)
        × (field (codes "uri") m ≡ r.uri)
        × ((valid_nonce L d.key (field (codes "nonce") m) now).0 ≡ true)
        × (expected_response L d r m ≡ field (codes "response") m)
  admit-passed d r now k n malformed h = cc
  admit-passed d r now k n no_fuel h = cc
  admit-passed d r now k n (fields m) h =
      let user = same (field (codes "username") m) d.username in
      let realm = same (field (codes "realm") m) d.realm in
      let nonce = valid_nonce L d.key (field (codes "nonce") m) now in
      let nc = field (codes "nc") m in
      let (_, h1) =
        ensure-passed
          (L.equal_fold (field (codes "algorithm") m) (codes "SHA-256")
            && same (field (codes "qop") m) (codes "auth"))
          false _ k n h in
      let (who, h2) = ensure-passed (user && realm) false _ k n h1 in
      let (where_to, h3) = ensure-passed (same (field (codes "uri") m) r.uri) false _ k n h2 in
      let (fresh, h4) = ensure-passed nonce.0 nonce.1 _ k n h3 in
      let (_, h5) = ensure-passed (length nc == 8) false _ k n h4 in
      let (o, key, signed) = admit_counter-passed d r m (parse_hex (some 0) nc) k n h5 in
      (
        m,
        refl,
        key,
        o,
        same_eq (field (codes "username") m) d.username (and_true user realm who).0,
        same_eq (field (codes "uri") m) r.uri where_to,
        fresh,
        same_eq (expected_response L d r m) (field (codes "response") m) signed,
      )

fields-injective : (x y : List (Str × Str)) → fields x ≡ fields y → x ≡ y
fields-injective x y h = cc

number-injective : (n m : ℕ) → ◌≡◌ {A = Option ℕ} (some n) (some m) → n ≡ m
number-injective n m h = cc

raised :
    (m previous nc n : ℕ)
    → ◌≡◌ {A = Option ℕ} (some m) (some previous)
    → leb nc previous ≡ false
    → n ≤ m
    → n ≤ nc
raised m previous nc n e h le = let q = number-injective m previous e in ground arith

-- The counter of a key has reached a number.
abbrev HasReached : DigestState → Str → ℕ → Type 0
HasReached d k n = (m : ℕ) × (lookup str_eq k d.max_nc ≡ some m) × (n ≤ m)

reached_insert :
    (d : DigestState) (key : Str) (nc : ℕ) (k : Str) (n : ℕ)
    → HasReached d k n
    → (k ≡ key → n ≤ nc)
    → HasReached (record d { max_nc = insert str_eq key nc d.max_nc }) k n
reached_insert d key nc k n (m, found, le) higher =
    elim (lookup-insert_cases str_eq k key nc d.max_nc) [
      | inl e ↦ (
        nc,
        ap (λ t. lookup str_eq t (insert str_eq key nc d.max_nc)) e
            ∙ lookup-insert str_eq key nc d.max_nc,
        higher e,
      )
      | inr same ↦ (m, same ∙ found, le)
    ]

module _ (L : Library) where
  -- A call never takes a counter back.
  count_reached :
      (o : Option ℕ) (key : Str) (nc : ℕ) (d : DigestState) (k : Str) (n : ℕ)
      → lookup str_eq key d.max_nc ≡ o
      → HasReached d k n
      → HasReached (count_by L o key nc d).1 k n
  count_reached none key nc d k n at (m, found, le) =
      reached_insert d key nc k n (m, found, le)
        (λ e. let z = sym found ∙ ap (λ t. lookup str_eq t d.max_nc) e ∙ at in cc)
  count_reached (some previous) key nc d k n at (m, found, le) =
      elim (Bool-cases (leb nc previous)) [
        | inl e ↦ rw (e, count_by) (m, found, le)
        | inr e ↦
            let higher : k ≡ key → n ≤ nc = λ q.
              let z : some m ≡ some previous =
                sym found ∙ ap (λ t. lookup str_eq t d.max_nc) q ∙ at in
              raised m previous nc n z e le in
            rw (e, count_by) (reached_insert d key nc k n (m, found, le) higher)
      ]

  conclude_reached :
      (v : Verdict) (d : DigestState) (k : Str) (n : ℕ)
      → HasReached d k n
      → HasReached (conclude L v d).1 k n
  conclude_reached (refused stale) d k n h = h
  conclude_reached (passed key nc) d k n h =
      count_reached (lookup str_eq key d.max_nc) key nc d k n refl h

  -- A request that is let in is counted.
  count_accepted :
      (o : Option ℕ) (key : Str) (nc : ℕ) (d : DigestState)
      → (count_by L o key nc d).0.0 ≡ true
      → HasReached (count_by L o key nc d).1 key nc
  count_accepted none key nc d h = (nc, lookup-insert str_eq key nc d.max_nc, omega arith)
  count_accepted (some previous) key nc d h = elim (Bool-cases (leb nc previous)) [
    | inl e ↦ let z = rw (e, count_by) at h in cc
    | inr e ↦ rw (e, count_by) (nc, lookup-insert str_eq key nc d.max_nc, omega arith)
  ]

  conclude_accepted :
      (v : Verdict) (d : DigestState)
      → (conclude L v d).0.0 ≡ true
      → (k : Str) × (n : ℕ) × (v ≡ passed k n) × HasReached (conclude L v d).1 k n
  conclude_accepted (refused stale) d h = cc
  conclude_accepted (passed key nc) d h =
      (key, nc, refl, count_accepted (lookup str_eq key d.max_nc) key nc d h)

  -- A request whose counter has been reached is not let in.
  conclude_refused :
      (k : Str) (n : ℕ) (d : DigestState)
      → HasReached d k n
      → (conclude L (passed k n) d).0.0 ≡ false
  conclude_refused k n d (m, found, le) =
      let low : leb n m ≡ true = ground arith in
      ap (λ o. (count_by L o k n d).0.0) found ∙ rw (low, count_by) refl

  -- The calls of `verify`, one after another, each at its time.
  abbrev pub verify_all : DigestState → List (Request × ℕ) → DigestState
  verify_all d [] = d
  verify_all d ((r, now) ∷ later) = verify_all (verify L d r now).1 later

  verify_all_reached :
      (later : List (Request × ℕ)) (d : DigestState) (k : Str) (n : ℕ)
      → HasReached d k n
      → HasReached (verify_all d later) k n
  verify_all_reached [] d k n h = h
  verify_all_reached ((r, now) ∷ later) d k n h =
      verify_all_reached later (verify L d r now).1 k n (conclude_reached (admit L d r now) d k n h)

  -- The verdict on a request, at any time and by any state, is a refusal or the count of its header.
  refused_again :
      (d e : DigestState) (r : Request) (now then' : ℕ) (k : Str) (n : ℕ) (v : Verdict)
      → admit L d r now ≡ passed k n
      → admit L e r then' ≡ v
      → HasReached e k n
      → (conclude L v e).0.0 ≡ false
  refused_again d e r now then' k n (refused stale) h g reached = refl
  refused_again d e r now then' k n (passed j m) h g reached =
      let p = parse_digest_authorization L r.authorization in
      let (x, px, kx, nx, _, _, _, _) = admit-passed L d r now k n p h in
      let (y, py, ky, ny, _, _, _, _) = admit-passed L e r then' j m p g in
      let same_fields : x ≡ y = fields-injective x y (sym px ∙ py) in
      let same_key : k ≡ j = kx ∙ ap counter_key same_fields ∙ sym ky in
      let same_count : n ≡ m =
        number-injective n m
          (sym nx ∙ ap (λ t. parse_hex (some 0) (field (codes "nc") t)) same_fields ∙ ny) in
      ap (λ t. (conclude L (passed t m) e).0.0) (sym same_key)
      ∙ ap (λ t. (conclude L (passed k t) e).0.0) (sym same_count)
      ∙ conclude_refused k n e reached

  -- A request that `verify` has let in is never let in again, at whatever time, and whatever
  -- other requests are verified in between.
  pub verify_replay :
      (d : DigestState) (r : Request) (now then' : ℕ) (later : List (Request × ℕ))
      → (verify L d r now).0.0 ≡ true
      → (verify L (verify_all (verify L d r now).1 later) r then').0.0 ≡ false
  verify_replay d r now then' later h =
      let (k, n, v, reached) = conclude_accepted (admit L d r now) d h in
      let e = verify_all (verify L d r now).1 later in
      refused_again d e r now then' k n (admit L e r then') v refl
        (verify_all_reached later (verify L d r now).1 k n reached)

  -- A request that `verify` lets in has a well-formed digest header with the user name of the
  -- session, the URI of the request, a nonce that is valid now, and the response that the hash
  -- of the password gives.
  pub verify-accepted :
      (d : DigestState) (r : Request) (now : ℕ)
      → (verify L d r now).0.0 ≡ true
      → (m : List (Str × Str)) × (parse_digest_authorization L r.authorization ≡ fields m)
        × (field (codes "username") m ≡ d.username)
        × (field (codes "uri") m ≡ r.uri)
        × ((valid_nonce L d.key (field (codes "nonce") m) now).0 ≡ true)
        × (expected_response L d r m ≡ field (codes "response") m)
  verify-accepted d r now h =
      let (k, n, v, _) = conclude_accepted (admit L d r now) d h in
      let (m, p, _, _, user, uri, nonce, response) =
        admit-passed L d r now k n (parse_digest_authorization L r.authorization) v in
      (m, p, user, uri, nonce, response)
