-- ===== src/WebDav/Nonce.antt =====
-- The nonces of a digest: the time of issue and random bytes, with their MAC.
use safe_disk.Base.{
  ℕ, ◌+◌, ◌-◌, ◌*◌, ◌<◌, Bool, true, false, ◌&&◌, ltb, leb, ◌==◌, ==_iff, ◌≡◌, refl, ap, sym, ◌∙◌,
  Option, none, some, ◌++◌, length, take, drop, length-append, if◌then◌else◌, arith,
}
use safe_disk.Base.Strings.{Str, same, same_refl}
use safe_disk.WebDav.{Library}
use safe_disk.WebDav.Bytes.{put_bytes, value_of, value_of-put_bytes, take_front, drop_front}

-- Times are nanoseconds, or seconds where the code asks for those.
abbrev pub second : ℕ
second = 1000000000

abbrev pub nonce_lifetime : ℕ
nonce_lifetime = 300 * second

abbrev pub clock_skew : ℕ
clock_skew = 30 * second

-- 2^63 less the seconds from year 1 to 1970, which `time.Unix` adds to an int64: from here on the sum
-- wraps, to a time long ago.
abbrev pub wrap_second : ℕ
wrap_second = 9223371974719179008

-- Of a nonce issued at a second: whether it is valid now, and whether it is stale. A second that makes
-- `time.Unix` wrap, or that is negative as an int64, is long ago.
abbrev pub judge_age : ℕ → ℕ → Bool × Bool
judge_age issued now =
    if leb wrap_second issued
    then (false, true)
    else if ltb (now + clock_skew) (issued * second)
    then (false, false)
    else if ltb nonce_lifetime (now - issued * second)
    then (false, true)
    else (true, false)

module _ (L : Library) where
  -- `newNonce`, with what the reader of random bytes gives.
  abbrev pub nonce_payload : ℕ → Str → Str
  nonce_payload seconds random = put_bytes 8 seconds ++ random

  abbrev pub new_nonce : Str → ℕ → Option Str → Option Str
  new_nonce key seconds none = none
  new_nonce key seconds (some random) =
      some
        (L.encode_url (nonce_payload seconds random ++ L.hmac key (nonce_payload seconds random)))

  abbrev pub judge_payload : Str → Option Str → ℕ → Bool × Bool
  judge_payload key none now = (false, false)
  judge_payload key (some payload) now =
      if length payload == 56
      then if same (drop 24 payload) (L.hmac key (take 24 payload))
        then judge_age (value_of (take 8 payload)) now
        else (false, false)
      else (false, false)

  -- `validNonce`
  abbrev pub valid_nonce : Str → Str → ℕ → Bool × Bool
  valid_nonce key value now = judge_payload key (L.decode_url value) now

judge_age_lem :
    (issued now : ℕ)
    → issued < wrap_second
    → judge_age issued now ≡ (
      leb (issued * second) (now + clock_skew) && leb now (issued * second + nonce_lifetime),
      ltb (issued * second + nonce_lifetime) now,
    )
judge_age_lem issued now h = ground arith

text_made : (a b : Str) → ◌≡◌ {A = Option Str} (some a) (some b) → a ≡ b
text_made a b h = cc

module _ (L : Library) (key : Str) (now : ℕ) where
  -- A payload of 24 bytes with its MAC is judged by its age.
  judge-signed :
      (p m : Str)
      → length p ≡ 24
      → length m ≡ 32
      → m ≡ L.hmac key p
      → judge_payload L key (some (p ++ m)) now ≡ judge_age (value_of (take 8 (p ++ m))) now
  judge-signed p m lp lm signed =
      let size : length (p ++ m) ≡ 56 = omega (arith, length-append p m) in
      let front : take 24 (p ++ m) ≡ p = ap (λ n. take n (p ++ m)) (sym lp) ∙ take_front p m in
      let back : drop 24 (p ++ m) ≡ m = ap (λ n. drop n (p ++ m)) (sym lp) ∙ drop_front p m in
      let mac : same (drop 24 (p ++ m)) (L.hmac key (take 24 (p ++ m))) ≡ true =
        ap (λ t. same t (L.hmac key (take 24 (p ++ m)))) (back ∙ signed)
        ∙ ap (λ t. same (L.hmac key p) (L.hmac key t)) front
        ∙ same_refl (L.hmac key p) in
      rw ((==_iff (length (p ++ m)) 56).1 size, judge_payload) (rw (mac, judge_payload) refl)

-- A nonce issued at a second that `time.Unix` takes without wrapping, below 2^63 less
-- 62135596800, is valid exactly from 30 seconds before that to five minutes behind it, and stale
-- after that, if base64 decodes what it encodes, the MAC has 32 bytes and the random part 16.
pub valid_nonce-new_nonce :
    (L : Library) (key random nonce : Str) (seconds now : ℕ)
    → ((b : Str) → L.decode_url (L.encode_url b) ≡ some b)
    → ((message : Str) → length (L.hmac key message) ≡ 32)
    → length random ≡ 16
    → seconds < wrap_second
    → new_nonce L key seconds (some random) ≡ some nonce
    → valid_nonce L key nonce now ≡ (
      leb (seconds * second) (now + clock_skew) && leb now (seconds * second + nonce_lifetime),
      ltb (seconds * second + nonce_lifetime) now,
    )
valid_nonce-new_nonce L key random nonce seconds now decoded sized len small made =
    let p = nonce_payload L seconds random in
    let lp : length p ≡ 24 = omega (arith, length-append (put_bytes 8 seconds) random, len) in
    ap (λ t. valid_nonce L key t now)
      (sym (text_made (L.encode_url (p ++ L.hmac key p)) nonce made))
    ∙ ap (λ o. judge_payload L key o now) (decoded (p ++ L.hmac key p))
    ∙ judge-signed L key now p (L.hmac key p) lp (sized p) refl
    ∙ ap (λ n. judge_age n now) (value_of-put_bytes 8 seconds (omega arith))
    ∙ judge_age_lem seconds now small
