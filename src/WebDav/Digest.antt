-- ===== src/WebDav/Digest.antt =====
-- `digestState.verify`: a request is let in if every check passes and its counter is a new one.
use safe_disk.Base.{
  ℕ, ◌+◌, ◌-◌, ◌*◌, Bool, true, false, not, ◌&&◌, leb, ◌==◌, Option, none, some, List, [], ◌∷◌,
  ◌++◌, length, if◌then◌else◌,
}
use safe_disk.Base.Strings.{Str, codes, same, is_empty, all_chars}
use safe_disk.GoMap.{lookup, insert}
use safe_disk.Config.Memory.{str_eq}
use safe_disk.WebDav.{Library}
use safe_disk.WebDav.Fields.{Parsed, fields, malformed, no_fuel, parse_digest_authorization}
use safe_disk.WebDav.Nonce.{valid_nonce}

-- `digestState`
pub record DigestState : Type 0 where
  pub username : Str
  pub password : Str
  pub realm : Str
  pub key : Str
  pub max_nc : List (Str × ℕ)

-- What `verify` reads of a request: the Authorization header, the method and the request URI.
pub record Request : Type 0 where
  pub authorization : Str
  pub method : Str
  pub uri : Str

-- A field of the header, empty if it is not there.
abbrev pub field : Str → List (Str × Str) → Str
field name known = elim (lookup str_eq name known) [ none ↦ [] | some v ↦ v ]

abbrev pub is_digit : ℕ → Bool
is_digit c = leb 48 c && leb c 57

abbrev pub is_lower_digit : ℕ → Bool
is_lower_digit c = if is_digit c then true else leb 97 c && leb c 102

-- `isLowerHex`
abbrev pub is_lower_hex : Str → ℕ → Bool
is_lower_hex value size = (length value == size) && all_chars is_lower_digit value

abbrev pub hex_digit : ℕ → Option ℕ
hex_digit c =
    if is_digit c
    then some (c - 48)
    else if leb 97 c && leb c 102
    then some (c - 87)
    else if leb 65 c && leb c 70
    then some (c - 55)
    else none

abbrev pub add_digit : Option ℕ → ℕ → Option ℕ
add_digit none n = none
add_digit (some d) n = some (16 * n + d)

-- `strconv.ParseUint(_, 16, 32)` of eight bytes, which is always below 2^32.
abbrev pub parse_hex : Option ℕ → Str → Option ℕ
parse_hex none s = none
parse_hex (some n) [] = some n
parse_hex (some n) (c ∷ cs) = parse_hex (add_digit (hex_digit c) n) cs

abbrev pub colon : Str → Str → Str
colon a b = a ++ 58 ∷ b

-- What the checks before the counter come to: a refusal, with whether the nonce is stale, or the key
-- of the counter with its value.
pub data Verdict : Type 0 where
  refused : Bool → Verdict
  passed : Str → ℕ → Verdict

abbrev pub ensure : Bool → Bool → Verdict → Verdict
ensure test stale next = elim test [ true ↦ next | false ↦ refused stale ]

abbrev pub counter_key : List (Str × Str) → Str
counter_key m =
    field (codes "nonce") m ++ (0 ∷ (field (codes "username") m ++ (0 ∷ field (codes "cnonce") m)))

module _ (L : Library) where
  abbrev pub expected_response : DigestState → Request → List (Str × Str) → Str
  expected_response d r m =
      let ha1 = L.digest_hash (colon d.username (colon d.realm d.password)) in
      let ha2 = L.digest_hash (colon r.method (field (codes "uri") m)) in
      L.digest_hash (
        colon ha1 (
          colon (field (codes "nonce") m) (
            colon (field (codes "nc") m)
              (colon (field (codes "cnonce") m) (colon (codes "auth") ha2)))))

  abbrev pub admit_counter : DigestState → Request → List (Str × Str) → Option ℕ → Verdict
  admit_counter d r m none = refused false
  admit_counter d r m (some nc) =
      ensure (not (nc == 0) && not (is_empty (field (codes "cnonce") m))) false (
        ensure (is_lower_hex (field (codes "response") m) 64) false (
          ensure (same (expected_response d r m) (field (codes "response") m)) false
            (passed (counter_key m) nc)))

  abbrev pub admit_fields : DigestState → Request → ℕ → List (Str × Str) → Verdict
  admit_fields d r now m =
      ensure
        (L.equal_fold (field (codes "algorithm") m) (codes "SHA-256")
          && same (field (codes "qop") m) (codes "auth"))
        false
        (ensure
          (same (field (codes "username") m) d.username && same (field (codes "realm") m) d.realm)
          false
          (ensure (same (field (codes "uri") m) r.uri) false (
            ensure (valid_nonce L d.key (field (codes "nonce") m) now).0
              (valid_nonce L d.key (field (codes "nonce") m) now).1
              (ensure (length (field (codes "nc") m) == 8) false
                (admit_counter d r m (parse_hex (some 0) (field (codes "nc") m)))))))

  abbrev pub admit_parsed : DigestState → Request → ℕ → Parsed → Verdict
  admit_parsed d r now (fields m) = admit_fields d r now m
  admit_parsed d r now malformed = refused false
  admit_parsed d r now no_fuel = refused false

  abbrev pub admit : DigestState → Request → ℕ → Verdict
  admit d r now = admit_parsed d r now (parse_digest_authorization L r.authorization)

  -- The end of `verify`, by the counter that is stored.
  abbrev pub count_by : Option ℕ → Str → ℕ → DigestState → (Bool × Bool) × DigestState
  count_by none key nc d = ((true, false), record d { max_nc = insert str_eq key nc d.max_nc })
  count_by (some previous) key nc d = elim (leb nc previous) [
    | true ↦ ((false, false), d)
    | false ↦ ((true, false), record d { max_nc = insert str_eq key nc d.max_nc })
  ]

  abbrev pub conclude : Verdict → DigestState → (Bool × Bool) × DigestState
  conclude (refused stale) d = ((false, stale), d)
  conclude (passed key nc) d = count_by (lookup str_eq key d.max_nc) key nc d

  -- `verify`: whether the request is let in, and whether its nonce is stale.
  abbrev pub verify : DigestState → Request → ℕ → (Bool × Bool) × DigestState
  verify d r now = conclude (admit d r now) d
