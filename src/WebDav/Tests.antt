-- ===== src/WebDav/Tests.antt =====
-- A client that authenticates, at concrete bytes.
use safe_disk.Base.{true, false, ◌≡◌, ◌≢◌, refl, some, List, [], ◌∷◌, arith}
use safe_disk.Base.Strings.{Str, codes}
use safe_disk.WebDav.Sample.{sample_library, random_bytes, sample_nonce, sample_now, sample_header}
use safe_disk.WebDav.Fields.{
  quote, comma, no_fuel, fields, parse_digest_value, parse_digest_authorization,
}
use safe_disk.WebDav.Quoted.{parse_digest_value-quoted}
use safe_disk.WebDav.Total.{parse_digest_authorization-total}
use safe_disk.WebDav.Nonce.{valid_nonce, valid_nonce-new_nonce}
use safe_disk.WebDav.Digest.{DigestState, Request, field, expected_response, verify}
use safe_disk.WebDav.Credentials.{bearer_authorized}
use safe_disk.WebDav.Replay.{verify_all, verify_replay, verify-accepted}

valid_nonce-new_nonce_example :
    valid_nonce sample_library [] sample_nonce sample_now ≡ (true, false)
valid_nonce-new_nonce_example =
    valid_nonce-new_nonce sample_library [] random_bytes sample_nonce 1000 sample_now (λ b. refl)
      (λ m. refl) refl (omega arith) refl

parse_digest_value-quoted_example :
    parse_digest_value sample_library (quote ∷ 92 ∷ 34 ∷ 65 ∷ quote ∷ comma ∷ [])
    ≡ some (34 ∷ 65 ∷ [], comma ∷ [])
parse_digest_value-quoted_example =
    parse_digest_value-quoted sample_library (34 ∷ 65 ∷ []) (comma ∷ [])

parse_digest_authorization-total_example :
    parse_digest_authorization sample_library (codes "Digest a=b,c=d") ≢ no_fuel
parse_digest_authorization-total_example =
    parse_digest_authorization-total sample_library (λ s. omega arith) (codes "Digest a=b,c=d")

abbrev sample_state : DigestState
sample_state = record {
  username = codes "u";
  password = codes "p";
  realm = codes "r";
  key = [];
  max_nc = [];
}

abbrev sample_request : Request
sample_request = record {
  authorization = sample_header (codes "u") (codes "r");
  method = codes "GET";
  uri = codes "/f";
}

let_in : (verify sample_library sample_state sample_request sample_now).0 ≡ (true, false)
let_in = refl

verify_replay_example :
    (verify sample_library
      (verify_all sample_library
        (verify sample_library sample_state sample_request sample_now).1
        [])
      sample_request
      sample_now).0.0
    ≡ false
verify_replay_example =
    verify_replay sample_library sample_state sample_request sample_now sample_now [] refl

verify-accepted_example :
    (m : List (Str × Str)) × (parse_digest_authorization sample_library
        (sample_header (codes "u") (codes "r"))
      ≡ fields m)
    × (field (codes "username") m ≡ codes "u")
    × (field (codes "uri") m ≡ codes "/f")
    × ((valid_nonce sample_library [] (field (codes "nonce") m) sample_now).0 ≡ true)
    × (expected_response sample_library sample_state sample_request m ≡ field (codes "response") m)
verify-accepted_example = verify-accepted sample_library sample_state sample_request sample_now refl

bearer_refused : bearer_authorized (codes "Bearer a") (codes "b") ≡ false
bearer_refused = refl
