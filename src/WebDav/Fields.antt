-- ===== src/WebDav/Fields.antt =====
-- `parseDigestAuthorization` and `parseDigestValue`.
use safe_disk.Base.{
  ℕ, zero, suc, true, false, ◌||◌, ◌==◌, Option, none, some, List, [], ◌∷◌, length,
}
use safe_disk.Base.Strings.{Str, codes, is_empty, starts_with}
use safe_disk.GoMap.{lookup, insert, is_some}
use safe_disk.Config.Memory.{str_eq}
use safe_disk.WebDav.{Library}

abbrev pub quote : ℕ
quote = 34

abbrev pub backslash : ℕ
backslash = 92

abbrev pub comma : ℕ
comma = 44

abbrev pub equals : ℕ
equals = 61

abbrev pub push : ℕ → Option (Str × Str) → Option (Str × Str)
push c none = none
push c (some (text, rest)) = some (c ∷ text, rest)

-- The parts of a text before and behind the first `c`, which `strings.IndexByte` finds.
abbrev pub split_first : ℕ → Str → Option (Str × Str)
split_first c [] = none
split_first c (x ∷ xs) = elim (x == c) [ true ↦ some ([], xs) | false ↦ push x (split_first c xs) ]

-- The loop of `parseDigestValue` over a quoted value, behind its first quote; none is an error.
abbrev pub parse_quoted : Str → Option (Str × Str)
parse_quoted [] = none
parse_quoted (c ∷ []) = elim (c == backslash) [
  | true ↦ none
  | false ↦ elim (c == quote) [ true ↦ some ([], []) | false ↦ none ]
]
parse_quoted (c ∷ d ∷ ds) = elim (c == backslash) [
  | true ↦ push d (parse_quoted ds)
  | false ↦ elim (c == quote) [ true ↦ some ([], d ∷ ds) | false ↦ push c (parse_quoted (d ∷ ds)) ]
]

-- What a header gives: its fields, an error, or no result because the fuel ran out.
pub data Parsed : Type 0 where
  fields : List (Str × Str) → Parsed
  malformed no_fuel : Parsed

abbrev pub drop_prefix : Str → Str → Str
drop_prefix [] s = s
drop_prefix (c ∷ p) [] = []
drop_prefix (c ∷ p) (x ∷ s) = drop_prefix p s

abbrev pub scheme : Str
scheme = codes "Digest "

module _ (L : Library) where
  abbrev pub parse_plain : Str → Option (Str × Str) → Option (Str × Str)
  parse_plain value none = some (L.trim_space value, [])
  parse_plain value (some (before, after)) = some (L.trim_space before, comma ∷ after)

  -- `parseDigestValue`
  abbrev pub parse_digest_value : Str → Option (Str × Str)
  parse_digest_value [] = none
  parse_digest_value (c ∷ cs) = elim (c == quote) [
    | true ↦ parse_quoted cs
    | false ↦ parse_plain (c ∷ cs) (split_first comma (c ∷ cs))
  ]

  -- What follows a value: the end, or a comma and more.
  abbrev pub next_field : (Str → Parsed) → Str → List (Str × Str) → Parsed
  next_field more [] known = fields known
  next_field more (c ∷ cs) known = elim (c == comma) [
    | true ↦ more (L.trim_space cs)
    | false ↦ malformed
  ]

  abbrev pub add_field :
      (List (Str × Str) → Str → Parsed) → Str → Option (Str × Str) → List (Str × Str) → Parsed
  add_field more name none known = malformed
  add_field more name (some (value, rest)) known = elim (is_some (lookup str_eq name known)) [
    | true ↦ malformed
    | false ↦
        next_field (more (insert str_eq name value known)) (L.trim_space rest)
          (insert str_eq name value known)
  ]

  abbrev pub read_field :
      (List (Str × Str) → Str → Parsed) → Option (Str × Str) → List (Str × Str) → Parsed
  read_field more none known = malformed
  read_field more (some (name, rest)) known = elim (is_empty name || is_empty (L.trim_space name)) [
    | true ↦ malformed
    | false ↦ add_field more (L.trim_space name) (parse_digest_value (L.trim_space rest)) known
  ]

  -- The loop of `parseDigestAuthorization`. A round takes a byte at least.
  abbrev pub parse_fields : ℕ → List (Str × Str) → Str → Parsed
  parse_fields zero known value = no_fuel
  parse_fields (suc fuel) known [] = fields known
  parse_fields (suc fuel) known (c ∷ cs) =
      read_field (parse_fields fuel) (split_first equals (c ∷ cs)) known

  abbrev pub parse_trimmed : Str → Parsed
  parse_trimmed [] = malformed
  parse_trimmed (c ∷ cs) = parse_fields (suc (length (c ∷ cs))) [] (c ∷ cs)

  -- `parseDigestAuthorization`
  abbrev pub parse_digest_authorization : Str → Parsed
  parse_digest_authorization value = elim (starts_with scheme value) [
    | false ↦ malformed
    | true ↦ parse_trimmed (L.trim_space (drop_prefix scheme value))
  ]
