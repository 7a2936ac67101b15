-- ===== src/WebDav/Total.antt =====
-- The loop over the fields of a header ends.
use safe_disk.Base.{
  ℕ, zero, suc, ◌≤◌, ◌<◌, ◌||◌, ◌==◌, ◌≢◌, Option, none, some, List, [], ◌∷◌, length, Bool-cases,
  inl, inr, arith,
}
use safe_disk.Base.Strings.{Str, is_empty, starts_with}
use safe_disk.GoMap.{lookup, insert, is_some}
use safe_disk.Config.Memory.{str_eq}
use safe_disk.WebDav.{Library}
use safe_disk.WebDav.Fields.{
  quote, backslash, comma, equals, push, split_first, parse_quoted, Parsed, no_fuel, drop_prefix,
  scheme, parse_plain, parse_digest_value, next_field, add_field, read_field, parse_fields,
  parse_trimmed, parse_digest_authorization,
}

-- What is left of a text is no longer than the text.
abbrev LeavesAtMost : ℕ → Option (Str × Str) → Type 0
LeavesAtMost n none = Unit
LeavesAtMost n (some p) = length p.1 ≤ n

leaves_push :
    (c n m : ℕ) (r : Option (Str × Str)) → n ≤ m → LeavesAtMost n r → LeavesAtMost m (push c r)
leaves_push c n m none le h = tt
leaves_push c n m (some p) le h = omega arith

parse_quoted-leaves : (s : Str) → LeavesAtMost (length s) (parse_quoted s)
parse_quoted-leaves [] = tt
parse_quoted-leaves (c ∷ []) = elim (Bool-cases (c == backslash)) [
  | inl e ↦ rw (e, parse_quoted) tt
  | inr e ↦ elim (Bool-cases (c == quote)) [
    | inl q ↦ rw (e, parse_quoted) (rw (q, parse_quoted) (omega arith))
    | inr q ↦ rw (e, parse_quoted) (rw (q, parse_quoted) tt)
  ]
]
parse_quoted-leaves (c ∷ d ∷ ds) = elim (Bool-cases (c == backslash)) [
  | inl e ↦
      rw (e, parse_quoted)
        (leaves_push d (length ds) (suc (suc (length ds))) (parse_quoted ds) (omega arith)
          (parse_quoted-leaves ds))
  | inr e ↦ elim (Bool-cases (c == quote)) [
    | inl q ↦ rw (e, parse_quoted) (rw (q, parse_quoted) (omega arith))
    | inr q ↦
        rw (e, parse_quoted)
          (rw (q, parse_quoted)
            (leaves_push c (suc (length ds)) (suc (suc (length ds))) (parse_quoted (d ∷ ds))
              (omega arith) (parse_quoted-leaves (d ∷ ds))))
  ]
]

-- A text behind a separator is shorter than the text.
abbrev LeavesLess : ℕ → Option (Str × Str) → Type 0
LeavesLess n none = Unit
LeavesLess n (some p) = length p.1 < n

less_push : (c n : ℕ) (r : Option (Str × Str)) → LeavesLess n r → LeavesLess (suc n) (push c r)
less_push c n none h = tt
less_push c n (some p) h = omega arith

split_first-leaves : (c : ℕ) (s : Str) → LeavesLess (length s) (split_first c s)
split_first-leaves c [] = tt
split_first-leaves c (x ∷ xs) = elim (Bool-cases (x == c)) [
  | inl e ↦ rw (e, split_first) (omega arith)
  | inr e ↦
      rw (e, split_first) (less_push x (length xs) (split_first c xs) (split_first-leaves c xs))
]

at_most : (n m : ℕ) (r : Option (Str × Str)) → n ≤ m → LeavesAtMost n r → LeavesAtMost m r
at_most n m none le h = tt
at_most n m (some p) le h = omega arith

less_most : (n m : ℕ) (r : Option (Str × Str)) → n ≤ m → LeavesLess n r → LeavesLess m r
less_most n m none le h = tt
less_most n m (some p) le h = omega arith

module _ (L : Library) (shrinks : (s : Str) → length (L.trim_space s) ≤ length s) where
  parse_plain-leaves :
      (s : Str) (r : Option (Str × Str))
      → LeavesLess (length s) r
      → LeavesAtMost (length s) (parse_plain L s r)
  parse_plain-leaves s none h = omega arith
  parse_plain-leaves s (some p) h = omega arith

  parse_digest_value-leaves : (s : Str) → LeavesAtMost (length s) (parse_digest_value L s)
  parse_digest_value-leaves [] = tt
  parse_digest_value-leaves (c ∷ cs) = elim (Bool-cases (c == quote)) [
    | inl e ↦
        rw (e, parse_digest_value)
          (at_most (length cs) (suc (length cs)) (parse_quoted cs) (omega arith)
            (parse_quoted-leaves cs))
    | inr e ↦
        rw (e, parse_digest_value)
          (parse_plain-leaves (c ∷ cs) (split_first comma (c ∷ cs))
            (split_first-leaves comma (c ∷ cs)))
  ]

  next_field-total :
      (more : Str → Parsed) (n : ℕ) (rest : Str) (known : List (Str × Str))
      → ((t : Str) → length t < n → more t ≢ no_fuel)
      → length rest ≤ n
      → next_field L more rest known ≢ no_fuel
  next_field-total more n [] known m h = λ e. cc
  next_field-total more n (c ∷ cs) known m h = elim (Bool-cases (c == comma)) [
    | inl e ↦ rw (e, next_field) (m (L.trim_space cs) (let z = shrinks cs in omega arith))
    | inr e ↦ rw (e, next_field) (λ q. cc)
  ]

  add_field-total :
      (more : List (Str × Str) → Str → Parsed) (n : ℕ) (name : Str) (r : Option (Str × Str))
      (known : List (Str × Str))
      → ((k : List (Str × Str)) (t : Str) → length t < n → more k t ≢ no_fuel)
      → LeavesAtMost n r
      → add_field L more name r known ≢ no_fuel
  add_field-total more n name none known m h = λ e. cc
  add_field-total more n name (some p) known m h =
      elim (Bool-cases (is_some (lookup str_eq name known))) [
        | inl e ↦ rw (e, add_field) (λ q. cc)
        | inr e ↦
            let known' = insert str_eq name p.0 known in
            rw (e, add_field)
              (next_field-total (more known') n (L.trim_space p.1) known' (m known')
                (let z = shrinks p.1 in omega arith))
      ]

  read_field-total :
      (more : List (Str × Str) → Str → Parsed) (n : ℕ) (r : Option (Str × Str))
      (known : List (Str × Str))
      → ((k : List (Str × Str)) (t : Str) → length t < n → more k t ≢ no_fuel)
      → LeavesLess (suc n) r
      → read_field L more r known ≢ no_fuel
  read_field-total more n none known m h = λ e. cc
  read_field-total more n (some p) known m h =
      elim (Bool-cases (is_empty p.0 || is_empty (L.trim_space p.0))) [
        | inl e ↦ rw (e, read_field) (λ q. cc)
        | inr e ↦
            let rest = L.trim_space p.1 in
            rw (e, read_field)
              (add_field-total more n (L.trim_space p.0) (parse_digest_value L rest) known m (
                at_most (length rest) n (parse_digest_value L rest)
                  (let z = shrinks p.1 in omega arith) (parse_digest_value-leaves rest)))
      ]

  parse_fields-total :
      (fuel : ℕ) (known : List (Str × Str)) (value : Str)
      → length value < fuel
      → parse_fields L fuel known value ≢ no_fuel
  parse_fields-total zero known value h = absurd (omega arith)
  parse_fields-total (suc fuel) known [] h = λ e. cc
  parse_fields-total (suc fuel) known (c ∷ cs) h =
      read_field-total (parse_fields L fuel) fuel (split_first equals (c ∷ cs)) known
        (λ k t lt. parse_fields-total fuel k t lt)
        (less_most (suc (length cs)) (suc fuel) (split_first equals (c ∷ cs)) (omega arith)
          (split_first-leaves equals (c ∷ cs)))

  parse_trimmed-total : (s : Str) → parse_trimmed L s ≢ no_fuel
  parse_trimmed-total [] = λ e. cc
  parse_trimmed-total (c ∷ cs) =
      parse_fields-total (suc (length (c ∷ cs))) [] (c ∷ cs) (omega arith)

  -- The loop of `parseDigestAuthorization` ends within as many rounds as the header has bytes,
  -- if trimming makes no text longer.
  pub parse_digest_authorization-total :
      (value : Str) → parse_digest_authorization L value ≢ no_fuel
  parse_digest_authorization-total value = elim (Bool-cases (starts_with scheme value)) [
    | inl e ↦
        rw (e, parse_digest_authorization)
          (parse_trimmed-total (L.trim_space (drop_prefix scheme value)))
    | inr e ↦ rw (e, parse_digest_authorization) (λ q. cc)
  ]
