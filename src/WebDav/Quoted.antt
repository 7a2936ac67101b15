-- ===== src/WebDav/Quoted.antt =====
-- A quoted value is read back.
use safe_disk.Base.{
  ℕ, true, false, ◌||◌, ◌==◌, ◌≡◌, refl, ap, sym, ◌∙◌, some, [], ◌∷◌, Bool-cases, inl, inr,
}
use safe_disk.Base.Strings.{Str, or_false}
use safe_disk.WebDav.{Library}
use safe_disk.WebDav.Fields.{quote, backslash, push, parse_quoted, parse_digest_value}

-- A value as a client writes it: in quotes, with a backslash before each quote and each backslash.
abbrev pub escape : Str → Str → Str
escape [] rest = quote ∷ rest
escape (c ∷ cs) rest = elim (c == quote || c == backslash) [
  | true ↦ backslash ∷ c ∷ escape cs rest
  | false ↦ c ∷ escape cs rest
]

module _ (c : ℕ) (cs rest : Str) where
  escape_special :
      (c == quote || c == backslash) ≡ true → escape (c ∷ cs) rest ≡ backslash ∷ c ∷ escape cs rest
  escape_special h = rw (h, escape) refl

  escape_plain : (c == quote || c == backslash) ≡ false → escape (c ∷ cs) rest ≡ c ∷ escape cs rest
  escape_plain h = rw (h, escape) refl

-- A value in quotes is not empty.
escape_cons : (cs rest : Str) → (d : ℕ) × (ds : Str) × (escape cs rest ≡ d ∷ ds)
escape_cons [] rest = (quote, rest, refl)
escape_cons (x ∷ xs) rest = elim (Bool-cases (x == quote || x == backslash)) [
  | inl e ↦ (backslash, x ∷ escape xs rest, escape_special x xs rest e)
  | inr e ↦ (x, escape xs rest, escape_plain x xs rest e)
]

-- A byte that is neither a quote nor a backslash stands for itself.
plain_byte :
    (c d : ℕ) (ds : Str)
    → (c == quote || c == backslash) ≡ false
    → parse_quoted (c ∷ d ∷ ds) ≡ push c (parse_quoted (d ∷ ds))
plain_byte c d ds h =
    let (q, b) = or_false (c == quote) (c == backslash) h in
    rw (b, parse_quoted) (rw (q, parse_quoted) refl)

parse_quoted-escape : (v rest : Str) → parse_quoted (escape v rest) ≡ some (v, rest)
parse_quoted-escape [] [] = refl
parse_quoted-escape [] (d ∷ ds) = refl
parse_quoted-escape (c ∷ cs) rest = elim (Bool-cases (c == quote || c == backslash)) [
  | inl e ↦ ap parse_quoted (escape_special c cs rest e) ∙ ap (push c) (parse_quoted-escape cs rest)
  | inr e ↦
      let (d, ds, p) = escape_cons cs rest in
      ap parse_quoted (escape_plain c cs rest e)
      ∙ ap (λ t. parse_quoted (c ∷ t)) p
      ∙ plain_byte c d ds e
      ∙ sym (ap (λ t. push c (parse_quoted t)) p)
      ∙ ap (push c) (parse_quoted-escape cs rest)
]

-- `parseDigestValue` reads a value back that is written in quotes, with a backslash before each
-- quote and backslash, and leaves what follows it.
pub parse_digest_value-quoted :
    (L : Library) (v rest : Str) → parse_digest_value L (quote ∷ escape v rest) ≡ some (v, rest)
parse_digest_value-quoted L v rest = parse_quoted-escape v rest
