-- ===== src/WebDav/Options.antt =====
-- `normalizeOpenOptions`: the defaults of a session, and what is refused.
use safe_disk.Base.{
  ℕ, Bool, true, false, ◌||◌, ◌&&◌, leb, ◌≡◌, refl, ap, ◌∙◌, sym, subst, Option, none, some, [],
  ◌∷◌, Bool-cases, inl, inr,
}
use safe_disk.Base.Int.{ℤ, pos, negsuc}
use safe_disk.Base.Strings.{Str, codes, same}

-- `OpenOptions`
pub record OpenOptions : Type 0 where
  pub auth_mode : Str
  pub credential_visibility : Str
  pub session_lifetime : Str
  pub tls : Bool
  pub port : ℤ
  pub write_policy : Str

abbrev pub or_default : Str → Str → Str
or_default default [] = default
or_default default (c ∷ cs) = c ∷ cs

abbrev pub is_auth_mode : Str → Bool
is_auth_mode s = same s (codes "bearer") || (same s (codes "digest") || same s (codes "basic"))

abbrev pub is_visibility : Str → Bool
is_visibility s = same s (codes "once") || same s (codes "persistent")

abbrev pub is_lifetime : Str → Bool
is_lifetime s = same s (codes "ephemeral") || same s (codes "persistent")

abbrev pub is_port : ℤ → Bool
is_port (pos n) = leb n 65535
is_port (negsuc n) = false

-- The options with their defaults.
abbrev pub with_defaults : OpenOptions → OpenOptions
with_defaults o = record o {
  auth_mode = or_default (codes "bearer") o.auth_mode;
  credential_visibility = or_default (codes "once") o.credential_visibility;
  session_lifetime = or_default (codes "ephemeral") o.session_lifetime;
  write_policy = or_default (codes "readOnly") o.write_policy;
}

abbrev pub are_allowed : OpenOptions → Bool
are_allowed o =
    is_auth_mode o.auth_mode
    && (is_visibility o.credential_visibility && (is_lifetime o.session_lifetime && is_port o.port))

-- `normalizeOpenOptions`; none is an error.
abbrev pub normalize_open_options : OpenOptions → Option OpenOptions
normalize_open_options o = elim (are_allowed (with_defaults o)) [
  | true ↦ some (with_defaults o)
  | false ↦ none
]

or_default-twice :
    (c : ℕ) (cs s : Str) → or_default (c ∷ cs) (or_default (c ∷ cs) s) ≡ or_default (c ∷ cs) s
or_default-twice c cs [] = refl
or_default-twice c cs (x ∷ xs) = refl

with_defaults-twice : (o : OpenOptions) → with_defaults (with_defaults o) ≡ with_defaults o
with_defaults-twice o = λ i. record o {
  auth_mode = or_default-twice b'b' (codes "earer") o.auth_mode i;
  credential_visibility = or_default-twice b'o' (codes "nce") o.credential_visibility i;
  session_lifetime = or_default-twice b'e' (codes "phemeral") o.session_lifetime i;
  write_policy = or_default-twice b'r' (codes "eadOnly") o.write_policy i;
}

abbrev or_options : OpenOptions → Option OpenOptions → OpenOptions
or_options a none = a
or_options a (some b) = b

options_made : (a b : OpenOptions) → ◌≡◌ {A = Option OpenOptions} (some a) (some b) → a ≡ b
options_made a b h = ap (or_options a) h

normalized :
    (n : OpenOptions)
    → with_defaults n ≡ n
    → are_allowed n ≡ true
    → normalize_open_options n ≡ some n
normalized n same_options allowed =
    ap (λ x. elim (are_allowed x) as (λ _. Option OpenOptions) [ true ↦ some x | false ↦ none ])
      same_options
    ∙ rw allowed refl

-- Options that were normalized stay as they are, and any write policy that is given is kept.
pub normalize_open_options-twice :
    (o n : OpenOptions)
    → normalize_open_options o ≡ some n
    → (normalize_open_options n ≡ some n)
      × (n.write_policy ≡ or_default (codes "readOnly") o.write_policy)
normalize_open_options-twice o n h = elim (Bool-cases (are_allowed (with_defaults o))) [
  | inl e ↦
      let p = options_made (with_defaults o) n (rw (e, normalize_open_options) at h) in
      let again = with_defaults-twice o in
      (
        subst (λ x. normalize_open_options x ≡ some x) p (normalized (with_defaults o) again e),
        ap (λ x. x.write_policy) (sym p),
      )
  | inr e ↦ let z = rw (e, normalize_open_options) at h in cc
]
