-- ===== src/Password/Writer.antt =====
-- Steps that change a store and may fail.
use safe_disk.Base.{◌⊎◌, ◌≡◌, refl, ap, sym, Option, none, some, Option-cases, inl, inr}
use safe_disk.Base.Int.{ℤ}
use safe_disk.Base.Strings.{Str}
use safe_disk.Config.{SetError, SharedConfig}
use safe_disk.Password.Result.{PasswordError, not_stored, Result, ok, err}

-- A step from a store to a result and the store afterwards.
abbrev pub Writer : Type 0 → Type 0 → Type 0
Writer S A = S → Result A × S

abbrev pub resume : {S A B : Type 0} → Result A → S → (A → Writer S B) → Result B × S
resume (ok a) s f = f a s
resume (err e) s f = (err e, s)

infixl 5 ◌>>-◌
abbrev pub ◌>>-◌ : {S A B : Type 0} → Writer S A → (A → Writer S B) → Writer S B
◌>>-◌ m f s = resume (m s).0 (m s).1 f

abbrev pub lift : {S A : Type 0} → Result A → Writer S A
lift r s = (r, s)

abbrev pub set_result : Str → Option SetError → Result (Unit {0})
set_result key none = ok tt
set_result key (some e) = err (not_stored key e)

-- `cfg.SetStr` and `cfg.SetInt` with the wrapped error.
abbrev pub store_str : (C : SharedConfig) → Str → Str → Writer C.State (Unit {0})
store_str C key v s = (set_result key (C.set_str key v s).0, (C.set_str key v s).1)

abbrev pub store_int : (C : SharedConfig) → Str → ℤ → Writer C.State (Unit {0})
store_int C key v s = (set_result key (C.set_int key v s).0, (C.set_int key v s).1)

module _ {S A B : Type 0} where
  pub resume-ok :
      (r : Result A) (s t : S) (f : A → Writer S B) (b : B)
      → resume r s f ≡ (ok b, t)
      → (a : A) × (r ≡ ok a) × (f a s ≡ (ok b, t))
  resume-ok (ok a) s t f b h = (a, refl, h)
  resume-ok (err e) s t f b h = cc

-- A set and what follows it.
module _ {S B : Type 0} (key : Str) (o : Option SetError) (s t : S) (f : Writer S B) where
  pub set-ok :
      (b : B) → resume (set_result key o) s (λ _. f) ≡ (ok b, t) → (o ≡ none) × (f s ≡ (ok b, t))
  set-ok b h = elim (Option-cases o) [
    | inl e ↦ (e, rw (e, set_result, resume) at h)
    | inr (x, e) ↦ let z = rw (e, set_result, resume) at h in cc
  ]

  pub set-err :
      (e : PasswordError)
      → resume (set_result key o) s (λ _. f) ≡ (err e, t)
      → (t ≡ s) ⊎ (f s ≡ (err e, t))
  set-err e h = elim (Option-cases o) [
    | inl a ↦ inr (rw (a, set_result, resume) at h)
    | inr (x, a) ↦ let z = rw (a, set_result, resume) at h in inl (sym (ap (λ p. p.1) z))
  ]

-- A set that is the last step.
module _ {S : Type 0} (key : Str) (o : Option SetError) (s t : S) where
  pub last_set-ok :
      (u : Unit {0})
      → ◌≡◌ {A = Result (Unit {0}) × S} (set_result key o, s) (ok u, t)
      → (o ≡ none) × (s ≡ t)
  last_set-ok u h = elim (Option-cases o) [
    | inl e ↦ (e, ap (λ p. p.1) h)
    | inr (x, e) ↦ let z = rw (e, set_result) at h in cc
  ]

  pub last_set-err :
      (e : PasswordError)
      → ◌≡◌ {A = Result (Unit {0}) × S} (set_result key o, s) (err e, t)
      → (x : SetError) × (e ≡ not_stored key x)
  last_set-err e h = elim (Option-cases o) [
    | inl a ↦ let z = rw (a, set_result) at h in cc
    | inr (x, a) ↦ let z = rw (a, set_result) at h in (x, cc)
  ]
