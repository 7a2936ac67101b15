-- ===== src/Password/Result.antt =====
-- The errors of the password code, and results with them.
use safe_disk.Base.{ℕ, Bool, true, false, ◌≡◌, ◌⊎◌, refl, ap, Option, none, some, inl, inr}
use safe_disk.Base.Int.{ℤ}
use safe_disk.Base.Strings.{Str}
use safe_disk.Config.{SetError}

-- An error by the check that reports it; a key of the configuration where the text names one.
pub data PasswordError : Type 0 where
  config_required no_random verifier_missing invalid_password : PasswordError
  not_stored : Str → SetError → PasswordError
  unsupported_version : Str → ℤ → PasswordError
  incomplete malformed : Str → PasswordError
  bad_length : Str → ℕ → PasswordError
  wrapping_key_too_short content_key_required content_key_too_short : PasswordError
  bad_nonce envelope_refused version_kind : PasswordError
  bad_factories no_deriver no_key : PasswordError
  invalid_path passwords_required not_locked not_loaded : PasswordError
  change_unsupported not_staged not_committed : PasswordError
  hint_not_text hint_too_long : PasswordError

pub data Result {u} (A : Type u) : Type u where
  err : PasswordError → Result A
  ok : A → Result A

-- The next check, if the last one gave a value.
abbrev pub and_then {u v} : {A : Type u} {B : Type v} → Result A → (A → Result B) → Result B
and_then (err why) next = err why
and_then (ok value) next = next value

infixl 5 ◌>>=◌
abbrev pub ◌>>=◌ {u v} : {A : Type u} {B : Type v} → Result A → (A → Result B) → Result B
first >>= next = and_then first next

infixl 5 ◌>>◌
abbrev pub ◌>>◌ {u} : {B : Type u} → Result (Unit {0}) → Result B → Result B
first >> next = and_then first (λ _. next)

abbrev pub check : Bool → PasswordError → Result (Unit {0})
check true e = ok tt
check false e = err e

abbrev pub need {ℓ} : {A : Type ℓ} → Option A → PasswordError → Result A
need none e = err e
need (some a) e = ok a

pub and_then-ok {u v} :
    {A : Type u} {B : Type v} (first : Result A) (next : A → Result B) (last : B)
    → and_then first next ≡ ok last
    → (value : A) × (first ≡ ok value) × (next value ≡ ok last)
and_then-ok (err why) next last h = cc
and_then-ok (ok value) next last h = (value, refl, h)

pub check-ok : (t : Bool) (e : PasswordError) (u : Unit {0}) → check t e ≡ ok u → t ≡ true
check-ok true e u h = refl
check-ok false e u h = cc

pub Result-cases {ℓ} :
    {A : Type ℓ} (m : Result A) → ((a : A) × (m ≡ ok a)) ⊎ ((e : PasswordError) × (m ≡ err e))
Result-cases (ok a) = inl (a, refl)
Result-cases (err e) = inr (e, refl)

abbrev value_or {ℓ} : {A : Type ℓ} → A → Result A → A
value_or a (ok b) = b
value_or a (err e) = a

pub ok-injective {ℓ} : {A : Type ℓ} (a b : A) → ◌≡◌ {A = Result A} (ok a) (ok b) → a ≡ b
ok-injective a b h = ap (value_or a) h

pub need-ok {ℓ} :
    {A : Type ℓ} (o : Option A) (e : PasswordError) (a : A) → need o e ≡ ok a → o ≡ some a
need-ok none e a h = cc
need-ok (some b) e a h = ap some (ok-injective b a h)

pub >>_assoc {ℓ} :
    {B : Type ℓ} (m n : Result (Unit {0})) (k : Result B) → ((m >> n) >> k) ≡ (m >> (n >> k))
>>_assoc (ok u) n k = refl
>>_assoc (err e) n k = refl
