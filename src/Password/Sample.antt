-- ===== src/Password/Sample.antt =====
-- Primitives that satisfy their laws, and the deriver of PBKDF2 over a toy function, for the tests.
use safe_disk.Base.{
  subst, if◌then◌else◌, Bool-cases, inl, inr, ◌+◌, true, ◌≡◌, refl, Option, none, some, [], ◌∷◌,
  ◌++◌, length, take, replicate, length-take, length-append, arith,
}
use safe_disk.Base.Int.{ℤ}
use safe_disk.Base.Strings.{Str, codes, same, all_chars}
use safe_disk.Server.Auth.Hex.{is_byte}
use safe_disk.Config.Memory.{Maps, memory_config, memory_laws}
use safe_disk.Password.{Primitives, PrimitiveLaws}
use safe_disk.Password.Open.{Deriver, DeriverLaws, Factories}
use safe_disk.Password.Pbkdf2.{pbkdf2}
use safe_disk.Password.Pbkdf2.Laws.{pbkdf2-DeriverLaws}

abbrev pub pad : Str → Str
pad b = take 32 (b ++ replicate 32 0)

pad_size : (b : Str) → length (pad b) ≡ 32
pad_size b =
    let e : length (b ++ replicate 32 0) ≡ length b + 32 = length-append b (replicate 32 0) in
    omega (arith, length-take 32 (b ++ replicate 32 0), e)

abbrev open_sealed : Str → Option Str
open_sealed [] = none
open_sealed (c ∷ cs) = some cs

abbrev pub sample_primitives : Primitives
sample_primitives = record {
  hmac = λ key message. pad key;
  encode = λ b. b;
  decode = some;
  encode_raw = λ b. b;
  decode_raw = some;
  nonce_size = 2;
  seal = λ key nonce text domain. 1 ∷ text;
  unseal = λ key nonce sealed domain. open_sealed sealed;
}

pub sample-PrimitiveLaws : PrimitiveLaws sample_primitives
sample-PrimitiveLaws = record {
  hmac_size = λ key message. pad_size key;
  decode-encode = λ b. refl;
  decode_raw-encode_raw = λ b. refl;
  nonce_pos = omega arith;
  unseal-seal = λ key nonce text domain. refl;
  seal_long = λ key nonce text domain e. cc;
}

-- A key of 32 bytes from a password and a salt.
abbrev pub sample_derive : Str → Str → ℤ → ℤ → Str
sample_derive password salt iterations key_length = pad (password ++ salt)

abbrev pub fresh_salt : Str
fresh_salt = replicate 32 6

abbrev pub sample_deriver : Deriver Maps
sample_deriver = pbkdf2 memory_config sample_derive (some fresh_salt)

salt_of : (a b : Str) → ◌≡◌ {A = Option Str} (some a) (some b) → a ≡ b
salt_of a b h = cc

pub fresh_bytes : (b : Str) → some fresh_salt ≡ some b → all_chars is_byte b ≡ true
fresh_bytes b e = subst (λ t. all_chars is_byte t ≡ true) (salt_of fresh_salt b e) refl

pub sample-DeriverLaws : DeriverLaws memory_config sample_deriver
sample-DeriverLaws =
    pbkdf2-DeriverLaws memory_config memory_laws sample_derive (some fresh_salt) fresh_bytes

abbrev pub sample_name : Str
sample_name = codes "PBKDF2"

abbrev registered : Str → Option (Deriver Maps)
registered name = if same name sample_name then some sample_deriver else none

abbrev pub sample_factories : Factories Maps
sample_factories = record { has_data = λ name. true; has_name = λ name. true; deriver = registered }

some_deriver : (D E : Deriver Maps) → ◌≡◌ {A = Option (Deriver Maps)} (some D) (some E) → D ≡ E
some_deriver D E h = cc

-- Every deriver that is registered keeps its laws.
pub sample_derives :
    (name : Str) (D : Deriver Maps)
    → sample_factories.deriver name ≡ some D
    → DeriverLaws memory_config D
sample_derives name D h = elim (Bool-cases (same name sample_name)) [
  | inl e ↦
      let z = rw (e, registered) at h in
      subst (DeriverLaws memory_config) (some_deriver sample_deriver D z) sample-DeriverLaws
  | inr e ↦ let z = rw (e, registered) at h in cc
]
