-- ===== src/Rc4.antt =====
-- crypto_data/algorithm_impl/rc4/context.go. RC4 itself (crypto/rc4) is a parameter: a cipher gives
-- the bytes of its keystream one after another, so the code keeps one cipher for reading and one for
-- writing, each with the position that it has reached, and starts a new one for any other place.
pub mod Laws
pub mod Methods
use safe_disk.Base.{
  ℕ, zero, suc, ◌+◌, ◌-◌, ◌≡◌, ◌≢◌, true, false, List, [], length, replicate, Option, none, some,
  if◌then◌else◌, ltb, ◌==◌,
}
use safe_disk.Storage.Types.{IoError, unexpected_eof}
use safe_disk.Cipher.{Cipher}
use safe_disk.Cipher.Keystream.{xor_at}
use safe_disk.Chunk.{chunk_buffer_size}

-- `rc4.NewCipher(key)` for the context's key (`none` is its error), and `XORKeyStream`.
pub record Rc4Cipher : Type 1 where
  pub State : Type 0
  pub new_cipher : Option State
  pub xor_key_stream : List ℕ → State → List ℕ × State
  pub reset : State → State

-- A cipher stands at a place of the key's stream, and moves on by what it has combined.
pub record Rc4Laws (R : Rc4Cipher) : Type 0 where
  pub stream : ℕ → ℕ
  pub place : R.State → ℕ
  pub start : (s : R.State) → R.new_cipher ≡ some s → place s ≡ 0
  pub out : (p : List ℕ) (s : R.State) → (R.xor_key_stream p s).0 ≡ xor_at stream (place s) p
  pub move : (p : List ℕ) (s : R.State) → place (R.xor_key_stream p s).1 ≡ place s + length p
  pub key_fits : R.new_cipher ≢ none

module _ (R : Rc4Cipher) where
  pub record CipherState : Type 0 where
    pub cipher : R.State
    pub pos : ℕ

  pub new_cipher_state : Option CipherState
  new_cipher_state = elim R.new_cipher [
    | none ↦ none
    | some s ↦ some (record { cipher = s; pos = 0 })
  ]

  -- The loop that throws bytes away, with the bytes that remain as fuel too.
  pub discard : ℕ → ℕ → ℕ → R.State → R.State
  discard size zero remaining s = s
  discard size (suc fuel) remaining s = elim (remaining == 0) [
    | true ↦ s
    | false ↦
        let chunk_size = if ltb size remaining then size else remaining in
        discard size fuel (remaining - chunk_size) (R.xor_key_stream (replicate chunk_size 0) s).1
  ]

  -- `EncryptAt`: the cipher at hand serves its own position; for any other a new one is moved there
  -- and forgotten.
  pub encrypt_at : List ℕ → ℕ → CipherState → List ℕ × CipherState
  unfolding discard
  encrypt_at p pos cs =
      if pos == cs.pos
      then (let r = R.xor_key_stream p cs.cipher in
          (r.0, record { cipher = r.1; pos = cs.pos + length p }))
      else elim R.new_cipher [
        | none ↦ (p, cs)
        | some s ↦ ((R.xor_key_stream p (discard chunk_buffer_size pos pos s)).0, cs)
      ]

  pub decrypt_at : List ℕ → ℕ → CipherState → List ℕ × CipherState
  decrypt_at = encrypt_at

  pub reset : CipherState → CipherState
  reset cs = record { cipher = R.reset cs.cipher; pos = 0 }

  -- `lastReadCipher` and `lastWriteCipher` of the context.
  pub record Ciphers : Type 0 where
    pub last_read : CipherState
    pub last_write : CipherState

  pub cipher : Cipher
  unfolding encrypt_at decrypt_at
  cipher = record {
    State = Ciphers;
    encrypt =
        λ p pos s. let r = encrypt_at p pos s.last_write in (r.0, record s { last_write = r.1 });
    decrypt =
        λ p pos s. let r = decrypt_at p pos s.last_read in (r.0, record s { last_read = r.1 });
  }
