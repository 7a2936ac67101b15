-- ===== src/Cipher.antt =====
-- Stream ciphers as the encryption contexts use them: bytes at a position of the file are combined
-- with the keystream of that position. `Cipher` is what an algorithm brings, `CipherLaws` what the
-- contexts rely on; AesCtr, AesXts, ChaCha20 and Rc4 fill both.
pub mod Keystream
mod Tests
use safe_disk.Base.{ℕ, ◌+◌, ◌≤◌, ◌≡◌, List, length}
use safe_disk.Cipher.Keystream.{xor_at}

-- The cipher works in place on `data` and may change its own state.
pub record Cipher : Type 1 where
  pub State : Type 0
  pub encrypt : List ℕ → ℕ → State → List ℕ × State
  pub decrypt : List ℕ → ℕ → State → List ℕ × State

-- Below `limit` both directions are the exclusive or with one fixed keystream.
pub record CipherLaws (K : Cipher) : Type 1 where
  pub stream : ℕ → ℕ
  pub limit : ℕ
  pub IsReady : K.State → Type 0
  pub encrypt_out :
      (p : List ℕ) (pos : ℕ) (s : K.State)
      → IsReady s
      → pos + length p ≤ limit
      → (K.encrypt p pos s).0 ≡ xor_at stream pos p
  pub encrypt_ready :
      (p : List ℕ) (pos : ℕ) (s : K.State) → IsReady s → IsReady (K.encrypt p pos s).1
  pub decrypt_out :
      (p : List ℕ) (pos : ℕ) (s : K.State)
      → IsReady s
      → pos + length p ≤ limit
      → (K.decrypt p pos s).0 ≡ xor_at stream pos p
  pub decrypt_ready :
      (p : List ℕ) (pos : ℕ) (s : K.State) → IsReady s → IsReady (K.decrypt p pos s).1
