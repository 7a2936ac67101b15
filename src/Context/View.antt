-- ===== src/Context/View.antt =====
-- The plain bytes behind a context, and what its methods may assume of it.
use safe_disk.Base.{ℕ, ◌≤◌, ◌≡◌, ap, ◌∙◌, bit_xor}
use safe_disk.Base.Bits.{bit_xor-bit_xor}
use safe_disk.Storage.Types.{Storage}
use safe_disk.Cipher.{Cipher, CipherLaws}
use safe_disk.Chunk.Run.{Encrypts}
use safe_disk.Context.{Context}

module _ (S : Storage) (K : Cipher) (L : CipherLaws K) where
  -- The i-th plain byte.
  abbrev pub view : Context S K → ℕ → ℕ
  view c i = bit_xor (S.byte c.file i) (L.stream i)

-- The file holds the bytes that the context counts, and the cipher is as its laws want it.
pub record IsValid (S : Storage) (K : Cipher) (L : CipherLaws K) (c : Context S K) : Type 0 where
  pub backed : c.size ≤ S.size c.file
  pub ready : L.IsReady c.cipher

module _ (S : Storage) (K : Cipher) (L : CipherLaws K) where
  pub encrypts : Encrypts L.IsReady L.stream L.limit K.encrypt
  encrypts = record { out = L.encrypt_out; ready = L.encrypt_ready }

  -- Bytes that the file keeps are seen as before.
  pub view_kept :
      (f g : S.File) (i : ℕ)
      → S.byte g i ≡ S.byte f i
      → bit_xor (S.byte g i) (L.stream i) ≡ bit_xor (S.byte f i) (L.stream i)
  view_kept f g i e = ap (λ b. bit_xor b (L.stream i)) e

  -- A byte that was written as `bit_xor b (stream i)` is seen as `b`.
  pub view_written :
      (g : S.File) (i b : ℕ)
      → S.byte g i ≡ bit_xor b (L.stream i)
      → bit_xor (S.byte g i) (L.stream i) ≡ b
  view_written g i b e = ap (λ x. bit_xor x (L.stream i)) e ∙ bit_xor-bit_xor b (L.stream i)
