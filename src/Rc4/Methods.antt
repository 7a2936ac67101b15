-- ===== src/Rc4/Methods.antt =====
-- The methods of crypto_data/algorithm_impl/rc4/context.go: those of Context over this
-- file's keystream.
use safe_disk.Base.{ℕ, Option, none, some, List, [], ◌∷◌}
use safe_disk.Base.Int.{ℤ}
use safe_disk.Storage.Types.{IoError, unexpected_eof, Storage}
use safe_disk.Context.{Context, Opened, failed}
use safe_disk.Context as Shared
use safe_disk.Rc4.{Rc4Cipher, cipher, new_cipher_state, reset}

module _ (R : Rc4Cipher) (S : Storage) where
  -- `NewContext` with the key of its `IKeyInfo`; `error` is that of `rc4.NewCipher`.
  pub new_context : IoError → List ℕ → S.File → Opened S (cipher R)
  unfolding cipher
  new_context error [] f = failed unexpected_eof
  new_context error (b ∷ key) f = elim (new_cipher_state R) [
    | none ↦ failed error
    | some cs ↦ Shared.new_context S (cipher R) (record { last_read = cs; last_write = cs }) f
  ]

  abbrev pub ensure_append_gap : ℕ → Context S (cipher R) → Option IoError × Context S (cipher R)
  ensure_append_gap = Shared.ensure_append_gap S (cipher R)

  abbrev pub read : ℕ → Context S (cipher R) → (List ℕ × Option IoError) × Context S (cipher R)
  read = Shared.read S (cipher R)

  abbrev pub write : List ℕ → Context S (cipher R) → (ℕ × Option IoError) × Context S (cipher R)
  write = Shared.write S (cipher R)

  abbrev pub seek : ℤ → ℕ → Context S (cipher R) → (ℕ × Option IoError) × Context S (cipher R)
  seek = Shared.seek S (cipher R)

  -- `Close` resets both ciphers first.
  pub close : Context S (cipher R) → Option IoError × Context S (cipher R)
  unfolding cipher
  close c = Shared.close S (cipher R) (record c {
    cipher = record {
      last_read = reset R c.cipher.last_read;
      last_write = reset R c.cipher.last_write;
    };
  })

  abbrev pub truncate : ℕ → Context S (cipher R) → Option IoError × Context S (cipher R)
  truncate = Shared.truncate S (cipher R)

  abbrev pub sync : Context S (cipher R) → Option IoError × Context S (cipher R)
  sync = Shared.sync S (cipher R)

  abbrev pub read_at :
      ℕ → ℕ → Context S (cipher R) → (List ℕ × Option IoError) × Context S (cipher R)
  read_at = Shared.read_at S (cipher R)

  abbrev pub write_at :
      List ℕ → ℕ → Context S (cipher R) → (ℕ × Option IoError) × Context S (cipher R)
  write_at = Shared.write_at S (cipher R)
