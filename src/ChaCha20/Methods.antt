-- ===== src/ChaCha20/Methods.antt =====
-- The methods of crypto_data/algorithm_impl/chacha20/context.go: those of Context over this
-- file's keystream.
use safe_disk.Base.{ℕ, Option, none, some, List}
use safe_disk.Base.Int.{ℤ}
use safe_disk.Storage.Types.{IoError, Storage}
use safe_disk.Context.{Context, Opened, failed}
use safe_disk.Context as Shared
use safe_disk.ChaCha20.{ChaCha, cipher, check_key}

module _ (C : ChaCha) (S : Storage) where
  -- `NewContext` with the key of its `IKeyInfo`.
  pub new_context : List ℕ → S.File → Opened S (cipher C)
  unfolding cipher
  new_context key f = elim (check_key key) [
    | some e ↦ failed e
    | none ↦ Shared.new_context S (cipher C) tt f
  ]

  abbrev pub ensure_append_gap : ℕ → Context S (cipher C) → Option IoError × Context S (cipher C)
  ensure_append_gap = Shared.ensure_append_gap S (cipher C)

  abbrev pub read : ℕ → Context S (cipher C) → (List ℕ × Option IoError) × Context S (cipher C)
  read = Shared.read S (cipher C)

  abbrev pub write : List ℕ → Context S (cipher C) → (ℕ × Option IoError) × Context S (cipher C)
  write = Shared.write S (cipher C)

  abbrev pub seek : ℤ → ℕ → Context S (cipher C) → (ℕ × Option IoError) × Context S (cipher C)
  seek = Shared.seek S (cipher C)

  abbrev pub close : Context S (cipher C) → Option IoError × Context S (cipher C)
  close = Shared.close S (cipher C)

  abbrev pub truncate : ℕ → Context S (cipher C) → Option IoError × Context S (cipher C)
  truncate = Shared.truncate S (cipher C)

  abbrev pub sync : Context S (cipher C) → Option IoError × Context S (cipher C)
  sync = Shared.sync S (cipher C)

  abbrev pub read_at :
      ℕ → ℕ → Context S (cipher C) → (List ℕ × Option IoError) × Context S (cipher C)
  read_at = Shared.read_at S (cipher C)

  abbrev pub write_at :
      List ℕ → ℕ → Context S (cipher C) → (ℕ × Option IoError) × Context S (cipher C)
  write_at = Shared.write_at S (cipher C)
