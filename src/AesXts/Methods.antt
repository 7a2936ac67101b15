-- ===== src/AesXts/Methods.antt =====
-- The methods of crypto_data/algorithm_impl/aes_xts/context.go: those of Context over this
-- file's keystream; `Read`, which seeks, is `read` of AesXts.
use safe_disk.Base.{ℕ, Option, none, some, List}
use safe_disk.Base.Int.{ℤ}
use safe_disk.Storage.Types.{IoError, Storage}
use safe_disk.Context.{Context, Opened, failed}
use safe_disk.Context as Shared
use safe_disk.AesXts.{Blocks, cipher, check_key}

module _ (B : Blocks) (S : Storage) where
  -- `NewContext` with the key of its `IKeyInfo`.
  pub new_context : List ℕ → S.File → Opened S (cipher B)
  unfolding cipher
  new_context key f = elim (check_key key) [
    | some e ↦ failed e
    | none ↦ Shared.new_context S (cipher B) tt f
  ]

  abbrev pub ensure_append_gap : ℕ → Context S (cipher B) → Option IoError × Context S (cipher B)
  ensure_append_gap = Shared.ensure_append_gap S (cipher B)

  abbrev pub write : List ℕ → Context S (cipher B) → (ℕ × Option IoError) × Context S (cipher B)
  write = Shared.write S (cipher B)

  abbrev pub seek : ℤ → ℕ → Context S (cipher B) → (ℕ × Option IoError) × Context S (cipher B)
  seek = Shared.seek S (cipher B)

  abbrev pub close : Context S (cipher B) → Option IoError × Context S (cipher B)
  close = Shared.close S (cipher B)

  abbrev pub truncate : ℕ → Context S (cipher B) → Option IoError × Context S (cipher B)
  truncate = Shared.truncate S (cipher B)

  abbrev pub sync : Context S (cipher B) → Option IoError × Context S (cipher B)
  sync = Shared.sync S (cipher B)

  abbrev pub read_at :
      ℕ → ℕ → Context S (cipher B) → (List ℕ × Option IoError) × Context S (cipher B)
  read_at = Shared.read_at S (cipher B)

  abbrev pub write_at :
      List ℕ → ℕ → Context S (cipher B) → (ℕ × Option IoError) × Context S (cipher B)
  write_at = Shared.write_at S (cipher B)
