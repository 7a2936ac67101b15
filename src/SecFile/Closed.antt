-- ===== src/SecFile/Closed.antt =====
-- A file that was closed stays so, and its context is not called again; until then it answers as its
-- context.
use safe_disk.Base.{true, false, ◌≡◌, some, List, [], ◌∷◌}
use safe_disk.Storage.Types.{Storage}
use safe_disk.Cipher.{Cipher}
use safe_disk.Context.{Context}
use safe_disk.SecFile.{SecFile, Reply, Call, delegate, closes}

module _ (S : Storage) (K : Cipher) where
  -- The calls on the context itself.
  abbrev pub delegate_all : List Call → Context S K → List Reply × Context S K
  delegate_all [] c = ([], c)
  delegate_all (call ∷ calls) c =
      let one = delegate S K call c in
      let rest = delegate_all calls one.1 in (one.0 ∷ rest.0, rest.1)

  abbrev pub NoneCloses : List Call → Type 0
  NoneCloses [] = Unit
  NoneCloses (call ∷ calls) = (closes S K call ≡ false) × NoneCloses calls

  abbrev pub opened : Context S K → SecFile S K
  opened c = record { impl = some c; closed = false }

  abbrev pub shut : Context S K → SecFile S K
  shut c = record { impl = some c; closed = true }
