-- ===== src/Context/Open.antt =====
-- `NewContext` of the encryption contexts, and a file that is opened again.
use safe_disk.Base.{ℕ, ◌≡◌, refl, ◌∙◌, none, arith}
use safe_disk.Storage.{StorageLaws}
use safe_disk.Storage.Types.{Storage}
use safe_disk.Cipher.{Cipher, CipherLaws}
use safe_disk.Context.{Context, opened, new_context}
use safe_disk.Context.View.{IsValid, view, view_kept}

-- `c` is a new context of the file `f`: at its start, of its size, with its bytes.
pub record Fresh (S : Storage) (K : Cipher) (L : CipherLaws K) (f : S.File) (c : Context S K)
    : Type 0 where
  pub valid : IsValid S K L c
  pub whole : c.size ≡ S.size f
  pub start : c.pos ≡ 0
  pub cursor : S.cursor c.file ≡ 0
  pub bytes : (i : ℕ) → S.byte c.file i ≡ S.byte f i

module _ (S : Storage) (laws : StorageLaws S) (K : Cipher) (L : CipherLaws K) where
  -- If both seeks of `NewContext` succeed and the cipher is ready, it opens a valid context at
  -- the start of the file, with the size and the bytes of the file.
  pub new_context-Fresh :
      (s : K.State) (f : S.File)
      → L.IsReady s
      → (S.seek_end f).0.1 ≡ none
      → (S.seek_start 0 (S.seek_end f).1).0 ≡ none
      → (c : Context S K) × (new_context S K s f ≡ opened c) × Fresh S K L f c
  unfolding new_context
  new_context-Fresh s f ready e b =
      let f1 = (S.seek_end f).1 in
      let f2 = (S.seek_start 0 f1).1 in
      let c : Context S K = record { file = f2; cipher = s; pos = 0; size = (S.seek_end f).0.0 } in
      let same = laws.seek_end_same f in
      let same2 = laws.seek_same 0 f1 in
      (
        c,
        rw (e, b, new_context) refl,
        record {
          valid = record {
            backed = omega (arith, laws.seek_end_size f e, same.size_eq, same2.size_eq);
            ready = ready;
          };
          whole = laws.seek_end_size f e;
          start = refl;
          cursor = laws.seek_cursor 0 f1 b;
          bytes = λ i. same2.bytes i ∙ same.bytes i;
        },
      )

  -- A file whose context is dropped is opened again by `NewContext`, with a cipher that is
  -- ready, if both seeks succeed: as a valid context with the size of the file, whose position
  -- and cursor are at the start, and that shows the plain bytes that the old context showed.
  pub new_context-view :
      (s : K.State) (d : Context S K)
      → L.IsReady s
      → (S.seek_end d.file).0.1 ≡ none
      → (S.seek_start 0 (S.seek_end d.file).1).0 ≡ none
      → (c : Context S K) × (new_context S K s d.file ≡ opened c)
        × Fresh S K L d.file c
        × ((i : ℕ) → view S K L c i ≡ view S K L d i)
  new_context-view s d ready e b =
      let r = new_context-Fresh s d.file ready e b in
      (r.0, r.1, r.2, λ i. view_kept S K L d.file r.0.file i (r.2.bytes i))
