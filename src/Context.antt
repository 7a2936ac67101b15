-- ===== src/Context.antt =====
-- The encryption context of a file: crypto_data/algorithm_impl/aes_ctr/context.go, whose methods,
-- the keystream apart, are those of chacha20/context.go and rc4/context.go as well. A method takes
-- the context and gives the new one beside its results. Offsets and sizes that the caller hands in
-- are not negative; `seek` takes any int64.
pub mod View
pub mod Open
pub mod Append
pub mod WriteAt
pub mod Write
pub mod Read
pub mod Resize
pub mod Seek
mod Tests
use safe_disk.Base.{
  ℕ, zero, suc, ◌+◌, ◌-◌, Bool, true, false, ◌&&◌, Option, none, some, List, [], length, ltb, leb,
  if◌then◌else◌,
}
use safe_disk.Base.Int.{ℤ, pos, negsuc, add_i64}
use safe_disk.Storage.Types.{IoError, unexpected_eof, Storage}
use safe_disk.Cipher.{Cipher}
use safe_disk.Chunk.{fill_gap, encrypt_and_write_in_chunks, encrypt_and_write_at_in_chunks}

pub record Context (S : Storage) (K : Cipher) : Type 0 where
  pub file : S.File
  pub cipher : K.State
  pub pos : ℕ
  pub size : ℕ

pub data Opened (S : Storage) (K : Cipher) : Type 0 where
  opened : Context S K → Opened S K
  failed : IoError → Opened S K

-- The closure that `ensure_append_gap` hands to `FillGap`.
unfoldable pub no_error {ℓ} :
    {E : Type ℓ} → (List ℕ → ℕ → E → List ℕ × E) → List ℕ → ℕ → E → (Option IoError × List ℕ) × E
no_error encrypt p start s = let r = encrypt p start s in ((none, r.0), r.1)

module _ (S : Storage) (K : Cipher) where
  -- The part of `NewContext` behind the key: the size is where `Seek(0, io.SeekEnd)` ends.
  pub new_context : K.State → S.File → Opened S K
  new_context s f =
      let e = S.seek_end f in
      elim e.0.1 [
        | some x ↦ failed x
        | none ↦
            let b = S.seek_start 0 e.1 in
            elim b.0 [
              | some x ↦ failed x
              | none ↦ opened (record { file = b.1; cipher = s; pos = 0; size = e.0.0 })
            ]
      ]

  -- `ensure_append_gap`
  pub ensure_append_gap : ℕ → Context S K → Option IoError × Context S K
  unfolding no_error
  ensure_append_gap target_pos c =
      if leb target_pos c.size
      then (none, c)
      else let gap_size = target_pos - c.size in
        let k = S.seek_start c.size c.file in
        elim k.0 [
          | some e ↦ (some e, record c { file = k.1 })
          | none ↦
              let r = fill_gap S c.size gap_size (no_error K.encrypt) c.cipher k.1 in
              elim r.0 [
                | some e ↦ (some e, record c { file = r.2; cipher = r.1 })
                | none ↦ (none, record c { file = r.2; cipher = r.1; size = target_pos })
              ]
        ]

  pub read : ℕ → Context S K → (List ℕ × Option IoError) × Context S K
  read room c =
      let r = S.read room c.file in
      let n = length r.0.0 in
      let d = K.decrypt r.0.0 c.pos c.cipher in
      if ltb 0 n
      then ((d.0, r.0.1), record c { file = r.1; cipher = d.1; pos = c.pos + n })
      else (r.0, record c { file = r.1 })

  -- The tail of `Write`: the position moves on, and the size follows it.
  pub advance : ℕ → Context S K → Context S K
  advance n c =
      if ltb 0 n
      then (let pos' = c.pos + n in
          record c { pos = pos'; size = (if ltb c.size pos' then pos' else c.size) })
      else c

  -- The error of the `Seek` before the write is dropped, as in the source.
  pub write : List ℕ → Context S K → (ℕ × Option IoError) × Context S K
  unfolding advance
  write p c =
      let g = ensure_append_gap c.pos c in
      elim g.0 [
        | some e ↦ ((0, some e), g.1)
        | none ↦
            let c1 = g.1 in
            let k = S.seek_start c1.pos c1.file in
            let r = encrypt_and_write_in_chunks S p c1.pos K.encrypt c1.cipher k.1 in
            (r.0, advance r.0.0 (record c1 { file = r.2; cipher = r.1 }))
      ]

  -- The end of `Seek`: `new_pos` is negative, or the file is asked to go there.
  pub seek_to : ℤ → Context S K → (ℕ × Option IoError) × Context S K
  seek_to (negsuc n) c = ((0, some unexpected_eof), c)
  seek_to (pos n) c =
      let k = S.seek_start n c.file in
      elim k.0 [
        | some e ↦ ((0, some e), record c { file = k.1 })
        | none ↦ ((n, none), record c { file = k.1; pos = n })
      ]

  -- `whence` is `io.SeekStart`, `io.SeekCurrent` or `io.SeekEnd`: 0, 1 or 2.
  pub seek : ℤ → ℕ → Context S K → (ℕ × Option IoError) × Context S K
  unfolding seek_to
  seek offset zero c = seek_to offset c
  seek offset (suc zero) c = seek_to (add_i64 (pos c.pos) offset) c
  seek offset (suc (suc zero)) c = seek_to (add_i64 (pos c.size) offset) c
  seek offset (suc (suc (suc w))) c = ((0, some unexpected_eof), c)

  -- The end of `Truncate`: the new size, and the position no further than it.
  pub set_size : ℕ → Context S K → Context S K
  set_size size c = record c { size = size; pos = (if ltb size c.pos then size else c.pos) }

  -- The cut of `Truncate`, where the file can be truncated.
  pub cut : Bool → ℕ → S.File → Option IoError × S.File
  cut true size f = S.truncate size f
  cut false size f = (none, f)

  pub truncate : ℕ → Context S K → Option IoError × Context S K
  unfolding set_size cut
  truncate size c =
      if ltb c.size size
      then (let g = ensure_append_gap size c in
          elim g.0 [ some e ↦ (some e, g.1) | none ↦ (none, set_size size g.1) ])
      else if ltb size c.size
      then (let t = cut S.has_truncate size c.file in
          elim t.0 [
            | some e ↦ (some e, record c { file = t.1 })
            | none ↦ (none, set_size size (record c { file = t.1 }))
          ])
      else (none, set_size size c)

  pub sync : Context S K → Option IoError × Context S K
  sync c = let r = S.sync c.file in (r.0, record c { file = r.1 })

  pub close : Context S K → Option IoError × Context S K
  close c = let r = S.close c.file in (r.0, record c { file = r.1 })

  -- The reading half of `ReadAt`: by `io.ReaderAt`, where the file has it, or by a seek and a read.
  pub fetch_by : Bool → ℕ → ℕ → S.File → (List ℕ × Option IoError) × S.File
  fetch_by true room off f = S.read_at room off f
  fetch_by false room off f =
      let k = S.seek_start off f in
      elim k.0 [ some e ↦ (([], some e), k.1) | none ↦ S.read room k.1 ]

  pub read_at : ℕ → ℕ → Context S K → (List ℕ × Option IoError) × Context S K
  unfolding fetch_by
  read_at room off c =
      let r = fetch_by S.has_read_at room off c.file in
      let d = K.decrypt r.0.0 off c.cipher in
      if ltb 0 (length r.0.0)
      then ((d.0, r.0.1), record c { file = r.1; cipher = d.1 })
      else (r.0, record c { file = r.1 })

  -- The writing half of `WriteAt`: by `io.WriterAt`, where the file has it, or by a seek and writes
  -- at the cursor.
  pub store_by : Bool → List ℕ → ℕ → K.State → S.File → (ℕ × Option IoError) × K.State × S.File
  store_by true p off s f = encrypt_and_write_at_in_chunks S p off K.encrypt s f
  store_by false p off s f =
      let k = S.seek_start off f in
      elim k.0 [
        | some e ↦ ((0, some e), s, k.1)
        | none ↦ encrypt_and_write_in_chunks S p off K.encrypt s k.1
      ]

  pub write_at : List ℕ → ℕ → Context S K → (ℕ × Option IoError) × Context S K
  unfolding store_by
  write_at p off c =
      let g = ensure_append_gap off c in
      elim g.0 [
        | some e ↦ ((0, some e), g.1)
        | none ↦
            let c1 = g.1 in
            let r = store_by S.has_write_at p off c1.cipher c1.file in
            let new_end = off + r.0.0 in
            (
              r.0,
              record c1 {
                file = r.2;
                cipher = r.1;
                size = (if ltb 0 r.0.0 && ltb c1.size new_end then new_end else c1.size);
              },
            )
      ]
