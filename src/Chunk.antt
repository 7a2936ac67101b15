-- ===== src/Chunk.antt =====
-- crypto_data/crypt_utils/chunk_processor.go: a gap or a run of bytes is encrypted and written in
-- pieces of one pooled buffer. `zeros` stands for the cleared buffer, and a piece is copied before it
-- is encrypted, so the caller's bytes stay as they are.
-- A loop takes as fuel the number of bytes left: each round takes at least one.
pub mod Run
pub mod Write
pub mod WriteAt
pub mod Gap
mod Tests
use safe_disk.Base.{
  ℕ, zero, suc, ◌+◌, ◌-◌, ◌*◌, Bool, true, false, Option, none, some, List, [], length, take, drop,
  replicate, ltb, ◌==◌, if◌then◌else◌,
}
use safe_disk.Storage.Types.{IoError, Storage}

-- `ChunkBufferSize`
abbrev pub chunk_buffer_size : ℕ
chunk_buffer_size = 64 * 1024

pub min_int64 : ℕ → ℕ → ℕ
min_int64 a b = if ltb a b then a else b

module _ (S : Storage) {E : Type 0} where
  -- `FillGap`: the buffer size, the fuel, the current position and the bytes that remain
  unfoldable pub fill_gap_loop :
      (List ℕ → ℕ → E → (Option IoError × List ℕ) × E)
      → ℕ
      → ℕ
      → ℕ
      → ℕ
      → E
      → S.File
      → Option IoError × E × S.File
  unfolding min_int64
  fill_gap_loop encrypt size zero pos remaining s f = (none, s, f)
  fill_gap_loop encrypt size (suc fuel) pos remaining s f = elim (remaining == 0) [
    | true ↦ (none, s, f)
    | false ↦
        let chunk_size = min_int64 size remaining in
        let r = encrypt (replicate chunk_size 0) pos s in
        elim r.0.0 [
          | some e ↦ (some e, r.1, f)
          | none ↦
              let w = S.write r.0.1 f in
              elim w.0.1 [
                | some e ↦ (some e, r.1, w.1)
                | none ↦
                    fill_gap_loop encrypt size fuel (pos + chunk_size) (remaining - chunk_size) r.1
                      w.1
              ]
        ]
  ]

  -- The loop of `EncryptAndWriteInChunks`, with the current position, the bytes that remain and the
  -- count of bytes written. The write goes to the file's cursor.
  unfoldable pub write_loop :
      (List ℕ → ℕ → E → List ℕ × E)
      → ℕ
      → ℕ
      → ℕ
      → List ℕ
      → ℕ
      → E
      → S.File
      → (ℕ × Option IoError) × E × S.File
  unfolding min_int64
  write_loop encrypt size zero pos rest total s f = ((total, none), s, f)
  write_loop encrypt size (suc fuel) pos rest total s f = elim (length rest == 0) [
    | true ↦ ((total, none), s, f)
    | false ↦
        let chunk_size = min_int64 (length rest) size in
        let r = encrypt (take chunk_size rest) pos s in
        let w = S.write r.0 f in
        elim w.0.1 [
          | some e ↦ ((total + w.0.0, some e), r.1, w.1)
          | none ↦
              write_loop encrypt size fuel (pos + w.0.0) (drop chunk_size rest) (total + w.0.0) r.1
                w.1
        ]
  ]

  -- The loop of `EncryptAndWriteAtInChunks`: the same, but each write names its offset.
  unfoldable pub write_at_loop :
      (List ℕ → ℕ → E → List ℕ × E)
      → ℕ
      → ℕ
      → ℕ
      → List ℕ
      → ℕ
      → E
      → S.File
      → (ℕ × Option IoError) × E × S.File
  unfolding min_int64
  write_at_loop encrypt size zero pos rest total s f = ((total, none), s, f)
  write_at_loop encrypt size (suc fuel) pos rest total s f = elim (length rest == 0) [
    | true ↦ ((total, none), s, f)
    | false ↦
        let chunk_size = min_int64 (length rest) size in
        let r = encrypt (take chunk_size rest) pos s in
        let w = S.write_at r.0 pos f in
        elim w.0.1 [
          | some e ↦ ((total + w.0.0, some e), r.1, w.1)
          | none ↦
              write_at_loop encrypt size fuel (pos + w.0.0) (drop chunk_size rest) (total + w.0.0)
                r.1 w.1
        ]
  ]

  unfoldable pub fill_gap :
      ℕ
      → ℕ
      → (List ℕ → ℕ → E → (Option IoError × List ℕ) × E)
      → E
      → S.File
      → Option IoError × E × S.File
  unfolding fill_gap_loop
  fill_gap start_pos gap_size encrypt s f =
      if gap_size == 0
      then (none, s, f)
      else fill_gap_loop encrypt chunk_buffer_size gap_size start_pos gap_size s f

  unfoldable pub encrypt_and_write_in_chunks :
      List ℕ → ℕ → (List ℕ → ℕ → E → List ℕ × E) → E → S.File → (ℕ × Option IoError) × E × S.File
  unfolding write_loop
  encrypt_and_write_in_chunks p start_pos encrypt s f =
      if length p == 0
      then ((0, none), s, f)
      else write_loop encrypt chunk_buffer_size (length p) start_pos p 0 s f

  unfoldable pub encrypt_and_write_at_in_chunks :
      List ℕ → ℕ → (List ℕ → ℕ → E → List ℕ × E) → E → S.File → (ℕ × Option IoError) × E × S.File
  unfolding write_at_loop
  encrypt_and_write_at_in_chunks p offset encrypt s f =
      if length p == 0
      then ((0, none), s, f)
      else write_at_loop encrypt chunk_buffer_size (length p) offset p 0 s f
