-- ===== src/Storage/Types.antt =====
-- `IFileContext` as operations on a file, and the errors that they return.
use safe_disk.Base.{ℕ, Bool, Option, List}

-- `io.EOF`, `io.ErrUnexpectedEOF`, and any other error by a number.
pub data IoError : Type 0 where
  eof unexpected_eof : IoError
  failed : ℕ → IoError

-- An operation gives its results and the file after it; `none` is a nil error. `Read(p)` and
-- `ReadAt(p, off)` are asked with the length of p and give the bytes that they put in it.
-- `size`, `cursor` and `byte` say what the file holds.
pub record Storage : Type 1 where
  pub File : Type 0
  pub size : File → ℕ
  pub cursor : File → ℕ
  pub byte : File → ℕ → ℕ
  pub seek_start : ℕ → File → Option IoError × File
  pub seek_end : File → (ℕ × Option IoError) × File
  pub read : ℕ → File → (List ℕ × Option IoError) × File
  pub write : List ℕ → File → (ℕ × Option IoError) × File
  pub has_read_at : Bool
  pub read_at : ℕ → ℕ → File → (List ℕ × Option IoError) × File
  pub has_write_at : Bool
  pub write_at : List ℕ → ℕ → File → (ℕ × Option IoError) × File
  pub has_truncate : Bool
  pub truncate : ℕ → File → Option IoError × File
  pub sync : File → Option IoError × File
  pub close : File → Option IoError × File
