-- ===== src/Storage.antt =====
-- The file under an encryption context: `IFileContext` of native/sec_fs/crypto_data/interface.go,
-- with the optional `io.ReaderAt`, `io.WriterAt` and `Truncate` that the contexts ask for.
-- The implementation is the operating system's, so it is a parameter here: the operations, and
-- what their documentation promises of them as laws.
pub mod Types
pub mod Effects
pub mod Memory
use safe_disk.Base.{ℕ, ◌+◌, ◌≤◌, ◌<◌, ◌≡◌, ◌≢◌, Option, none, List, length, get_or}
use safe_disk.Storage.Effects.{Splice, SameBytes}
use safe_disk.Storage.Types.{IoError, Storage}

-- `Read` at `start` gave the bytes `got` of at most `room`.
pub record Got (S : Storage) (f : S.File) (start room : ℕ) (got : List ℕ) : Type 0 where
  pub fits : length got ≤ room
  pub inside : 0 < length got → start + length got ≤ S.size f
  pub bytes : (i : ℕ) → i < length got → get_or got i 0 ≡ S.byte f (start + i)

-- `Write` at `start` put `n` of the bytes `p`, and all of them if it reports no error.
pub record Put (S : Storage) (f : S.File) (start : ℕ) (p : List ℕ) (n : ℕ) (e : Option IoError)
    (g : S.File) : Type 0 where
  pub fits : n ≤ length p
  pub complete : e ≡ none → n ≡ length p
  pub splice : Splice S f start n (λ i. get_or p i 0) g

-- What a file on disk keeps to. A write is only asked about where it starts inside the file.
pub record StorageLaws (S : Storage) : Type 0 where
  pub seek_same : (p : ℕ) (f : S.File) → SameBytes S f (S.seek_start p f).1
  pub seek_cursor :
      (p : ℕ) (f : S.File) → (S.seek_start p f).0 ≡ none → S.cursor (S.seek_start p f).1 ≡ p
  pub seek_end_same : (f : S.File) → SameBytes S f (S.seek_end f).1
  pub seek_end_size : (f : S.File) → (S.seek_end f).0.1 ≡ none → (S.seek_end f).0.0 ≡ S.size f
  pub read_same : (m : ℕ) (f : S.File) → SameBytes S f (S.read m f).1
  pub read_got : (m : ℕ) (f : S.File) → Got S f (S.cursor f) m (S.read m f).0.0
  pub read_cursor :
      (m : ℕ) (f : S.File) → S.cursor (S.read m f).1 ≡ S.cursor f + length (S.read m f).0.0
  pub read_at_same : (m off : ℕ) (f : S.File) → SameBytes S f (S.read_at m off f).1
  pub read_at_got : (m off : ℕ) (f : S.File) → Got S f off m (S.read_at m off f).0.0
  pub read_at_cursor : (m off : ℕ) (f : S.File) → S.cursor (S.read_at m off f).1 ≡ S.cursor f
  pub write_put :
      (p : List ℕ) (f : S.File)
      → S.cursor f ≤ S.size f
      → Put S f (S.cursor f) p (S.write p f).0.0 (S.write p f).0.1 (S.write p f).1
  pub write_cursor :
      (p : List ℕ) (f : S.File) → S.cursor (S.write p f).1 ≡ S.cursor f + (S.write p f).0.0
  pub write_at_put :
      (p : List ℕ) (off : ℕ) (f : S.File)
      → off ≤ S.size f
      → Put S f off p (S.write_at p off f).0.0 (S.write_at p off f).0.1 (S.write_at p off f).1
  pub write_at_cursor :
      (p : List ℕ) (off : ℕ) (f : S.File) → S.cursor (S.write_at p off f).1 ≡ S.cursor f
  pub truncate_fail :
      (n : ℕ) (f : S.File) → (S.truncate n f).0 ≢ none → SameBytes S f (S.truncate n f).1
  pub truncate_size :
      (n : ℕ) (f : S.File) → (S.truncate n f).0 ≡ none → S.size (S.truncate n f).1 ≡ n
  pub truncate_bytes :
      (n : ℕ) (f : S.File) (i : ℕ)
      → (S.truncate n f).0 ≡ none
      → i < n
      → i < S.size f
      → S.byte (S.truncate n f).1 i ≡ S.byte f i
