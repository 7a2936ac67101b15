-- ===== src/SecFile.antt =====
-- An open file of a secure root: `secFileImpl` of native/sec_fs/file.go over one of the encryption
-- contexts. In the code Read, Write, Seek, ReadAt, Truncate and Sync take the lock for reading only, so
-- calls of one file may interleave; here one call ends before the next begins. Stat, Mode and the two
-- paths, which read metadata of the backing file, are left out.
pub mod Closed
mod Tests
use safe_disk.Base.{ℕ, Bool, true, false, Option, none, some, List, [], ◌∷◌}
use safe_disk.Base.Int.{ℤ}
use safe_disk.Storage.Types.{Storage, IoError}
use safe_disk.Cipher.{Cipher}
use safe_disk.Context
use safe_disk.Context.{Context}

-- ErrFileNotOpen, ErrFileClosed, and the error of the context.
pub data FileError : Type 0 where
  file_not_open file_closed : FileError
  of_context : IoError → FileError

abbrev pub file_error : Option IoError → Option FileError
file_error none = none
file_error (some e) = some (of_context e)

-- `secFileImpl`; none is a nil context.
pub record SecFile (S : Storage) (K : Cipher) : Type 0 where
  pub impl : Option (Context S K)
  pub closed : Bool

-- What a method gives back: bytes, a number of bytes or a position, nothing, or a size, with the error.
pub data Reply : Type 0 where
  bytes : List ℕ → Option FileError → Reply
  number : ℕ → Option FileError → Reply
  done : Option FileError → Reply
  size_of : ℕ → Reply

-- The methods, with the length of p where they read.
pub data Call : Type 0 where
  read_call : ℕ → Call
  write_call : List ℕ → Call
  seek_call : ℤ → ℕ → Call
  close_call size_call sync_call : Call
  truncate_call : ℕ → Call
  read_at_call : ℕ → ℕ → Call
  write_at_call : List ℕ → ℕ → Call

-- The reply of a file that has no context, or is closed.
abbrev pub refusal : Call → FileError → Reply
refusal (read_call n) e = bytes [] (some e)
refusal (write_call p) e = number 0 (some e)
refusal (seek_call off whence) e = number 0 (some e)
refusal close_call e = done (some e)
refusal size_call e = size_of 0
refusal sync_call e = done (some e)
refusal (truncate_call size) e = done (some e)
refusal (read_at_call n off) e = bytes [] (some e)
refusal (write_at_call p off) e = number 0 (some e)

abbrev pub bytes_reply : List ℕ × Option IoError → Reply
bytes_reply r = bytes r.0 (file_error r.1)

abbrev pub number_reply : ℕ × Option IoError → Reply
number_reply r = number r.0 (file_error r.1)

module _ (S : Storage) (K : Cipher) where
  -- What the context does in a call, and whether the file is closed afterwards.
  unfoldable pub delegate : Call → Context S K → Reply × Context S K
  delegate (read_call n) c = let r = Context.read S K n c in (bytes_reply r.0, r.1)
  delegate (write_call p) c = let r = Context.write S K p c in (number_reply r.0, r.1)
  delegate (seek_call off whence) c =
      let r = Context.seek S K off whence c in (number_reply r.0, r.1)
  delegate close_call c = let r = Context.close S K c in (done (file_error r.0), r.1)
  delegate size_call c = (size_of c.size, c)
  delegate sync_call c = let r = Context.sync S K c in (done (file_error r.0), r.1)
  delegate (truncate_call size) c =
      let r = Context.truncate S K size c in (done (file_error r.0), r.1)
  delegate (read_at_call n off) c = let r = Context.read_at S K n off c in (bytes_reply r.0, r.1)
  delegate (write_at_call p off) c = let r = Context.write_at S K p off c in (number_reply r.0, r.1)

  abbrev pub closes : Call → Bool
  closes (read_call n) = false
  closes (write_call p) = false
  closes (seek_call off whence) = false
  closes close_call = true
  closes size_call = false
  closes sync_call = false
  closes (truncate_call size) = false
  closes (read_at_call n off) = false
  closes (write_at_call p off) = false

  -- The guards that every method begins with.
  abbrev pub enter : Call → Option (Context S K) → Bool → Reply × SecFile S K
  enter call none closed = (refusal call file_not_open, record { impl = none; closed = closed })
  enter call (some c) true = (refusal call file_closed, record { impl = some c; closed = true })
  enter call (some c) false =
      ((delegate call c).0, record { impl = some (delegate call c).1; closed = closes call })

  abbrev pub perform : Call → SecFile S K → Reply × SecFile S K
  perform call f = enter call f.impl f.closed

  abbrev pub perform_all : List Call → SecFile S K → List Reply × SecFile S K
  perform_all [] f = ([], f)
  perform_all (call ∷ calls) f =
      let one = perform call f in let rest = perform_all calls one.1 in (one.0 ∷ rest.0, rest.1)
