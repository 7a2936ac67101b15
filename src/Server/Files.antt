-- ===== src/Server/Files.antt =====
-- sec_webdav/filesystem.go: `secureFileSystem`, over a `ResourceProvider` with its own state, and
-- `secureWebDAVFile`. A handle is what the provider gives for a file.
pub mod ReadOnly
use safe_disk.Base.{
  ℕ, ◌+◌, ◌-◌, Bool, true, false, not, ◌||◌, ◌&&◌, ◌==◌, ltb, Option, none, some, List, [], ◌∷◌,
  length, take, drop, ◌⊎◌, inl, inr, if◌then◌else◌,
}
use safe_disk.Base.Int.{ℤ, pos, negsuc}
use safe_disk.Base.Strings.{Str, same}
use safe_disk.Server.Paths.{resolve}
use safe_disk.Server.Types.{SecureFileSystem, read_only_policy}

-- `ResourceProvider`, of a state, a type of handles and one of `fs.FileInfo`.
pub record Provider (W H I : Type 0) : Type 0 where
  pub is_dir : I → Bool
  pub stat : Str → W → Option I
  pub read_dir : Str → W → Option (List (Option I))
  pub open_reader : Str → W → Option (H × Option I) × W
  pub is_seekable : H → Bool
  pub close_handle : H → W → Bool × W
  pub mkdir : Str → W → Bool × W
  pub create : Str → W → Option H × W
  pub remove_all : Str → W → Bool × W
  pub rename : Str → Str → W → Bool × W
  pub read : H → ℕ → W → Option Str × W
  pub write : H → Str → W → Option ℕ × W
  pub seek : H → ℤ → ℕ → W → Option ℕ × W

pub data FileError : Type 0 where
  is_read_only invalid_path failed not_seekable invalid at_end : FileError

-- `secureWebDAVFile`, of the three kinds that `OpenFile` makes.
pub data WebDavFile (H I : Type 0) : Type 0 where
  write_file : H → WebDavFile H I
  read_file : H → I → WebDavFile H I
  directory : I → List I → ℕ → WebDavFile H I

abbrev pub is_guarded : SecureFileSystem → Bool
is_guarded f = same f.write_policy read_only_policy

-- The flags of an open that matter: os.O_WRONLY, O_RDWR, O_CREATE and O_TRUNC.
pub record Flags : Type 0 where
  pub wronly : Bool
  pub rdwr : Bool
  pub creates : Bool
  pub trunc : Bool

abbrev pub is_write : Flags → Bool
is_write f = f.wronly || (f.rdwr || (f.creates || f.trunc))

module _ {W H I : Type 0} (P : Provider W H I) where
  abbrev pub done_or : Bool × W → Option FileError × W
  done_or (true, w) = (none, w)
  done_or (false, w) = (some failed, w)

  abbrev pub mkdir_at : Option Str → W → Option FileError × W
  mkdir_at none w = (some invalid_path, w)
  mkdir_at (some path) w = done_or (P.mkdir path w)

  -- `Mkdir`
  abbrev pub mkdir : SecureFileSystem → Str → W → Option FileError × W
  mkdir f name w = if is_guarded f then (some is_read_only, w) else mkdir_at (resolve f.base name) w

  abbrev pub remove_at : Option Str → W → Option FileError × W
  remove_at none w = (some invalid_path, w)
  remove_at (some path) w = done_or (P.remove_all path w)

  -- `RemoveAll`
  abbrev pub remove_all : SecureFileSystem → Str → W → Option FileError × W
  remove_all f name w =
      if is_guarded f then (some is_read_only, w) else remove_at (resolve f.base name) w

  abbrev pub rename_at : Option Str → Option Str → W → Option FileError × W
  rename_at none new w = (some invalid_path, w)
  rename_at (some old) none w = (some invalid_path, w)
  rename_at (some old) (some new) w = done_or (P.rename old new w)

  -- `Rename`
  abbrev pub rename : SecureFileSystem → Str → Str → W → Option FileError × W
  rename f old new w =
      if is_guarded f
      then (some is_read_only, w)
      else rename_at (resolve f.base old) (resolve f.base new) w

  abbrev pub stat_at : Option Str → W → Option I
  stat_at none w = none
  stat_at (some path) w = P.stat path w

  -- `Stat`; none is an error.
  abbrev pub stat : SecureFileSystem → Str → W → Option I
  stat f name w = stat_at (resolve f.base name) w

  abbrev pub Opened : Type 0
  Opened = (FileError ⊎ WebDavFile H I) × W

  abbrev pub opened_writer : Option H × W → Opened
  opened_writer (none, w) = (inl failed, w)
  opened_writer (some h, w) = (inr (write_file h), w)

  abbrev pub or_info : I → Option I → I
  or_info info none = info
  or_info info (some i) = i

  abbrev pub opened_reader : I → Option (H × Option I) × W → Opened
  opened_reader info (none, w) = (inl failed, w)
  opened_reader info (some (h, i), w) =
      if P.is_seekable h
      then (inr (read_file h (or_info info i)), w)
      else (inl not_seekable, (P.close_handle h w).1)

  -- The loop of `OpenFile` over the entries of a directory.
  abbrev pub infos_of : List (Option I) → Option (List I)
  infos_of [] = some []
  infos_of (none ∷ xs) = none
  infos_of (some i ∷ xs) = elim (infos_of xs) [ none ↦ none | some is ↦ some (i ∷ is) ]

  abbrev pub opened_directory : I → Option (List I) → W → Opened
  opened_directory info none w = (inl failed, w)
  opened_directory info (some infos) w = (inr (directory info infos 0), w)

  abbrev pub entries_of : Option (List (Option I)) → Option (List I)
  entries_of none = none
  entries_of (some xs) = infos_of xs

  abbrev pub open_found : Str → Option I → W → Opened
  open_found path none w = (inl failed, w)
  open_found path (some info) w =
      if P.is_dir info
      then opened_directory info (entries_of (P.read_dir path w)) w
      else opened_reader info (P.open_reader path w)

  abbrev pub open_at : Bool → Option Str → W → Opened
  open_at writes none w = (inl invalid_path, w)
  open_at writes (some path) w =
      if writes then opened_writer (P.create path w) else open_found path (P.stat path w) w

  -- `OpenFile`
  abbrev pub open_file : SecureFileSystem → Str → Flags → W → Opened
  open_file f name flags w =
      if is_write flags && is_guarded f
      then (inl is_read_only, w)
      else open_at (is_write flags) (resolve f.base name) w

  -- `Read`, `Seek`, `Write` and `Close` of a file; a missing handle is os.ErrInvalid, or read-only.
  abbrev pub file_read : WebDavFile H I → ℕ → W → (FileError ⊎ Option Str) × W
  file_read (read_file h i) size w = let r = P.read h size w in (inr r.0, r.1)
  file_read (write_file h) size w = (inl invalid, w)
  file_read (directory i xs n) size w = (inl invalid, w)

  abbrev pub file_seek : WebDavFile H I → ℤ → ℕ → W → (FileError ⊎ Option ℕ) × W
  file_seek (read_file h i) offset whence w = let r = P.seek h offset whence w in (inr r.0, r.1)
  file_seek (write_file h) offset whence w = (inl invalid, w)
  file_seek (directory i xs n) offset whence w = (inl invalid, w)

  abbrev pub file_write : WebDavFile H I → Str → W → (FileError ⊎ Option ℕ) × W
  file_write (write_file h) bytes w = let r = P.write h bytes w in (inr r.0, r.1)
  file_write (read_file h i) bytes w = (inl is_read_only, w)
  file_write (directory i xs n) bytes w = (inl is_read_only, w)

  abbrev pub file_close : WebDavFile H I → W → Bool × W
  file_close (write_file h) w = P.close_handle h w
  file_close (read_file h i) w = P.close_handle h w
  file_close (directory i xs n) w = (true, w)

abbrev pub read_count : ℤ → ℕ → ℕ
read_count (pos n) left = if not (n == 0) && ltb n left then n else left
read_count (negsuc n) left = left

abbrev pub is_positive : ℤ → Bool
is_positive (pos n) = not (n == 0)
is_positive (negsuc n) = false

-- `Readdir`: the entries, and the file with its offset moved.
abbrev pub read_dir : {H I : Type 0} → WebDavFile H I → ℤ → (FileError ⊎ List I) × WebDavFile H I
read_dir (write_file h) size = (inl invalid, write_file h)
read_dir (read_file h i) size = (inl invalid, read_file h i)
read_dir (directory i xs offset) size =
    let left = length xs - offset in
    if (left == 0) && is_positive size then (inl at_end, directory i xs offset) else (
      inr (take (read_count size left) (drop offset xs)),
      directory i xs (offset + read_count size left),
    )
