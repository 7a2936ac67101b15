-- ===== src/Storage/Memory.antt =====
-- A file in memory that keeps the laws of StorageLaws: every operation succeeds, and a read behind
-- the end is io.EOF.
use safe_disk.Base.{
  ℕ, zero, suc, ◌+◌, ◌-◌, ◌≤◌, ◌<◌, min, max, ◌≡◌, refl, ap, ◌∙◌, true, Option, none, some, List,
  [], ◌∷◌, length, get_or, ltb, if◌then◌else◌, arith,
}
use safe_disk.Storage.{Got, StorageLaws}
use safe_disk.Storage.Types.{IoError, eof, Storage}

pub record MemFile : Type 0 where
  pub size : ℕ
  pub cursor : ℕ
  pub byte : ℕ → ℕ

-- The bytes `byte start`, …, `n` of them.
abbrev pub slice : (ℕ → ℕ) → ℕ → ℕ → List ℕ
slice byte start zero = []
slice byte start (suc n) = byte start ∷ slice byte (suc start) n

abbrev pub put : List ℕ → ℕ → (ℕ → ℕ) → ℕ → ℕ
put p off byte i =
    if ltb i off then byte i else if ltb i (off + length p) then get_or p (i - off) 0 else byte i

abbrev pub room_at : ℕ → ℕ → MemFile → ℕ
room_at m off f = min m (f.size - off)

abbrev pub end_error : ℕ → ℕ → Option IoError
end_error m n = if ltb n m then some eof else none

abbrev pub memory : Storage
memory = record {
  File = MemFile;
  size = λ f. f.size;
  cursor = λ f. f.cursor;
  byte = λ f. f.byte;
  seek_start = λ p f. (none, record f { cursor = p });
  seek_end = λ f. ((f.size, none), record f { cursor = f.size });
  read = λ m f.
      let n = room_at m f.cursor f in
      ((slice f.byte f.cursor n, end_error m n), record f { cursor = f.cursor + n });
  write = λ p f. (
    (length p, none),
    record {
      size = max f.size (f.cursor + length p);
      cursor = f.cursor + length p;
      byte = put p f.cursor f.byte;
    },
  );
  has_read_at = true;
  read_at = λ m off f. let n = room_at m off f in ((slice f.byte off n, end_error m n), f);
  has_write_at = true;
  write_at = λ p off f.
      ((length p, none), record f { size = max f.size (off + length p); byte = put p off f.byte });
  has_truncate = true;
  truncate =
      λ n f. (none, record f { size = n; byte = (λ i. if ltb i f.size then f.byte i else 0) });
  sync = λ f. (none, f);
  close = λ f. (none, f);
}

length-slice : (byte : ℕ → ℕ) (start n : ℕ) → length (slice byte start n) ≡ n
length-slice byte start zero = refl
length-slice byte start (suc n) = ap suc (length-slice byte (suc start) n)

get_or-slice :
    (byte : ℕ → ℕ) (start n i : ℕ) → i < n → get_or (slice byte start n) i 0 ≡ byte (start + i)
get_or-slice byte start zero i h = absurd (omega arith)
get_or-slice byte start (suc n) zero h = ap byte (omega arith)
get_or-slice byte start (suc n) (suc i) h =
    get_or-slice byte (suc start) n i (omega arith) ∙ ap byte (omega arith)

Got-slice : (m off : ℕ) (f : MemFile) → Got memory f off m (slice f.byte off (room_at m off f))
Got-slice m off f =
    let l = length-slice f.byte off (room_at m off f) in
    record {
      fits = omega (arith, l);
      inside = λ h. omega (arith, l);
      bytes = λ i h. get_or-slice f.byte off (room_at m off f) i (omega (arith, l));
    }

put-inside :
    (p : List ℕ) (off : ℕ) (byte : ℕ → ℕ) (i : ℕ)
    → i < length p
    → put p off byte (off + i) ≡ get_or p i 0
put-inside p off byte i h =
    let e : off + i - off ≡ i = omega arith in ground (arith, ap (λ j. get_or p j 0) e)

put-below : (p : List ℕ) (off : ℕ) (byte : ℕ → ℕ) (i : ℕ) → i < off → put p off byte i ≡ byte i
put-below p off byte i h = ground arith

put-above :
    (p : List ℕ) (off : ℕ) (byte : ℕ → ℕ) (i : ℕ) → off + length p ≤ i → put p off byte i ≡ byte i
put-above p off byte i h = ground arith

pub memory_laws : StorageLaws memory
memory_laws = record {
  seek_same = λ p f. record { size_eq = refl; bytes = λ i. refl };
  seek_cursor = λ p f h. refl;
  seek_end_same = λ f. record { size_eq = refl; bytes = λ i. refl };
  seek_end_size = λ f h. refl;
  read_same = λ m f. record { size_eq = refl; bytes = λ i. refl };
  read_got = λ m f. Got-slice m f.cursor f;
  read_cursor = λ m f. omega (arith, length-slice f.byte f.cursor (room_at m f.cursor f));
  read_at_same = λ m off f. record { size_eq = refl; bytes = λ i. refl };
  read_at_got = λ m off f. Got-slice m off f;
  read_at_cursor = λ m off f. refl;
  write_put = λ p f h. record {
    fits = omega arith;
    complete = λ e. refl;
    splice = record {
      size_eq = refl;
      inside = put-inside p f.cursor f.byte;
      below = put-below p f.cursor f.byte;
      above = put-above p f.cursor f.byte;
    };
  };
  write_cursor = λ p f. refl;
  write_at_put = λ p off f h. record {
    fits = omega arith;
    complete = λ e. refl;
    splice = record {
      size_eq = refl;
      inside = put-inside p off f.byte;
      below = put-below p off f.byte;
      above = put-above p off f.byte;
    };
  };
  write_at_cursor = λ p off f. refl;
  truncate_fail = λ n f h. absurd (h refl);
  truncate_size = λ n f h. refl;
  truncate_bytes = λ n f i h l m. ground arith;
}
