-- ===== src/Context/Tests.antt =====
-- The contexts at work on a file in memory, with a keystream of four numbers that repeat.
use safe_disk.Base.{
  ℕ, ◌+◌, ◌%◌, ◌≡◌, refl, List, [], ◌∷◌, length, get_or, none, arith, min, ap, true,
}
use safe_disk.Base.Int.{two_63}
use safe_disk.Storage.Memory.{memory, memory_laws}
use safe_disk.Cipher.{Cipher, CipherLaws}
use safe_disk.Cipher.Keystream.{xor_at}
use safe_disk.Context.{
  Context, opened, new_context, ensure_append_gap, read, write, truncate, fetch_by, read_at,
  store_by, write_at,
}
use safe_disk.Chunk.{fill_gap, encrypt_and_write_at_in_chunks}
use safe_disk.Context.View.{IsValid, view}
use safe_disk.Context.Open.{Fresh, new_context-view}
use safe_disk.Context.Append.{Extended, ensure_append_gap-Extended}
use safe_disk.Context.WriteAt.{Written, write_at-Written}
use safe_disk.Context.Write.{ByGap, write-Written}
use safe_disk.Context.Read.{Fetched, read_at-Fetched, read-Fetched, read_at-write_at}
use safe_disk.Context.Resize.{Resized, truncate-Resized, truncate-cursor}

abbrev toy_stream : ℕ → ℕ
toy_stream i = get_or (17 ∷ 204 ∷ 99 ∷ 42 ∷ []) (i % 4) 0

abbrev K : Cipher
K = record {
  State = Unit {0};
  encrypt = λ p at s. (xor_at toy_stream at p, s);
  decrypt = λ p at s. (xor_at toy_stream at p, s);
}

abbrev L : CipherLaws K
L = record {
  stream = toy_stream;
  limit = two_63;
  IsReady = λ s. Unit;
  encrypt_out = λ p at s r h. refl;
  encrypt_ready = λ p at s r. r;
  decrypt_out = λ p at s r h. refl;
  decrypt_ready = λ p at s r. r;
}

abbrev three : List ℕ
three = 7 ∷ 8 ∷ 9 ∷ []

abbrev start : Context memory K
start = record {
  file = record { size = 2; cursor = 0; byte = (λ i. i + 5) };
  cipher = tt;
  pos = 1;
  size = 2;
}

start-IsValid : IsValid memory K L start
start-IsValid = record { backed = omega arith; ready = tt }

abbrev at_cursor : Context memory K
at_cursor = record start { pos = 0 }

abbrev after : Context memory K
after = (write_at memory K three 6 start).1

-- What the code computes on this file: the write fills the gap and reports three bytes, and they
-- are read back, as far as the file goes.
after_size : after.file.size ≡ 9
unfolding write_at ensure_append_gap fill_gap store_by encrypt_and_write_at_in_chunks xor_at
after_size = refl

written : (write_at memory K three 6 start).0.0 ≡ 3
unfolding write_at ensure_append_gap fill_gap store_by encrypt_and_write_at_in_chunks xor_at
written = refl

read_back : (read_at memory K 5 6 after).0.0 ≡ three
unfolding read_at fetch_by write_at ensure_append_gap fill_gap store_by
    encrypt_and_write_at_in_chunks xor_at
read_back = refl

read_in_gap : (read_at memory K 3 2 after).0.0 ≡ 0 ∷ 0 ∷ 0 ∷ []
unfolding read_at fetch_by write_at ensure_append_gap fill_gap store_by
    encrypt_and_write_at_in_chunks xor_at
read_in_gap = refl

new_context-view_example :
    (c : Context memory K) × (new_context memory K tt after.file ≡ opened c)
    × Fresh memory K L after.file c
    × ((i : ℕ) → view memory K L c i ≡ view memory K L after i)
new_context-view_example = new_context-view memory memory_laws K L tt after tt refl refl

ensure_append_gap-Extended_example :
    Extended memory K L 5
      (ensure_append_gap memory K 5 start).0
      start
      (ensure_append_gap memory K 5 start).1
ensure_append_gap-Extended_example =
    ensure_append_gap-Extended memory memory_laws K L 5 start start-IsValid (omega arith)

write_at-Written_example :
    Written memory K L 6 three
      (write_at memory K three 6 start).0.0
      (write_at memory K three 6 start).0.1
      start
      (write_at memory K three 6 start).1
write_at-Written_example =
    write_at-Written memory memory_laws K L three 6 start start-IsValid (omega arith)

write-Written_example :
    let r = write memory K three start in
    Written memory K L 1 three r.0.0 r.0.1 start r.1
    × (r.1.pos ≡ 1 + r.0.0)
    × ByGap (ensure_append_gap memory K 1 start).0 r.0 r.1.file.cursor r.1.pos
write-Written_example =
    write-Written memory memory_laws K L three start start-IsValid (omega arith) (λ f. refl)

read_at-Fetched_example :
    let r = read_at memory K 4 1 start in
    let f = fetch_by memory K true 4 1 start.file in
    Fetched memory K L 1 4 r.0.0 start r.1
    × (r.1.pos ≡ start.pos)
    × (length r.0.0 ≡ length f.0.0)
    × (r.0.1 ≡ f.0.1)
read_at-Fetched_example =
    read_at-Fetched memory memory_laws K L 4 1 start start-IsValid (omega arith)

read-Fetched_example :
    let r = read memory K 4 at_cursor in
    Fetched memory K L 0 4 r.0.0 at_cursor r.1
    × (r.1.pos ≡ 0 + length r.0.0)
    × (r.1.file.cursor ≡ r.1.pos)
    × (length r.0.0 ≡ length (memory.read 4 at_cursor.file).0.0)
read-Fetched_example =
    read-Fetched memory memory_laws K L 4 at_cursor (record { backed = omega arith; ready = tt })
      (omega arith) refl

read_at-write_at_example : get_or (read_at memory K 5 6 after).0.0 1 0 ≡ 8
read_at-write_at_example =
    read_at-write_at memory memory_laws K L three 6 5 start start-IsValid (omega arith)
      (omega (arith, after_size)) 1 (omega (arith, written)) (omega (arith, ap length read_back))

truncate-Resized_example : let r = truncate memory K 1 start in Resized memory K L 1 r.0 start r.1
truncate-Resized_example =
    truncate-Resized memory memory_laws K L 1 start start-IsValid (omega arith)

grows : (truncate memory K 5 start).0 ≡ none
unfolding truncate ensure_append_gap fill_gap
grows = refl

truncate-cursor_example :
    let d = (truncate memory K 5 start).1 in (d.file.cursor ≡ 5) × (d.pos ≡ min 1 5)
truncate-cursor_example =
    truncate-cursor memory memory_laws K L 5 start start-IsValid (omega arith) (omega arith) grows
