-- ===== src/Config/Sample.antt =====
-- A format for the contents of a file that satisfies the laws of JSON, for the tests: a list of words,
-- two for each entry.
use safe_disk.Base.{
  ℕ, zero, suc, Bool, true, false, ltb, if◌then◌else◌, ◌≡◌, refl, ap, sym, ◌∙◌, none, some, List,
  [], ◌∷◌, Bool-cases, inl, inr,
}
use safe_disk.Base.Int.{ℤ, pos, negsuc}
use safe_disk.Base.Strings.{Str, same, same_eq, same_iff, all_chars, and_true}
use safe_disk.GoMap.{lookup, insert, delete}
use safe_disk.GoMap.Laws.{lookup-insert, lookup-insert_other, lookup-delete, lookup-delete_other}
use safe_disk.Config.Memory.{
  str_eq, Value, string_value, int_value, bool_value, float_value, other_value,
}
use safe_disk.Config.File.{Json, AreDistinct}
use safe_disk.Config.Values.{bind, reread, JsonLaws}

abbrev word_text : Str → Str → Str
word_text [] rest = zero ∷ rest
word_text (c ∷ cs) rest = suc c ∷ word_text cs rest

abbrev words_text : List Str → Str
words_text [] = []
words_text (w ∷ ws) = word_text w (words_text ws)

abbrev with_char : ℕ → List Str → List Str
with_char c [] = (c ∷ []) ∷ []
with_char c (w ∷ ws) = (c ∷ w) ∷ ws

abbrev read_words : Str → List Str
read_words [] = []
read_words (zero ∷ cs) = [] ∷ read_words cs
read_words (suc c ∷ cs) = with_char c (read_words cs)

read_words-word_text : (w rest : Str) → read_words (word_text w rest) ≡ w ∷ read_words rest
read_words-word_text [] rest = refl
read_words-word_text (c ∷ cs) rest = rw (read_words-word_text cs rest) refl

read_words-words_text : (ws : List Str) → read_words (words_text ws) ≡ ws
read_words-words_text [] = refl
read_words-words_text (w ∷ ws) =
    read_words-word_text w (words_text ws) ∙ ap (λ r. w ∷ r) (read_words-words_text ws)

abbrev sample_float : ℤ → ℕ
sample_float (pos n) = n
sample_float (negsuc n) = 0

-- Text is ASCII, and what is not is replaced.
abbrev pub is_ascii : ℕ → Bool
is_ascii c = ltb c 128

abbrev ascii_char : ℕ → ℕ
ascii_char c = if is_ascii c then c else 65533

abbrev to_ascii : Str → Str
to_ascii [] = []
to_ascii (c ∷ cs) = ascii_char c ∷ to_ascii cs

to_ascii_lem : (s : Str) → all_chars is_ascii s ≡ true → to_ascii s ≡ s
to_ascii_lem [] h = refl
to_ascii_lem (c ∷ cs) h =
    let (small, rest) = and_true (is_ascii c) (all_chars is_ascii cs) h in
    rw small (ap (λ t. c ∷ t) (to_ascii_lem cs rest))

abbrev value_word : Value → Str
value_word (string_value v) = 0 ∷ to_ascii v
value_word (int_value v) = 1 ∷ sample_float v ∷ []
value_word (bool_value true) = 2 ∷ []
value_word (bool_value false) = 3 ∷ []
value_word (float_value v) = 1 ∷ v ∷ []
value_word (other_value v) = 4 ∷ v

abbrev read_value : Str → Value
read_value (zero ∷ v) = string_value v
read_value (suc zero ∷ v ∷ []) = float_value v
read_value (suc (suc zero) ∷ []) = bool_value true
read_value (suc (suc (suc zero)) ∷ []) = bool_value false
read_value (suc (suc (suc (suc n))) ∷ v) = other_value v
read_value v = other_value v

read_value-value_word : (v : Value) → read_value (value_word v) ≡ reread to_ascii sample_float v
read_value-value_word (string_value v) = refl
read_value-value_word (int_value v) = refl
read_value-value_word (bool_value true) = refl
read_value-value_word (bool_value false) = refl
read_value-value_word (float_value v) = refl
read_value-value_word (other_value v) = refl

abbrev entry_words : List (Str × Value) → List Str
entry_words [] = []
entry_words (x ∷ xs) = x.0 ∷ value_word x.1 ∷ entry_words xs

abbrev read_entries : List Str → List (Str × Value)
read_entries [] = []
read_entries (k ∷ []) = []
read_entries (k ∷ v ∷ ws) = insert str_eq k (read_value v) (read_entries ws)

-- The entries that are read of a map that was written.
abbrev raw_entries : List (Str × Value) → List (Str × Value)
raw_entries [] = []
raw_entries (x ∷ xs) = insert str_eq x.0 (reread to_ascii sample_float x.1) (raw_entries xs)

read_entries-entry_words : (d : List (Str × Value)) → read_entries (entry_words d) ≡ raw_entries d
read_entries-entry_words [] = refl
read_entries-entry_words (x ∷ xs) =
    ap (λ v. insert str_eq x.0 v (read_entries (entry_words xs))) (read_value-value_word x.1)
    ∙ ap (λ r. insert str_eq x.0 (reread to_ascii sample_float x.1) r) (read_entries-entry_words xs)

kept_none :
    (k j : Str) (xs : List (Str × Value))
    → lookup str_eq j xs ≡ none
    → lookup str_eq j (delete str_eq k xs) ≡ none
kept_none k j xs h = elim (Bool-cases (same j k)) [
  | inl e ↦
      ap (λ t. lookup str_eq t (delete str_eq k xs)) (same_eq j k e) ∙ lookup-delete str_eq k xs
  | inr e ↦ lookup-delete_other str_eq j k xs (λ q. let z = (same_iff j k).1 q in cc) ∙ h
]

delete-AreDistinct :
    (k : Str) (xs : List (Str × Value)) → AreDistinct xs → AreDistinct (delete str_eq k xs)
delete-AreDistinct k [] h = tt
delete-AreDistinct k (x ∷ xs) h = elim (Bool-cases (same k x.0)) [
  | inl e ↦ rw e (delete-AreDistinct k xs h.1)
  | inr e ↦ rw e (kept_none k x.0 xs h.0, delete-AreDistinct k xs h.1)
]

raw_entries-AreDistinct : (d : List (Str × Value)) → AreDistinct (raw_entries d)
raw_entries-AreDistinct [] = tt
raw_entries-AreDistinct (x ∷ xs) = (
  lookup-delete str_eq x.0 (raw_entries xs),
  delete-AreDistinct x.0 (raw_entries xs) (raw_entries-AreDistinct xs),
)

lookup_skip :
    (k : Str) (x : Str × Value) (xs : List (Str × Value))
    → same k x.0 ≡ false
    → lookup str_eq k (x ∷ xs) ≡ lookup str_eq k xs
lookup_skip k x xs e = rw e refl

lookup_first :
    (k : Str) (x : Str × Value) (xs : List (Str × Value))
    → same k x.0 ≡ true
    → lookup str_eq k (x ∷ xs) ≡ some x.1
lookup_first k x xs e = rw e refl

raw_entries-kept :
    (d : List (Str × Value)) (k : Str)
    → lookup str_eq k (raw_entries d)
      ≡ bind (lookup str_eq k d) (λ v. some (reread to_ascii sample_float v))
raw_entries-kept [] k = refl
raw_entries-kept (x ∷ xs) k = elim (Bool-cases (same k x.0)) [
  | inl e ↦
      ap (λ t. lookup str_eq t (raw_entries (x ∷ xs))) (same_eq k x.0 e)
      ∙ lookup-insert str_eq x.0 (reread to_ascii sample_float x.1) (raw_entries xs)
      ∙ sym (ap (λ t. bind t (λ v. some (reread to_ascii sample_float v))) (lookup_first k x xs e))
  | inr e ↦
      lookup-insert_other str_eq k x.0 (reread to_ascii sample_float x.1) (raw_entries xs)
        (λ q. let z = (same_iff k x.0).1 q in cc)
      ∙ raw_entries-kept xs k
      ∙ sym (ap (λ t. bind t (λ v. some (reread to_ascii sample_float v))) (lookup_skip k x xs e))
]

abbrev drop_word : List Str → List Str
drop_word [] = []
drop_word (w ∷ ws) = ws

abbrev pub sample_json : Json
sample_json = record {
  marshal = λ d. zero ∷ words_text (entry_words d);
  unmarshal = λ text. some (read_entries (drop_word (read_words text)));
  truncate = pos;
}

pub sample_laws : JsonLaws sample_json
sample_laws = record {
  is_text = all_chars is_ascii;
  to_text = to_ascii;
  text_kept = to_ascii_lem;
  to_float = sample_float;
  not_empty = λ d e. cc;
  raw = raw_entries;
  distinct = raw_entries-AreDistinct;
  read_back = λ d.
      ap (λ ws. some (read_entries ws)) (read_words-words_text (entry_words d))
      ∙ ap some (read_entries-entry_words d);
  kept = λ d k h. raw_entries-kept d k;
}

pub ascii_is_text : (s : Str) → all_chars is_ascii s ≡ true → sample_laws.is_text s ≡ true
unfolding sample_laws
ascii_is_text s h = h
