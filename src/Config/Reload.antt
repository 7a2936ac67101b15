-- ===== src/Config/Reload.antt =====
-- A FileConfig that is opened again answers as the one that wrote the file, if every key has had one
-- kind of value.
use safe_disk.Base.{
  ℕ, Bool, true, false, ◌≡◌, ◌≢◌, refl, ap, sym, ◌∙◌, Option, none, some, List, [], ◌∷◌, Bool-cases,
  Option-cases, inl, inr,
}
use safe_disk.Base.Int.{ℤ}
use safe_disk.Base.Strings.{Str, same, same_eq, same_iff}
use safe_disk.GoMap.{lookup, insert}
use safe_disk.GoMap.Laws.{lookup-insert, lookup-insert_other}
use safe_disk.Config.Memory.{
  str_eq, Value, string_value, int_value, bool_value, float_value, other_value, Maps, new_maps,
  get_str, get_int, get_bool,
}
use safe_disk.Config.File.{
  Json, holds, SaveOutcome, saved, unprotected, torn, FileState, AreDistinct, load_value, load_all,
  load_text, opened, new_file_config, save_as, save,
}
use safe_disk.Config.Values.{
  bind, as_str, as_int, as_bool, reread, AreText, JsonLaws, IsExactValue, IsConsistent,
}

-- What a getter finds after one value has been loaded: that value, if it is of the getter's kind.
abbrev choose : {A : Type 0} → Bool → Option A → Option A → Option A
choose true none old = old
choose true (some a) old = some a
choose false new old = old

choose-lookup :
    {A : Type 0} (k key : Str) (v : A) (xs : List (Str × A))
    → lookup str_eq k (insert str_eq key v xs) ≡ choose (same k key) (some v) (lookup str_eq k xs)
choose-lookup k key v xs = elim (Bool-cases (same k key)) [
  | inl e ↦
      ap (λ t. lookup str_eq t (insert str_eq key v xs)) (same_eq k key e)
      ∙ lookup-insert str_eq key v xs
      ∙ sym (ap (λ t. choose t (some v) (lookup str_eq k xs)) e)
  | inr e ↦
      lookup-insert_other str_eq k key v xs (λ q. let z = (same_iff k key).1 q in cc)
      ∙ sym (ap (λ t. choose t (some v) (lookup str_eq k xs)) e)
]

choose-none : {A : Type 0} (b : Bool) (old : Option A) → old ≡ choose b none old
choose-none true old = refl
choose-none false old = refl

-- What the loop of `load` puts among the integers.
abbrev loaded_int : (ℕ → ℤ) → Value → Option ℤ
loaded_int truncate (string_value v) = none
loaded_int truncate (int_value v) = none
loaded_int truncate (bool_value v) = none
loaded_int truncate (float_value v) = some (truncate v)
loaded_int truncate (other_value v) = none

load_value-str :
    (J : Json) (k key : Str) (v : Value) (m : Maps)
    → get_str k (load_value J key v m) ≡ choose (same k key) (as_str v) (get_str k m)
load_value-str J k key (string_value v) m = choose-lookup k key v m.str_map
load_value-str J k key (int_value v) m = choose-none (same k key) (get_str k m)
load_value-str J k key (bool_value v) m = choose-none (same k key) (get_str k m)
load_value-str J k key (float_value v) m = choose-none (same k key) (get_str k m)
load_value-str J k key (other_value v) m = choose-none (same k key) (get_str k m)

load_value-int :
    (J : Json) (k key : Str) (v : Value) (m : Maps)
    → get_int k (load_value J key v m) ≡ choose (same k key) (loaded_int J.truncate v) (get_int k m)
load_value-int J k key (string_value v) m = choose-none (same k key) (get_int k m)
load_value-int J k key (int_value v) m = choose-none (same k key) (get_int k m)
load_value-int J k key (bool_value v) m = choose-none (same k key) (get_int k m)
load_value-int J k key (float_value v) m = choose-lookup k key (J.truncate v) m.int_map
load_value-int J k key (other_value v) m = choose-none (same k key) (get_int k m)

load_value-bool :
    (J : Json) (k key : Str) (v : Value) (m : Maps)
    → get_bool k (load_value J key v m) ≡ choose (same k key) (as_bool v) (get_bool k m)
load_value-bool J k key (string_value v) m = choose-none (same k key) (get_bool k m)
load_value-bool J k key (int_value v) m = choose-none (same k key) (get_bool k m)
load_value-bool J k key (bool_value v) m = choose-lookup k key v m.bool_map
load_value-bool J k key (float_value v) m = choose-none (same k key) (get_bool k m)
load_value-bool J k key (other_value v) m = choose-none (same k key) (get_bool k m)

module _ {A : Type 0} (J : Json) (get : Str → Maps → Option A) (as_kind : Value → Option A)
    (get_none : (k : Str) → get k new_maps ≡ none)
    (get_step : (k key : Str) (v : Value) (m : Maps)
      → get k (load_value J key v m) ≡ choose (same k key) (as_kind v) (get k m)) where
  choose-bind : (v : Value) (old : Option A) → old ≡ none → choose true (as_kind v) old ≡ as_kind v
  choose-bind v old h = elim (Option-cases (as_kind v)) [ inl e ↦ rw e h | inr (a, e) ↦ rw e refl ]

  -- A getter after `load` finds what the object has under the key, if it is of its kind.
  get-load_all :
      (k : Str) (raw : List (Str × Value))
      → AreDistinct raw
      → get k (load_all J raw) ≡ bind (lookup str_eq k raw) as_kind
  get-load_all k [] d = get_none k
  get-load_all k (x ∷ xs) d = get_step k x.0 x.1 (load_all J xs) ∙ elim (Bool-cases (same k x.0)) [
    | inl e ↦
        let gone : lookup str_eq k xs ≡ none =
          ap (λ t. lookup str_eq t xs) (same_eq k x.0 e) ∙ d.0 in
        rw e (
          choose-bind x.1 (get k (load_all J xs))
            (get-load_all k xs d.1 ∙ ap (λ t. bind t as_kind) gone))
    | inr e ↦ rw e (get-load_all k xs d.1)
  ]

-- The getters of a store that was just loaded.
module _ (J : Json) (raw : List (Str × Value)) (distinct : AreDistinct raw) (k : Str) where
  str-load_all : get_str k (load_all J raw) ≡ bind (lookup str_eq k raw) as_str
  str-load_all =
      get-load_all J get_str as_str (λ j. refl) (λ j l v m. load_value-str J j l v m) k raw distinct

  int-load_all : get_int k (load_all J raw) ≡ bind (lookup str_eq k raw) (loaded_int J.truncate)
  int-load_all =
      get-load_all J get_int (loaded_int J.truncate) (λ j. refl)
        (λ j l v m. load_value-int J j l v m) k raw distinct

  bool-load_all : get_bool k (load_all J raw) ≡ bind (lookup str_eq k raw) as_bool
  bool-load_all =
      get-load_all J get_bool as_bool (λ j. refl) (λ j l v m. load_value-bool J j l v m) k raw
        distinct

module _ (J : Json) (laws : JsonLaws J) where
  reread-str :
      (o : Option Value)
      → ((v : Value) → o ≡ some v → IsExactValue J laws v)
      → bind (bind o (λ v. some (reread laws.to_text laws.to_float v))) as_str ≡ bind o as_str
  reread-str none h = refl
  reread-str (some (string_value v)) h = ap some (laws.text_kept v (h (string_value v) refl))
  reread-str (some (int_value v)) h = refl
  reread-str (some (bool_value v)) h = refl
  reread-str (some (float_value v)) h = refl
  reread-str (some (other_value v)) h = refl

  reread-bool :
      (o : Option Value)
      → bind (bind o (λ v. some (reread laws.to_text laws.to_float v))) as_bool ≡ bind o as_bool
  reread-bool none = refl
  reread-bool (some (string_value v)) = refl
  reread-bool (some (int_value v)) = refl
  reread-bool (some (bool_value v)) = refl
  reread-bool (some (float_value v)) = refl
  reread-bool (some (other_value v)) = refl

  reread-int :
      (o : Option Value)
      → ((v : Value) → o ≡ some v → IsExactValue J laws v)
      → bind (bind o (λ v. some (reread laws.to_text laws.to_float v))) (loaded_int J.truncate)
        ≡ bind o (as_int J.truncate)
  reread-int none h = refl
  reread-int (some (string_value v)) h = refl
  reread-int (some (int_value v)) h = ap some (h (int_value v) refl)
  reread-int (some (bool_value v)) h = refl
  reread-int (some (float_value v)) h = refl
  reread-int (some (other_value v)) h = refl

  saved_file :
      (os : List SaveOutcome) (text : Str) (s : FileState)
      → (save_as J os text s).0 ≡ none
      → (save_as J os text s).1.stored ≡ holds text
  saved_file [] text s h = refl
  saved_file (saved ∷ os) text s h = refl
  saved_file (unprotected ∷ os) text s h = cc
  saved_file (torn rest ∷ os) text s h = cc

  load_text-unmarshal :
      (text : Str) (raw : List (Str × Value)) (m : Maps)
      → text ≢ []
      → J.unmarshal text ≡ some raw
      → load_text J text m ≡ some (load_all J raw)
  load_text-unmarshal [] raw m h e = absurd (h refl)
  load_text-unmarshal (c ∷ cs) raw m h e = rw (e, load_text) refl

  open_saved :
      (s : FileState) (os : List SaveOutcome)
      → (save J s).0 ≡ none
      → new_file_config J true (save J s).1.stored os
        ≡ some (record {
          maps = load_all J (laws.raw s.maps.data_map);
          stored = holds (J.marshal s.maps.data_map);
          outcomes = os;
        })
  open_saved s os ok =
      let text = J.marshal s.maps.data_map in
      ap (λ t. new_file_config J true t os) (saved_file s.outcomes text s ok)
      ∙ ap (opened J (holds text) os) (
          load_text-unmarshal text (laws.raw s.maps.data_map) new_maps
            (laws.not_empty s.maps.data_map) (laws.read_back s.maps.data_map))

  -- A store whose maps agree, whose keys are valid UTF-8, and that saves without an error, is
  -- found again by `NewFileConfig`: it opens, and under a key whose value is no string with
  -- invalid UTF-8 and no integer that a float64 does not hold exactly all three getters give
  -- what they gave before.
  pub new_file_config-save :
      (s : FileState) (os : List SaveOutcome) (k : Str)
      → IsConsistent J s.maps
      → AreText laws.is_text s.maps.data_map
      → ((v : Value) → lookup str_eq k s.maps.data_map ≡ some v → IsExactValue J laws v)
      → (save J s).0 ≡ none
      → (t : FileState) × (new_file_config J true (save J s).1.stored os ≡ some t)
        × (get_str k t.maps ≡ get_str k s.maps)
        × (get_int k t.maps ≡ get_int k s.maps)
        × (get_bool k t.maps ≡ get_bool k s.maps)
  new_file_config-save s os k c text exact ok =
      let d = s.maps.data_map in
      let kept = laws.kept d k text in
      let rawd = laws.raw d in
      (
        record { maps = load_all J (laws.raw d); stored = holds (J.marshal d); outcomes = os },
        open_saved s os ok,
        str-load_all J rawd (laws.distinct d) k
            ∙ ap (λ t. bind t as_str) kept
            ∙ reread-str (lookup str_eq k d) exact
            ∙ sym (c.strs k),
        int-load_all J rawd (laws.distinct d) k
            ∙ ap (λ t. bind t (loaded_int J.truncate)) kept
            ∙ reread-int (lookup str_eq k d) exact
            ∙ sym (c.ints k),
        bool-load_all J rawd (laws.distinct d) k
            ∙ ap (λ t. bind t as_bool) kept
            ∙ reread-bool (lookup str_eq k d)
            ∙ sym (c.bools k),
      )
