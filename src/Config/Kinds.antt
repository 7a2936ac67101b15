-- ===== src/Config/Kinds.antt =====
-- The three maps of a store and its map of all values agree as long as every key has one kind of value.
use safe_disk.Base.{
  Bool, ◌≡◌, ◌≢◌, refl, ap, sym, ◌∙◌, Option, none, List, [], ◌∷◌, Bool-cases, inl, inr,
}
use safe_disk.Base.Int.{ℤ}
use safe_disk.Base.Strings.{Str, same, same_eq, same_iff}
use safe_disk.GoMap.{lookup, insert}
use safe_disk.GoMap.Laws.{lookup-insert, lookup-insert_other}
use safe_disk.Config.Memory.{
  str_eq, Value, string_value, int_value, bool_value, Maps, new_maps, get_str, get_int, get_bool,
  put_str, put_int, put_bool,
}
use safe_disk.Config.File.{Json}
use safe_disk.Config.Values.{bind, as_str, as_int, as_bool, IsConsistent}

pub data Kind : Type 0 where
  str_kind int_kind bool_kind : Kind

-- The calls of setters, one after another.
pub data Edit : Type 0 where
  edit_str : Str → Str → Edit
  edit_int : Str → ℤ → Edit
  edit_bool : Str → Bool → Edit

abbrev pub edit : Edit → Maps → Maps
edit (edit_str key v) m = put_str key v m
edit (edit_int key v) m = put_int key v m
edit (edit_bool key v) m = put_bool key v m

abbrev pub edit_all : List Edit → Maps → Maps
edit_all [] m = m
edit_all (e ∷ es) m = edit_all es (edit e m)

abbrev pub HasKind : (Str → Kind) → Edit → Type 0
HasKind kind (edit_str key v) = kind key ≡ str_kind
HasKind kind (edit_int key v) = kind key ≡ int_kind
HasKind kind (edit_bool key v) = kind key ≡ bool_kind

abbrev pub HaveKinds : (Str → Kind) → List Edit → Type 0
HaveKinds kind [] = Unit
HaveKinds kind (e ∷ es) = HasKind kind e × HaveKinds kind es

-- Nothing is stored under a key but its own kind of value.
record IsTyped (J : Json) (kind : Str → Kind) (m : Maps) : Type 0 where
  consistent : IsConsistent J m
  no_str : (k : Str) → kind k ≢ str_kind → get_str k m ≡ none
  no_int : (k : Str) → kind k ≢ int_kind → get_int k m ≡ none
  no_bool : (k : Str) → kind k ≢ bool_kind → get_bool k m ≡ none

module _ {A : Type 0} (as_kind : Value → Option A) (all : List (Str × Value)) (key : Str)
    (val : Value) (old new : Str → Option A)
    (before : (k : Str) → old k ≡ bind (lookup str_eq k all) as_kind)
    (at_key : new key ≡ as_kind val) (elsewhere : (k : Str) → k ≢ key → new k ≡ old k) where
  agree-insert : (k : Str) → new k ≡ bind (lookup str_eq k (insert str_eq key val all)) as_kind
  agree-insert k = elim (Bool-cases (same k key)) [
    | inl e ↦
        let p : k ≡ key = same_eq k key e in
        ap new p
        ∙ at_key
        ∙ sym (ap (λ o. bind o as_kind) (lookup-insert str_eq key val all))
        ∙ sym (ap (λ t. bind (lookup str_eq t (insert str_eq key val all)) as_kind) p)
    | inr e ↦
        let h : k ≢ key = λ q. let z = (same_iff k key).1 q in cc in
        elsewhere k h
        ∙ before k
        ∙ sym (ap (λ o. bind o as_kind) (lookup-insert_other str_eq k key val all h))
  ]

-- A map that has nothing under the keys of other kinds, after a key of its own kind is set.
module _ {A : Type 0} (kind : Str → Kind) (own : Kind) (key : Str) (v : A) (xs : List (Str × A))
    (before : (k : Str) → kind k ≢ own → lookup str_eq k xs ≡ none) (mine : kind key ≡ own) where
  none-insert : (k : Str) → kind k ≢ own → lookup str_eq k (insert str_eq key v xs) ≡ none
  none-insert k h =
      let apart : k ≢ key = λ q. h (ap kind q ∙ mine) in
      lookup-insert_other str_eq k key v xs apart ∙ before k h

module _ (J : Json) (kind : Str → Kind) where
  edit-IsTyped :
      (e : Edit) (m : Maps) → HasKind kind e → IsTyped J kind m → IsTyped J kind (edit e m)
  edit-IsTyped (edit_str key v) m h t = record {
    consistent = record {
      strs =
          agree-insert as_str m.data_map key (string_value v) (λ k. get_str k m)
            (λ k. get_str k (put_str key v m)) t.consistent.strs
            (lookup-insert str_eq key v m.str_map)
            (λ k q. lookup-insert_other str_eq k key v m.str_map q);
      ints =
          agree-insert (as_int J.truncate) m.data_map key (string_value v) (λ k. get_int k m)
            (λ k. get_int k m) t.consistent.ints (t.no_int key (λ q. cc)) (λ k q. refl);
      bools =
          agree-insert as_bool m.data_map key (string_value v) (λ k. get_bool k m)
            (λ k. get_bool k m) t.consistent.bools (t.no_bool key (λ q. cc)) (λ k q. refl);
    };
    no_str = none-insert kind str_kind key v m.str_map t.no_str h;
    no_int = t.no_int;
    no_bool = t.no_bool;
  }
  edit-IsTyped (edit_int key v) m h t = record {
    consistent = record {
      strs =
          agree-insert as_str m.data_map key (int_value v) (λ k. get_str k m) (λ k. get_str k m)
            t.consistent.strs (t.no_str key (λ q. cc)) (λ k q. refl);
      ints =
          agree-insert (as_int J.truncate) m.data_map key (int_value v) (λ k. get_int k m)
            (λ k. get_int k (put_int key v m)) t.consistent.ints
            (lookup-insert str_eq key v m.int_map)
            (λ k q. lookup-insert_other str_eq k key v m.int_map q);
      bools =
          agree-insert as_bool m.data_map key (int_value v) (λ k. get_bool k m) (λ k. get_bool k m)
            t.consistent.bools (t.no_bool key (λ q. cc)) (λ k q. refl);
    };
    no_str = t.no_str;
    no_int = none-insert kind int_kind key v m.int_map t.no_int h;
    no_bool = t.no_bool;
  }
  edit-IsTyped (edit_bool key v) m h t = record {
    consistent = record {
      strs =
          agree-insert as_str m.data_map key (bool_value v) (λ k. get_str k m) (λ k. get_str k m)
            t.consistent.strs (t.no_str key (λ q. cc)) (λ k q. refl);
      ints =
          agree-insert (as_int J.truncate) m.data_map key (bool_value v) (λ k. get_int k m)
            (λ k. get_int k m) t.consistent.ints (t.no_int key (λ q. cc)) (λ k q. refl);
      bools =
          agree-insert as_bool m.data_map key (bool_value v) (λ k. get_bool k m)
            (λ k. get_bool k (put_bool key v m)) t.consistent.bools
            (lookup-insert str_eq key v m.bool_map)
            (λ k q. lookup-insert_other str_eq k key v m.bool_map q);
    };
    no_str = t.no_str;
    no_int = t.no_int;
    no_bool = none-insert kind bool_kind key v m.bool_map t.no_bool h;
  }

  edit_all-IsTyped :
      (es : List Edit) (m : Maps)
      → HaveKinds kind es
      → IsTyped J kind m
      → IsTyped J kind (edit_all es m)
  edit_all-IsTyped [] m h t = t
  edit_all-IsTyped (e ∷ es) m h t = edit_all-IsTyped es (edit e m) h.1 (edit-IsTyped e m h.0 t)

  new_maps-IsTyped : IsTyped J kind new_maps
  new_maps-IsTyped = record {
    consistent = record { strs = λ k. refl; ints = λ k. refl; bools = λ k. refl };
    no_str = λ k h. refl;
    no_int = λ k h. refl;
    no_bool = λ k h. refl;
  }

  -- If every key is set to one kind of value only, then after any sets the three maps of a store
  -- hold what its map of all values holds, which is what is saved.
  pub edit_all-IsConsistent :
      (es : List Edit) → HaveKinds kind es → IsConsistent J (edit_all es new_maps)
  edit_all-IsConsistent es h = (edit_all-IsTyped es new_maps h new_maps-IsTyped).consistent
