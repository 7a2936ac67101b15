-- ===== src/Config/Prefixed.antt =====
-- `PrefixedConfig`: every key with a prefix, in a store that others share.
use safe_disk.Base.{ℕ, Bool, false, ◌==◌, ==_iff, ◌≡◌, ◌≢◌, refl, sym, [], ◌∷◌, ◌++◌}
use safe_disk.Base.Strings.{Str, same_prefix, has_char, or_false}
use safe_disk.Base.Int.{ℤ}
use safe_disk.Config.{SharedConfig, ConfigLaws}

-- `NewPrefixedConfig`, with its getters and setters.
abbrev pub prefixed : Str → SharedConfig → SharedConfig
prefixed prefix C = record {
  State = C.State;
  get_str = λ key s. C.get_str (prefix ++ key) s;
  get_int = λ key s. C.get_int (prefix ++ key) s;
  get_bool = λ key s. C.get_bool (prefix ++ key) s;
  set_str = λ key val s. C.set_str (prefix ++ key) val s;
  set_int = λ key val s. C.set_int (prefix ++ key) val s;
  set_bool = λ key val s. C.set_bool (prefix ++ key) val s;
}

abbrev pub underscore : ℕ
underscore = 95

-- `WithGroup` of a store that is no PrefixedConfig, and of one that is.
abbrev pub with_group : Str → SharedConfig → SharedConfig
with_group name C = prefixed (name ++ (underscore ∷ [])) C

abbrev pub with_subgroup : Str → Str → SharedConfig → SharedConfig
with_subgroup prefix name C = prefixed (prefix ++ (name ++ (underscore ∷ []))) C

other_key : (prefix j k : Str) → j ≢ k → prefix ++ j ≢ prefix ++ k
other_key prefix j k h e = h (same_prefix prefix j k e)

-- A store keeps its laws under a prefix.
pub prefixed-ConfigLaws :
    (prefix : Str) (C : SharedConfig) → ConfigLaws C → ConfigLaws (prefixed prefix C)
prefixed-ConfigLaws prefix C L = record {
  str_same = λ k v s. L.str_same (prefix ++ k) v s;
  str_other = λ j k v s h. L.str_other (prefix ++ j) (prefix ++ k) v s (other_key prefix j k h);
  str_int = λ j k v s. L.str_int (prefix ++ j) (prefix ++ k) v s;
  str_bool = λ j k v s. L.str_bool (prefix ++ j) (prefix ++ k) v s;
  int_same = λ k v s. L.int_same (prefix ++ k) v s;
  int_other = λ j k v s h. L.int_other (prefix ++ j) (prefix ++ k) v s (other_key prefix j k h);
  int_str = λ j k v s. L.int_str (prefix ++ j) (prefix ++ k) v s;
  int_bool = λ j k v s. L.int_bool (prefix ++ j) (prefix ++ k) v s;
  bool_same = λ k v s. L.bool_same (prefix ++ k) v s;
  bool_other = λ j k v s h. L.bool_other (prefix ++ j) (prefix ++ k) v s (other_key prefix j k h);
  bool_str = λ j k v s. L.bool_str (prefix ++ j) (prefix ++ k) v s;
  bool_int = λ j k v s. L.bool_int (prefix ++ j) (prefix ++ k) v s;
}

-- A name without an underscore ends at the first underscore of its keys.
has_char-cons :
    (c x : ℕ) (xs : Str)
    → has_char c (x ∷ xs) ≡ false
    → ((c == x) ≡ false) × (has_char c xs ≡ false)
has_char-cons c x xs h = or_false (c == x) (has_char c xs) h

same_name :
    (a b j k : Str)
    → has_char underscore a ≡ false
    → has_char underscore b ≡ false
    → (a ++ (underscore ∷ [])) ++ j ≡ (b ++ (underscore ∷ [])) ++ k
    → a ≡ b
same_name [] [] j k p q e = refl
same_name [] (y ∷ b) j k p q e =
    let z : underscore ≡ y = cc in
    let t = (==_iff underscore y).1 z in let f = (has_char-cons underscore y b q).0 in cc
same_name (x ∷ a) [] j k p q e =
    let z : underscore ≡ x = cc in
    let t = (==_iff underscore x).1 z in let f = (has_char-cons underscore x a p).0 in cc
same_name (x ∷ a) (y ∷ b) j k p q e =
    let heads : x ≡ y = cc in
    let tails : a ≡ b =
      same_name a b j k (has_char-cons underscore x a p).1 (has_char-cons underscore y b q).1 cc in
    cc

-- Groups of a store whose names differ and have no underscore share no key: a set in one changes
-- no value of its kind in the other.
pub with_group-apart :
    (C : SharedConfig) (L : ConfigLaws C) (a b k j v : Str) (n : ℤ) (t : Bool) (s : C.State)
    → has_char underscore a ≡ false
    → has_char underscore b ≡ false
    → a ≢ b
    → ((with_group b C).get_str j ((with_group a C).set_str k v s).1 ≡ (with_group b C).get_str j s)
      × ((with_group b C).get_int j ((with_group a C).set_int k n s).1
          ≡ (with_group b C).get_int j s)
      × ((with_group b C).get_bool j ((with_group a C).set_bool k t s).1
          ≡ (with_group b C).get_bool j s)
with_group-apart C L a b k j v n t s p q h =
    let apart : (b ++ (underscore ∷ [])) ++ j ≢ (a ++ (underscore ∷ [])) ++ k =
      λ e. h (sym (same_name b a j k q p e)) in
    (L.str_other _ _ v s apart, L.int_other _ _ n s apart, L.bool_other _ _ t s apart)
