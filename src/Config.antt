-- ===== src/Config.antt =====
-- The configuration stores of native/config: the interface SharedConfig, the store in memory
-- (memory_config.go), the one with a prefix (prefixed.go) and the one in a file (file_config.go).
-- Keys and strings are lists of bytes; a Go int is an integer. A getter that gives none returns
-- the error "key not found".
pub mod Prefixed
pub mod Memory
pub mod File
pub mod Values
pub mod Reload
pub mod Kinds
pub mod Sample
mod Tests
use safe_disk.Base.{ℕ, Bool, true, false, ◌≡◌, ◌≢◌, Option, none, some, List, [], ◌∷◌, ◌++◌}
use safe_disk.Base.Int.{ℤ}
use safe_disk.Base.Strings.{Str}

-- What a setter reports.
pub data SetError : Type 0 where
  write_failed chmod_failed : SetError

-- `SharedConfig`
pub record SharedConfig : Type 1 where
  pub State : Type 0
  pub get_str : Str → State → Option Str
  pub get_int : Str → State → Option ℤ
  pub get_bool : Str → State → Option Bool
  pub set_str : Str → Str → State → Option SetError × State
  pub set_int : Str → ℤ → State → Option SetError × State
  pub set_bool : Str → Bool → State → Option SetError × State

-- What users of a store rely on: a setter sets its key, for its own kind of value, and no other.
pub record ConfigLaws (C : SharedConfig) : Type 0 where
  pub str_same : (k v : Str) (s : C.State) → C.get_str k (C.set_str k v s).1 ≡ some v
  pub str_other :
      (j k v : Str) (s : C.State) → j ≢ k → C.get_str j (C.set_str k v s).1 ≡ C.get_str j s
  pub str_int : (j k v : Str) (s : C.State) → C.get_int j (C.set_str k v s).1 ≡ C.get_int j s
  pub str_bool : (j k v : Str) (s : C.State) → C.get_bool j (C.set_str k v s).1 ≡ C.get_bool j s
  pub int_same : (k : Str) (v : ℤ) (s : C.State) → C.get_int k (C.set_int k v s).1 ≡ some v
  pub int_other :
      (j k : Str) (v : ℤ) (s : C.State) → j ≢ k → C.get_int j (C.set_int k v s).1 ≡ C.get_int j s
  pub int_str : (j k : Str) (v : ℤ) (s : C.State) → C.get_str j (C.set_int k v s).1 ≡ C.get_str j s
  pub int_bool :
      (j k : Str) (v : ℤ) (s : C.State) → C.get_bool j (C.set_int k v s).1 ≡ C.get_bool j s
  pub bool_same : (k : Str) (v : Bool) (s : C.State) → C.get_bool k (C.set_bool k v s).1 ≡ some v
  pub bool_other :
      (j k : Str) (v : Bool) (s : C.State)
      → j ≢ k
      → C.get_bool j (C.set_bool k v s).1 ≡ C.get_bool j s
  pub bool_str :
      (j k : Str) (v : Bool) (s : C.State) → C.get_str j (C.set_bool k v s).1 ≡ C.get_str j s
  pub bool_int :
      (j k : Str) (v : Bool) (s : C.State) → C.get_int j (C.set_bool k v s).1 ≡ C.get_int j s
