-- ===== src/Server/Paths.antt =====
-- The paths of sec_webdav/server.go and `secureFileSystem.resolve`. `path.Join`, `strings.Split`,
-- `strings.Join` and `strings.Trim` are written out as far as the code uses them.
pub mod Split
pub mod Below
use safe_disk.Base.{
  ℕ, Bool, true, false, not, ◌||◌, ◌&&◌, ◌==◌, Option, none, some, List, [], ◌∷◌, ◌++◌,
  if◌then◌else◌,
}
use safe_disk.Base.Strings.{Str, codes, same, is_empty, has_char}
use mathlib.Core.List.{reverse}

abbrev pub slash : ℕ
slash = 47

abbrev pub backslash : ℕ
backslash = 92

abbrev pub dot : Str
dot = codes "."

abbrev pub dots : Str
dots = codes ".."

abbrev pub push_head : ℕ → List Str → List Str
push_head x [] = (x ∷ []) ∷ []
push_head x (s ∷ ss) = (x ∷ s) ∷ ss

-- `strings.Split(_, "/")`
abbrev pub split : Str → List Str
split [] = [] ∷ []
split (x ∷ xs) = elim (x == slash) [ true ↦ [] ∷ split xs | false ↦ push_head x (split xs) ]

-- `strings.Join(_, "/")`
abbrev pub join : List Str → Str
join [] = []
join (s ∷ []) = s
join (s ∷ t ∷ ts) = s ++ slash ∷ join (t ∷ ts)

abbrev pub trim_left : Str → Str
trim_left [] = []
trim_left (x ∷ xs) = elim (x == slash) [ true ↦ trim_left xs | false ↦ x ∷ xs ]

abbrev pub keep : ℕ → Str → Str
keep x [] = elim (x == slash) [ true ↦ [] | false ↦ x ∷ [] ]
keep x (y ∷ ys) = x ∷ y ∷ ys

abbrev pub trim_right : Str → Str
trim_right [] = []
trim_right (x ∷ xs) = keep x (trim_right xs)

-- `strings.Trim(_, "/")`
abbrev pub trim : Str → Str
trim s = trim_right (trim_left s)

-- The test of the loops of `cleanRelativePath` and `validURLSegments`.
abbrev pub is_segment : Str → Bool
is_segment s =
    not (is_empty s || (same s dot || (same s dots || (has_char backslash s || has_char 0 s))))

-- `validURLSegments`
abbrev pub valid_url_segments : List Str → Bool
valid_url_segments [] = true
valid_url_segments (s ∷ ss) = is_segment s && valid_url_segments ss

-- `splitURLPath`
abbrev pub parts_of : Str → List Str
parts_of [] = []
parts_of (x ∷ xs) = split (x ∷ xs)

abbrev pub split_url_path : Str → List Str
split_url_path value = parts_of (trim value)

abbrev pub joined : Bool → List Str → Option Str
joined true parts = some (join parts)
joined false parts = none

abbrev pub clean_trimmed : Str → Option Str
clean_trimmed [] = some []
clean_trimmed (x ∷ xs) = joined (valid_url_segments (split (x ∷ xs))) (split (x ∷ xs))

-- `cleanRelativePath`; none is ErrInvalidPath.
abbrev pub clean_relative_path : Str → Option Str
clean_relative_path value = clean_trimmed (trim value)

-- A step of `path.Clean` at "..", over the elements kept so far, the last one first.
abbrev pub step_back : Bool → List Str → List Str
step_back rooted [] = if rooted then [] else dots ∷ []
step_back rooted (s ∷ ss) = if same s dots then dots ∷ s ∷ ss else ss

abbrev pub clean_parts : Bool → List Str → List Str → List Str
clean_parts rooted kept [] = reverse kept
clean_parts rooted kept (s ∷ ss) =
    clean_parts rooted
      (if is_empty s || same s dot
        then kept
        else if same s dots
        then step_back rooted kept
        else s ∷ kept)
      ss

abbrev pub or_dot : Str → Str
or_dot [] = dot
or_dot (x ∷ xs) = x ∷ xs

-- `path.Clean`
abbrev pub clean_path : Str → Str
clean_path [] = dot
clean_path (x ∷ xs) = elim (x == slash) [
  | true ↦ slash ∷ join (clean_parts true [] (split (x ∷ xs)))
  | false ↦ or_dot (join (clean_parts false [] (split (x ∷ xs))))
]

-- `joinSecurePath`
abbrev pub join_secure_path : Str → Str → Str
join_secure_path [] relative = relative
join_secure_path (b ∷ bs) [] = b ∷ bs
join_secure_path (b ∷ bs) (r ∷ rs) = clean_path ((b ∷ bs) ++ slash ∷ (r ∷ rs))

abbrev pub joined_below : Str → Option Str → Option Str
joined_below base none = none
joined_below base (some relative) = some (join_secure_path base relative)

-- `secureFileSystem.resolve`
abbrev pub resolve : Str → Str → Option Str
resolve base name = joined_below base (clean_relative_path name)
