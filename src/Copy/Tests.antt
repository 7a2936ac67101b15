-- ===== src/Copy/Tests.antt =====
-- A file that is copied over another.
use safe_disk.Base.{true, false, ◌≡◌, refl, none, some, List, [], ◌∷◌}
use safe_disk.Base.Strings.{Str}
use safe_disk.Copy.{Outcome, works, Disk, copied, copy_file_entry}
use safe_disk.Copy.Safe.{IsKept, copy_file_entry-IsKept}

abbrev old_text : Str
old_text = 1 ∷ []

abbrev new_text : Str
new_text = 2 ∷ []

abbrev start : Disk
start = record { dst = some old_text; temp = none; backup = none }

abbrev ten_work : List Outcome
ten_work =
    works ∷ works ∷ works ∷ works ∷ works ∷ works ∷ works ∷ works ∷ works ∷ works ∷ works ∷ []

copies : (copy_file_entry false true new_text ten_work start).0 ≡ some copied
copies = refl

-- The process dies between the two renames: there is no file at the destination.
abbrev between : List Outcome
between = works ∷ works ∷ works ∷ works ∷ works ∷ works ∷ works ∷ works ∷ works ∷ []

no_destination : (copy_file_entry false true new_text between start).1.dst ≡ none
no_destination = refl

copy_file_entry-IsKept_example :
    IsKept old_text new_text (copy_file_entry false true new_text between start)
copy_file_entry-IsKept_example =
    copy_file_entry-IsKept old_text new_text false true between start refl
