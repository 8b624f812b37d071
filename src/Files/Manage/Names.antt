-- ===== src/Files/Manage/Names.antt =====
-- The helpers on names and object keys of src/business/file/file-manage.service.ts, on code points.
use file_system_spike.Base.{ℕ, String, ◌&&◌, Option, none, some, List, [], ◌∷◌, if◌then◌else◌, ◌==◌}
use file_system_spike.Base.Text.{text_of, is_white, utf16_length}

trim_start : List ℕ → List ℕ
trim_start [] = []
trim_start (c ∷ s) = let rest = trim_start s in if is_white c then rest else c ∷ s

-- A character is kept where it is not white or one is kept after it.
keep : ℕ → List ℕ → List ℕ
keep c [] = if is_white c then [] else c ∷ []
keep c (d ∷ s) = c ∷ d ∷ s

trim_end : List ℕ → List ℕ
unfolding keep
trim_end [] = []
trim_end (c ∷ s) = keep c (trim_end s)

unfoldable pub trim : List ℕ → List ℕ
unfolding trim_start trim_end
trim s = trim_end (trim_start s)

after_last_dot : List ℕ → Option (List ℕ)
after_last_dot [] = none
after_last_dot (c ∷ s) = elim (after_last_dot s) [
  | some e ↦ some e
  | none ↦ if c == b'.' then some s else none
]

abbrev text_or : Option (List ℕ) → List ℕ
text_or none = []
text_or (some s) = s

-- A dot in front of all is none; after a dot at the end there is nothing.
unfoldable pub get_file_extension : List ℕ → List ℕ
unfolding after_last_dot
get_file_extension [] = []
get_file_extension (c ∷ s) = text_or (after_last_dot s)

-- `split('__')[0]`.
first_piece : List ℕ → List ℕ
first_piece [] = []
first_piece (c ∷ []) = c ∷ []
first_piece (c ∷ d ∷ s) =
    let rest = first_piece (d ∷ s) in if c == b'_' && d == b'_' then [] else c ∷ rest

-- `null` where the key has no time of 14 digits in front; a text shows it as `null`.
unfoldable pub extract_timestamp_from_object_key : List ℕ → String
unfolding first_piece utf16_length
extract_timestamp_from_object_key key =
    if utf16_length (first_piece key) == 14 then text_of (first_piece key) else "null"

-- The text after the last slash, all of it where there is none.
after_last_slash : List ℕ → Option (List ℕ)
after_last_slash [] = none
after_last_slash (c ∷ s) = elim (after_last_slash s) [
  | some e ↦ some e
  | none ↦ if c == b'/' then some s else none
]

abbrev whole_or : List ℕ → Option (List ℕ) → List ℕ
whole_or s none = s
whole_or s (some e) = e

unfoldable pub extract_file_name_from_path : List ℕ → List ℕ
unfolding after_last_slash
extract_file_name_from_path path = whole_or path (after_last_slash path)
