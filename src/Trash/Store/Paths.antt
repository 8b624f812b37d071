-- ===== src/Trash/Store/Paths.antt =====
-- The folder part of a path, as src/business/trash/trash.service.ts takes it.
use Prim.Native.String
use text.Mathlib.TextLemmas.{append-nil}
use file_system_spike.Base.{◌≡◌, refl, String, str_eq, none, if◌then◌else◌}
use file_system_spike.Files.Paths.{before_last_slash}
use file_system_spike.Files.Paths.Parts.{under, before_last_slash-append, slash_name}
use file_system_spike.Trash.Store.{folder_part, extract_parent_folder_path}

-- A name that has no slash is cut off again: the folder part of the path of a file is the path of its
-- folder, and for a file in the root it is `/`.
extract-under :
    (path name : String)
    → before_last_slash name ≡ none
    → extract_parent_folder_path (under path name) ≡ (if str_eq path "" then "/" else path)
unfolding extract_parent_folder_path folder_part
extract-under path name h =
    rw
      (before_last_slash-append path (String.◌++◌ "/" name) "" (slash_name name h), append-nil path)
      refl
