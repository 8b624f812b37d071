-- ===== src/Files/NameCheck.antt =====
-- `existsByNameInFolder` of src/infra/database/repositories/file.repository.ts, by which the services
-- look for a file of the same name.
use file_system_spike.Base.{
  ℕ, String, str_eq, Bool, true, false, not, ◌&&◌, Option, none, some, List, [], ◌∷◌, if◌then◌else◌,
  ◌==◌,
}
use file_system_spike.Files.Item.{state_is_active, FileEntity}

unfoldable pub is_other : Option String → FileEntity → Bool
is_other none f = true
is_other (some i) f = if str_eq i "" then true else not (str_eq f.id i)

unfoldable pub same_time : Option ℕ → FileEntity → Bool
same_time none f = true
same_time (some t) f = f.created_at == t

-- `in_folder`, `same_name` and `same_type` are the first three conditions of the query.
unfoldable pub matches : String → String → String → Option String → Option ℕ → FileEntity → Bool
unfolding is_other same_time
matches folder_id name mime_type exclude created_at f =
    let in_folder = str_eq f.folder_id folder_id in
    let same_name = str_eq f.name name in
    let same_type = str_eq f.mime_type mime_type in
    in_folder
    && (same_name
        && (same_type
            && (state_is_active f.state && (is_other exclude f && same_time created_at f))))

-- `중복확인`, which is `existsByNameInFolder` of src/infra/database/repositories/file.repository.ts.
unfoldable pub exists_by_name_in_folder :
    String → String → String → Option String → Option ℕ → List (String × FileEntity) → Bool
unfolding matches
exists_by_name_in_folder folder_id name mime_type exclude created_at [] = false
exists_by_name_in_folder folder_id name mime_type exclude created_at ((k, f) ∷ fs) =
    let rest = exists_by_name_in_folder folder_id name mime_type exclude created_at fs in
    if matches folder_id name mime_type exclude created_at f then true else rest
