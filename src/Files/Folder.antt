-- ===== src/Files/Folder.antt =====
-- FolderEntity of src/domain/folder/entities/folder.entity.ts. A method takes the
-- time that its `new Date()` reads.
use file_system_spike.Base.{
  ℕ, String, Bool, true, false, not, Option, none, some, if◌then◌else◌, Result, ok, err,
}
use file_system_spike.Files.Item.{
  active, trashed, deleted, state_is_active, state_is_trashed, state_is_deleted, only_active,
  only_trashed, ItemError, FolderEntity,
}

unfoldable pub is_active : FolderEntity → Bool
is_active f = state_is_active f.state

unfoldable pub is_trashed : FolderEntity → Bool
is_trashed f = state_is_trashed f.state

unfoldable pub is_deleted : FolderEntity → Bool
is_deleted f = state_is_deleted f.state

no_parent : Option String → Bool
no_parent none = true
no_parent (some p) = false

unfoldable pub is_root : FolderEntity → Bool
unfolding no_parent
is_root f = no_parent f.parent_id

unfoldable pub delete : ℕ → FolderEntity → Result ItemError FolderEntity
unfolding is_active
delete now f =
    if not (is_active f)
    then err only_active
    else ok (record f { state = trashed; updated_at = now })

unfoldable pub permanent_delete : ℕ → FolderEntity → Result ItemError FolderEntity
permanent_delete now f =
    if not (state_is_trashed f.state)
    then err only_trashed
    else ok (record f { state = deleted; updated_at = now })

unfoldable pub rename : ℕ → String → String → FolderEntity → Result ItemError FolderEntity
unfolding is_active
rename now new_name new_path f =
    if not (is_active f)
    then err only_active
    else ok (record f { name = new_name; path = new_path; updated_at = now })

unfoldable pub move_to : ℕ → String → String → FolderEntity → Result ItemError FolderEntity
unfolding is_active
move_to now target new_path f =
    if not (is_active f)
    then err only_active
    else ok (record f { parent_id = some target; path = new_path; updated_at = now })

unfoldable pub restore : ℕ → FolderEntity → Result ItemError FolderEntity
unfolding is_trashed
restore now f =
    if not (is_trashed f)
    then err only_trashed
    else ok (record f { state = active; updated_at = now })
