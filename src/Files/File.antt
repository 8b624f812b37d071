-- ===== src/Files/File.antt =====
-- FileEntity of src/domain/file/entities/file.entity.ts. A method takes the
-- time that its `new Date()` reads.
use file_system_spike.Base.{
  ℕ, String, str_eq, Bool, not, Option, none, some, if◌then◌else◌, Result, ok, err,
}
use file_system_spike.Files.Item.{
  active, trashed, deleted, state_is_active, state_is_trashed, state_is_deleted, only_active,
  only_trashed, ItemError, FileEntity,
}

unfoldable pub is_active : FileEntity → Bool
is_active f = state_is_active f.state

unfoldable pub is_trashed : FileEntity → Bool
is_trashed f = state_is_trashed f.state

unfoldable pub is_deleted : FileEntity → Bool
is_deleted f = state_is_deleted f.state

unfoldable pub delete : ℕ → FileEntity → Result ItemError FileEntity
unfolding is_active
delete now f =
    if not (is_active f)
    then err only_active
    else ok (record f { state = trashed; updated_at = now })

unfoldable pub permanent_delete : ℕ → FileEntity → Result ItemError FileEntity
permanent_delete now f =
    if not (state_is_trashed f.state)
    then err only_trashed
    else ok (record f { state = deleted; updated_at = now })

unfoldable pub rename : ℕ → String → FileEntity → Result ItemError FileEntity
unfolding is_active
rename now new_name f =
    if not (is_active f)
    then err only_active
    else ok (record f { name = new_name; updated_at = now })

unfoldable pub move_to : ℕ → String → FileEntity → Result ItemError FileEntity
unfolding is_active
move_to now target f =
    if not (is_active f)
    then err only_active
    else ok (record f { folder_id = target; updated_at = now })

-- An absent and an empty target leave the folder as it was.
target_or : String → Option String → String
target_or old none = old
target_or old (some target) = if str_eq target "" then old else target

unfoldable pub restore : ℕ → Option String → FileEntity → Result ItemError FileEntity
unfolding is_trashed target_or
restore now target f =
    if not (is_trashed f)
    then err only_trashed
    else ok
        (record f { state = active; folder_id = target_or f.folder_id target; updated_at = now })
