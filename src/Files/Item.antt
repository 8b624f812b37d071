-- ===== src/Files/Item.antt =====
-- The fields of src/domain/file/entities/file.entity.ts and src/domain/folder/entities/folder.entity.ts.
use file_system_spike.Base.{ℕ, String, Bool, true, false, Option}

-- `FileState` and `FolderState` have the same values.
pub data ItemState : Type 0 where
  active trashed deleted : ItemState

abbrev pub state_is_active : ItemState → Bool
state_is_active active = true
state_is_active _ = false

abbrev pub state_is_trashed : ItemState → Bool
state_is_trashed trashed = true
state_is_trashed _ = false

abbrev pub state_is_deleted : ItemState → Bool
state_is_deleted deleted = true
state_is_deleted _ = false

pub data ItemError : Type 0 where
  only_active only_trashed : ItemError

pub record FileEntity : Type 0 where
  pub id : String
  pub name : String
  pub folder_id : String
  pub size_bytes : ℕ
  pub mime_type : String
  pub state : ItemState
  pub created_by : String
  pub created_at : ℕ
  pub updated_at : ℕ

pub record FolderEntity : Type 0 where
  pub id : String
  pub name : String
  pub parent_id : Option String
  pub path : String
  pub state : ItemState
  pub created_by : String
  pub created_at : ℕ
  pub updated_at : ℕ
