-- ===== src/SyncEvent/FolderFactory.antt =====
-- SyncEventFactory of src/domain/sync-event/entities/sync-event.entity.ts, the events of folders. The two
-- `new Date()` of a call are one reading of the clock, and a `null` in the metadata is `none`.
use file_system_spike.Base.{ℕ, String, Option, some, none, [], ◌∷◌}
use file_system_spike.SyncEvent.Entity.{SyncEvent, EventType, TargetType, pending}

pub record FolderCreateParams : Type 0 where
  pub id : String
  pub folder_id : String
  pub target_path : String
  pub folder_name : String
  pub parent_id : Option String
  pub user_id : String

unfoldable pub create_folder_create_event : FolderCreateParams → ℕ → SyncEvent
create_folder_create_event p now = record {
  id = p.id;
  event_type = EventType.create;
  target_type = TargetType.folder;
  file_id = none;
  folder_id = some p.folder_id;
  source_path = "";
  target_path = p.target_path;
  status = pending;
  process_by = p.user_id;
  retry_count = 0;
  max_retries = 3;
  error_message = none;
  metadata = some (("folderName", some p.folder_name) ∷ ("parentId", p.parent_id) ∷ []);
  processed_at = none;
  created_at = now;
  updated_at = now;
}

pub record FolderRenameParams : Type 0 where
  pub id : String
  pub folder_id : String
  pub source_path : String
  pub target_path : String
  pub old_name : String
  pub new_name : String
  pub old_path : String
  pub new_path : String
  pub user_id : String

unfoldable pub create_folder_rename_event : FolderRenameParams → ℕ → SyncEvent
create_folder_rename_event p now = record {
  id = p.id;
  event_type = EventType.rename;
  target_type = TargetType.folder;
  file_id = none;
  folder_id = some p.folder_id;
  source_path = p.source_path;
  target_path = p.target_path;
  status = pending;
  process_by = p.user_id;
  retry_count = 0;
  max_retries = 3;
  error_message = none;
  metadata = some (
      ("oldName", some p.old_name)
      ∷ ("newName", some p.new_name)
      ∷ ("oldPath", some p.old_path)
      ∷ ("newPath", some p.new_path)
      ∷ []);
  processed_at = none;
  created_at = now;
  updated_at = now;
}

pub record FolderMoveParams : Type 0 where
  pub id : String
  pub folder_id : String
  pub source_path : String
  pub target_path : String
  pub original_parent_id : Option String
  pub target_parent_id : String
  pub old_path : String
  pub new_path : String
  pub user_id : String

unfoldable pub create_folder_move_event : FolderMoveParams → ℕ → SyncEvent
create_folder_move_event p now = record {
  id = p.id;
  event_type = EventType.move;
  target_type = TargetType.folder;
  file_id = none;
  folder_id = some p.folder_id;
  source_path = p.source_path;
  target_path = p.target_path;
  status = pending;
  process_by = p.user_id;
  retry_count = 0;
  max_retries = 3;
  error_message = none;
  metadata = some (
      ("originalParentId", p.original_parent_id)
      ∷ ("targetParentId", some p.target_parent_id)
      ∷ ("oldPath", some p.old_path)
      ∷ ("newPath", some p.new_path)
      ∷ []);
  processed_at = none;
  created_at = now;
  updated_at = now;
}

pub record FolderTrashParams : Type 0 where
  pub id : String
  pub folder_id : String
  pub source_path : String
  pub target_path : String
  pub original_path : String
  pub original_parent_id : Option String
  pub current_path : String
  pub trash_path : String
  pub user_id : String

unfoldable pub create_folder_trash_event : FolderTrashParams → ℕ → SyncEvent
create_folder_trash_event p now = record {
  id = p.id;
  event_type = EventType.trash;
  target_type = TargetType.folder;
  file_id = none;
  folder_id = some p.folder_id;
  source_path = p.source_path;
  target_path = p.target_path;
  status = pending;
  process_by = p.user_id;
  retry_count = 0;
  max_retries = 3;
  error_message = none;
  metadata = some (
      ("originalPath", some p.original_path)
      ∷ ("originalParentId", p.original_parent_id)
      ∷ ("currentPath", some p.current_path)
      ∷ ("trashPath", some p.trash_path)
      ∷ []);
  processed_at = none;
  created_at = now;
  updated_at = now;
}

pub record FolderRestoreParams : Type 0 where
  pub id : String
  pub folder_id : String
  pub source_path : String
  pub target_path : String
  pub trash_path : String
  pub restore_path : String
  pub trash_metadata_id : String
  pub original_parent_id : Option String
  pub user_id : String

unfoldable pub create_folder_restore_event : FolderRestoreParams → ℕ → SyncEvent
create_folder_restore_event p now = record {
  id = p.id;
  event_type = EventType.restore;
  target_type = TargetType.folder;
  file_id = none;
  folder_id = some p.folder_id;
  source_path = p.source_path;
  target_path = p.target_path;
  status = pending;
  process_by = p.user_id;
  retry_count = 0;
  max_retries = 3;
  error_message = none;
  metadata = some (
      ("trashPath", some p.trash_path)
      ∷ ("restorePath", some p.restore_path)
      ∷ ("trashMetadataId", some p.trash_metadata_id)
      ∷ ("originalParentId", p.original_parent_id)
      ∷ []);
  processed_at = none;
  created_at = now;
  updated_at = now;
}

pub record FolderPurgeParams : Type 0 where
  pub id : String
  pub folder_id : String
  pub source_path : String
  pub trash_path : String
  pub trash_metadata_id : String
  pub user_id : String

unfoldable pub create_folder_purge_event : FolderPurgeParams → ℕ → SyncEvent
create_folder_purge_event p now = record {
  id = p.id;
  event_type = EventType.purge;
  target_type = TargetType.folder;
  file_id = none;
  folder_id = some p.folder_id;
  source_path = p.source_path;
  target_path = "";
  status = pending;
  process_by = p.user_id;
  retry_count = 0;
  max_retries = 3;
  error_message = none;
  metadata =
      some (("trashPath", some p.trash_path) ∷ ("trashMetadataId", some p.trash_metadata_id) ∷ []);
  processed_at = none;
  created_at = now;
  updated_at = now;
}
