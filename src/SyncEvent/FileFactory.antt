-- ===== src/SyncEvent/FileFactory.antt =====
-- SyncEventFactory of src/domain/sync-event/entities/sync-event.entity.ts, the events of files. The two
-- `new Date()` of a call are one reading of the clock, and a `null` in the metadata is `none`.
use file_system_spike.Base.{ℕ, String, some, none, [], ◌∷◌}
use file_system_spike.SyncEvent.Entity.{SyncEvent, EventType, TargetType, pending}

pub record FileCreateParams : Type 0 where
  pub id : String
  pub file_id : String
  pub source_path : String
  pub target_path : String
  pub file_name : String
  pub folder_id : String
  pub process_by : String

unfoldable pub create_file_create_event : FileCreateParams → ℕ → SyncEvent
create_file_create_event p now = record {
  id = p.id;
  event_type = EventType.create;
  target_type = TargetType.file;
  file_id = some p.file_id;
  folder_id = none;
  source_path = p.source_path;
  target_path = p.target_path;
  status = pending;
  process_by = p.process_by;
  retry_count = 0;
  max_retries = 3;
  error_message = none;
  metadata = some (("fileName", some p.file_name) ∷ ("folderId", some p.folder_id) ∷ []);
  processed_at = none;
  created_at = now;
  updated_at = now;
}

pub record FileRenameParams : Type 0 where
  pub id : String
  pub file_id : String
  pub source_path : String
  pub target_path : String
  pub old_name : String
  pub new_name : String
  pub old_object_key : String
  pub new_object_key : String
  pub user_id : String

unfoldable pub create_file_rename_event : FileRenameParams → ℕ → SyncEvent
create_file_rename_event p now = record {
  id = p.id;
  event_type = EventType.rename;
  target_type = TargetType.file;
  file_id = some p.file_id;
  folder_id = none;
  source_path = p.source_path;
  target_path = p.target_path;
  status = pending;
  process_by = p.user_id;
  retry_count = 0;
  max_retries = 3;
  error_message = none;
  metadata = some (
      ("oldName", some p.old_name)
      ∷ ("newName", some p.new_name)
      ∷ ("oldObjectKey", some p.old_object_key)
      ∷ ("newObjectKey", some p.new_object_key)
      ∷ []);
  processed_at = none;
  created_at = now;
  updated_at = now;
}

pub record FileMoveParams : Type 0 where
  pub id : String
  pub file_id : String
  pub source_path : String
  pub target_path : String
  pub original_folder_id : String
  pub target_folder_id : String
  pub user_id : String

unfoldable pub create_file_move_event : FileMoveParams → ℕ → SyncEvent
create_file_move_event p now = record {
  id = p.id;
  event_type = EventType.move;
  target_type = TargetType.file;
  file_id = some p.file_id;
  folder_id = none;
  source_path = p.source_path;
  target_path = p.target_path;
  status = pending;
  process_by = p.user_id;
  retry_count = 0;
  max_retries = 3;
  error_message = none;
  metadata = some (
      ("originalFolderId", some p.original_folder_id)
      ∷ ("targetFolderId", some p.target_folder_id)
      ∷ []);
  processed_at = none;
  created_at = now;
  updated_at = now;
}

pub record FileTrashParams : Type 0 where
  pub id : String
  pub file_id : String
  pub source_path : String
  pub target_path : String
  pub original_path : String
  pub original_folder_id : String
  pub current_object_key : String
  pub trash_path : String
  pub user_id : String

unfoldable pub create_file_trash_event : FileTrashParams → ℕ → SyncEvent
create_file_trash_event p now = record {
  id = p.id;
  event_type = EventType.trash;
  target_type = TargetType.file;
  file_id = some p.file_id;
  folder_id = none;
  source_path = p.source_path;
  target_path = p.target_path;
  status = pending;
  process_by = p.user_id;
  retry_count = 0;
  max_retries = 3;
  error_message = none;
  metadata = some (
      ("originalPath", some p.original_path)
      ∷ ("originalFolderId", some p.original_folder_id)
      ∷ ("currentObjectKey", some p.current_object_key)
      ∷ ("trashPath", some p.trash_path)
      ∷ []);
  processed_at = none;
  created_at = now;
  updated_at = now;
}

pub record FileRestoreParams : Type 0 where
  pub id : String
  pub file_id : String
  pub source_path : String
  pub target_folder_id : String
  pub trash_metadata_id : String
  pub user_id : String

unfoldable pub create_file_restore_event : FileRestoreParams → ℕ → SyncEvent
create_file_restore_event p now = record {
  id = p.id;
  event_type = EventType.restore;
  target_type = TargetType.file;
  file_id = some p.file_id;
  folder_id = none;
  source_path = p.source_path;
  target_path = "";
  status = pending;
  process_by = p.user_id;
  retry_count = 0;
  max_retries = 3;
  error_message = none;
  metadata = some (
      ("trashMetadataId", some p.trash_metadata_id)
      ∷ ("restoreTargetFolderId", some p.target_folder_id)
      ∷ []);
  processed_at = none;
  created_at = now;
  updated_at = now;
}

pub record FilePurgeParams : Type 0 where
  pub id : String
  pub file_id : String
  pub source_path : String
  pub trash_metadata_id : String
  pub trash_path : String
  pub user_id : String

unfoldable pub create_file_purge_event : FilePurgeParams → ℕ → SyncEvent
create_file_purge_event p now = record {
  id = p.id;
  event_type = EventType.purge;
  target_type = TargetType.file;
  file_id = some p.file_id;
  folder_id = none;
  source_path = p.source_path;
  target_path = "";
  status = pending;
  process_by = p.user_id;
  retry_count = 0;
  max_retries = 3;
  error_message = none;
  metadata =
      some (("trashMetadataId", some p.trash_metadata_id) ∷ ("trashPath", some p.trash_path) ∷ []);
  processed_at = none;
  created_at = now;
  updated_at = now;
}
