-- ===== src/Trash/Store.antt =====
-- The rows that src/business/trash/trash.service.ts reads and writes: TrashMetadataEntity of
-- src/domain/trash/entities/trash-metadata.entity.ts, the files, the folders and the sync events, with
-- the queries of their repositories, and the jobs of the NAS queues.
pub mod Paths
use file_system_spike.Base.{
  ℕ, ◌+◌, ◌*◌, String, str_eq, Bool, true, false, not, ◌&&◌, Option, none, some, List, [], ◌∷◌,
  if◌then◌else◌, ltb, ◌==◌,
}
use file_system_spike.Base.Dict.{lookup, set, delete}
use file_system_spike.Files.Item.{ItemState, state_is_active, FileEntity, FolderEntity}
use file_system_spike.Files.Paths.{before_last_slash}
use file_system_spike.SyncEvent.Entity.{SyncEvent}

pub record TrashMetadata : Type 0 where
  pub id : String
  pub file_id : Option String
  pub folder_id : Option String
  pub original_path : String
  pub original_folder_id : Option String
  pub original_parent_id : Option String
  pub deleted_by : String
  pub deleted_at : ℕ
  pub expires_at : ℕ

-- `x || undefined`: a text that is there and is not empty.
abbrev pub truthy : Option String → Option String
truthy none = none
truthy (some s) = if str_eq s "" then none else some s

abbrev pub present : Option String → Bool
present none = false
present (some s) = not (str_eq s "")

unfoldable pub is_file : TrashMetadata → Bool
is_file t = present t.file_id

unfoldable pub is_folder : TrashMetadata → Bool
is_folder t = present t.folder_id

unfoldable pub id_or : Option String → String → String
id_or none d = d
id_or (some s) d = if str_eq s "" then d else s

-- `this.fileId || this.folderId || ''`.
unfoldable pub get_target_id : TrashMetadata → String
unfolding id_or
get_target_id t = id_or t.file_id (id_or t.folder_id "")

unfoldable pub is_expired : ℕ → TrashMetadata → Bool
is_expired now t = ltb t.expires_at now

-- A day of the calendar is taken for 24 hours.
abbrev pub day_ms : ℕ
day_ms = 86400000

unfoldable pub extend_expiry : ℕ → TrashMetadata → TrashMetadata
extend_expiry days t = record t { expires_at = t.expires_at + days * day_ms }

-- NasFileRestoreJobData and NasFilePurgeJobData, and the two for folders.
pub data Job : Type 0 where
  file_restore : (file_id sync_event_id trash_metadata_id target_folder_id user_id : String) → Job
  file_purge : (file_id sync_event_id trash_metadata_id user_id : String) → Job
  folder_restore :
      (folder_id sync_event_id trash_path restore_path trash_metadata_id parent_id : String) → Job
  folder_purge : (folder_id sync_event_id trash_path trash_metadata_id : String) → Job

pub record Store : Type 0 where
  pub trash : List (String × TrashMetadata)
  pub files : List (String × FileEntity)
  pub folders : List (String × FolderEntity)
  pub events : List (String × SyncEvent)
  pub jobs : List Job

abbrev pub save_event : SyncEvent → Store → Store
save_event e s = record s { events = set e.id e s.events }

-- The options of `folderDomainService.조건조회`; `parent` tells `parentId: null` from no condition.
pub data ParentCondition : Type 0 where
  any_parent no_parent : ParentCondition
  parent_is : String → ParentCondition

pub record FolderQuery : Type 0 where
  pub parent : ParentCondition
  pub name : Option String
  pub path : Option String

-- What the database and the job queue do. `find_folder` is a `findOne` of active folders and `find_file`
-- one of active files by folder, name and type; `accepts` tells whether `addJob` succeeds.
pub record Services : Type 0 where
  pub find_folder : FolderQuery → List (String × FolderEntity) → Option FolderEntity
  pub find_file : String → String → String → List (String × FileEntity) → Option FileEntity
  pub accepts : Job → Bool

unfoldable pub folder_part : Option String → String
folder_part none = "/"
folder_part (some p) = if str_eq p "" then "/" else p

unfoldable pub extract_parent_folder_path : String → String
unfolding before_last_slash folder_part
extract_parent_folder_path path = folder_part (before_last_slash path)
