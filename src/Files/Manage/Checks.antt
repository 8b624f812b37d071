-- ===== src/Files/Manage/Checks.antt =====
-- The tables that src/business/file/file-manage.service.ts works on, the checks that its operations
-- share, and what an operation that has passed them is to write.
use Prim.Native.String
use file_system_spike.Base.{
  String, str_eq, Bool, true, false, not, Option, none, some, List, if◌then◌else◌, Result, ok, err,
  ◌>>=◌,
}
use file_system_spike.Base.Text.{codes, text_of}
use file_system_spike.Files.Item.{ItemError, FileEntity, FolderEntity}
use file_system_spike.Files.Manage.Names.{
  trim, get_file_extension, extract_timestamp_from_object_key,
}
use file_system_spike.Files.StorageObject.{FileStorageObject, is_syncing}
use file_system_spike.SyncEvent.Entity.{SyncEvent}
use file_system_spike.Trash.Store.{TrashMetadata, id_or}

-- NasFileRenameJobData, NasFileMoveJobData and NasFileTrashJobData.
pub data Job : Type 0 where
  rename_job : (file_id sync_event_id old_object_key new_object_key : String) → Job
  move_job :
      (file_id sync_event_id source_path target_path original_folder_id target_folder_id : String)
      → Job
  trash_job : (file_id sync_event_id current_object_key trash_path : String) → Job

-- `objects` has the NAS objects by the id of their file.
pub record Tables : Type 0 where
  pub files : List (String × FileEntity)
  pub folders : List (String × FolderEntity)
  pub objects : List (String × FileStorageObject)
  pub trash : List (String × TrashMetadata)
  pub events : List (String × SyncEvent)
  pub jobs : List Job

pub data CheckError : Type 0 where
  file_not_found file_not_active file_already_trashed file_syncing file_in_use duplicate_file_exists
        invalid_file_name file_extension_change_not_allowed target_folder_not_found :
      CheckError
  entity_error : ItemError → CheckError

-- What an operation has checked and is to write: the new file and NAS object, the trash row, the event,
-- the job and the path of the answer.
pub record Plan : Type 0 where
  pub file : FileEntity
  pub object : Option FileStorageObject
  pub trashed : Option TrashMetadata
  pub event : SyncEvent
  pub job : Option Job
  pub path : String

-- JavaScript's `toLowerCase`, and what the database and the job queue answer: whether the saves of the file
-- and of the trash row succeed, those of the NAS object and of the sync event, the commit, and the
-- addition of a job.
pub record Services : Type 0 where
  pub to_lower_case : String → String
  pub saves_file : Bool
  pub saves_event : Bool
  pub commits : Bool
  pub accepts : Job → Bool

abbrev pub require : Bool → CheckError → Result CheckError (Unit {0})
require true e = ok tt
require false e = err e

abbrev pub found {ℓ} : {A : Type ℓ} → CheckError → Option A → Result CheckError A
found e none = err e
found e (some a) = ok a

abbrev pub by_entity : Result ItemError FileEntity → Result CheckError FileEntity
by_entity (ok f) = ok f
by_entity (err e) = err (entity_error e)

unfoldable pub validate_rename_request :
    (String → String) → String → Option String → Result CheckError String
unfolding trim get_file_extension
validate_rename_request lower original none = err invalid_file_name
validate_rename_request lower original (some new_name) =
    let trimmed = trim (codes new_name) in
    let original_ext = text_of (get_file_extension (codes original)) in
    let new_ext = text_of (get_file_extension trimmed) in
    require (not (str_eq (text_of trimmed) "")) invalid_file_name >>= λ _.
    require (str_eq (lower original_ext) (lower new_ext)) file_extension_change_not_allowed >>= λ _.
    ok (text_of trimmed)

unfoldable pub check_nas_sync_status :
    Option FileStorageObject → Result CheckError (Option FileStorageObject)
check_nas_sync_status none = ok none
check_nas_sync_status (some o) = if is_syncing o then err file_syncing else ok (some o)

-- The checks of the file, that of its NAS object, and the rest.
unfoldable pub unless_syncing :
    {A : Type 0}
    → Result CheckError A
    → Option FileStorageObject
    → (A → Option FileStorageObject → Result CheckError Plan)
    → Result CheckError Plan
unfolding check_nas_sync_status
unless_syncing r o next = r >>= λ a. check_nas_sync_status o >>= λ o'. next a o'

abbrev pub renamed_key : String → FileStorageObject → String
renamed_key name o =
    String.◌++◌ (extract_timestamp_from_object_key o.object_key) (String.◌++◌ "__" name)

abbrev pub path_of : Option FolderEntity → String
path_of none = "/"
path_of (some f) = id_or (some f.path) "/"

abbrev pub key_of : Option FileStorageObject → Option String
key_of none = none
key_of (some o) = some (text_of o.object_key)
