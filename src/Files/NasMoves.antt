-- ===== src/Files/NasMoves.antt =====
-- The handlers of src/business/worker/handlers that move a stored file on the NAS: FileMoveHandler of
-- file-move.handler.ts and FileTrashHandler of file-trash.handler.ts. What the NAS answers is an
-- argument; `moves` has the calls that it was given.
pub mod Twice
use Prim.Native.String
use file_system_spike.Base.{
  ℕ, String, str_eq, Bool, true, false, ◌&&◌, Option, none, some, List, [], ◌∷◌, ◌++◌, ltb,
  if◌then◌else◌, Result, ok, err,
}
use file_system_spike.Base.Dict.{lookup, set}
use file_system_spike.Base.Text.{codes, text_of, decimal}
use file_system_spike.Files.Item.{ItemError, FileEntity, FolderEntity, state_is_active}
use file_system_spike.Files.File
use file_system_spike.Files.StorageObject.{
  FileStorageObject, available, is_available, update_status, update_object_key,
}
use file_system_spike.SyncEvent.Entity.{SyncEvent}
use file_system_spike.SyncEvent.Lifecycle.{
  Failure, Effect, mark_processing, mark_done, handle_retry,
}
use file_system_spike.Files.Manage.Checks.{Tables}

-- `파일이동` moves the file, throws an error with one of two codes, or throws another error.
pub data NasAnswer : Type 0 where
  moved not_there exists_already : NasAnswer
  failed : Failure → NasAnswer

pub record World : Type 0 where
  pub tables : Tables
  pub moves : List (String × String)

-- The data of a job: `NasFileMoveJobData`, and `NasFileTrashJobData` with its two keys.
pub record MoveJob : Type 0 where
  pub file_id : String
  pub source_path : String
  pub target_path : String
  pub original_folder_id : String
  pub target_folder_id : String
  pub sync_event_id : String

pub record TrashJob : Type 0 where
  pub file_id : String
  pub current_object_key : String
  pub trash_path : String
  pub sync_event_id : String

abbrev pub save_all : List SyncEvent → List (String × SyncEvent) → List (String × SyncEvent)
save_all [] rows = rows
save_all (e ∷ es) rows = save_all es (set e.id e rows)

-- The saves of a call of the lifecycle helper.
abbrev pub with_effect : Effect → World → World
with_effect f w = record w {
  tables = record w.tables { events = save_all f.saved w.tables.events };
}

abbrev pub save_object : String → FileStorageObject → World → World
save_object id o w = record w { tables = record w.tables { objects = set id o w.tables.objects } }

abbrev save_file : String → FileEntity → World → World
save_file id f w = record w { tables = record w.tables { files = set id f w.tables.files } }

-- The object is available under the key already.
unfoldable pub is_done : String → FileStorageObject → Bool
is_done key o = is_available o && str_eq (text_of o.object_key) key

module _ (nas : String → String → NasAnswer) (now : ℕ) where
  unfoldable pub finished : Option SyncEvent → World → World × Result Failure (Unit {0})
  finished e w = (with_effect (mark_done now e) w, ok tt)

  unfoldable pub given_up : Failure → Option SyncEvent → World → World × Result Failure (Unit {0})
  given_up f e w = (with_effect (handle_retry now f e) w, err f)

  -- The object has its new key and is available.
  abbrev pub at_key : String → FileStorageObject → FileStorageObject
  at_key key o = update_object_key now (codes key) (update_status now available o)

  -- A file that is gone from its place or is there already counts as moved.
  unfoldable pub after_move :
      String
      → String
      → FileStorageObject
      → Option SyncEvent
      → World
      → NasAnswer
      → World × Result Failure (Unit {0})
  unfolding finished given_up
  after_move id key o e w (failed f) = given_up f e w
  after_move id key o e w moved = finished e (save_object id (at_key key o) w)
  after_move id key o e w not_there = finished e (save_object id (at_key key o) w)
  after_move id key o e w exists_already = finished e (save_object id (at_key key o) w)

  unfoldable pub move_on_nas :
      String
      → String
      → String
      → FileStorageObject
      → Option SyncEvent
      → World
      → World × Result Failure (Unit {0})
  unfolding after_move
  move_on_nas id source target o e w =
      after_move id target o e (record w { moves = w.moves ++ (source, target) ∷ [] })
        (nas source target)

  unfoldable pub trash_found :
      TrashJob
      → Option SyncEvent
      → Option FileStorageObject
      → World
      → World × Result Failure (Unit {0})
  trash_found j e none w = finished e w
  trash_found j e (some o) w =
      if is_done j.trash_path o
      then finished e w
      else if ltb 0 o.lease_count
      then given_up
          (record {
            message = String.◌++◌ "FILE_IN_USE: leaseCount=" (text_of (decimal o.lease_count));
            cause = none;
          })
          e w
      else move_on_nas j.file_id j.current_object_key j.trash_path o e w

  -- `execute` of the trash handler.
  unfoldable pub execute_trash : TrashJob → World → World × Result Failure (Unit {0})
  execute_trash j w =
      let start = mark_processing now (lookup j.sync_event_id w.tables.events) in
      trash_found j start.event (lookup j.file_id w.tables.objects) (with_effect start w)

  abbrev folder_is_active : Option FolderEntity → Bool
  folder_is_active none = false
  folder_is_active (some f) = state_is_active f.state

  -- The target folder is gone: the file goes back, and its object is available where it is.
  file_back :
      MoveJob
      → FileStorageObject
      → Option SyncEvent
      → Result ItemError FileEntity
      → World
      → World × Result Failure (Unit {0})
  file_back j o e (ok f) w =
      finished e (save_object j.file_id (update_status now available o) (save_file j.file_id f w))
  file_back j o e (err x) w =
      given_up (record { message = "활성 상태의 파일만 이동할 수 있습니다."; cause = none }) e w

  reverted :
      MoveJob
      → FileStorageObject
      → Option SyncEvent
      → Option FileEntity
      → World
      → World × Result Failure (Unit {0})
  unfolding file_back
  reverted j o e none w = finished e (save_object j.file_id (update_status now available o) w)
  reverted j o e (some f) w = file_back j o e (File.move_to now j.original_folder_id f) w

  unfoldable pub move_found :
      MoveJob
      → Option SyncEvent
      → Option FileStorageObject
      → World
      → World × Result Failure (Unit {0})
  unfolding reverted
  move_found j e none w = finished e w
  move_found j e (some o) w =
      if is_done j.target_path o
      then finished e w
      else if folder_is_active (lookup j.target_folder_id w.tables.folders)
      then move_on_nas j.file_id j.source_path j.target_path o e w
      else reverted j o e (lookup j.file_id w.tables.files) w

  -- `execute` of the move handler.
  unfoldable pub execute_move : MoveJob → World → World × Result Failure (Unit {0})
  execute_move j w =
      let start = mark_processing now (lookup j.sync_event_id w.tables.events) in
      move_found j start.event (lookup j.file_id w.tables.objects) (with_effect start w)
