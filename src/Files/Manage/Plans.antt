-- ===== src/Files/Manage/Plans.antt =====
-- The checks of `rename`, `move` and `delete` of src/business/file/file-manage.service.ts, which come
-- before all writes, and what each is to write. An object key is a list of code points in its row.
use Prim.Native.String
use file_system_spike.Base.{
  ℕ, ◌+◌, ◌*◌, String, Bool, false, not, ◌&&◌, Option, none, some, if◌then◌else◌, ltb, Result, ok,
  err, ◌>>=◌,
}
use file_system_spike.Base.Dict.{lookup}
use file_system_spike.Base.Text.{codes, text_of}
use file_system_spike.Files.Item.{FileEntity, FolderEntity, state_is_active}
use file_system_spike.Files.File
use file_system_spike.Files.Manage.Names.{extract_file_name_from_path}
use file_system_spike.Files.NameCheck.{exists_by_name_in_folder}
use file_system_spike.Files.Paths.{build_path, extract_name}
use file_system_spike.Files.StorageObject.{
  FileStorageObject, syncing, update_status, update_object_key,
}
use file_system_spike.SyncEvent.FileFactory.{
  create_file_rename_event, create_file_move_event, create_file_trash_event,
}
use file_system_spike.Trash.Store.{TrashMetadata, id_or, present, day_ms}
use file_system_spike.Files.Manage.Checks.{
  CheckError, Job, Plan, Services, Tables, by_entity, duplicate_file_exists, file_already_trashed,
  file_in_use, file_not_active, file_not_found, found, key_of, move_job, path_of, rename_job,
  renamed_key, require, target_folder_not_found, trash_job, unless_syncing, validate_rename_request,
}

module _ (v : Services) (now : ℕ) (uuid trash_id : String) (current_user : Option String)
    (user_id : String) (file_id : String) where
  -- `RequestContext.getUserId() || 'unknown'`.
  abbrev requester : String
  requester = id_or current_user "unknown"

  abbrev pub to_sync : Option FileStorageObject → Option FileStorageObject
  to_sync none = none
  to_sync (some o) = some (update_status now syncing o)

  -- The new key goes into the row before the NAS has it.
  abbrev pub with_key : String → Option FileStorageObject → Option FileStorageObject
  with_key name none = none
  with_key name (some o) =
      some (update_status now syncing (update_object_key now (codes (renamed_key name o)) o))

  abbrev new_key : String → Option FileStorageObject → Option String
  new_key name none = none
  new_key name (some o) = some (renamed_key name o)

  -- A job is added where the keys are there and not empty.
  job_of : Option String → Option String → (String → String → Job) → Option Job
  job_of (some old) (some new) job =
      if present (some old) && present (some new) then some (job old new) else none
  job_of old new job = none

  unfoldable pub rename_planned : String → FileEntity → Option FileStorageObject → Tables → Plan
  unfolding job_of
  rename_planned name f' o t =
      let old = id_or (key_of o) "" in
      let new = id_or (new_key name o) "" in
      record {
        file = f';
        object = with_key name o;
        trashed = none;
        event =
            create_file_rename_event
              (record {
                id = uuid;
                file_id = file_id;
                source_path = old;
                target_path = new;
                old_name = old;
                new_name = name;
                old_object_key = old;
                new_object_key = new;
                user_id = requester;
              })
              now;
        job = job_of (key_of o) (new_key name o) (rename_job file_id uuid);
        path = build_path (path_of (lookup f'.folder_id t.folders)) name;
      }

  unfoldable pub rename_candidate : Option String → Tables → Result CheckError (FileEntity × String)
  rename_candidate new_name t = found file_not_found (lookup file_id t.files) >>= λ f.
      require (File.is_active f) file_not_active >>= λ _.
      validate_rename_request v.to_lower_case f.name new_name >>= λ name. ok (f, name)

  unfoldable pub rename_checked :
      Tables → FileEntity × String → Option FileStorageObject → Result CheckError Plan
  unfolding rename_planned
  rename_checked t (f, name) o =
      require
        (not (
          exists_by_name_in_folder f.folder_id name f.mime_type (some file_id) (some f.created_at)
            t.files))
        duplicate_file_exists
      >>= λ _. by_entity (File.rename now name f) >>= λ f'. ok (rename_planned name f' o t)

  unfoldable pub rename_plan : Option String → Tables → Result CheckError Plan
  rename_plan new_name t =
      unless_syncing (rename_candidate new_name t) (lookup file_id t.objects) (rename_checked t)

  unfoldable pub target_found : Option FolderEntity → Result CheckError FolderEntity
  target_found none = err target_folder_not_found
  target_found (some f) = if state_is_active f.state then ok f else err target_folder_not_found

  -- The object key stays as it is until the job is done.
  target_path : FolderEntity → Option FileStorageObject → Option String
  target_path folder none = none
  target_path folder (some o) =
      some (build_path folder.path (text_of (extract_file_name_from_path o.object_key)))

  move_job_of : String → String → Option FileStorageObject → FolderEntity → Option Job
  unfolding job_of target_path
  move_job_of old_folder_id target_folder_id o folder =
      if present (some old_folder_id)
      then job_of (key_of o) (target_path folder o)
          (λ source target. move_job file_id uuid source target old_folder_id target_folder_id)
      else none

  unfoldable pub move_planned :
      String → FolderEntity → FileEntity → FileEntity → Option FileStorageObject → Plan
  unfolding move_job_of target_path
  move_planned target_folder_id folder f f' o = record {
    file = f';
    object = to_sync o;
    trashed = none;
    event =
        create_file_move_event
          (record {
            id = uuid;
            file_id = file_id;
            source_path = id_or (key_of o) "";
            target_path = id_or (target_path folder o) "";
            original_folder_id = f.folder_id;
            target_folder_id = target_folder_id;
            user_id = requester;
          })
          now;
    job = move_job_of f.folder_id target_folder_id o folder;
    path = build_path folder.path f.name;
  }

  -- The name that `resolveFileNameForMove` gives is always that of the file.
  unfoldable pub move_candidate : String → Tables → Result CheckError (FolderEntity × FileEntity)
  unfolding target_found
  move_candidate target_folder_id t = target_found (lookup target_folder_id t.folders) >>= λ folder.
      found file_not_found (lookup file_id t.files) >>= λ f.
      require (File.is_active f) file_not_active >>= λ _. ok (folder, f)

  unfoldable pub move_checked :
      String
      → Tables
      → FolderEntity × FileEntity
      → Option FileStorageObject
      → Result CheckError Plan
  unfolding move_planned
  move_checked target_folder_id t (folder, f) o =
      require
        (not (
          exists_by_name_in_folder target_folder_id f.name f.mime_type none (some f.created_at)
            t.files))
        duplicate_file_exists
      >>= λ _. by_entity (File.move_to now target_folder_id f) >>= λ f'.
          ok (move_planned target_folder_id folder f f' o)

  -- The name that `resolveFileNameForMove` gives is always that of the file.
  unfoldable pub move_plan : String → Tables → Result CheckError Plan
  move_plan target_folder_id t =
      unless_syncing (move_candidate target_folder_id t) (lookup file_id t.objects)
        (move_checked target_folder_id t)

  unfoldable pub is_leased : Option FileStorageObject → Bool
  is_leased none = false
  is_leased (some o) = ltb 0 o.lease_count

  trash_path_of : Option FileStorageObject → Option String
  trash_path_of none = none
  trash_path_of (some o) = some (
      String.◌++◌ ".trash/"
        (String.◌++◌ trash_id (String.◌++◌ "__" (extract_name (text_of o.object_key)))))

  -- `createForFile`, whose retention is 30 days of 24 hours here.
  abbrev trash_row : FileEntity → String → TrashMetadata
  trash_row f original_path = record {
    id = trash_id;
    file_id = some f.id;
    folder_id = none;
    original_path = original_path;
    original_folder_id = some f.folder_id;
    original_parent_id = none;
    deleted_by = user_id;
    deleted_at = now;
    expires_at = now + 30 * day_ms;
  }

  unfoldable pub delete_planned : FileEntity → FileEntity → Option FileStorageObject → Tables → Plan
  unfolding job_of trash_path_of
  delete_planned f f' o t =
      let original = build_path (path_of (lookup f.folder_id t.folders)) f.name in
      record {
        file = f';
        object = to_sync o;
        trashed = some (trash_row f' original);
        event =
            create_file_trash_event
              (record {
                id = uuid;
                file_id = file_id;
                source_path = original;
                target_path = id_or (trash_path_of o) "";
                original_path = original;
                original_folder_id = f'.folder_id;
                current_object_key = id_or (key_of o) "";
                trash_path = id_or (trash_path_of o) "";
                user_id = user_id;
              })
              now;
        job = job_of (key_of o) (trash_path_of o) (trash_job file_id uuid);
        path = original;
      }

  unfoldable pub delete_candidate : Tables → Result CheckError FileEntity
  delete_candidate t = found file_not_found (lookup file_id t.files) >>= λ f.
      require (not (File.is_trashed f)) file_already_trashed >>= λ _.
      require (File.is_active f) file_not_active >>= λ _. ok f

  unfoldable pub delete_checked :
      Tables → FileEntity → Option FileStorageObject → Result CheckError Plan
  unfolding is_leased delete_planned
  delete_checked t f o = require (not (is_leased o)) file_in_use >>= λ _.
      by_entity (File.delete now f) >>= λ f'. ok (delete_planned f f' o t)

  unfoldable pub delete_plan : Tables → Result CheckError Plan
  delete_plan t = unless_syncing (delete_candidate t) (lookup file_id t.objects) (delete_checked t)
