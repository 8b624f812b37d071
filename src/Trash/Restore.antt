-- ===== src/Trash/Restore.antt =====
-- `executeRestore` of src/business/trash/trash.service.ts. `uuid n` is the n-th text that `uuidv4` gives
-- in the call. The audit log of a restored file is left out: its failures are caught.
use Prim.Native.String
pub mod Counts
pub mod Prediction
use file_system_spike.Base.{
  ℕ, zero, suc, ◌+◌, String, str_eq, Bool, true, false, not, ◌&&◌, ◌||◌, Option, none, some, List,
  [], ◌∷◌, ◌++◌, if◌then◌else◌, is_some,
}
use file_system_spike.Base.Dict.{lookup, set}
use file_system_spike.Files.Item.{state_is_active, FileEntity, FolderEntity}
use file_system_spike.Files.File
use file_system_spike.Files.Folder
use file_system_spike.SyncEvent.Entity.{SyncEvent, mark_queued}
use file_system_spike.SyncEvent.FileFactory.{FileRestoreParams, create_file_restore_event}
use file_system_spike.SyncEvent.FolderFactory.{FolderRestoreParams, create_folder_restore_event}
use file_system_spike.Trash.Store.{
  TrashMetadata, truthy, present, is_file, is_folder, id_or, Job, file_restore, folder_restore,
  Store, save_event, any_parent, no_parent, parent_is, FolderQuery, Services,
  extract_parent_folder_path,
}
use file_system_spike.Files.NameCheck.{exists_by_name_in_folder}

pub record RestoreItem : Type 0 where
  pub trash_metadata_id : String
  pub target_folder_id : Option String
  pub exclude : Bool

pub data SkipReason : Type 0 where
  path_not_found conflict : SkipReason

pub record Skipped : Type 0 where
  pub trash_metadata_id : String
  pub file_name : String
  pub reason : SkipReason

-- The store with the variables of the loop. `made` counts the calls of `uuidv4`.
pub record Run : Type 0 where
  pub store : Store
  pub made : ℕ
  pub queued : ℕ
  pub excluded : ℕ
  pub skipped : ℕ
  pub sync_event_ids : List String
  pub skipped_items : List Skipped

-- How a part of the body of the loop ends: it goes on to what follows, it goes to the next item by
-- `continue`, or `addJob` throws.
pub data Flow : Type 0 where
  goes_on next_item threw : Flow

abbrev pub skip : String → String → SkipReason → Run → Run × Flow
skip id name reason r = (
  record r {
    skipped = suc r.skipped;
    skipped_items =
        r.skipped_items
        ++ record { trash_metadata_id = id; file_name = name; reason = reason } ∷ [];
  },
  next_item,
)

-- The event is saved, the job added, and the event saved again as queued.
unfoldable pub enqueue : Services → ℕ → SyncEvent → Job → Run → Run × Flow
unfolding mark_queued
enqueue v now e job r =
    let saved = save_event e r.store in
    if v.accepts job
    then (
      record r {
        store = save_event (mark_queued now e) (record saved { jobs = saved.jobs ++ job ∷ [] });
        made = suc r.made;
        queued = suc r.queued;
        sync_event_ids = r.sync_event_ids ++ e.id ∷ [];
      },
      goes_on,
    )
    else (record r { store = saved; made = suc r.made }, threw)

unfoldable pub folder_id : Option FolderEntity → Option String
folder_id none = none
folder_id (some f) = some f.id

-- The folder that the user names, whatever its state, or else the active one at the old path.
named_folder : Services → TrashMetadata → Option String → Store → Option String
unfolding folder_id
named_folder v t (some target) s = folder_id (lookup target s.folders)
named_folder v t none s = folder_id (
    v.find_folder
      (record {
        parent = any_parent;
        name = none;
        path = some (extract_parent_folder_path t.original_path);
      })
      s.folders)

unfoldable pub target_folder : Services → TrashMetadata → RestoreItem → Store → Option String
unfolding named_folder
target_folder v t item s = named_folder v t (truthy item.target_folder_id) s

abbrev pub conflicts : String → FileEntity → Store → Bool
conflicts folder_id f s =
    exists_by_name_in_folder folder_id f.name f.mime_type none (some f.created_at) s.files

module _ (v : Services) (now : ℕ) (uuid : ℕ → String) (user_id : String) where
  restore_file_into : TrashMetadata → RestoreItem → FileEntity → Option String → Run → Run × Flow
  restore_file_into t item f none r = skip item.trash_metadata_id f.name path_not_found r
  restore_file_into t item f (some target) r =
      if conflicts target f r.store
      then skip item.trash_metadata_id f.name conflict r
      else enqueue v now
          (create_file_restore_event
            (record {
              id = uuid r.made;
              file_id = f.id;
              source_path = t.original_path;
              target_folder_id = target;
              trash_metadata_id = item.trash_metadata_id;
              user_id = user_id;
            })
            now)
          (file_restore f.id (uuid r.made) item.trash_metadata_id target user_id) r

  restore_file_found : TrashMetadata → RestoreItem → Option FileEntity → Run → Run × Flow
  unfolding restore_file_into
  restore_file_found t item none r = (r, next_item)
  restore_file_found t item (some f) r =
      if not (File.is_trashed f)
      then (r, next_item)
      else restore_file_into t item f (target_folder v t item r.store) r

  unfoldable pub restore_file : TrashMetadata → RestoreItem → Run → Run × Flow
  unfolding restore_file_found
  restore_file t item r =
      if is_file t
      then restore_file_found t item (lookup (id_or t.file_id "") r.store.files) r
      else (r, goes_on)

active_id : Option FolderEntity → Option String
active_id none = none
active_id (some f) = if Folder.is_active f then some f.id else none

parent_of : Services → Option String → Store → Option String
unfolding active_id folder_id
parent_of v (some p) s = active_id (lookup p s.folders)
parent_of v none s =
    folder_id (v.find_folder (record { parent = no_parent; name = none; path = none }) s.folders)

-- The old parent, if it is still active, or the root.
unfoldable pub target_parent : Services → TrashMetadata → Store → Option String
unfolding parent_of
target_parent v t s = parent_of v (truthy t.original_parent_id) s

-- Whether an active folder of that name stands in the parent.
abbrev pub folder_conflicts : Services → String → String → Store → Bool
folder_conflicts v parent name s =
    is_some (
      v.find_folder (record { parent = parent_is parent; name = some name; path = none }) s.folders)

unfoldable pub trash_path_of : String → String → String
trash_path_of id name = String.◌++◌ ".trash/" (String.◌++◌ id (String.◌++◌ "__" name))

abbrev pub first_run : Store → Run
first_run s = record {
  store = s;
  made = 0;
  queued = 0;
  excluded = 0;
  skipped = 0;
  sync_event_ids = [];
  skipped_items = [];
}

-- What is left of a loop runs, if the body does not throw.
unfoldable pub go_on_with : (Run → Run × Bool) → Run × Flow → Run × Bool
go_on_with rest (r, goes_on) = rest r
go_on_with rest (r, next_item) = rest r
go_on_with rest (r, threw) = (r, false)

module _ (v : Services) (now : ℕ) (uuid : ℕ → String) (current_user : Option String)
    (user_id : String) where
  restore_folder_into :
      TrashMetadata → RestoreItem → FolderEntity → Option String → Run → Run × Flow
  unfolding trash_path_of
  restore_folder_into t item f none r = skip item.trash_metadata_id f.name path_not_found r
  restore_folder_into t item f (some parent) r =
      if folder_conflicts v parent f.name r.store
      then skip item.trash_metadata_id f.name conflict r
      else let path = trash_path_of item.trash_metadata_id f.name in
        enqueue v now
          (create_folder_restore_event
            (record {
              id = uuid r.made;
              folder_id = f.id;
              source_path = path;
              target_path = t.original_path;
              trash_path = path;
              restore_path = t.original_path;
              trash_metadata_id = item.trash_metadata_id;
              original_parent_id = some parent;
              user_id = id_or current_user user_id;
            })
            now)
          (folder_restore f.id (uuid r.made) path t.original_path item.trash_metadata_id parent) r

  restore_folder_found : TrashMetadata → RestoreItem → Option FolderEntity → Run → Run × Flow
  unfolding restore_folder_into
  restore_folder_found t item none r = (r, next_item)
  restore_folder_found t item (some f) r =
      if not (Folder.is_trashed f)
      then (r, next_item)
      else restore_folder_into t item f (target_parent v t r.store) r

  unfoldable pub restore_folder : TrashMetadata → RestoreItem → Run → Run × Flow
  unfolding restore_folder_found
  restore_folder t item r =
      if is_folder t
      then restore_folder_found t item (lookup (id_or t.folder_id "") r.store.folders) r
      else (r, goes_on)

  -- A row with both ids would go through both parts.
  after_file : TrashMetadata → RestoreItem → Run × Flow → Run × Flow
  after_file t item (r, goes_on) = restore_folder t item r
  after_file t item (r, flow) = (r, flow)

  restore_found : RestoreItem → Option TrashMetadata → Run → Run × Flow
  unfolding after_file
  restore_found item none r = (r, next_item)
  restore_found item (some t) r = after_file t item (restore_file v now uuid user_id t item r)

  -- The body of the loop.
  unfoldable pub restore_item : RestoreItem → Run → Run × Flow
  unfolding restore_found
  restore_item item r =
      if item.exclude
      then (record r { excluded = suc r.excluded }, next_item)
      else restore_found item (lookup item.trash_metadata_id r.store.trash) r

  -- The loop. The second part of the result is false where the call throws.
  unfoldable pub restore_items : List RestoreItem → Run → Run × Bool
  restore_items [] r = (r, true)
  restore_items (item ∷ items) r = go_on_with (restore_items items) (restore_item item r)

  -- The response is the final state of the counters and the lists.
  unfoldable pub execute_restore : List RestoreItem → Store → Run × Bool
  execute_restore items s = restore_items items (first_run s)
