-- ===== src/Trash/Purge.antt =====
-- `purge`, `purgeFile` and `emptyTrash` of src/business/trash/trash.service.ts. The audit log of a deleted file is
-- left out: its failures are caught.
pub mod Outcome
use file_system_spike.Base.{
  ℕ, zero, suc, ◌+◌, String, Bool, true, false, not, Option, none, some, List, [], ◌∷◌, ◌++◌,
  if◌then◌else◌, Result, ok, err, length,
}
use file_system_spike.Base.Dict.{lookup, set, delete}
use file_system_spike.Files.Item.{ItemError, FileEntity, FolderEntity}
use file_system_spike.Files.File
use file_system_spike.Files.Folder
use file_system_spike.Trash.Store.{
  TrashMetadata, is_file, is_folder, id_or, Job, file_purge, folder_purge, Store, Services,
}
use file_system_spike.Trash.Restore.{trash_path_of}

pub data PurgeError : Type 0 where
  trash_item_not_found file_not_in_trash folder_not_in_trash invalid_item queue_refused : PurgeError
  entity_error : ItemError → PurgeError

pub data ItemType : Type 0 where
  file folder : ItemType

pub record Purged : Type 0 where
  pub id : String
  pub name : String
  pub item_type : ItemType

-- `addJob` comes last and may throw.
unfoldable pub add_job : Services → Job → Purged → Store → Store × Result PurgeError Purged
add_job v job p s =
    if v.accepts job then (record s { jobs = s.jobs ++ job ∷ [] }, ok p) else (s, err queue_refused)

module _ (v : Services) (now : ℕ) (uuid user_id id : String) where
  file_deleted : Result ItemError FileEntity → Store → Store × Result PurgeError Purged
  file_deleted (err e) s = (s, err (entity_error e))
  file_deleted (ok f) s =
      add_job v (file_purge f.id uuid id user_id)
        (record { id = f.id; name = f.name; item_type = file })
        (record s { files = set f.id f s.files; trash = delete id s.trash })

  purge_file_found : Option FileEntity → Store → Store × Result PurgeError Purged
  unfolding file_deleted
  purge_file_found none s = (s, err file_not_in_trash)
  purge_file_found (some f) s =
      if not (File.is_trashed f)
      then (s, err file_not_in_trash)
      else file_deleted (File.permanent_delete now f) s

  folder_deleted : Result ItemError FolderEntity → Store → Store × Result PurgeError Purged
  folder_deleted (err e) s = (s, err (entity_error e))
  folder_deleted (ok f) s =
      add_job v (folder_purge f.id uuid (trash_path_of id f.name) id)
        (record { id = f.id; name = f.name; item_type = folder })
        (record s { folders = set f.id f s.folders; trash = delete id s.trash })

  purge_folder_found : Option FolderEntity → Store → Store × Result PurgeError Purged
  unfolding folder_deleted
  purge_folder_found none s = (s, err folder_not_in_trash)
  purge_folder_found (some f) s =
      if not (Folder.is_trashed f)
      then (s, err folder_not_in_trash)
      else folder_deleted (Folder.permanent_delete now f) s

  purge_found : Option TrashMetadata → Store → Store × Result PurgeError Purged
  unfolding purge_file_found purge_folder_found
  purge_found none s = (s, err trash_item_not_found)
  purge_found (some t) s =
      if is_file t
      then purge_file_found (lookup (id_or t.file_id "") s.files) s
      else if is_folder t
      then purge_folder_found (lookup (id_or t.folder_id "") s.folders) s
      else (s, err invalid_item)

  unfoldable pub purge : Store → Store × Result PurgeError Purged
  unfolding purge_found
  purge s = purge_found (lookup id s.trash) s

-- The counters of `emptyTrash`.
pub record Emptied : Type 0 where
  pub success : ℕ
  pub failed_count : ℕ

counted : Store × Result PurgeError Purged → Emptied → Store × Emptied
counted (s, ok p) c = (s, record c { success = suc c.success })
counted (s, err e) c = (s, record c { failed_count = suc c.failed_count })

module _ (v : Services) (now : ℕ) (uuid : String → String) (user_id : String) where
  -- The loop over the rows that were read at its start; `uuid id` is the text for that row.
  unfoldable pub purge_all : List (String × TrashMetadata) → Store → Emptied → Store × Emptied
  unfolding counted
  purge_all [] s c = (s, c)
  purge_all ((id, t) ∷ ts) s c =
      let (s', c') = counted (purge v now (uuid id) user_id id s) c in purge_all ts s' c'

  unfoldable pub empty_trash : Store → Store × Emptied
  empty_trash s = purge_all s.trash s (record { success = 0; failed_count = 0 })
