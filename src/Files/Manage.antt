-- ===== src/Files/Manage.antt =====
-- FileManageService of src/business/file/file-manage.service.ts: `rename`, `move` and `delete`. Of the
-- writes those with `txOptions`, to the file and its NAS object, are in the transaction; the sync event
-- and the trash row are saved without it. The history of the file is left out: its failures are caught.
mod Names
pub mod Checks
pub mod Plans
pub mod Checked
pub mod Operations
pub mod Busy
pub mod Unique
pub mod Deletion
pub mod WayBack
use file_system_spike.Base.{
  ℕ, String, Bool, not, Option, none, some, List, [], ◌∷◌, ◌++◌, if◌then◌else◌, Result, ok, err,
}
use file_system_spike.Base.Dict.{set}
use file_system_spike.SyncEvent.Entity.{SyncEvent, mark_queued}
use file_system_spike.Files.Item.{FileEntity}
use file_system_spike.Files.StorageObject.{FileStorageObject}
use file_system_spike.Trash.Store.{TrashMetadata}
use file_system_spike.Files.Manage.Checks.{Job, Tables, CheckError, Services, Plan}
use file_system_spike.Files.Manage.Plans.{rename_plan, move_plan, delete_plan}

-- A check refuses the call, or a save, the commit or `addJob` fails.
pub data ManageError : Type 0 where
  refused : CheckError → ManageError
  not_saved not_committed not_queued : ManageError

-- The fields of an answer that stand in the file are those of `file`.
pub record Managed : Type 0 where
  pub file : FileEntity
  pub path : String
  pub sync_event_id : String

abbrev save_event : SyncEvent → Tables → Tables
save_event e t = record t { events = set e.id e t.events }

-- The rows that are saved without the transaction.
abbrev pub save_trash : Option TrashMetadata → Tables → Tables
save_trash none t = t
save_trash (some r) t = record t { trash = set r.id r t.trash }

unfoldable pub saved_outside : Plan → Tables → Tables
saved_outside p t = save_event p.event (save_trash p.trashed t)

abbrev pub save_object : String → Option FileStorageObject → Tables → Tables
save_object file_id none t = t
save_object file_id (some o) t = record t { objects = set file_id o t.objects }

-- The rows of the transaction; those of the file have its id.
unfoldable pub committed : String → Plan → Tables → Tables
committed file_id p t =
    save_object file_id p.object (record t { files = set file_id p.file t.files })

module _ (v : Services) (now : ℕ) where
  -- `addJob` comes after the transaction and may throw.
  queued : Plan → Managed → Option Job → Tables → Tables × Result ManageError Managed
  queued p r none t = (t, ok r)
  queued p r (some job) t =
      if v.accepts job
      then (save_event (mark_queued now p.event) (record t { jobs = t.jobs ++ job ∷ [] }), ok r)
      else (t, err not_queued)

  -- Where a save fails the transaction is rolled back; what was saved without it before stays: nothing where
  -- the file or the trash row fails, the trash row where the NAS object or the sync event fails.
  unfoldable pub carry_out :
      String → Result CheckError Plan → Tables → Tables × Result ManageError Managed
  unfolding queued
  carry_out file_id (err e) t = (t, err (refused e))
  carry_out file_id (ok p) t =
      if not v.saves_file
      then (t, err not_saved)
      else if not v.saves_event
      then (save_trash p.trashed t, err not_saved)
      else if v.commits
      then queued p (record { file = p.file; path = p.path; sync_event_id = p.event.id }) p.job
          (committed file_id p (saved_outside p t))
      else (saved_outside p t, err not_committed)

-- What the caller of a method gives, with the ids that `uuidv4` gives in it.
pub record Call : Type 0 where
  pub file_id : String
  pub uuid : String
  pub trash_id : String
  pub current_user : Option String
  pub user_id : String

module _ (v : Services) (now : ℕ) (c : Call) where
  unfoldable pub rename : Option String → Tables → Tables × Result ManageError Managed
  rename new_name t =
      carry_out v now c.file_id
        (rename_plan v now c.uuid c.trash_id c.current_user c.user_id c.file_id new_name t) t

  unfoldable pub move : String → Tables → Tables × Result ManageError Managed
  move target_folder_id t =
      carry_out v now c.file_id
        (move_plan v now c.uuid c.trash_id c.current_user c.user_id c.file_id target_folder_id t) t

  unfoldable pub delete : Tables → Tables × Result ManageError Managed
  delete t =
      carry_out v now c.file_id
        (delete_plan v now c.uuid c.trash_id c.current_user c.user_id c.file_id t) t
