-- ===== src/Examples/Trash.antt =====
-- The trash of src/business/trash/trash.service.ts with one deleted file, whose folder is still there.
use file_system_spike.Base.{
  ℕ, ◌≡◌, refl, String, str_eq, Bool, true, false, Option, none, some, List, [], ◌∷◌, ◌&&◌,
  if◌then◌else◌, err, length, inr, arith,
}
use file_system_spike.Base.Dict.{lookup}
use file_system_spike.Files.Item.{active, trashed, state_is_active, FileEntity, FolderEntity}
use file_system_spike.Files.File
use file_system_spike.Trash.Store.{
  TrashMetadata, Store, any_parent, no_parent, parent_is, ParentCondition, FolderQuery, Services,
  is_file, is_folder, id_or, extract_parent_folder_path,
}
use file_system_spike.Files.NameCheck.{exists_by_name_in_folder}
use file_system_spike.Trash.Restore.{
  RestoreItem, Run, first_run, execute_restore, restore_item, restore_items, go_on_with,
  restore_file, restore_folder, target_folder, enqueue,
}
use file_system_spike.Trash.Restore.Prediction.{IsInTrash, Becomes, preview_predicts}
use file_system_spike.Trash.Status.{get_restore_status, find_by_ids, summary_of_none}
use file_system_spike.Trash.Status.AfterRestore.{restore_seems_completed}
use file_system_spike.Trash.Preview.{PreviewItem, available, preview_item}
use file_system_spike.Trash.Purge.{queue_refused, trash_item_not_found, purge, add_job}
use file_system_spike.Trash.Purge.Outcome.{Outcome, purge-Outcome, refused_purge_is_lost}

abbrev report : FileEntity
report = record {
  id = "f1";
  name = "report.pdf";
  folder_id = "d1";
  size_bytes = 10;
  mime_type = "application/pdf";
  state = trashed;
  created_by = "u1";
  created_at = 1;
  updated_at = 2;
}

abbrev docs : FolderEntity
docs = record {
  id = "d1";
  name = "docs";
  parent_id = some "root";
  path = "/docs";
  state = active;
  created_by = "u1";
  created_at = 0;
  updated_at = 0;
}

abbrev row : TrashMetadata
row = record {
  id = "t1";
  file_id = some "f1";
  folder_id = none;
  original_path = "/docs/report.pdf";
  original_folder_id = some "d1";
  original_parent_id = none;
  deleted_by = "u1";
  deleted_at = 2;
  expires_at = 100;
}

abbrev one_deleted : Store
one_deleted = record {
  trash = ("t1", row) ∷ [];
  files = ("f1", report) ∷ [];
  folders = ("d1", docs) ∷ [];
  events = [];
  jobs = [];
}

-- The conditions of a `findOne`; `parentId: null` asks for a folder with no parent.
is_value : Option String → String → Bool
is_value none k = true
is_value (some x) k = str_eq x k

of_parent : ParentCondition → Option String → Bool
of_parent any_parent p = true
of_parent no_parent none = true
of_parent no_parent (some p) = false
of_parent (parent_is q) none = false
of_parent (parent_is q) (some p) = str_eq q p

first_folder : FolderQuery → List (String × FolderEntity) → Option FolderEntity
unfolding is_value of_parent
first_folder q [] = none
first_folder q ((k, f) ∷ fs) =
    let rest = first_folder q fs in
    if state_is_active f.state
      && (is_value q.name f.name && (is_value q.path f.path && of_parent q.parent f.parent_id))
    then some f
    else rest

abbrev open_queue : Services
open_queue = record {
  find_folder = first_folder;
  find_file = λ d n m fs. none;
  accepts = λ job. true;
}

abbrev closed_queue : Services
closed_queue = record open_queue { accepts = λ job. false }

abbrev uuid : ℕ → String
uuid n = "e1"

abbrev wish : RestoreItem
wish = record { trash_metadata_id = "t1"; target_folder_id = none; exclude = false }

abbrev restored : Run × Bool
restored = execute_restore open_queue 5 uuid none "u1" (wish ∷ []) one_deleted

returns : restored.1 ≡ true
unfolding execute_restore restore_items go_on_with restore_item restore_file restore_folder
    target_folder enqueue exists_by_name_in_folder first_folder lookup is_file is_folder id_or
    File.is_trashed extract_parent_folder_path
returns = refl

restore_seems_completed_example :
    get_restore_status restored.0.sync_event_ids restored.0.store ≡ record {
      summary =
          summary_of_none (length (find_by_ids restored.0.sync_event_ids restored.0.store.events));
      is_completed = true;
    }
restore_seems_completed_example =
    restore_seems_completed open_queue 5 uuid none "u1" (wish ∷ []) one_deleted tt returns

abbrev previewed : PreviewItem
previewed = record {
  trash_metadata_id = "t1";
  file_id = "f1";
  file_name = "report.pdf";
  mime_type = "application/pdf";
  size_bytes = 10;
  deleted_at = 2;
  path_status = available;
  original_path = "/docs/report.pdf";
  original_folder_id = some "d1";
  resolve_folder_id = some "d1";
  has_conflict = false;
  conflict_file_id = none;
}

is_previewed : preview_item open_queue "t1" one_deleted ≡ some previewed
unfolding preview_item first_folder lookup is_file id_or exists_by_name_in_folder
    extract_parent_folder_path
is_previewed = refl

row-IsInTrash : IsInTrash row one_deleted
unfolding is_file is_folder lookup id_or File.is_trashed
row-IsInTrash = record { one_kind = inr refl; file_trashed = λ f e. ground (arith, e) }

found_row : lookup "t1" one_deleted.trash ≡ some row
unfolding lookup
found_row = refl

preview_predicts_example :
    Becomes none "t1" "report.pdf"
      (first_run one_deleted)
      (restore_item open_queue 5 uuid none "u1" wish (first_run one_deleted)).0
preview_predicts_example =
    preview_predicts open_queue 5 uuid none "u1" "t1" (λ job. refl) row previewed
      (first_run one_deleted) found_row row-IsInTrash is_previewed

purge-Outcome_example :
    let x = purge open_queue 5 "e1" "u1" "t1" one_deleted in Outcome "t1" one_deleted x.0 x.1
purge-Outcome_example = purge-Outcome open_queue 5 "e1" "u1" "t1" one_deleted

refused : (purge closed_queue 5 "e1" "u1" "t1" one_deleted).1 ≡ err queue_refused
unfolding purge lookup is_file id_or File.is_trashed File.permanent_delete add_job
refused = refl

refused_purge_is_lost_example :
    let t = (purge closed_queue 5 "e1" "u1" "t1" one_deleted).0 in
    (purge closed_queue 5 "e2" "u1" "t1" t ≡ (t, err trash_item_not_found))
    × (t.jobs ≡ one_deleted.jobs)
    × (t.events ≡ one_deleted.events)
refused_purge_is_lost_example =
    refused_purge_is_lost closed_queue 5 "e1" "u1" "t1" one_deleted "e2" refused
