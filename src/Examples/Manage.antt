-- ===== src/Examples/Manage.antt =====
-- Runs of `rename`, `move` and `delete` of a file.
use file_system_spike.Base.{
  ◌≡◌, refl, sym, ap, ◌∙◌, String, str_eq, str_eq_iff, true, none, some, some_inj, none_is_not_some,
  [], ◌∷◌, Bool-cases, inl, inr, ok, IsErr, arith,
}
use file_system_spike.Base.Dict.{lookup}
use file_system_spike.Base.Text.{codes, text_of}
use file_system_spike.Files.Item.{FileEntity, FolderEntity, active, trashed}
use file_system_spike.Files.File
use file_system_spike.Files.Paths.{build_path, extract_name, split, last_or, before_last_slash}
use file_system_spike.Files.StorageObject.{FileStorageObject, StorageType, available, is_syncing}
use file_system_spike.SyncEvent.FileFactory.{create_file_trash_event}
use file_system_spike.Trash.Store.{TrashMetadata, id_or, extract_parent_folder_path}
use file_system_spike.Files.Manage.Checks.{
  trash_job, Tables, Services, unless_syncing, check_nas_sync_status,
}
use file_system_spike.Files.Manage.Plans.{
  delete_plan, delete_candidate, delete_checked, is_leased, delete_planned,
}
use file_system_spike.Files.Manage.{Managed, Call, carry_out, committed, saved_outside, delete}
use file_system_spike.Files.Manage.Operations.{rename_to, delete_it, run}
use file_system_spike.Files.Manage.Busy.{busy_file_refuses}
use file_system_spike.Files.Manage.Unique.{RowIds, DistinctFiles, run-DistinctFiles}
use file_system_spike.Files.Manage.WayBack.{deleted_leads_back}

-- A server whose names are in lower case already.
abbrev server : Services
server = record {
  to_lower_case = λ s. s;
  saves_file = true;
  saves_event = true;
  commits = true;
  accepts = λ j. true;
}

abbrev caller : Call
caller = record {
  file_id = "f1";
  uuid = "e1";
  trash_id = "t1";
  current_user = none;
  user_id = "u1";
}

abbrev pub docs : FolderEntity
docs = record {
  id = "d1";
  name = "docs";
  parent_id = none;
  path = "/docs";
  state = active;
  created_by = "u1";
  created_at = 1;
  updated_at = 1;
}

abbrev pub report : FileEntity
report = record {
  id = "f1";
  name = "a.txt";
  folder_id = "d1";
  size_bytes = 5;
  mime_type = "text/plain";
  state = active;
  created_by = "u1";
  created_at = 2;
  updated_at = 2;
}

abbrev pub on_nas : FileStorageObject
on_nas = record {
  id = "o1";
  file_id = "f1";
  storage_type = StorageType.nas;
  object_key = codes "20260203023315__a.txt";
  availability_status = available;
  last_accessed = none;
  access_count = 0;
  lease_count = 0;
  checksum = none;
  created_at = 2;
  updated_at = none;
}

abbrev pub tables : Tables
tables = record {
  files = ("f1", report) ∷ [];
  folders = ("d1", docs) ∷ [];
  objects = ("f1", on_nas) ∷ [];
  trash = [];
  events = [];
  jobs = [];
}

abbrev deleted : Managed
deleted = record {
  file = record report { state = trashed; updated_at = 9 };
  path = "/docs/a.txt";
  sync_event_id = "e1";
}

deletes : (delete server 9 caller tables).1 ≡ ok deleted
unfolding delete carry_out delete_plan delete_candidate delete_checked unless_syncing
    check_nas_sync_status is_leased delete_planned build_path committed saved_outside extract_name
    split last_or text_of File.is_active File.is_trashed File.delete is_syncing lookup id_or
    create_file_trash_event
deletes = refl

-- The key of the NAS in the job of the deletion.
trash_key :
    (delete server 9 caller tables).0.jobs
    ≡ trash_job "f1" "e1" "20260203023315__a.txt" ".trash/t1__20260203023315__a.txt" ∷ []
unfolding delete carry_out delete_plan delete_candidate delete_checked unless_syncing
    check_nas_sync_status is_leased delete_planned build_path committed saved_outside extract_name
    split last_or text_of File.is_active File.is_trashed File.delete is_syncing lookup id_or
    create_file_trash_event
trash_key = refl

deleted_leads_back_example :
    (row : TrashMetadata) × (lookup "t1" (delete server 9 caller tables).0.trash ≡ some row)
    × (extract_parent_folder_path row.original_path ≡ "/docs")
unfolding before_last_slash lookup
deleted_leads_back_example =
    deleted_leads_back server 9 caller tables deleted report docs refl refl
      (λ e. ground (arith, (str_eq_iff "/docs" "").1 e))
      (λ e. ground (arith, (str_eq_iff "a.txt" "").1 e)) refl deletes

busy_file_refuses_example :
    let u = (run server 9 caller delete_it tables).0 in
    ((run server 10 caller (rename_to (some "b.txt")) u).0 ≡ u)
    × IsErr (run server 10 caller (rename_to (some "b.txt")) u).1
unfolding lookup run
busy_file_refuses_example =
    busy_file_refuses server server 9 10 caller caller delete_it (rename_to (some "b.txt")) tables
      on_nas deleted refl deletes refl

only_row :
    (i : String) (f : FileEntity) → lookup i tables.files ≡ some f → ("f1" ≡ i) × (report ≡ f)
unfolding lookup
only_row i f l = elim (Bool-cases (str_eq "f1" i)) [
  | inl here ↦ ((str_eq_iff "f1" i).0 here, some_inj (rw here at l))
  | inr other ↦ absurd (none_is_not_some (rw other at l))
]

report-RowIds : RowIds tables.files
report-RowIds i f l = let row = only_row i f l in ap FileEntity.id (sym row.1) ∙ row.0

report-DistinctFiles : DistinctFiles tables.files
report-DistinctFiles i j f g l m apart live live' s =
    apart (sym (only_row i f l).0 ∙ (only_row j g m).0)

run-DistinctFiles_example :
    let u = (run server 9 caller (rename_to (some " b.txt")) tables).0 in
    RowIds u.files × DistinctFiles u.files
run-DistinctFiles_example =
    run-DistinctFiles server 9 caller (rename_to (some " b.txt")) tables report-RowIds
      report-DistinctFiles
