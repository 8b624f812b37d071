-- ===== src/Files/Manage/Deletion.antt =====
-- What `delete` of src/business/file/file-manage.service.ts leaves behind.
use file_system_spike.Base.{
  ℕ, ◌≡◌, ◌⊎◌, refl, sym, ap, ◌∙◌, String, Option, none, some, List, Result, ok, err, Bool-cases,
  inl, inr, Ensures,
}
use file_system_spike.Base.Dict.{lookup, lookup-set_own}
use file_system_spike.Files.Item.{FileEntity, trashed}
use file_system_spike.SyncEvent.Entity.{SyncEvent, Status, pending}
use file_system_spike.Files.StorageObject.{FileStorageObject}
use file_system_spike.SyncEvent.FileFactory.{create_file_trash_event}
use file_system_spike.Trash.Store.{TrashMetadata}
use file_system_spike.Files.Manage.Checks.{CheckError, Job, Tables, Services, Plan}
use file_system_spike.Files.Manage.Plans.{delete_plan, delete_planned}
use file_system_spike.Files.Manage.{
  queued, Managed, ManageError, refused, not_saved, not_committed, save_trash, not_queued, Call,
  saved_outside, save_object, committed, carry_out, delete,
}
use file_system_spike.Files.Manage.Checked.{IsThere, delete_plan-Ensures}

-- The row that leads back from the trash to the file.
pub record HasRow (trash_id path : String) (f : FileEntity) (rows : List (String × TrashMetadata))
    : Type 0 where
  pub row : TrashMetadata
  pub found : lookup trash_id rows ≡ some row
  pub path_kept : row.original_path ≡ path
  pub of_file : row.file_id ≡ some f.id
  pub of_folder : row.original_folder_id ≡ some f.folder_id

pub record HasEvent (id : String) (status : Status) (rows : List (String × SyncEvent))
    : Type 0 where
  pub event : SyncEvent
  pub found : lookup id rows ≡ some event
  pub in_status : event.status ≡ status

-- By the result of a deletion: the tables `u` after it against `t` before.
abbrev pub Left : Call → Tables → Tables → Result ManageError Managed → Type 0
Left c t u (ok m) =
    (lookup c.file_id u.files ≡ some m.file)
    × (m.file.state ≡ trashed)
    × HasRow c.trash_id m.path m.file u.trash
Left c t u (err not_queued) =
    (f : FileEntity) × (lookup c.file_id u.files ≡ some f)
    × (f.state ≡ trashed)
    × HasEvent c.uuid pending u.events
    × (u.jobs ≡ t.jobs)
Left c t u (err not_saved) =
    (u ≡ t)
    ⊎ ((f : FileEntity) × (path : String) × IsThere c.file_id u f
        × HasRow c.trash_id path f u.trash
        × (u.events ≡ t.events)
        × (u.jobs ≡ t.jobs))
Left c t u (err not_committed) =
    (f : FileEntity) × (path : String) × IsThere c.file_id u f
    × HasRow c.trash_id path f u.trash
    × HasEvent c.uuid pending u.events
    × (u.jobs ≡ t.jobs)
Left c t u (err (refused e)) = u ≡ t

-- The plan of a deletion.
record IsDeletion (c : Call) (t : Tables) (p : Plan) : Type 0 where
  old : FileEntity
  there : IsThere c.file_id t old
  state : p.file.state ≡ trashed
  same_id : p.file.id ≡ old.id
  same_folder : p.file.folder_id ≡ old.folder_id
  row : TrashMetadata
  has_row : p.trashed ≡ some row
  row_id : row.id ≡ c.trash_id
  path_kept : row.original_path ≡ p.path
  of_file : row.file_id ≡ some old.id
  of_folder : row.original_folder_id ≡ some old.folder_id
  event_id : p.event.id ≡ c.uuid
  event_status : p.event.status ≡ pending

delete_plan-IsDeletion :
    (v : Services) (now : ℕ) (c : Call) (t : Tables)
    → Ensures
        (IsDeletion c t)
        (delete_plan v now c.uuid c.trash_id c.current_user c.user_id c.file_id t)
unfolding delete_planned create_file_trash_event
delete_plan-IsDeletion v now c t =
    delete_plan-Ensures v now c.uuid c.trash_id c.current_user c.user_id c.file_id t
      (IsDeletion c t)
      (λ f there. record {
        old = f;
        there = there;
        state = refl;
        same_id = refl;
        same_folder = refl;
        row = _;
        has_row = refl;
        row_id = refl;
        path_kept = refl;
        of_file = refl;
        of_folder = refl;
        event_id = refl;
        event_status = refl;
      })

module _ (v : Services) (now : ℕ) (c : Call) (t : Tables) (p : Plan) (d : IsDeletion c t p) where
  outside-HasRow :
      (f : FileEntity)
      → f.id ≡ d.old.id
      → f.folder_id ≡ d.old.folder_id
      → HasRow c.trash_id p.path f (saved_outside p t).trash
  unfolding saved_outside
  outside-HasRow f i g = record {
    row = d.row;
    found = rw d.has_row (lookup-set_own d.row.id c.trash_id d.row t.trash d.row_id);
    path_kept = d.path_kept;
    of_file = d.of_file ∙ ap some (sym i);
    of_folder = d.of_folder ∙ ap some (sym g);
  }

  outside-HasEvent : HasEvent c.uuid pending (saved_outside p t).events
  unfolding saved_outside
  outside-HasEvent = record {
    event = p.event;
    found = lookup-set_own p.event.id c.uuid p.event _ d.event_id;
    in_status = d.event_status;
  }

  outside-rest : ((saved_outside p t).files ≡ t.files) × ((saved_outside p t).jobs ≡ t.jobs)
  unfolding saved_outside
  outside-rest = rw d.has_row (refl, refl)

  -- What the commit adds to the rows that are saved outside of it.
  record IsCommitted (x : Tables) : Type 0 where
    new_file : lookup c.file_id x.files ≡ some p.file
    with_row : HasRow c.trash_id p.path p.file x.trash
    with_event : HasEvent c.uuid pending x.events
    same_jobs : x.jobs ≡ t.jobs

  save_object-IsCommitted :
      (o : Option FileStorageObject) (x : Tables)
      → IsCommitted x
      → IsCommitted (save_object c.file_id o x)
  save_object-IsCommitted none x h = h
  save_object-IsCommitted (some o) x h = record {
    new_file = h.new_file;
    with_row = h.with_row;
    with_event = h.with_event;
    same_jobs = h.same_jobs;
  }

  committed-IsCommitted : IsCommitted (committed c.file_id p (saved_outside p t))
  unfolding committed
  committed-IsCommitted = save_object-IsCommitted p.object _ (record {
    new_file = lookup-set_own c.file_id c.file_id p.file _ refl;
    with_row = outside-HasRow p.file d.same_id d.same_folder;
    with_event = outside-HasEvent;
    same_jobs = outside-rest.1;
  })

  queued-Left :
      (job : Option Job) (x : Tables)
      → IsCommitted x
      → let r : Managed = record { file = p.file; path = p.path; sync_event_id = p.event.id } in
        Left c t (queued v now p r job x).0 (queued v now p r job x).1
  unfolding queued
  queued-Left none x h = (h.new_file, d.state, h.with_row)
  queued-Left (some job) x h = elim (Bool-cases (v.accepts job)) [
    | inl taken ↦ rw taken (h.new_file, d.state, h.with_row)
    | inr full ↦ rw full (p.file, h.new_file, d.state, h.with_event, h.same_jobs)
  ]

  not_saved-Left : Left c t (save_trash p.trashed t) (err not_saved)
  unfolding saved_outside
  not_saved-Left = inr (
    d.old,
    p.path,
    rw d.has_row d.there,
    outside-HasRow d.old refl refl,
    rw d.has_row refl,
    rw d.has_row refl,
  )

  not_committed-Left : Left c t (saved_outside p t) (err not_committed)
  not_committed-Left = (
    d.old,
    p.path,
    rw outside-rest.0 d.there,
    outside-HasRow d.old refl refl,
    outside-HasEvent,
    outside-rest.1,
  )

carry_out-Left :
    (v : Services) (now : ℕ) (c : Call) (t : Tables) (r : Result CheckError Plan)
    → Ensures (IsDeletion c t) r
    → Left c t (carry_out v now c.file_id r t).0 (carry_out v now c.file_id r t).1
unfolding carry_out
carry_out-Left v now c t (err e) h = refl
carry_out-Left v now c t (ok p) d = elim (Bool-cases v.saves_file) [
  | inr lost ↦ rw lost (inl refl)
  | inl filed ↦ elim (Bool-cases v.saves_event) [
    | inr lost ↦ rw (filed, lost) (not_saved-Left v now c t p d)
    | inl noted ↦ elim (Bool-cases v.commits) [
      | inl done ↦
          rw (filed, noted, done)
            (queued-Left v now c t p d p.job (committed c.file_id p (saved_outside p t))
              (committed-IsCommitted v now c t p d))
      | inr failed ↦ rw (filed, noted, failed) (not_committed-Left v now c t p d)
    ]
  ]
]

pub delete-Left :
    (v : Services) (now : ℕ) (c : Call) (t : Tables)
    → Left c t (delete v now c t).0 (delete v now c t).1
unfolding delete
delete-Left v now c t =
    carry_out-Left v now c t
      (delete_plan v now c.uuid c.trash_id c.current_user c.user_id c.file_id t)
      (delete_plan-IsDeletion v now c t)
