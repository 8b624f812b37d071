-- ===== src/Upload/Complete/Effects.antt =====
-- What a `complete` of src/business/file/multipart-upload.service.ts that commits leaves in the store, said of
-- the rows that its checks have read.
use Prim.Native.String
use file_system_spike.Base.{
  ℕ, ◌≡◌, ◌≢◌, refl, sym, ◌∙◌, subst, some_inj, String, str_eq_iff, Bool, true, false, some, List,
  [], ◌∷◌, ◌++◌, if◌then◌else◌, ok, or_else, arith,
}
use file_system_spike.Base.Dict.{lookup, set, lookup-set}
use file_system_spike.Base.Text.{codes}
use file_system_spike.Files.Item.{FileEntity, FolderEntity, active}
use file_system_spike.Files.StorageObject.{
  UtcDate, FileStorageObject, nas, timestamp, create_for_nas, update_checksum, build_nas_object_key,
}
use file_system_spike.SyncEvent.Entity.{SyncEvent, pending, queued, mark_queued}
use file_system_spike.SyncEvent.FileFactory.{create_file_create_event}
use file_system_spike.Upload.Session.{UploadSession, completing, all_parts_completed}
use file_system_spike.Upload.Part.{UploadPart}
use file_system_spike.Upload.PartUpload.{save_session, digits_text}
use file_system_spike.Upload.Complete.{
  Store, Ready, ready, path_of, nas_key_text, new_job, joined, UploadJob, Request,
  completed_parts_of, compute_composite_checksum, check_complete, new_file, new_event, enqueue_job,
  written, commit_complete,
}
use file_system_spike.Upload.Complete.Once.{
  check_complete-Checked, merging, commit-fst, lookup-set_self, enqueue_job-fields,
}

-- The new file has the name, the folder, the size and the type of the session.
pub record NewFile (q : Request) (s : UploadSession) (d : UtcDate) (f : FileEntity) : Type 0 where
  pub id : f.id ≡ q.file_id
  pub name : f.name ≡ s.file_name
  pub folder : f.folder_id ≡ s.folder_id
  pub size : f.size_bytes ≡ s.total_size
  pub mime_type : f.mime_type ≡ s.mime_type
  pub live : f.state ≡ active
  pub created_by : f.created_by ≡ or_else q.created_by "unknown"
  pub created_at : f.created_at ≡ d.time

-- The object on the NAS belongs to the file, and its key is made of the date and the name.
pub record NewObject (q : Request) (s : UploadSession) (d : UtcDate) (sum : String)
    (o : FileStorageObject) : Type 0 where
  pub file : o.file_id ≡ q.file_id
  pub kind : o.storage_type ≡ nas
  pub key : o.object_key ≡ timestamp d ++ b'_' ∷ b'_' ∷ codes s.file_name
  pub checksum : o.checksum ≡ some sum

-- The sync event aims at the key of the object in the folder, and is queued if the job is taken.
pub record NewEvent (q : Request) (s : UploadSession) (d : UtcDate) (f : FolderEntity)
    (job : UploadJob) (e : SyncEvent) : Type 0 where
  pub file : e.file_id ≡ some q.file_id
  pub target :
      e.target_path
      ≡ joined f.path (String.◌++◌ (digits_text (timestamp d)) (String.◌++◌ "__" s.file_name))
  pub status : e.status ≡ (if q.accepts job then queued else pending)

abbrev pub job_of : Request → UploadSession → String → UploadJob
job_of q s checksum = record {
  file_id = q.file_id;
  sync_event_id = q.sync_event_id;
  multipart_session_id = s.id;
  composite_checksum = checksum;
}

-- What the completion of the session `s` into the folder `f` leaves, after a store `u`.
pub record Effects (q : Request) (s : UploadSession) (d : UtcDate) (f : FolderEntity)
    (checksum : String) (u v : Store) : Type 0 where
  pub file : (x : FileEntity) × (lookup q.file_id v.files ≡ some x) × NewFile q s d x
  pub other_files : (i : String) → i ≢ q.file_id → lookup i v.files ≡ lookup i u.files
  pub object :
      (o : FileStorageObject) × (lookup q.storage_id v.storage ≡ some o)
      × NewObject q s d checksum o
  pub event :
      (e : SyncEvent) × (lookup q.sync_event_id v.events ≡ some e)
      × NewEvent q s d f (job_of q s checksum) e
  pub jobs :
      v.jobs
      ≡ (if q.accepts (job_of q s checksum) then u.jobs ++ job_of q s checksum ∷ [] else u.jobs)
  pub session :
      (x : UploadSession) × (lookup s.id v.uploads.sessions ≡ some x)
      × (x.status ≡ completing)
      × (x.file_id ≡ some q.file_id)
  pub parts : v.uploads.parts ≡ u.uploads.parts

set_other {ℓ} :
    {V : Type ℓ} (k i : String) (v : V) (m : List (String × V))
    → i ≢ k
    → lookup i (set k v m) ≡ lookup i m
set_other k i v m h = ground (arith, lookup-set k i v m, str_eq_iff k i, h)

module _ (sha256 : String → String) (later : ℕ) (q : Request) (d : UtcDate) (t u : Store)
    (s : UploadSession) (f : FolderEntity) (ps : List UploadPart)
    (there : lookup s.folder_id t.folders ≡ some f) where
  abbrev made : Ready
  made = ready sha256 d s ps t

  abbrev sum : String
  sum = compute_composite_checksum sha256 ps

  file-NewFile : NewFile q s d (new_file q made)
  unfolding new_file ready
  file-NewFile = record {
    id = refl;
    name = refl;
    folder = refl;
    size = refl;
    mime_type = refl;
    live = refl;
    created_by = refl;
    created_at = refl;
  }

  event-target :
      (new_event later q made).target_path
      ≡ joined f.path (String.◌++◌ (digits_text (timestamp d)) (String.◌++◌ "__" s.file_name))
  unfolding new_event create_file_create_event ready path_of nas_key_text
  event-target = rw there refl

  object-NewObject : NewObject q s d sum (
      update_checksum later made.checksum
        (create_for_nas q.storage_id q.file_id made.created_at (codes made.session.file_name)))
  unfolding update_checksum create_for_nas build_nas_object_key ready
  object-NewObject = record { file = refl; kind = refl; key = refl; checksum = refl }

  event-NewEvent :
      (b : Bool)
      → q.accepts (job_of q s sum) ≡ b
      → NewEvent q s d f
          (job_of q s sum)
          (if b then mark_queued later (new_event later q made) else new_event later q made)
  unfolding mark_queued new_event create_file_create_event
  event-NewEvent true h = record { file = refl; target = event-target; status = rw h refl }
  event-NewEvent false h = record { file = refl; target = event-target; status = rw h refl }

  same_job : new_job q made ≡ job_of q s sum
  unfolding ready
  same_job = refl

  written-Effects :
      Effects q s d f sum u
        (enqueue_job later q made (written later q made (merging later q made) u))
  unfolding written save_session ready
  written-Effects =
      let w = written later q made (merging later q made) u in
      let g =
        enqueue_job-fields later q made w
          (lookup-set_self q.sync_event_id (new_event later q made) u.events) in
      record {
        file = (
          new_file q made,
          rw g.0 (lookup-set_self q.file_id (new_file q made) u.files),
          file-NewFile,
        );
        other_files = λ i h. rw g.0 (set_other q.file_id i (new_file q made) u.files h);
        object = (_, rw g.4 (lookup-set_self q.storage_id _ u.storage), object-NewObject);
        event = (_, g.2, event-NewEvent (q.accepts (job_of q s sum)) refl);
        jobs = g.3;
        session = (
          merging later q made,
          rw g.1 (lookup-set_self s.id (merging later q made) u.uploads.sessions),
          refl,
          refl,
        );
        parts = rw g.1 refl;
      }

module _ (sha256 : String → String) (now : ℕ) (d : UtcDate) (id : String) (t t' : Store) (r : Ready)
    (checked : check_complete sha256 now d id t ≡ (t', ok r)) where
  -- Of a `complete` that passed its checks with the session `s` stored under the id and the folder `f` of
  -- that session stored, and whose transaction commits, whatever others have written in between: the
  -- new file has the session's name, folder, size and type, and no other file is touched; the NAS
  -- object belongs to the file, has the key made of the date and the name, and the checksum of the
  -- parts that the checks read; the sync event aims at that key in the folder; a job with the
  -- session's id and that checksum is added, and the event is queued, if the job queue takes the job,
  -- and otherwise no job is added and the event is pending; the session is completing with the id of
  -- the file; and the rows of the parts stay.
  pub complete-Effects :
      (later : ℕ) (q : Request) (u : Store) (s : UploadSession) (f : FolderEntity)
      → q.commits ≡ true
      → lookup id t.uploads.sessions ≡ some s
      → lookup s.folder_id t.folders ≡ some f
      → Effects q s d f
          (compute_composite_checksum sha256 (completed_parts_of s.id t.uploads.parts))
          u
          (commit_complete later q r u).0
  complete-Effects later q u s f c l there =
      let seen = check_complete-Checked sha256 now d id t t' r checked in
      let same : r.session ≡ s = some_inj (sym seen.found ∙ l) in
      let ps = completed_parts_of s.id t.uploads.parts in
      let is_ready : r ≡ ready sha256 d s ps t =
        subst (λ x. r ≡ ready sha256 d x (completed_parts_of x.id t.uploads.parts) t) same
          seen.made in
      let full =
        subst (λ x. all_parts_completed (Ready.session x) ≡ true) is_ready seen.complete_parts in
      subst
        (λ x.
          Effects q s d f (compute_composite_checksum sha256 ps) u (commit_complete later q x u).0)
        (sym is_ready)
        (rw (commit-fst later q (ready sha256 d s ps t) u full c)
          (written-Effects sha256 later q d t u s f ps there))
