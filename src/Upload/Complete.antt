-- ===== src/Upload/Complete.antt =====
-- `complete` of src/business/file/multipart-upload.service.ts. It is two steps: the session is read and
-- tested outside the transaction, and later the transaction writes. SHA-256, what the database and the
-- job queue answer, and the ids are arguments.
pub mod Once
pub mod Effects
pub mod Calls
pub mod Later
use Prim.Native.String
use file_system_spike.Base.{
  ℕ, ◌+◌, String, str_eq, Bool, true, false, not, ◌&&◌, ◌||◌, Option, none, some, List, [], ◌∷◌,
  ◌++◌, ◌==◌, leb, length, if◌then◌else◌, Result, ok, err, or_else,
}
use file_system_spike.Base.Dict.{lookup, set}
use file_system_spike.Base.Text.{codes}
use file_system_spike.Files.Item.{active, FileEntity, FolderEntity}
use file_system_spike.Files.StorageObject.{
  UtcDate, timestamp, FileStorageObject, create_for_nas, update_checksum,
}
use file_system_spike.SyncEvent.Entity.{SyncEvent, mark_queued}
use file_system_spike.SyncEvent.FileFactory.{FileCreateParams, create_file_create_event}
use file_system_spike.Files.NameCheck.{exists_by_name_in_folder}
use file_system_spike.Upload.Session.{
  UploadSession, SessionError, is_completed, is_completing, is_aborted, is_expired, expire,
  all_parts_completed, get_pending_parts, begin_completing,
}
use file_system_spike.Upload.Part.{UploadPart}
use file_system_spike.Upload.Part
use file_system_spike.Upload.PartUpload.{Tables, save_session, digits_text}

pub record UploadJob : Type 0 where
  pub file_id : String
  pub sync_event_id : String
  pub multipart_session_id : String
  pub composite_checksum : String

pub record Store : Type 0 where
  pub uploads : Tables
  pub files : List (String × FileEntity)
  pub folders : List (String × FolderEntity)
  pub storage : List (String × FileStorageObject)
  pub events : List (String × SyncEvent)
  pub jobs : List UploadJob

pub data CompleteError : Type 0 where
  session_not_found already_completed session_aborted session_expired part_mismatch : CompleteError
  incomplete_parts : List ℕ → CompleteError
  duplicate_file_exists transaction_failed : CompleteError
  entity_error : SessionError → CompleteError

-- What the first step has found.
pub record Ready : Type 0 where
  pub session : UploadSession
  pub checksum : String
  pub file_path : String
  pub nas_path : String
  pub created_at : UtcDate

-- `findCompletedBySessionId` before its sort.
unfoldable pub completed_parts_of : String → List UploadPart → List UploadPart
completed_parts_of session_id [] = []
completed_parts_of session_id (p ∷ ps) =
    let rest = completed_parts_of session_id ps in
    if str_eq p.session_id session_id && Part.is_completed p then p ∷ rest else rest

insert_part : UploadPart → List UploadPart → List UploadPart
insert_part p [] = p ∷ []
insert_part p (q ∷ ps) =
    if leb p.part_number q.part_number then p ∷ (q ∷ ps) else q ∷ insert_part p ps

unfoldable pub sort_parts : List UploadPart → List UploadPart
unfolding insert_part
sort_parts [] = []
sort_parts (p ∷ ps) = insert_part p (sort_parts ps)

etag_concat : List UploadPart → String
etag_concat [] = ""
etag_concat (p ∷ ps) = String.◌++◌ (or_else p.etag "") (etag_concat ps)

unfoldable pub compute_composite_checksum : (String → String) → List UploadPart → String
unfolding sort_parts etag_concat
compute_composite_checksum sha256 ps = sha256 (etag_concat (sort_parts ps))

path_of : Option FolderEntity → String
path_of none = ""
path_of (some f) = f.path

unfoldable pub joined : String → String → String
joined folder name =
    if str_eq folder "/" then String.◌++◌ "/" name else String.◌++◌ folder (String.◌++◌ "/" name)

-- `buildNasObjectKey` as a text.
nas_key_text : UtcDate → String → String
nas_key_text d name = String.◌++◌ (digits_text (timestamp d)) (String.◌++◌ "__" name)

unfoldable pub ready : (String → String) → UtcDate → UploadSession → List UploadPart → Store → Ready
unfolding path_of nas_key_text
ready sha256 d s parts t =
    let folder = path_of (lookup s.folder_id t.folders) in
    record {
      session = s;
      checksum = compute_composite_checksum sha256 parts;
      file_path = joined folder s.file_name;
      nas_path = joined folder (nas_key_text d s.file_name);
      created_at = d;
    }

expired_first : Store → UploadSession → Result SessionError UploadSession → Store × CompleteError
expired_first t s (ok s') = (record t { uploads = save_session s' t.uploads }, session_expired)
expired_first t s (err e) = (t, entity_error e)

abbrev failing {ℓ} : {A : Type ℓ} → Store × CompleteError → Store × Result CompleteError A
failing (t, e) = (t, err e)

module _ (sha256 : String → String) (now : ℕ) (d : UtcDate) where
  parts_found : UploadSession → List UploadPart → Store → Store × Result CompleteError Ready
  parts_found s parts t =
      if not (length parts == s.total_parts)
      then (t, err part_mismatch)
      else if exists_by_name_in_folder s.folder_id s.file_name s.mime_type none (some d.time)
          t.files
      then (t, err duplicate_file_exists)
      else (t, ok (ready sha256 d s parts t))

  check_found : Option UploadSession → Store → Store × Result CompleteError Ready
  unfolding expired_first parts_found
  check_found none t = (t, err session_not_found)
  check_found (some s) t =
      if is_completed s || is_completing s
      then (t, err already_completed)
      else if is_aborted s
      then (t, err session_aborted)
      else if is_expired now s
      then failing (expired_first t s (expire now s))
      else if not (all_parts_completed s)
      then (t, err (incomplete_parts (get_pending_parts s)))
      else parts_found s (completed_parts_of s.id t.uploads.parts) t

  -- The first step, up to the start of the transaction.
  unfoldable pub check_complete : String → Store → Store × Result CompleteError Ready
  unfolding check_found
  check_complete session_id t = check_found (lookup session_id t.uploads.sessions) t

-- The ids that `uuidv4` gives, who asks, and what the database and the queue answer.
pub record Request : Type 0 where
  pub file_id : String
  pub storage_id : String
  pub sync_event_id : String
  pub created_by : Option String
  pub commits : Bool
  pub accepts : UploadJob → Bool

unfoldable pub new_file : Request → Ready → FileEntity
new_file q r = record {
  id = q.file_id;
  name = r.session.file_name;
  folder_id = r.session.folder_id;
  size_bytes = r.session.total_size;
  mime_type = r.session.mime_type;
  state = active;
  created_by = or_else q.created_by "unknown";
  created_at = r.created_at.time;
  updated_at = r.created_at.time;
}

unfoldable pub new_event : ℕ → Request → Ready → SyncEvent
new_event now q r =
    create_file_create_event
      (record {
        id = q.sync_event_id;
        file_id = q.file_id;
        source_path = q.file_id;
        target_path = r.nas_path;
        file_name = r.session.file_name;
        folder_id = r.session.folder_id;
        process_by = or_else q.created_by "unknown";
      })
      now

abbrev pub new_job : Request → Ready → UploadJob
new_job q r = record {
  file_id = q.file_id;
  sync_event_id = q.sync_event_id;
  multipart_session_id = r.session.id;
  composite_checksum = r.checksum;
}

-- After the commit: the job is added and the event is queued, or it stays pending.
unfoldable pub enqueue_job : ℕ → Request → Ready → Store → Store
unfolding mark_queued
enqueue_job now q r t =
    if q.accepts (new_job q r)
    then record t {
      jobs = t.jobs ++ new_job q r ∷ [];
      events = set q.sync_event_id (mark_queued now (new_event now q r)) t.events;
    }
    else t

-- The writes of the transaction; the session as it was read is written back, in its new state.
unfoldable pub written : ℕ → Request → Ready → UploadSession → Store → Store
written now q r s t =
    let object =
      update_checksum now r.checksum
        (create_for_nas q.storage_id q.file_id r.created_at (codes r.session.file_name)) in
    record t {
      uploads = save_session s t.uploads;
      files = set q.file_id (new_file q r) t.files;
      storage = set q.storage_id object t.storage;
      events = set q.sync_event_id (new_event now q r) t.events;
    }

commit_session :
    ℕ
    → Request
    → Ready
    → Store
    → Result SessionError UploadSession
    → Store × Result CompleteError FileEntity
commit_session now q r t (err e) = (t, err (entity_error e))
commit_session now q r t (ok s) = (enqueue_job now q r (written now q r s t), ok (new_file q r))

-- The transaction, which is rolled back where it fails, and the job.
unfoldable pub commit_complete :
    ℕ → Request → Ready → Store → Store × Result CompleteError FileEntity
unfolding commit_session
commit_complete now q r t =
    if q.commits
    then commit_session now q r t (begin_completing now q.file_id r.session)
    else (t, err transaction_failed)

complete_checked :
    ℕ → Request → Store × Result CompleteError Ready → Store × Result CompleteError FileEntity
complete_checked now q (t, err e) = (t, err e)
complete_checked now q (t, ok r) = commit_complete now q r t

-- The whole of `complete`, where nobody else writes between its checks and its transaction.
unfoldable pub complete_upload :
    (String → String)
    → ℕ
    → ℕ
    → UtcDate
    → Request
    → String
    → Store
    → Store × Result CompleteError FileEntity
unfolding complete_checked
complete_upload sha256 now later d q session_id t =
    complete_checked later q (check_complete sha256 now d session_id t)
