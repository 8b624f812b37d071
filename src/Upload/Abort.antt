-- ===== src/Upload/Abort.antt =====
-- `abort` and `getStatus` of src/business/file/multipart-upload.service.ts. `abort` answers before the
-- objects of the parts are deleted: it leaves their keys to be cleaned up, and a deletion that fails is
-- only logged.
pub mod Cleanup
pub mod Kept
use Prim.Native.String
use file_system_spike.Base.{
  ◌==◌, ℕ, ◌-◌, String, str_eq, Bool, true, false, ◌||◌, ◌&&◌, Option, none, some, List, [], ◌∷◌,
  if◌then◌else◌, Result, ok, err,
}
use file_system_spike.Base.Dict.{lookup, set, delete}
use file_system_spike.Base.Text.{codes}
use file_system_spike.Upload.Session.{
  UploadSession, SessionStatus, SessionError, is_active, is_completed, is_completing, is_aborted,
  is_expired, expire, abort, get_progress, get_next_part_number,
}
use file_system_spike.Upload.Part.{UploadPart}
use file_system_spike.Upload.PartUpload.{Tables, save_session}

pub data AbortError : Type 0 where
  session_not_found session_already_completed : AbortError
  entity_error : SessionError → AbortError

pub data AbortMessage : Type 0 where
  already_ended aborted_now : AbortMessage

-- The answer, and the keys of the objects that are deleted in the background.
pub record Aborted : Type 0 where
  pub session_id : String
  pub message : AbortMessage
  pub cleanup : List String

unfoldable pub of_session : String → List UploadPart → List UploadPart
of_session session_id [] = []
of_session session_id (p ∷ ps) =
    let rest = of_session session_id ps in if str_eq p.session_id session_id then p ∷ rest else rest

-- `deleteBySessionId`.
unfoldable pub without_session : String → List UploadPart → List UploadPart
without_session session_id [] = []
without_session session_id (p ∷ ps) =
    let rest = without_session session_id ps in
    if str_eq p.session_id session_id then rest else p ∷ rest

add_key : Option String → List String → List String
add_key none ks = ks
add_key (some k) ks = if str_eq k "" then ks else k ∷ ks

unfoldable pub object_keys : List UploadPart → List String
unfolding add_key
object_keys [] = []
object_keys (p ∷ ps) = add_key p.object_key (object_keys ps)

aborted_session :
    UploadSession → Result SessionError UploadSession → Tables → Tables × Result AbortError Aborted
aborted_session s (err e) t = (t, err (entity_error e))
aborted_session s (ok s') t = (
  record (save_session s' t) { parts = without_session s.id t.parts },
  ok (record {
    session_id = s.id;
    message = aborted_now;
    cleanup = object_keys (of_session s.id t.parts);
  }),
)

abort_found : ℕ → Option UploadSession → Tables → Tables × Result AbortError Aborted
unfolding aborted_session
abort_found now none t = (t, err session_not_found)
abort_found now (some s) t =
    if is_completed s || is_completing s
    then (t, err session_already_completed)
    else if is_aborted s || is_expired now s
    then (t, ok (record { session_id = s.id; message = already_ended; cleanup = [] }))
    else aborted_session s (abort now s) t

unfoldable pub abort_upload : ℕ → String → Tables → Tables × Result AbortError Aborted
unfolding abort_found
abort_upload now session_id t = abort_found now (lookup session_id t.sessions) t

-- The loop over the parts; `deletes` tells whether the storage deletes a key.
unfoldable pub delete_part_files : (String → Bool) → List String → Tables → Tables
delete_part_files deletes [] t = t
delete_part_files deletes (k ∷ ks) t =
    delete_part_files deletes ks
      (if deletes k then record t { objects = delete k t.objects } else t)

starts_with : List ℕ → List ℕ → Bool
starts_with [] s = true
starts_with (c ∷ p) [] = false
starts_with (c ∷ p) (x ∷ s) = if c == x then starts_with p s else false

-- Whether an object lies in the directory of a session.
unfoldable pub in_directory : String → String → Bool
unfolding starts_with
in_directory session_id k =
    starts_with (codes (String.◌++◌ "multipart/" (String.◌++◌ session_id "/"))) (codes k)

unfoldable pub without_directory : String → List (String × String) → List (String × String)
without_directory session_id [] = []
without_directory session_id ((k, x) ∷ os) =
    let rest = without_directory session_id os in
    if in_directory session_id k then rest else (k, x) ∷ rest

-- The background deletion: the objects of the parts, and then the directory of the session, of which
-- `removes` tells whether the storage deletes it. What fails is only logged.
unfoldable pub clean_up : (String → Bool) → Bool → String → List String → Tables → Tables
clean_up deletes removes session_id ks t =
    let u = delete_part_files deletes ks t in
    if removes then record u { objects = without_directory session_id u.objects } else u

pub record SessionStatusResponse : Type 0 where
  pub session_id : String
  pub file_name : String
  pub status : SessionStatus
  pub total_size : ℕ
  pub uploaded_bytes : ℕ
  pub progress : ℕ
  pub total_parts : ℕ
  pub completed_parts : List ℕ
  pub next_part_number : Option ℕ
  pub remaining_bytes : ℕ
  pub expires_at : ℕ
  pub file_id : Option String

-- The session is the object that `엔티티세션만료` has changed.
unfoldable pub status_of : UploadSession → SessionStatusResponse
status_of s = record {
  session_id = s.id;
  file_name = s.file_name;
  status = s.status;
  total_size = s.total_size;
  uploaded_bytes = s.uploaded_bytes;
  progress = get_progress s;
  total_parts = s.total_parts;
  completed_parts = s.completed_parts;
  next_part_number = get_next_part_number s;
  remaining_bytes = s.total_size - s.uploaded_bytes;
  expires_at = s.expires_at;
  file_id = s.file_id;
}

status_after_expiry :
    Result SessionError UploadSession → Tables → Tables × Result AbortError SessionStatusResponse
status_after_expiry (err e) t = (t, err (entity_error e))
status_after_expiry (ok s) t = (save_session s t, ok (status_of s))

status_found : ℕ → Option UploadSession → Tables → Tables × Result AbortError SessionStatusResponse
unfolding status_of status_after_expiry
status_found now none t = (t, err session_not_found)
status_found now (some s) t =
    if is_active now s && is_expired now s
    then status_after_expiry (expire now s) t
    else (t, ok (status_of s))

unfoldable pub get_status : ℕ → String → Tables → Tables × Result AbortError SessionStatusResponse
unfolding status_found
get_status now session_id t = status_found now (lookup session_id t.sessions) t
