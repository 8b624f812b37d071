-- ===== src/Upload/Multipart.antt =====
-- `initiate` of src/business/file/multipart-upload.service.ts, and the statistics of the active
-- sessions of src/infra/database/repositories/upload-session.repository.ts. The table of sessions is
-- a list; the folder services and the decoding of file names are arguments.
pub mod Store
use file_system_spike.Base.{
  ℕ, ◌+◌, ◌*◌, String, str_eq, Bool, true, false, ◌||◌, Option, some, none, List, [], ◌∷◌, ltb,
  if◌then◌else◌, Result, ok, err, ◌>>=◌,
}
use file_system_spike.Upload.Session.{
  UploadSession, SessionStatus, init, uploading, create, default_part_size,
}
use file_system_spike.Upload.Queue.{InitiateRequest, InitiateResponse, Stats}

pub data FolderAvailability : Type 0 where
  available syncing moving error : FolderAvailability

-- What the folder services answer, and `normalizeFileName`.
pub record Folders : Type 0 where
  pub root_folder : Option String
  pub is_active_folder : String → Option Bool
  pub availability : String → Option FolderAvailability
  pub normalize_file_name : String → String

pub data MultipartError : Type 0 where
  root_folder_not_found file_too_small folder_not_found folder_sync_in_progress folder_sync_failed :
      MultipartError

abbrev pub multipart_min_file_size : ℕ
multipart_min_file_size = 100 * 1024 * 1024

abbrev or_root : Option String → Result MultipartError String
or_root none = err root_folder_not_found
or_root (some id) = ok id

resolve_folder : Folders → String → Result MultipartError String
resolve_folder env id =
    if str_eq id "" || str_eq id "root" || str_eq id "/" then or_root env.root_folder else ok id

abbrev existing : Option Bool → Result MultipartError (Unit {0})
existing (some true) = ok tt
existing _ = err folder_not_found

abbrev settled : Option FolderAvailability → Result MultipartError (Unit {0})
settled (some syncing) = err folder_sync_in_progress
settled (some moving) = err folder_sync_in_progress
settled (some error) = err folder_sync_failed
settled _ = ok tt

abbrev guard_size : ℕ → Result MultipartError (Unit {0})
guard_size n = if ltb n multipart_min_file_size then err file_too_small else ok tt

new_session : Folders → ℕ → String → InitiateRequest → String → UploadSession
new_session env now uuid request folder_id =
    create
      (record {
        id = uuid;
        file_name = env.normalize_file_name request.file_name;
        folder_id = folder_id;
        total_size = request.total_size;
        mime_type = request.mime_type;
        part_size = some default_part_size;
        upload_id = none;
      })
      now

abbrev response : UploadSession → InitiateResponse
response s = record {
  session_id = s.id;
  part_size = s.part_size;
  total_parts = s.total_parts;
  expires_at = s.expires_at;
}

-- The checks in the order of the source, and the new row.
unfoldable pub initiate :
    Folders
    → ℕ
    → String
    → InitiateRequest
    → List UploadSession
    → Result MultipartError (InitiateResponse × List UploadSession)
unfolding resolve_folder new_session
initiate env now uuid request table = resolve_folder env request.folder_id >>= λ folder_id.
    guard_size request.total_size >>= λ _. existing (env.is_active_folder folder_id) >>= λ _.
    settled (env.availability folder_id) >>= λ _.
    let s = new_session env now uuid request folder_id in ok (response s, s ∷ table)

abbrev is_open : SessionStatus → Bool
is_open init = true
is_open uploading = true
is_open _ = false

-- The rows that the query of `getActiveSessionStats` keeps.
abbrev is_live : ℕ → UploadSession → Bool
is_live now s = if is_open s.status then ltb now s.expires_at else false

unfoldable pub get_active_session_stats : ℕ → List UploadSession → Stats
get_active_session_stats now [] = record { count = 0; total_bytes = 0 }
get_active_session_stats now (s ∷ table) =
    let st = get_active_session_stats now table in
    if is_live now s
    then record { count = st.count + 1; total_bytes = st.total_bytes + s.total_size }
    else st
