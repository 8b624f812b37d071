-- ===== src/Upload/Multipart/Store.antt =====
-- The upload sessions of src/business/file/multipart-upload.service.ts as the session store of
-- src/business/file/upload-queue.service.ts.
use file_system_spike.Base.{
  ℕ, ◌+◌, ◌≡◌, refl, String, Option, some, none, List, ◌∷◌, arith, Result, ok, err,
}
use file_system_spike.Upload.Session.{UploadSession, create, init, session_expiry_ms}
use file_system_spike.Upload.Queue.{InitiateRequest, InitiateResponse, SessionStore}
use file_system_spike.Upload.Queue.Capacity.{Counting}
use file_system_spike.Upload.Multipart.{
  Folders, MultipartError, initiate, get_active_session_stats, new_session, resolve_folder,
}

-- A throw of `initiate` leaves the table as it was.
abbrev pub or_none :
    Result MultipartError (InitiateResponse × List UploadSession)
    → Option (InitiateResponse × List UploadSession)
or_none (ok r) = some r
or_none (err e) = none

-- `uuid` gives the id for the next row.
abbrev pub session_table : Folders → (List UploadSession → String) → SessionStore
session_table env uuid = record {
  State = List UploadSession;
  stats = get_active_session_stats;
  initiate = λ now request table. or_none (initiate env now (uuid table) request table);
}

-- What a successful `initiate` adds.
record IsNewRow (now : ℕ) (request : InitiateRequest) (s : UploadSession) : Type 0 where
  opened : s.status ≡ init
  expiry : s.expires_at ≡ now + session_expiry_ms
  size : s.total_size ≡ request.total_size

new_session-IsNewRow :
    (env : Folders) (now : ℕ) (uuid : String) (request : InitiateRequest) (folder_id : String)
    → IsNewRow now request (new_session env now uuid request folder_id)
unfolding new_session create
new_session-IsNewRow env now uuid request folder_id = record {
  opened = refl;
  expiry = refl;
  size = refl;
}

initiate_adds :
    (env : Folders) (now : ℕ) (uuid : String) (request : InitiateRequest)
    (table : List UploadSession) {r : InitiateResponse} {table' : List UploadSession}
    → or_none (initiate env now uuid request table) ≡ some (r, table')
    → (s : UploadSession) × (table' ≡ s ∷ table) × IsNewRow now request s
unfolding initiate
initiate_adds env now uuid request table {r} {table'} e =
    go (resolve_folder env request.folder_id) refl
  where
    go :
        (f : Result MultipartError String)
        → resolve_folder env request.folder_id ≡ f
        → (s : UploadSession) × (table' ≡ s ∷ table) × IsNewRow now request s
    go (err x) h = cc
    go (ok id) h = (
      new_session env now uuid request id,
      ground arith,
      new_session-IsNewRow env now uuid request id,
    )

stats-new :
    (now : ℕ) (request : InitiateRequest) (s : UploadSession) (table : List UploadSession)
    → IsNewRow now request s
    → let before = get_active_session_stats now table in
      let st = get_active_session_stats now (s ∷ table) in
      (st.count ≡ before.count + 1) × (st.total_bytes ≡ before.total_bytes + request.total_size)
unfolding get_active_session_stats
stats-new now request s table h = ground (arith, h)

-- The multipart sessions are a session store as the queue needs it: every session that is
-- initiated is at once counted by the statistics, as one session of the size of the request.
pub session_table-Counting :
    (env : Folders) (uuid : List UploadSession → String) → Counting (session_table env uuid)
session_table-Counting env uuid = record {
  counted = λ now request w r w' e.
      let (s, added, fresh) = initiate_adds env now (uuid w) request w e in
      rw added (stats-new now request s w fresh);
}
