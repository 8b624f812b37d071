-- ===== src/Examples/Completions.antt =====
-- Completions and aborts of uploads in src/business/file/multipart-upload.service.ts.
use file_system_spike.Base.{
  ◌≡◌, refl, ◌≢◌, inl, inr, sym, ap, ◌∙◌, some_inj, Bool-cases, String, str_eq, str_eq_iff, true,
  none, some, List, [], ◌∷◌, ok, err,
}
use file_system_spike.Base.Dict.{lookup}
use file_system_spike.Files.Item.{active, FolderEntity}
use file_system_spike.Files.NameCheck.{exists_by_name_in_folder}
use file_system_spike.Files.StorageObject.{UtcDate}
use file_system_spike.Upload.Session.{
  UploadSession, uploading, is_completed, is_completing, is_aborted, is_expired,
  all_parts_completed,
}
use file_system_spike.Upload.Part.{UploadPart, completed}
use file_system_spike.Upload.Part
use file_system_spike.Upload.PartUpload.{Tables, Hashing, open_stream, write_part}
use file_system_spike.Upload.Complete.{
  Store, already_completed, Ready, ready, completed_parts_of, compute_composite_checksum,
  check_complete, Request, new_file, commit_complete,
}
use file_system_spike.Upload.Complete.Once.{overlapping_completes_double}
use file_system_spike.Upload.Complete.Effects.{Effects, complete-Effects}
use file_system_spike.Upload.Complete.Calls.{
  LaterCall, streams, sends, completes, aborts, asks, calls_after,
}
use file_system_spike.Upload.Complete.Later.{completed_once, late_stream_reopens}
use file_system_spike.Upload.PartUpload.Kept.{OwnIds, MergedAt}
use file_system_spike.Upload.Abort.{abort_upload}
use file_system_spike.Upload.Abort.Cleanup.{Left, abort_upload-Left}

abbrev session : UploadSession
session = record {
  id = "s";
  file_name = "video.mp4";
  folder_id = "d";
  total_size = 10;
  part_size = 10;
  total_parts = 1;
  mime_type = "video/mp4";
  status = uploading;
  uploaded_bytes = 10;
  completed_parts = 1 ∷ [];
  expires_at = 1000;
  file_id = none;
  upload_id = none;
  created_at = 0;
  updated_at = 1;
}

abbrev part : UploadPart
part = record {
  id = "p";
  session_id = "s";
  part_number = 1;
  size = 10;
  etag = some "e";
  status = completed;
  object_key = some "multipart/s/part_00001";
  created_at = 0;
  updated_at = 1;
}

abbrev folder : FolderEntity
folder = record {
  id = "d";
  name = "docs";
  parent_id = none;
  path = "/docs";
  state = active;
  created_by = "u";
  created_at = 0;
  updated_at = 0;
}

abbrev uploads : Tables
uploads = record { sessions = ("s", session) ∷ []; parts = part ∷ []; objects = [] }

abbrev store : Store
store = record {
  uploads = uploads;
  files = [];
  folders = ("d", folder) ∷ [];
  storage = [];
  events = [];
  jobs = [];
}

abbrev date : UtcDate
date = record { year = 2026; month = 0; day = 2; hours = 3; minutes = 4; seconds = 5; time = 5 }

abbrev sha256 : String → String
sha256 text = text

abbrev found : Ready
found = ready sha256 date session (part ∷ []) store

checked : check_complete sha256 5 date "s" store ≡ (store, ok found)
unfolding check_complete lookup is_completed is_completing is_aborted is_expired all_parts_completed
    completed_parts_of Part.is_completed exists_by_name_in_folder
checked = refl

abbrev request : Request
request = record {
  file_id = "f1";
  storage_id = "o1";
  sync_event_id = "e1";
  created_by = none;
  commits = true;
  accepts = λ job. true;
}

abbrev request2 : Request
request2 = record request { file_id = "f2"; storage_id = "o2"; sync_event_id = "e2" }

session_found : lookup "s" store.uploads.sessions ≡ some session
unfolding lookup
session_found = refl

folder_found : lookup "d" store.folders ≡ some folder
unfolding lookup
folder_found = refl

complete-Effects_example :
    Effects request session date folder
      (compute_composite_checksum sha256 (completed_parts_of "s" store.uploads.parts))
      store
      (commit_complete 6 request found store).0
complete-Effects_example =
    complete-Effects sha256 5 date "s" store store found checked 6 request store session folder refl
      session_found folder_found

own_ids : OwnIds store.uploads
unfolding lookup
own_ids k s l = elim (Bool-cases (str_eq "s" k)) [
  | inl here ↦ ap UploadSession.id (sym (some_inj (rw here at l))) ∙ (str_eq_iff "s" k).0 here
  | inr other ↦ absurd (cc (rw other at l))
]

abbrev hashing : Hashing
hashing = record { md5 = λ text. text; byte_length = λ text. 10 }

-- A stream replaces the part, the session is aborted, and it is completed once more.
abbrev calls : List LaterCall
calls =
    streams 7 8 "p2" hashing "s" 1 "data"
    ∷ sends 8 8 "p3" hashing "s" 1 "data"
    ∷ aborts 9 "s"
    ∷ completes 9 9 date request2 "s"
    ∷ asks 10 "s"
    ∷ []

completed_once_example :
    let v = calls_after sha256 calls (commit_complete 6 request found store).0 in
    check_complete sha256 11 date "s" v ≡ (v, err already_completed)
unfolding ready
completed_once_example =
    completed_once sha256 5 date "s" store store found checked 6 11 date request store calls refl
      refl own_ids

stream_opens : (open_stream 4 "s" 1 uploads).1 ≡ ok session
unfolding open_stream lookup is_completed is_aborted is_expired
stream_opens = refl

late_stream :
    let w = (commit_complete 6 request found store).0 in
    let v : Store = record w {
      uploads = (write_part 7 "p2" hashing session 1 "data" w.uploads).0;
    } in
    MergedAt "s" w.uploads
    × ((x : UploadSession) × (lookup "s" v.uploads.sessions ≡ some x)
        × (x.status ≡ uploading)
        × (x.file_id ≡ none))
    × ((check_complete sha256 8 date "s" v).1 ≢ err already_completed)
unfolding ready
late_stream =
    late_stream_reopens sha256 5 date "s" store store found checked 4 6 7 8 1 "p2" "data" hashing
      date request store stream_opens refl refl

f1_is_not_f2 : ◌≢◌ {A = String} "f1" "f2"
f1_is_not_f2 q = cc ((str_eq_iff "f1" "f2").1 q)

overlapping_completes_double_example :
    let v = (commit_complete 7 request2 found (commit_complete 6 request found store).0).0 in
    (lookup "f1" v.files ≡ some (new_file request found))
    × (lookup "f2" v.files ≡ some (new_file request2 found))
    × ((new_file request found).name ≡ (new_file request2 found).name)
    × ((new_file request found).folder_id ≡ (new_file request2 found).folder_id)
overlapping_completes_double_example =
    overlapping_completes_double sha256 5 date "s" store store found checked 5 6 7 date found
      request request2 checked refl refl f1_is_not_f2

abort_upload-Left_example :
    Left uploads (abort_upload 5 "s" uploads).0 (abort_upload 5 "s" uploads).1
abort_upload-Left_example = abort_upload-Left 5 uploads "s"
