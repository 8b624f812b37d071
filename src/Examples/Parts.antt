-- ===== src/Examples/Parts.antt =====
-- Streams of parts to a session in src/business/file/multipart-upload.service.ts.
use file_system_spike.Base.{◌≡◌, refl, true, false, some, none, [], ◌∷◌, ok, arith}
use file_system_spike.Base.Dict.{lookup}
use file_system_spike.Upload.Session.{
  UploadSession, includes, is_completed, is_aborted, is_expired, uploading,
}
use file_system_spike.Upload.Session.Parts.{HasParts}
use file_system_spike.Upload.PartUpload.{Hashing, Tables, open_stream, write_part}
use file_system_spike.Upload.PartUpload.Overlap.{overlapping_uploads_lose}

abbrev hashing : Hashing
hashing = record { md5 = λ text. "etag"; byte_length = λ text. 10 }

abbrev session : UploadSession
session = record {
  id = "s";
  file_name = "video.mp4";
  folder_id = "root-id";
  total_size = 25;
  part_size = 10;
  total_parts = 3;
  mime_type = "video/mp4";
  status = uploading;
  uploaded_bytes = 5;
  completed_parts = 3 ∷ [];
  expires_at = 1000;
  file_id = none;
  upload_id = none;
  created_at = 0;
  updated_at = 1;
}

abbrev tables : Tables
tables = record { sessions = ("s", session) ∷ []; parts = []; objects = [] }

abbrev after_one : Tables
after_one = (write_part 12 "p1" hashing session 1 "aaaaaaaaaa" tables).0

opens_one : (open_stream 10 "s" 1 tables).1 ≡ ok session
unfolding open_stream lookup is_completed is_aborted is_expired
opens_one = refl

opens_two : (open_stream 11 "s" 2 tables).1 ≡ ok session
unfolding open_stream lookup is_completed is_aborted is_expired
opens_two = refl

in_order : HasParts session
in_order = record { rising = ground arith }

not_yet : includes session.completed_parts 1 ≡ false
unfolding includes
not_yet = refl

overlapping_uploads_lose_example :
    let t2 = (write_part 14 "p2" hashing session 2 "bbbbbbbbbb" after_one).0 in
    (r : UploadSession) × (lookup "s" t2.sessions ≡ some r)
    × (includes r.completed_parts 2 ≡ true)
    × (includes r.completed_parts 1 ≡ false)
overlapping_uploads_lose_example =
    overlapping_uploads_lose hashing 10 11 12 14 1 2 "p1" "p2" "s" "aaaaaaaaaa" "bbbbbbbbbb" tables
      opens_one opens_two in_order not_yet (omega arith)
