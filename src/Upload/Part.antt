-- ===== src/Upload/Part.antt =====
-- UploadPartEntity of src/domain/upload-session/entities/upload-part.entity.ts.
use file_system_spike.Base.{ℕ, String, Bool, true, false, Option, some, none}

pub data PartStatus : Type 0 where
  pending uploading completed failed : PartStatus

pub record UploadPart : Type 0 where
  pub id : String
  pub session_id : String
  pub part_number : ℕ
  pub size : ℕ
  pub etag : Option String
  pub status : PartStatus
  pub object_key : Option String
  pub created_at : ℕ
  pub updated_at : ℕ

unfoldable pub create : ℕ → String → String → ℕ → ℕ → Option String → UploadPart
create now id session_id part_number size object_key = record {
  id = id;
  session_id = session_id;
  part_number = part_number;
  size = size;
  etag = none;
  status = pending;
  object_key = object_key;
  created_at = now;
  updated_at = now;
}

abbrev part_status_is_completed : PartStatus → Bool
part_status_is_completed completed = true
part_status_is_completed _ = false

unfoldable pub is_completed : UploadPart → Bool
is_completed p = part_status_is_completed p.status

unfoldable pub start_upload : ℕ → UploadPart → UploadPart
start_upload now p = record p { status = uploading; updated_at = now }

unfoldable pub complete : ℕ → String → String → UploadPart → UploadPart
complete now etag object_key p = record p {
  status = completed;
  etag = some etag;
  object_key = some object_key;
  updated_at = now;
}

unfoldable pub fail : ℕ → UploadPart → UploadPart
fail now p = record p { status = failed; updated_at = now }
