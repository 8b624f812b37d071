-- ===== src/Upload/Session.antt =====
-- UploadSessionEntity of src/domain/upload-session/entities/upload-session.entity.ts, with the
-- constants of src/domain/upload-session/type/upload-session.type.ts. A method takes the time that
-- its `new Date()` reads, and a part size is not zero (the source would divide by it).
pub mod Parts
pub mod Life
use file_system_spike.Base.{
  ℕ, zero, suc, ◌+◌, ◌-◌, ◌*◌, ◌/◌, String, Bool, true, false, not, ◌&&◌, ◌||◌, Option, some, none,
  or_else, List, [], ◌∷◌, ◌++◌, leb, ltb, ◌==◌, if◌then◌else◌, length, Result, ok, err,
}

pub data SessionStatus : Type 0 where
  init uploading completing completed aborted expired : SessionStatus

abbrev pub default_part_size : ℕ
default_part_size = 10 * 1024 * 1024

abbrev pub session_expiry_ms : ℕ
session_expiry_ms = 24 * 60 * 60 * 1000

pub record UploadSession : Type 0 where
  pub id : String
  pub file_name : String
  pub folder_id : String
  pub total_size : ℕ
  pub part_size : ℕ
  pub total_parts : ℕ
  pub mime_type : String
  pub status : SessionStatus
  pub uploaded_bytes : ℕ
  pub completed_parts : List ℕ
  pub expires_at : ℕ
  pub file_id : Option String
  pub upload_id : Option String
  pub created_at : ℕ
  pub updated_at : ℕ

pub data SessionError : Type 0 where
  parts_incomplete not_abortable not_expirable : SessionError

-- `Math.ceil(a / b)`.
unfoldable pub ceil_div : ℕ → ℕ → ℕ
ceil_div a b = (a + (b - 1)) / b

pub record CreateParams : Type 0 where
  pub id : String
  pub file_name : String
  pub folder_id : String
  pub total_size : ℕ
  pub mime_type : String
  pub part_size : Option ℕ
  pub upload_id : Option String

unfoldable pub create : CreateParams → ℕ → UploadSession
unfolding ceil_div
create p now =
    let part_size = or_else p.part_size default_part_size in
    record {
      id = p.id;
      file_name = p.file_name;
      folder_id = p.folder_id;
      total_size = p.total_size;
      part_size = part_size;
      total_parts = ceil_div p.total_size part_size;
      mime_type = p.mime_type;
      status = init;
      uploaded_bytes = 0;
      completed_parts = [];
      expires_at = now + session_expiry_ms;
      file_id = none;
      upload_id = p.upload_id;
      created_at = now;
      updated_at = now;
    }

abbrev pub status_is_init : SessionStatus → Bool
status_is_init init = true
status_is_init _ = false

abbrev pub status_is_uploading : SessionStatus → Bool
status_is_uploading uploading = true
status_is_uploading _ = false

abbrev pub status_is_completing : SessionStatus → Bool
status_is_completing completing = true
status_is_completing _ = false

abbrev pub status_is_completed : SessionStatus → Bool
status_is_completed completed = true
status_is_completed _ = false

abbrev pub status_is_aborted : SessionStatus → Bool
status_is_aborted aborted = true
status_is_aborted _ = false

abbrev pub status_is_expired : SessionStatus → Bool
status_is_expired expired = true
status_is_expired _ = false

unfoldable pub is_init : UploadSession → Bool
is_init s = status_is_init s.status

unfoldable pub is_uploading : UploadSession → Bool
is_uploading s = status_is_uploading s.status

unfoldable pub is_completed : UploadSession → Bool
is_completed s = status_is_completed s.status

unfoldable pub is_aborted : UploadSession → Bool
is_aborted s = status_is_aborted s.status

unfoldable pub is_completing : UploadSession → Bool
is_completing s = status_is_completing s.status

unfoldable pub is_expired : ℕ → UploadSession → Bool
is_expired now s = if status_is_expired s.status then true else ltb s.expires_at now

unfoldable pub is_active : ℕ → UploadSession → Bool
unfolding is_init is_uploading is_expired
is_active now s = (is_init s || is_uploading s) && not (is_expired now s)

unfoldable pub can_upload_part : ℕ → ℕ → UploadSession → Bool
unfolding is_active
can_upload_part now part_number s =
    if not (is_active now s)
    then false
    else if ltb part_number 1 || ltb s.total_parts part_number
    then false
    else true

unfoldable pub all_parts_completed : UploadSession → Bool
all_parts_completed s = length s.completed_parts == s.total_parts

-- `Array.prototype.includes`.
unfoldable pub includes : List ℕ → ℕ → Bool
includes [] n = false
includes (x ∷ xs) n = if x == n then true else includes xs n

-- `Array.prototype.sort` by the difference of the numbers, a stable sort.
unfoldable pub insert : ℕ → List ℕ → List ℕ
insert a [] = a ∷ []
insert a (x ∷ xs) = if leb a x then a ∷ x ∷ xs else x ∷ insert a xs

unfoldable pub sort : List ℕ → List ℕ
unfolding insert
sort [] = []
sort (x ∷ xs) = insert x (sort xs)

abbrev pub started : SessionStatus → SessionStatus
started init = uploading
started s = s

unfoldable pub mark_part_completed : ℕ → ℕ → ℕ → UploadSession → UploadSession
mark_part_completed now part_number size s =
    let t =
      if not (includes s.completed_parts part_number)
      then record s {
        completed_parts = sort (s.completed_parts ++ part_number ∷ []);
        uploaded_bytes = s.uploaded_bytes + size;
      }
      else s in
    record t { status = started t.status; updated_at = now }

-- `Math.round` of the percentage, computed exactly where the source divides floating-point numbers.
unfoldable pub get_progress : UploadSession → ℕ
get_progress s =
    if s.total_size == 0 then 100 else (200 * s.uploaded_bytes + s.total_size) / (2 * s.total_size)

-- The loop of `getNextPartNumber`, with the rounds that are left and the part number `i`.
unfoldable pub next_part_from : ℕ → ℕ → List ℕ → Option ℕ
next_part_from zero i done = none
next_part_from (suc n) i done =
    let rest = next_part_from n (i + 1) done in if not (includes done i) then some i else rest

unfoldable pub get_next_part_number : UploadSession → Option ℕ
get_next_part_number s = next_part_from s.total_parts 1 s.completed_parts

unfoldable pub pending_from : ℕ → ℕ → List ℕ → List ℕ
pending_from zero i done = []
pending_from (suc n) i done =
    let rest = pending_from n (i + 1) done in if not (includes done i) then i ∷ rest else rest

unfoldable pub get_pending_parts : UploadSession → List ℕ
get_pending_parts s = pending_from s.total_parts 1 s.completed_parts

unfoldable pub begin_completing : ℕ → String → UploadSession → Result SessionError UploadSession
unfolding all_parts_completed
begin_completing now file_id s =
    if not (all_parts_completed s)
    then err parts_incomplete
    else ok (record s { status = completing; file_id = some file_id; updated_at = now })

unfoldable pub complete : ℕ → String → UploadSession → Result SessionError UploadSession
unfolding all_parts_completed
complete now file_id s =
    if not (all_parts_completed s)
    then err parts_incomplete
    else ok (record s { status = completed; file_id = some file_id; updated_at = now })

unfoldable pub abort : ℕ → UploadSession → Result SessionError UploadSession
unfolding is_completed is_completing
abort now s =
    if is_completed s || is_completing s
    then err not_abortable
    else ok (record s { status = aborted; updated_at = now })

unfoldable pub expire : ℕ → UploadSession → Result SessionError UploadSession
unfolding is_completed is_completing
expire now s =
    if is_completed s || is_completing s
    then err not_expirable
    else ok (record s { status = expired; updated_at = now })
