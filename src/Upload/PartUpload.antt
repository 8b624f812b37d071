-- ===== src/Upload/PartUpload.antt =====
-- `uploadPart` and `uploadPartStream` of src/business/file/multipart-upload.service.ts. Each is two
-- steps: the session is read and tested, and later, when the data have come, it is written back. The
-- MD5 hash and the length of the data are arguments.
pub mod Overlap
pub mod Kept
use Prim.Native.String
use file_system_spike.Base.{
  ℕ, ◌+◌, ◌-◌, String, str_eq, Bool, true, false, not, ◌&&◌, ◌||◌, Option, none, some, List, [],
  ◌∷◌, ◌==◌, ltb, if◌then◌else◌, Result, ok, err, or_else,
}
use file_system_spike.Base.Dict.{lookup, set}
use file_system_spike.Base.Text.{decimal, pad_start}
use file_system_spike.Upload.Session.{
  UploadSession, SessionError, is_completed, is_aborted, is_expired, expire, can_upload_part,
  includes, mark_part_completed, get_progress,
}
use file_system_spike.Upload.Part.{UploadPart, create}
use file_system_spike.Upload.Part

pub record Hashing : Type 0 where
  pub md5 : String → String
  pub byte_length : String → ℕ

pub record Tables : Type 0 where
  pub sessions : List (String × UploadSession)
  pub parts : List UploadPart
  pub objects : List (String × String)

pub data UploadError : Type 0 where
  session_not_found session_not_active session_expired invalid_part_number : UploadError
  entity_error : SessionError → UploadError

pub record UploadPartResponse : Type 0 where
  pub part_number : ℕ
  pub etag : String
  pub size : ℕ
  pub session_progress : ℕ

unfoldable pub digit_text : ℕ → String
digit_text n =
    if n == 0
    then "0"
    else if n == 1
    then "1"
    else if n == 2
    then "2"
    else if n == 3
    then "3"
    else if n == 4
    then "4"
    else if n == 5
    then "5"
    else if n == 6
    then "6"
    else if n == 7
    then "7"
    else if n == 8
    then "8"
    else "9"

unfoldable pub digits_text : List ℕ → String
digits_text [] = ""
digits_text (c ∷ s) = String.◌++◌ (digit_text (c - b'0')) (digits_text s)

unfoldable pub build_part_object_key : String → ℕ → String
unfolding digit_text digits_text
build_part_object_key session_id n =
    String.◌++◌ "multipart/"
      (String.◌++◌ session_id (String.◌++◌ "/part_" (digits_text (pad_start 5 (decimal n)))))

unfoldable pub save_session : UploadSession → Tables → Tables
save_session s t = record t { sessions = set s.id s t.sessions }

unfoldable pub find_part : String → ℕ → List UploadPart → Option UploadPart
find_part session_id n [] = none
find_part session_id n (p ∷ ps) =
    let rest = find_part session_id n ps in
    if str_eq p.session_id session_id && p.part_number == n then some p else rest

-- The row with the id of the part, or a new one.
unfoldable pub put_part : UploadPart → List UploadPart → List UploadPart
put_part p [] = p ∷ []
put_part p (q ∷ ps) = let rest = put_part p ps in if str_eq q.id p.id then p ∷ ps else q ∷ rest

unfoldable pub expired_session :
    UploadSession → Tables → Result SessionError UploadSession → Tables × UploadError
expired_session s t (ok s') = (save_session s' t, session_expired)
expired_session s t (err e) = (t, entity_error e)

abbrev pub failed {ℓ} : {A : Type ℓ} → Tables × UploadError → Tables × Result UploadError A
failed (t, e) = (t, err e)

open_stream_found :
    ℕ → ℕ → Option UploadSession → Tables → Tables × Result UploadError UploadSession
unfolding expired_session
open_stream_found now n none t = (t, err session_not_found)
open_stream_found now n (some s) t =
    if is_completed s || is_aborted s
    then (t, err session_not_active)
    else if is_expired now s
    then failed (expired_session s t (expire now s))
    else if ltb n 1 || ltb s.total_parts n
    then (t, err invalid_part_number)
    else (t, ok s)

-- The first half of `uploadPartStream`, before the semaphore.
unfoldable pub open_stream : ℕ → String → ℕ → Tables → Tables × Result UploadError UploadSession
unfolding open_stream_found
open_stream now session_id n t = open_stream_found now n (lookup session_id t.sessions) t

-- A part that is there already is answered with what it is.
pub data Opened : Type 0 where
  proceed : UploadSession → Opened
  already : UploadPartResponse → Opened

existing_part : UploadSession → Option UploadPart → Opened
existing_part s none = proceed s
existing_part s (some p) =
    if Part.is_completed p
    then already (record {
      part_number = p.part_number;
      etag = or_else p.etag "";
      size = p.size;
      session_progress = get_progress s;
    })
    else proceed s

open_part_found : ℕ → ℕ → Option UploadSession → Tables → Tables × Result UploadError Opened
unfolding expired_session existing_part
open_part_found now n none t = (t, err session_not_found)
open_part_found now n (some s) t =
    if is_expired now s
    then failed (expired_session s t (expire now s))
    else if not (can_upload_part now n s)
    then (t, err invalid_part_number)
    else if includes s.completed_parts n
    then (t, ok (existing_part s (find_part s.id n t.parts)))
    else (t, ok (proceed s))

-- The first half of `uploadPart`.
unfoldable pub open_part : ℕ → String → ℕ → Tables → Tables × Result UploadError Opened
unfolding open_part_found
open_part now session_id n t = open_part_found now n (lookup session_id t.sessions) t

part_to_save : ℕ → String → Hashing → UploadSession → ℕ → String → Option UploadPart → UploadPart
part_to_save now uuid h s n data_text none =
    create now uuid s.id n (h.byte_length data_text) (some (build_part_object_key s.id n))
part_to_save now uuid h s n data_text (some p) = p

-- The second half of both: the object, the row of the part, and the session as it was read, with the
-- part marked.
unfoldable pub write_part :
    ℕ → String → Hashing → UploadSession → ℕ → String → Tables → Tables × UploadPartResponse
unfolding part_to_save
write_part now uuid h s n data_text t =
    let key = build_part_object_key s.id n in
    let etag = h.md5 data_text in
    let part =
      Part.complete now etag key
        (part_to_save now uuid h s n data_text (find_part s.id n t.parts)) in
    let s' = mark_part_completed now n (h.byte_length data_text) s in
    (
      save_session s'
          (record t { parts = put_part part t.parts; objects = set key data_text t.objects }),
      record {
        part_number = n;
        etag = etag;
        size = h.byte_length data_text;
        session_progress = get_progress s';
      },
    )

stream_opened :
    ℕ
    → String
    → Hashing
    → ℕ
    → String
    → Tables × Result UploadError UploadSession
    → Tables × Result UploadError UploadPartResponse
stream_opened later uuid h n data_text (t, err e) = (t, err e)
stream_opened later uuid h n data_text (t, ok s) =
    let (t', r) = write_part later uuid h s n data_text t in (t', ok r)

-- The whole of `uploadPartStream`, where nobody else writes between its two halves.
unfoldable pub upload_part_stream :
    ℕ
    → ℕ
    → String
    → Hashing
    → String
    → ℕ
    → String
    → Tables
    → Tables × Result UploadError UploadPartResponse
unfolding stream_opened
upload_part_stream now later uuid h session_id n data_text t =
    stream_opened later uuid h n data_text (open_stream now session_id n t)

part_opened :
    ℕ
    → String
    → Hashing
    → ℕ
    → String
    → Tables × Result UploadError Opened
    → Tables × Result UploadError UploadPartResponse
part_opened later uuid h n data_text (t, err e) = (t, err e)
part_opened later uuid h n data_text (t, ok (already r)) = (t, ok r)
part_opened later uuid h n data_text (t, ok (proceed s)) =
    let (t', r) = write_part later uuid h s n data_text t in (t', ok r)

-- The whole of `uploadPart`, where nobody else writes between its two halves.
unfoldable pub upload_part :
    ℕ
    → ℕ
    → String
    → Hashing
    → String
    → ℕ
    → String
    → Tables
    → Tables × Result UploadError UploadPartResponse
unfolding part_opened
upload_part now later uuid h session_id n data_text t =
    part_opened later uuid h n data_text (open_part now session_id n t)
