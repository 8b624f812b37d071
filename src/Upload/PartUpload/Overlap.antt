-- ===== src/Upload/PartUpload/Overlap.antt =====
-- Uploads of parts that overlap in src/business/file/multipart-upload.service.ts.
use file_system_spike.Base.{
  ℕ, ◌≤◌, ◌≡◌, ◌⊎◌, ◌≢◌, String, str_eq_iff, true, false, Option, none, some, arith, ok,
}
use file_system_spike.Base.Dict.{lookup, lookup-set}
use file_system_spike.Upload.Session.{
  UploadSession, init, uploading, is_completing, is_completed, is_aborted, is_expired, includes,
  mark_part_completed,
}
use file_system_spike.Upload.Session.Parts.{HasParts, mark_part_completed-HasParts}
use file_system_spike.Upload.PartUpload.{
  Hashing, Tables, save_session, open_stream, open_stream_found, write_part, expired_session,
}

-- What a stream that is opened has read: the stored session, and a part number in its range.
open_stream_found-read :
    (now n : ℕ) (o : Option UploadSession) (t : Tables) {s : UploadSession}
    → (open_stream_found now n o t).1 ≡ ok s
    → (o ≡ some s) × (1 ≤ n) × (n ≤ s.total_parts)
unfolding open_stream_found expired_session
open_stream_found-read now n none t e = cc
open_stream_found-read now n (some q) t e = ground arith

pub open_stream-read :
    (now n : ℕ) (session_id : String) (t : Tables) {s : UploadSession}
    → (open_stream now session_id n t).1 ≡ ok s
    → (lookup session_id t.sessions ≡ some s) × (1 ≤ n) × (n ≤ s.total_parts)
unfolding open_stream
open_stream-read now n session_id t e =
    open_stream_found-read now n (lookup session_id t.sessions) t e

open_found-status :
    (now n : ℕ) (o : Option UploadSession) (t : Tables) {s : UploadSession}
    → (open_stream_found now n o t).1 ≡ ok s
    → is_completing s ≡ false
    → (s.status ≡ init) ⊎ (s.status ≡ uploading)
unfolding open_stream_found expired_session is_completing is_completed is_aborted is_expired
open_found-status now n none t e m = absurd (cc e)
open_found-status now n (some q) t e m = ground (arith, m)

-- A stream opens on a session that is not completing only if it is new or uploading.
pub open_stream-status :
    (now n : ℕ) (session_id : String) (t : Tables) {s : UploadSession}
    → (open_stream now session_id n t).1 ≡ ok s
    → is_completing s ≡ false
    → (s.status ≡ init) ⊎ (s.status ≡ uploading)
unfolding open_stream
open_stream-status now n session_id t e m =
    open_found-status now n (lookup session_id t.sessions) t e m

mark_part_completed-id :
    (now n size : ℕ) (s : UploadSession) → (mark_part_completed now n size s).id ≡ s.id
unfolding mark_part_completed
mark_part_completed-id now n size s = ground arith

pub written_session :
    (now : ℕ) (uuid : String) (h : Hashing) (s : UploadSession) (n : ℕ) (data_text : String)
    (t : Tables)
    → lookup s.id (write_part now uuid h s n data_text t).0.sessions
      ≡ some (mark_part_completed now n (h.byte_length data_text) s)
unfolding write_part save_session
written_session now uuid h s n data_text t =
    let s' = mark_part_completed now n (h.byte_length data_text) s in
    ground (
      arith,
      mark_part_completed-id now n (h.byte_length data_text) s,
      lookup-set s'.id s.id s' t.sessions,
      str_eq_iff s'.id s.id,
    )

-- Two streams of one session that overlap, so that both have read it before either writes it back,
-- lose a part: whichever part is written last is in the stored session, and the other one is not,
-- although its upload was answered with success.
pub overlapping_uploads_lose :
    (h : Hashing) (now now' later later' n m : ℕ) (uuid uuid' session_id data_n data_m : String)
    (t : Tables) {s s' : UploadSession}
    → (open_stream now session_id n t).1 ≡ ok s
    → (open_stream now' session_id m t).1 ≡ ok s'
    → HasParts s
    → includes s.completed_parts n ≡ false
    → n ≢ m
    → let t1 = (write_part later uuid h s n data_n t).0 in
      let t2 = (write_part later' uuid' h s' m data_m t1).0 in
      (r : UploadSession) × (lookup s.id t2.sessions ≡ some r)
      × (includes r.completed_parts m ≡ true)
      × (includes r.completed_parts n ≡ false)
overlapping_uploads_lose h now now' later later' n m uuid uuid' session_id data_n data_m t {s} {s'}
      e e' v new d =
    let (a, b, c) = open_stream-read now n session_id t e in
    let (a', b', c') = open_stream-read now' m session_id t e' in
    let same : s' ≡ s = ground (arith, a, a') in
    let t1 = (write_part later uuid h s n data_n t).0 in
    let marked =
      mark_part_completed-HasParts later' m (h.byte_length data_m) s v b' (rw same at c') in
    (
      mark_part_completed later' m (h.byte_length data_m) s,
      rw same (written_session later' uuid' h s m data_m t1),
      ground (arith, marked.1 m),
      ground (arith, marked.1 n, new, d),
    )

-- Two streams that do not overlap lose nothing: where the second is opened after the first has
-- written, the stored session has both parts in the end.
sequential_uploads_keep :
    (h : Hashing) (now now' later later' n m : ℕ) (uuid uuid' data_n data_m : String) (t : Tables)
    {s s' : UploadSession}
    → (open_stream now s.id n t).1 ≡ ok s
    → HasParts s
    → (open_stream now' s.id m (write_part later uuid h s n data_n t).0).1 ≡ ok s'
    → let t1 = (write_part later uuid h s n data_n t).0 in
      (r : UploadSession) × (lookup s'.id (write_part later' uuid' h s' m data_m t1).0.sessions
        ≡ some r)
      × (includes r.completed_parts n ≡ true)
      × (includes r.completed_parts m ≡ true)
sequential_uploads_keep h now now' later later' n m uuid uuid' data_n data_m t {s} {s'} e v e' =
    let t1 = (write_part later uuid h s n data_n t).0 in
    let first = mark_part_completed later n (h.byte_length data_n) s in
    let (a, b, c) = open_stream-read now n s.id t e in
    let (a', b', c') = open_stream-read now' m s.id t1 e' in
    let same : s' ≡ first = ground (arith, a', written_session later uuid h s n data_n t) in
    let one = mark_part_completed-HasParts later n (h.byte_length data_n) s v b c in
    let two =
      mark_part_completed-HasParts later' m (h.byte_length data_m) first one.0 b' (rw same at c') in
    rw same (
      mark_part_completed later' m (h.byte_length data_m) first,
      written_session later' uuid' h first m data_m t1,
      ground (arith, two.1 n, one.1 n),
      ground (arith, two.1 m),
    )
