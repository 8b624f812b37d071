-- ===== src/Upload/Complete/Calls.antt =====
-- The calls of src/business/file/multipart-upload.service.ts one after the other, and what each of them
-- writes to the sessions.
use file_system_spike.Base.{
  ℕ, ◌≡◌, inl, inr, refl, ap, String, Bool, Bool-cases, if◌then◌else◌, true, false, ◌||◌, ◌==◌,
  length, Option, none, some, List, [], ◌∷◌, Result, ok, err, arith,
}
use file_system_spike.Base.Dict.{lookup}
use file_system_spike.Files.NameCheck.{exists_by_name_in_folder}
use file_system_spike.Files.StorageObject.{UtcDate}
use file_system_spike.Upload.Session.{
  UploadSession, SessionError, is_completed, is_completing, is_aborted, is_expired, expire,
  all_parts_completed, begin_completing,
}
use file_system_spike.Upload.Session.Life.{IsMerged}
use file_system_spike.Upload.Part.{UploadPart}
use file_system_spike.Upload.PartUpload.{Hashing, upload_part_stream, upload_part}
use file_system_spike.Upload.PartUpload.Kept.{
  Kept, Writes, Writes-Kept, saves, expire_unmerged, upload_part-Writes, upload_part_stream-Writes,
}
use file_system_spike.Upload.Abort.{abort_upload, get_status}
use file_system_spike.Upload.Abort.Kept.{abort_upload-Writes, get_status-Writes}
use file_system_spike.Upload.Complete.{
  Store, CompleteError, failing, transaction_failed, Ready, ready, expired_first, parts_found,
  check_found, completed_parts_of, check_complete, Request, enqueue_job, written, commit_session,
  commit_complete, complete_checked, complete_upload,
}

pub enqueue_job-uploads :
    (now : ℕ) (q : Request) (r : Ready) (t : Store) → (enqueue_job now q r t).uploads ≡ t.uploads
unfolding enqueue_job
enqueue_job-uploads now q r t = ground arith

begin-IsMerged :
    (now : ℕ) (f : String) (s s' : UploadSession)
    → begin_completing now f s ≡ ok s'
    → (s'.id ≡ s.id) × (IsMerged s.status → IsMerged s'.status)
unfolding begin_completing
begin-IsMerged now f s s' e = ground arith

module _ (later : ℕ) (q : Request) (r : Ready) (k : String) (t : Store)
    (found : lookup k t.uploads.sessions ≡ some r.session) where
  session-Writes :
      (x : Result SessionError UploadSession)
      → begin_completing later q.file_id r.session ≡ x
      → Writes t.uploads (commit_session later q r t x).0.uploads
  unfolding commit_session written
  session-Writes (err e) h = inl refl
  session-Writes (ok s') h =
      saves k r.session s' t.uploads _ found (begin-IsMerged later q.file_id r.session s' h)
        (ap (λ u. u.sessions) (enqueue_job-uploads later q r (written later q r s' t)))

  commit-Writes : Writes t.uploads (commit_complete later q r t).0.uploads
  unfolding commit_complete
  commit-Writes = by_commit q.commits
    where
      by_commit :
          (b : Bool)
          → Writes t.uploads
              (if b
                then commit_session later q r t (begin_completing later q.file_id r.session)
                else (t, err transaction_failed)).0.uploads
      by_commit true = session-Writes (begin_completing later q.file_id r.session) refl
      by_commit false = inl refl

module _ (sha256 : String → String) (now later : ℕ) (d : UtcDate) (q : Request) (k : String)
    (t : Store) where
  expired-Writes :
      (s : UploadSession) (x : Result SessionError UploadSession)
      → lookup k t.uploads.sessions ≡ some s
      → expire now s ≡ x
      → Writes t.uploads (expired_first t s x).0.uploads
  unfolding expired_first
  expired-Writes s (err e) l h = inl refl
  expired-Writes s (ok s') l h = saves k s s' t.uploads _ l (expire_unmerged now s s' h) refl

  failing-Writes :
      (x : Store × CompleteError)
      → Writes t.uploads x.0.uploads
      → Writes t.uploads (complete_checked later q (failing {A = Ready} x)).0.uploads
  unfolding complete_checked
  failing-Writes (u, e) h = h

  parts-Writes :
      (s : UploadSession) (ps : List UploadPart)
      → lookup k t.uploads.sessions ≡ some s
      → Writes t.uploads (complete_checked later q (parts_found sha256 now d s ps t)).0.uploads
  unfolding parts_found complete_checked ready
  parts-Writes s ps l = elim (Bool-cases (length ps == s.total_parts)) [
    | inr wrong ↦ rw wrong (inl refl)
    | inl right ↦
        elim (Bool-cases (
          exists_by_name_in_folder s.folder_id s.file_name s.mime_type none (some d.time)
            t.files)) [
              | inl taken ↦ rw (right, taken) (inl refl)
              | inr free ↦ rw (right, free) (commit-Writes later q (ready sha256 d s ps t) k t l)
            ]
  ]

  found-Writes :
      (o : Option UploadSession)
      → lookup k t.uploads.sessions ≡ o
      → Writes t.uploads (complete_checked later q (check_found sha256 now d o t)).0.uploads
  unfolding check_found complete_checked
  found-Writes none l = inl refl
  found-Writes (some s) l = elim (Bool-cases (is_completed s || is_completing s)) [
    | inl merged ↦ rw merged (inl refl)
    | inr unmerged ↦ elim (Bool-cases (is_aborted s)) [
      | inl aborted ↦ rw (unmerged, aborted) (inl refl)
      | inr kept ↦ elim (Bool-cases (is_expired now s)) [
        | inl late ↦
            rw (unmerged, kept, late)
              (failing-Writes (expired_first t s (expire now s))
                (expired-Writes s (expire now s) l refl))
        | inr in_time ↦ elim (Bool-cases (all_parts_completed s)) [
          | inr missing ↦ rw (unmerged, kept, in_time, missing) (inl refl)
          | inl full ↦
              rw (unmerged, kept, in_time, full)
                (parts-Writes s (completed_parts_of s.id t.uploads.parts) l)
        ]
      ]
    ]
  ]

  complete_upload-Writes : Writes t.uploads (complete_upload sha256 now later d q k t).0.uploads
  unfolding complete_upload check_complete
  complete_upload-Writes = found-Writes (lookup k t.uploads.sessions) refl

-- A call that comes after the commit and that no other call disturbs, for whatever session.
pub data LaterCall : Type 0 where
  streams sends : ℕ → ℕ → String → Hashing → String → ℕ → String → LaterCall
  completes : ℕ → ℕ → UtcDate → Request → String → LaterCall
  aborts asks : ℕ → String → LaterCall

module _ (sha256 : String → String) where
  pub call : LaterCall → Store → Store
  call (streams now later uuid h k n data_text) t = record t {
    uploads = (upload_part_stream now later uuid h k n data_text t.uploads).0;
  }
  call (sends now later uuid h k n data_text) t = record t {
    uploads = (upload_part now later uuid h k n data_text t.uploads).0;
  }
  call (completes now later d q k) t = (complete_upload sha256 now later d q k t).0
  call (aborts now k) t = record t { uploads = (abort_upload now k t.uploads).0 }
  call (asks now k) t = record t { uploads = (get_status now k t.uploads).0 }

  unfoldable pub calls_after : List LaterCall → Store → Store
  calls_after [] t = t
  calls_after (c ∷ cs) t = calls_after cs (call c t)

  call-Writes : (c : LaterCall) (t : Store) → Writes t.uploads (call c t).uploads
  unfolding call
  call-Writes (streams now later uuid h k n data_text) t =
      upload_part_stream-Writes now later uuid h k n data_text t.uploads
  call-Writes (sends now later uuid h k n data_text) t =
      upload_part-Writes now later uuid h k n data_text t.uploads
  call-Writes (completes now later d q k) t = complete_upload-Writes sha256 now later d q k t
  call-Writes (aborts now k) t = abort_upload-Writes now k t.uploads
  call-Writes (asks now k) t = get_status-Writes now k t.uploads

  pub calls-Kept :
      (id : String) (cs : List LaterCall) (t : Store)
      → Kept id t.uploads
      → Kept id (calls_after cs t).uploads
  unfolding calls_after
  calls-Kept id [] t h = h
  calls-Kept id (c ∷ cs) t h =
      calls-Kept id cs (call c t) (Writes-Kept id t.uploads (call c t).uploads (call-Writes c t) h)
