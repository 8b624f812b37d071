-- ===== src/Upload/Abort/Kept.antt =====
-- What `abort` and `getStatus` of src/business/file/multipart-upload.service.ts write to the sessions.
use file_system_spike.Base.{
  ℕ, ◌≡◌, inl, inr, refl, String, Bool-cases, ◌||◌, ◌&&◌, Option, none, some, Result, ok, err,
  arith,
}
use file_system_spike.Base.Dict.{lookup}
use file_system_spike.Upload.Session.{
  UploadSession, SessionError, is_active, is_completed, is_completing, is_aborted, is_expired,
  expire, abort,
}
use file_system_spike.Upload.Session.Life.{IsMerged}
use file_system_spike.Upload.PartUpload.{Tables, save_session}
use file_system_spike.Upload.PartUpload.Kept.{Writes, saves, expire_unmerged}
use file_system_spike.Upload.Abort.{
  abort_upload, abort_found, aborted_session, get_status, status_found, status_after_expiry,
}

abort_unmerged :
    (now : ℕ) (s s' : UploadSession)
    → abort now s ≡ ok s'
    → (s'.id ≡ s.id) × (IsMerged s.status → IsMerged s'.status)
unfolding abort
abort_unmerged now s s' e = ground arith

module _ (now : ℕ) (k : String) (t : Tables) where
  aborted-Writes :
      (s : UploadSession) (r : Result SessionError UploadSession)
      → lookup k t.sessions ≡ some s
      → abort now s ≡ r
      → Writes t (aborted_session s r t).0
  unfolding aborted_session save_session
  aborted-Writes s (err x) l e = inl refl
  aborted-Writes s (ok s') l e = saves k s s' t _ l (abort_unmerged now s s' e) refl

  abort_found-Writes :
      (o : Option UploadSession) → lookup k t.sessions ≡ o → Writes t (abort_found now o t).0
  unfolding abort_found
  abort_found-Writes none l = inl refl
  abort_found-Writes (some s) l = elim (Bool-cases (is_completed s || is_completing s)) [
    | inl merged ↦ rw merged (inl refl)
    | inr unmerged ↦ elim (Bool-cases (is_aborted s || is_expired now s)) [
      | inl ended ↦ rw (unmerged, ended) (inl refl)
      | inr live ↦ rw (unmerged, live) (aborted-Writes s (abort now s) l refl)
    ]
  ]

  pub abort_upload-Writes : Writes t (abort_upload now k t).0
  unfolding abort_upload
  abort_upload-Writes = abort_found-Writes (lookup k t.sessions) refl

  status-Writes :
      (s : UploadSession) (r : Result SessionError UploadSession)
      → lookup k t.sessions ≡ some s
      → expire now s ≡ r
      → Writes t (status_after_expiry r t).0
  unfolding status_after_expiry save_session
  status-Writes s (err x) l e = inl refl
  status-Writes s (ok s') l e = saves k s s' t _ l (expire_unmerged now s s' e) refl

  status_found-Writes :
      (o : Option UploadSession) → lookup k t.sessions ≡ o → Writes t (status_found now o t).0
  unfolding status_found
  status_found-Writes none l = inl refl
  status_found-Writes (some s) l = elim (Bool-cases (is_active now s && is_expired now s)) [
    | inl late ↦ rw late (status-Writes s (expire now s) l refl)
    | inr known ↦ rw known (inl refl)
  ]

  pub get_status-Writes : Writes t (get_status now k t).0
  unfolding get_status
  get_status-Writes = status_found-Writes (lookup k t.sessions) refl
