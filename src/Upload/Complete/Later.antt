-- ===== src/Upload/Complete/Later.antt =====
-- What later calls of src/business/file/multipart-upload.service.ts find of an upload that `complete` has
-- committed: calls that run undisturbed, and a stream that was opened before the commit.
use file_system_spike.Base.{
  ℕ, ◌≡◌, ◌⊎◌, inl, inr, refl, ◌≢◌, sym, ◌∙◌, ap, subst, String, str_eq_iff, Bool-cases, true,
  false, ◌||◌, some, some_inj, List, Result, ok, err, arith,
}
use file_system_spike.Base.Dict.{lookup, lookup-set}
use file_system_spike.Files.StorageObject.{UtcDate}
use file_system_spike.Upload.Session.{
  UploadSession, SessionError, init, uploading, is_completed, is_completing, is_aborted, is_expired,
  expire, all_parts_completed, mark_part_completed,
}
use file_system_spike.Upload.Part.{UploadPart}
use file_system_spike.Upload.PartUpload.{Hashing, save_session, open_stream, write_part}
use file_system_spike.Upload.PartUpload.Overlap.{
  open_stream-read, open_stream-status, written_session,
}
use file_system_spike.Upload.PartUpload.Kept.{OwnIds, MergedAt, Kept, set-OwnIds}
use file_system_spike.Upload.Complete.{
  Store, failing, already_completed, Ready, expired_first, parts_found, check_found,
  completed_parts_of, check_complete, Request, written, commit_complete,
}
use file_system_spike.Upload.Complete.Once.{check_complete-Checked, merging, commit-fst}
use file_system_spike.Upload.Complete.Calls.{
  LaterCall, enqueue_job-uploads, calls_after, calls-Kept,
}

merged_is_refused :
    (sha256 : String → String) (now : ℕ) (d : UtcDate) (id : String) (t : Store)
    → MergedAt id t.uploads
    → check_complete sha256 now d id t ≡ (t, err already_completed)
unfolding check_complete check_found is_completed is_completing
merged_is_refused sha256 now d id t (s, l, inl e) = rw l (rw e refl)
merged_is_refused sha256 now d id t (s, l, inr e) = rw l (rw e refl)

mark_reopens :
    (now n size : ℕ) (s : UploadSession)
    → (s.status ≡ init) ⊎ (s.status ≡ uploading)
    → let x = mark_part_completed now n size s in (x.status ≡ uploading) × (x.file_id ≡ s.file_id)
unfolding mark_part_completed
mark_reopens now n size s h = ground arith

module _ (sha256 : String → String) (now : ℕ) (d : UtcDate) (id : String) (t : Store) where
  failing-is_other :
      (s : UploadSession) (x : Result SessionError UploadSession)
      → (failing {A = Ready} (expired_first t s x)).1 ≢ err already_completed
  unfolding expired_first
  failing-is_other s (ok s') h = cc h
  failing-is_other s (err e) h = cc h

  parts-is_other :
      (s : UploadSession) (ps : List UploadPart)
      → (parts_found sha256 now d s ps t).1 ≢ err already_completed
  unfolding parts_found
  parts-is_other s ps h = ground (arith, h)

  not_ended :
      (s : UploadSession)
      → s.status ≡ uploading
      → ((is_completed s || is_completing s) ≡ false) × (is_aborted s ≡ false)
  unfolding is_completed is_completing is_aborted
  not_ended s u = rw u (refl, refl)

  uploading_is_checked :
      (s : UploadSession)
      → lookup id t.uploads.sessions ≡ some s
      → s.status ≡ uploading
      → (check_complete sha256 now d id t).1 ≢ err already_completed
  unfolding check_complete check_found
  uploading_is_checked s l u h =
      let (unmerged, kept) = not_ended s u in
      let g = rw (unmerged, kept) at (rw l at h) in
      elim (Bool-cases (is_expired now s)) [
        | inl late ↦ failing-is_other s (expire now s) (rw late at g)
        | inr in_time ↦ elim (Bool-cases (all_parts_completed s)) [
          | inl full ↦
              parts-is_other s (completed_parts_of s.id t.uploads.parts) (rw (in_time, full) at g)
          | inr missing ↦ cc (rw (in_time, missing) at g)
        ]
      ]

module _ (sha256 : String → String) (now : ℕ) (d : UtcDate) (id : String) (t t' : Store) (r : Ready)
    (checked : check_complete sha256 now d id t ≡ (t', ok r)) where
  commit-uploads :
      (later : ℕ) (q : Request) (u : Store)
      → q.commits ≡ true
      → (commit_complete later q r u).0.uploads ≡ save_session (merging later q r) u.uploads
  unfolding written
  commit-uploads later q u c =
      let full = (check_complete-Checked sha256 now d id t t' r checked).complete_parts in
      rw (commit-fst later q r u full c)
        (enqueue_job-uploads later q r (written later q r (merging later q r) u))

  commit-MergedAt :
      (later : ℕ) (q : Request) (u : Store)
      → q.commits ≡ true
      → r.session.id ≡ id
      → MergedAt id (commit_complete later q r u).0.uploads
  unfolding save_session
  commit-MergedAt later q u c own =
      let s = merging later q r in
      (
        s,
        rw (commit-uploads later q u c)
            (ground (arith, own, lookup-set s.id id s u.uploads.sessions, str_eq_iff s.id id)),
        inl refl,
      )

  commit-Kept :
      (later : ℕ) (q : Request) (u : Store)
      → q.commits ≡ true
      → r.session.id ≡ id
      → OwnIds u.uploads
      → Kept id (commit_complete later q r u).0.uploads
  unfolding save_session
  commit-Kept later q u c own ids = (
    set-OwnIds (merging later q r) u.uploads (commit_complete later q r u).0.uploads
        (ap (λ x. x.sessions) (commit-uploads later q u c)) ids,
    commit-MergedAt later q u c own,
  )

  -- After a `complete` that passed its checks and whose transaction committed, where every session is stored
  -- under its own id, and after any further calls of `uploadPartStream`, `uploadPart`, `complete`,
  -- `abort` and `getStatus` for any sessions, each of which begins after the commit and runs
  -- undisturbed, a `complete` for the session is told that it is completed, and changes nothing. Nothing
  -- is said of a stream or an upload that was opened before the commit.
  pub completed_once :
      (later again : ℕ) (e : UtcDate) (q : Request) (u : Store) (calls : List LaterCall)
      → q.commits ≡ true
      → r.session.id ≡ id
      → OwnIds u.uploads
      → let v = calls_after sha256 calls (commit_complete later q r u).0 in
        check_complete sha256 again e id v ≡ (v, err already_completed)
  completed_once later again e q u calls c own ids =
      let kept =
        calls-Kept sha256 id calls (commit_complete later q r u).0
          (commit-Kept later q u c own ids) in
      merged_is_refused sha256 again e id (calls_after sha256 calls (commit_complete later q r u).0)
        kept.1

  -- A stream of the session that was opened before a `complete` read it, and that ends after the commit,
  -- undoes the merge in the stored session: it is merged after the commit, but then it is uploading again
  -- with the file id from before, and a further `complete` is no longer told that the session is
  -- completed. Here the `complete` passed its checks at the state in which the stream was opened, its
  -- transaction committed, and the session is stored under its own id.
  pub late_stream_reopens :
      (opened later late again n : ℕ) (uuid data_text : String) (h : Hashing) (e : UtcDate)
      (q : Request) (u : Store) {s : UploadSession}
      → (open_stream opened id n t.uploads).1 ≡ ok s
      → q.commits ≡ true
      → r.session.id ≡ id
      → let w = (commit_complete later q r u).0 in
        let v = record w { uploads = (write_part late uuid h s n data_text w.uploads).0 } in
        MergedAt id w.uploads
        × ((x : UploadSession) × (lookup id v.uploads.sessions ≡ some x)
            × (x.status ≡ uploading)
            × (x.file_id ≡ r.session.file_id))
        × ((check_complete sha256 again e id v).1 ≢ err already_completed)
  late_stream_reopens opened later late again n uuid data_text h e q u {s} o c own =
      let w = (commit_complete later q r u).0 in
      let v : Store = record w { uploads = (write_part late uuid h s n data_text w.uploads).0 } in
      let seen = check_complete-Checked sha256 now d id t t' r checked in
      let same : s ≡ r.session =
        some_inj (sym (open_stream-read opened n id t.uploads o).0 ∙ seen.found) in
      let x = mark_part_completed late n (h.byte_length data_text) s in
      let reopened =
        mark_reopens late n (h.byte_length data_text) s
          (open_stream-status opened n id t.uploads o (rw same seen.unmerged)) in
      let stored : lookup id v.uploads.sessions ≡ some x =
        subst (λ k. lookup k v.uploads.sessions ≡ some x) (ap UploadSession.id same ∙ own)
          (written_session late uuid h s n data_text w.uploads) in
      (
        commit-MergedAt later q u c own,
        (x, stored, reopened.0, reopened.1 ∙ ap UploadSession.file_id same),
        uploading_is_checked sha256 again e id v x stored reopened.0,
      )
