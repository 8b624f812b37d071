-- ===== src/Upload/Abort/Cleanup.antt =====
-- What `abort` and `getStatus` of src/business/file/multipart-upload.service.ts leave behind.
use file_system_spike.Base.{
  ℕ, ◌≡◌, ◌⊎◌, refl, sym, inl, inr, String, str_eq, str_eq_iff, Bool, true, false, ◌||◌, ◌&&◌,
  Option, none, some, List, [], ◌∷◌, if◌then◌else◌, Result, ok, err, Bool-cases, subst, arith,
}
use file_system_spike.Base.Dict.{lookup, delete, lookup-set, lookup-delete, has}
use file_system_spike.Upload.Session.{
  UploadSession, aborted, is_active, is_completed, is_completing, is_aborted, is_expired, abort,
}
use file_system_spike.Upload.Part.{UploadPart}
use file_system_spike.Upload.PartUpload.{Tables, save_session}
use file_system_spike.Upload.Abort.{
  AbortError, AbortMessage, SessionStatusResponse, session_not_found, Aborted, already_ended,
  aborted_now, of_session, without_session, object_keys, aborted_session, abort_found, abort_upload,
  delete_part_files, in_directory, without_directory, clean_up, status_of, status_found, get_status,
}

abbrev pub reported : Option UploadSession → Result AbortError SessionStatusResponse
reported none = err session_not_found
reported (some s) = ok (status_of s)

active_is_not_expired :
    (now : ℕ) (s : UploadSession) → (is_active now s && is_expired now s) ≡ false
unfolding is_active
active_is_not_expired now s = ground arith

status_found-reads :
    (now : ℕ) (o : Option UploadSession) (t : Tables) → status_found now o t ≡ (t, reported o)
unfolding status_found
status_found-reads now none t = refl
status_found-reads now (some s) t = rw (active_is_not_expired now s) refl

-- `getStatus` never writes: an active session is not expired, so that its test for one that is both
-- never holds, and a session past its time is still answered with the status that it had.
get_status_reads :
    (now : ℕ) (session_id : String) (t : Tables)
    → get_status now session_id t ≡ (t, reported (lookup session_id t.sessions))
unfolding get_status
get_status_reads now session_id t = status_found-reads now (lookup session_id t.sessions) t

without_session-none :
    (id : String) (ps : List UploadPart) → of_session id (without_session id ps) ≡ []
unfolding of_session without_session
without_session-none id [] = refl
without_session-none id (p ∷ ps) = ground (arith, without_session-none id ps)

delete_part_files-none :
    (deletes : String → Bool) (ks : List String) (k : String) (t : Tables)
    → lookup k t.objects ≡ none
    → lookup k (delete_part_files deletes ks t).objects ≡ none
unfolding delete_part_files
delete_part_files-none deletes [] k t h = h
delete_part_files-none deletes (j ∷ ks) k t h =
    delete_part_files-none deletes ks k _ (by_storage (deletes j))
  where
    by_storage :
        (b : Bool)
        → lookup k (if b then record t { objects = delete j t.objects } else t).objects ≡ none
    by_storage true = ground (arith, h, lookup-delete j k t.objects)
    by_storage false = h

-- A key that the storage deletes is gone after the clean-up of keys that have it.
delete_part_files-lookup :
    (deletes : String → Bool) (ks : List String) (k : String) (t : Tables)
    → has ks k ≡ true
    → deletes k ≡ true
    → lookup k (delete_part_files deletes ks t).objects ≡ none
unfolding delete_part_files has
delete_part_files-lookup deletes [] k t h d = cc
delete_part_files-lookup deletes (j ∷ ks) k t h d = elim (Bool-cases (str_eq j k)) [
  | inr other ↦ delete_part_files-lookup deletes ks k _ (rw other at h) d
  | inl same ↦
      let e : j ≡ k = (str_eq_iff j k).0 same in
      delete_part_files-none deletes ks k _
        (rw (e, d) (ground (arith, lookup-delete k k t.objects, str_eq_iff k k)))
]

without_directory-none :
    (session_id k : String) (os : List (String × String))
    → lookup k os ≡ none
    → lookup k (without_directory session_id os) ≡ none
unfolding lookup without_directory
without_directory-none session_id k [] h = refl
without_directory-none session_id k ((j, x) ∷ os) h =
    ground (arith, h, without_directory-none session_id k os)

without_directory-lookup :
    (session_id k : String) (os : List (String × String))
    → in_directory session_id k ≡ true
    → lookup k (without_directory session_id os) ≡ none
unfolding lookup without_directory
without_directory-lookup session_id k [] h = refl
without_directory-lookup session_id k ((j, x) ∷ os) h = elim (Bool-cases (str_eq j k)) [
  | inl same ↦
      let e = (str_eq_iff j k).0 same in
      rw (subst (λ i. in_directory session_id i ≡ true) (sym e) h)
        (without_directory-lookup session_id k os h)
  | inr other ↦ ground (arith, other, without_directory-lookup session_id k os h)
]

-- An object that the storage deletes as a part, or with the directory, is gone after the clean-up.
clean_up-lookup :
    (deletes : String → Bool) (removes : Bool) (session_id : String) (ks : List String) (k : String)
    (t : Tables)
    → ((has ks k ≡ true) × (deletes k ≡ true))
      ⊎ ((removes ≡ true) × (in_directory session_id k ≡ true))
    → lookup k (clean_up deletes removes session_id ks t).objects ≡ none
unfolding clean_up
clean_up-lookup deletes true session_id ks k t (inl h) =
    without_directory-none session_id k _ (delete_part_files-lookup deletes ks k t h.0 h.1)
clean_up-lookup deletes false session_id ks k t (inl h) =
    delete_part_files-lookup deletes ks k t h.0 h.1
clean_up-lookup deletes true session_id ks k t (inr h) = without_directory-lookup session_id k _ h.1
clean_up-lookup deletes false session_id ks k t (inr h) = absurd (cc h.0)

-- By its answer, what `abort` has done: the session is aborted, its parts have no rows, and the keys of
-- all their objects are to be cleaned up; in every other case nothing is written.
abbrev pub LeftBy : Tables → Tables → Aborted → AbortMessage → Type 0
LeftBy t t' a already_ended = t' ≡ t
LeftBy t t' a aborted_now =
    ((s : UploadSession) × (lookup a.session_id t'.sessions ≡ some s) × (s.status ≡ aborted))
    × (of_session a.session_id t'.parts ≡ [])
    × (a.cleanup ≡ object_keys (of_session a.session_id t.parts))
    × (t'.objects ≡ t.objects)

abbrev pub Left : Tables → Tables → Result AbortError Aborted → Type 0
Left t t' (err e) = t' ≡ t
Left t t' (ok a) = LeftBy t t' a a.message

abort_of_open :
    (now : ℕ) (s : UploadSession)
    → (is_completed s || is_completing s) ≡ false
    → abort now s ≡ ok (record s { status = aborted; updated_at = now })
unfolding abort is_completed is_completing
abort_of_open now s h = rw h

module _ (now : ℕ) (t : Tables) where
  abort_found-Left :
      (o : Option UploadSession) → Left t (abort_found now o t).0 (abort_found now o t).1
  unfolding abort_found aborted_session save_session
  abort_found-Left none = refl
  abort_found-Left (some s) = elim (Bool-cases (is_completed s || is_completing s)) [
    | inl merged ↦ rw merged refl
    | inr unmerged ↦ elim (Bool-cases (is_aborted s || is_expired now s)) [
      | inl ended ↦ rw unmerged (rw ended refl)
      | inr live ↦
          let s' : UploadSession = record s { status = aborted; updated_at = now } in
          rw unmerged (
            rw live (
              rw (abort_of_open now s unmerged) (
                (
                  s',
                  ground (arith, lookup-set s.id s.id s' t.sessions, str_eq_iff s.id s.id),
                  refl,
                ),
                without_session-none s.id t.parts,
                refl,
                refl,
              )))
    ]
  ]

  -- An `abort` that succeeds has stored the session as aborted, deleted the rows of its parts and put the
  -- keys of all their objects on the list for the background deletion, and on every other branch it has
  -- written nothing.
  pub abort_upload-Left :
      (session_id : String)
      → Left t (abort_upload now session_id t).0 (abort_upload now session_id t).1
  unfolding abort_upload
  abort_upload-Left session_id = abort_found-Left (lookup session_id t.sessions)

-- After an abort and its background deletion no object is left that is one of a part of the session
-- and that the storage could delete, and none in the directory of the session if the storage could
-- delete that.
abort_cleans_up :
    (now : ℕ) (session_id key : String) (t : Tables) (a : Aborted) (deletes : String → Bool)
    (removes : Bool)
    → (abort_upload now session_id t).1 ≡ ok a
    → a.message ≡ aborted_now
    → ((has (object_keys (of_session a.session_id t.parts)) key ≡ true) × (deletes key ≡ true))
      ⊎ ((removes ≡ true) × (in_directory a.session_id key ≡ true))
    → lookup key
        (clean_up deletes removes a.session_id a.cleanup (abort_upload now session_id t).0).objects
      ≡ none
abort_cleans_up now session_id key t a deletes removes e m h =
    let t' = (abort_upload now session_id t).0 in
    let left = subst (Left t t') e (abort_upload-Left now t session_id) in
    let by = subst (LeftBy t t' a) m left in
    clean_up-lookup deletes removes a.session_id a.cleanup key t' (rw by.2 h)
