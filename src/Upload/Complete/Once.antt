-- ===== src/Upload/Complete/Once.antt =====
-- What `complete` of src/business/file/multipart-upload.service.ts does with a session, once and twice at a time.
use file_system_spike.Base.{
  ℕ, ◌≡◌, refl, ◌≢◌, inl, inr, String, str_eq_iff, true, false, ◌||◌, Option, none, some, List, [],
  ◌∷◌, ◌++◌, if◌then◌else◌, ok, Bool-cases, ap, subst, sym, some_inj, ◌∙◌, arith,
}
use file_system_spike.Base.Dict.{lookup, set, lookup-set}
use file_system_spike.Files.StorageObject.{UtcDate}
use file_system_spike.SyncEvent.Entity.{mark_queued}
use file_system_spike.Upload.Session.{
  UploadSession, completing, is_completed, is_completing, is_aborted, is_expired, expire,
  all_parts_completed, begin_completing,
}
use file_system_spike.Upload.Complete.{
  Store, CompleteError, Ready, ready, failing, expired_first, parts_found, completed_parts_of,
  check_found, check_complete, Request, new_file, new_event, new_job, enqueue_job, written,
  commit_session, commit_complete,
}

-- What a check that goes well has seen: the session is there and neither merged nor in a merge, all its
-- parts are complete, and nothing is written.
pub record Checked (sha256 : String → String) (d : UtcDate) (id : String) (t t' : Store) (r : Ready)
    : Type 0 where
  pub store : t' ≡ t
  pub found : lookup id t.uploads.sessions ≡ some r.session
  pub complete_parts : all_parts_completed r.session ≡ true
  pub unmerged : is_completing r.session ≡ false
  pub made : r ≡ ready sha256 d r.session (completed_parts_of r.session.id t.uploads.parts) t

module _ (sha256 : String → String) (now : ℕ) (d : UtcDate) (id : String) (t t' : Store)
    (r : Ready) where
  parts_found-Checked :
      (s : UploadSession) (parts : List _)
      → parts_found sha256 now d s parts t ≡ (t', ok r)
      → (t' ≡ t) × (r.session ≡ s) × (r ≡ ready sha256 d s parts t)
  unfolding parts_found ready
  parts_found-Checked s parts h = ground (arith, h)

  failing_is_not_ok : (x : Store × CompleteError) → failing {A = Ready} x ≢ (t', ok r)
  failing_is_not_ok (u, e) h = cc

  check_found-Checked :
      (o : Option UploadSession)
      → lookup id t.uploads.sessions ≡ o
      → check_found sha256 now d o t ≡ (t', ok r)
      → Checked sha256 d id t t' r
  unfolding check_found
  check_found-Checked none l h = absurd (cc h)
  check_found-Checked (some s) l h = elim (Bool-cases (is_completed s || is_completing s)) [
    | inl merged ↦ absurd (cc (rw merged at h))
    | inr unmerged ↦ elim (Bool-cases (is_aborted s)) [
      | inl aborted ↦ absurd (cc (rw aborted at (rw unmerged at h)))
      | inr kept ↦ elim (Bool-cases (is_expired now s)) [
        | inl late ↦ absurd (
            failing_is_not_ok (expired_first t s (expire now s))
              (rw late at (rw kept at (rw unmerged at h))))
        | inr in_time ↦ elim (Bool-cases (all_parts_completed s)) [
          | inr missing ↦
              absurd (cc (rw missing at (rw in_time at (rw kept at (rw unmerged at h)))))
          | inl full ↦
              let (same, e, m) =
                parts_found-Checked s (completed_parts_of s.id t.uploads.parts)
                  (rw full at (rw in_time at (rw kept at (rw unmerged at h)))) in
              record {
                store = same;
                found = rw e l;
                complete_parts = rw e full;
                unmerged = rw e (ground (arith, unmerged));
                made =
                    subst (λ x. r ≡ ready sha256 d x (completed_parts_of x.id t.uploads.parts) t)
                      (sym e) m;
              }
        ]
      ]
    ]
  ]

  pub check_complete-Checked :
      check_complete sha256 now d id t ≡ (t', ok r) → Checked sha256 d id t t' r
  unfolding check_complete
  check_complete-Checked = check_found-Checked (lookup id t.uploads.sessions) refl

pub lookup-set_self {ℓ} :
    {V : Type ℓ} (k : String) (v : V) (m : List (String × V)) → lookup k (set k v m) ≡ some v
lookup-set_self k v m = ground (arith, lookup-set k k v m, str_eq_iff k k)

abbrev pub merging : ℕ → Request → Ready → UploadSession
merging now q r = record r.session {
  status = completing;
  file_id = some q.file_id;
  updated_at = now;
}

module _ (now : ℕ) (q : Request) (r : Ready) where
  pub enqueue_job-fields :
      (u : Store)
      → lookup q.sync_event_id u.events ≡ some (new_event now q r)
      → let v = enqueue_job now q r u in
        (v.files ≡ u.files)
        × (v.uploads ≡ u.uploads)
        × (lookup q.sync_event_id v.events
            ≡ some (
                if q.accepts (new_job q r)
                then mark_queued now (new_event now q r)
                else new_event now q r))
        × (v.jobs ≡ (if q.accepts (new_job q r) then u.jobs ++ new_job q r ∷ [] else u.jobs))
        × (v.storage ≡ u.storage)
  unfolding enqueue_job
  enqueue_job-fields u h = elim (Bool-cases (q.accepts (new_job q r))) [
    | inl taken ↦
        let e = mark_queued now (new_event now q r) in
        rw taken (
          refl,
          refl,
          ground (
            arith,
            lookup-set q.sync_event_id q.sync_event_id e u.events,
            str_eq_iff q.sync_event_id q.sync_event_id,
          ),
          refl,
          refl,
        )
    | inr refused ↦ rw refused (refl, refl, h, refl, refl)
  ]

  module _ (t : Store) (full : all_parts_completed r.session ≡ true) (c : q.commits ≡ true) where
    pub commit-fst :
        commit_complete now q r t
        ≡ (enqueue_job now q r (written now q r (merging now q r) t), ok (new_file q r))
    unfolding commit_complete commit_session begin_completing all_parts_completed
    commit-fst = rw (c, full)

    commit-files : (commit_complete now q r t).0.files ≡ set q.file_id (new_file q r) t.files
    unfolding written
    commit-files =
        rw commit-fst
          (enqueue_job-fields (written now q r (merging now q r) t)
            (lookup-set_self q.sync_event_id (new_event now q r) t.events)).0

module _ (sha256 : String → String) (now : ℕ) (d : UtcDate) (id : String) (t t' : Store) (r : Ready)
    (checked : check_complete sha256 now d id t ≡ (t', ok r)) where
  -- Two calls of `complete` that both pass the checks before either of them commits both go through, where
  -- both transactions commit and the new file ids differ: the one upload becomes two files of one
  -- name in one folder.
  pub overlapping_completes_double :
      (now2 later later2 : ℕ) (d2 : UtcDate) (r2 : Ready) (q q2 : Request)
      → check_complete sha256 now2 d2 id t' ≡ (t', ok r2)
      → q.commits ≡ true
      → q2.commits ≡ true
      → q.file_id ≢ q2.file_id
      → let v = (commit_complete later2 q2 r2 (commit_complete later q r t').0).0 in
        (lookup q.file_id v.files ≡ some (new_file q r))
        × (lookup q2.file_id v.files ≡ some (new_file q2 r2))
        × ((new_file q r).name ≡ (new_file q2 r2).name)
        × ((new_file q r).folder_id ≡ (new_file q2 r2).folder_id)
  unfolding new_file
  overlapping_completes_double now2 later later2 d2 r2 q q2 checked2 c c2 apart =
      let u = (commit_complete later q r t').0 in
      let first = check_complete-Checked sha256 now d id t t' r checked in
      let second = check_complete-Checked sha256 now2 d2 id t' t' r2 checked2 in
      let made = commit-files later q r t' first.complete_parts c in
      let made2 = commit-files later2 q2 r2 u second.complete_parts c2 in
      let same : r.session ≡ r2.session = some_inj (
        sym first.found
        ∙ (ap (λ w. lookup id (Store.uploads w).sessions) (sym first.store) ∙ second.found)) in
      (
        rw made2 (
            rw made (
              ground (
                arith,
                apart,
                lookup-set q2.file_id q.file_id (new_file q2 r2)
                    (set q.file_id (new_file q r) t'.files),
                lookup-set_self q.file_id (new_file q r) t'.files,
                str_eq_iff q2.file_id q.file_id,
              ))),
        rw made2 (lookup-set_self q2.file_id (new_file q2 r2) u.files),
        ap (λ s. UploadSession.file_name s) same,
        ap (λ s. UploadSession.folder_id s) same,
      )
