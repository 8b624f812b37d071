-- ===== src/Upload/Session/Life.antt =====
-- The states of src/domain/upload-session/entities/upload-session.entity.ts, driven as
-- src/business/file/multipart-upload.service.ts drives them, one call after the other. `uploadPart` asks
-- `canUploadPart` before it marks a part. `uploadPartStream` does not: it refuses only completed, aborted
-- and expired sessions and numbers out of range, so that it also marks parts of a session that is
-- completing. Calls that overlap are the matter of Upload/PartUpload/Overlap.antt and
-- Upload/Complete/Later.antt.
use file_system_spike.Base.{
  ℕ, ◌≤◌, ◌≡◌, refl, ◌≢◌, ◌∙◌, ◌⊎◌, inl, inr, String, Bool, true, false, not, ◌||◌, ◌&&◌, List, [],
  ◌∷◌, length, arith, if◌then◌else◌, is_some, err, after, Bool-cases, ltb,
}
use file_system_spike.Upload.Session.{
  is_completed, is_aborted, is_expired, includes, started, SessionStatus, init, completing,
  completed, UploadSession, CreateParams, not_abortable, not_expirable, create, can_upload_part,
  mark_part_completed, begin_completing, complete, abort, expire,
}
use file_system_spike.Upload.Session.Parts.{HasParts, includes_full, mark_part_completed-HasParts}

pub data Call : Type 0 where
  uploads : ℕ → ℕ → ℕ → Bool → Call
  streams : ℕ → ℕ → ℕ → Call
  begins completes : ℕ → String → Call
  aborts expires : ℕ → Call

-- `uploadPart`; the last argument tells whether the row of the part is there and completed.
unfoldable pub part_uploaded : ℕ → ℕ → ℕ → Bool → UploadSession → UploadSession
part_uploaded now n size row_done s =
    if is_expired now s
    then after s (expire now s)
    else if not (can_upload_part now n s)
    then s
    else if includes s.completed_parts n && row_done
    then s
    else mark_part_completed now n size s

-- `uploadPartStream`.
unfoldable pub part_streamed : ℕ → ℕ → ℕ → UploadSession → UploadSession
part_streamed now n size s =
    if is_completed s || is_aborted s
    then s
    else if is_expired now s
    then after s (expire now s)
    else if ltb n 1 || ltb s.total_parts n
    then s
    else mark_part_completed now n size s

-- A call that throws leaves the session as it was, but that an upload of a part marks a session whose time is
-- over as expired before it throws.
unfoldable pub step : Call → UploadSession → UploadSession
step (uploads now n size row_done) s = part_uploaded now n size row_done s
step (streams now n size) s = part_streamed now n size s
step (begins now f) s = after s (begin_completing now f s)
step (completes now f) s = after s (complete now f s)
step (aborts now) s = after s (abort now s)
step (expires now) s = after s (expire now s)

unfoldable pub run : List Call → UploadSession → UploadSession
run [] s = s
run (c ∷ cs) s = run cs (step c s)

abbrev pub IsMerged : SessionStatus → Type 0
IsMerged t = (t ≡ completing) ⊎ (t ≡ completed)

pub record Inv (s : UploadSession) : Type 0 where
  pub parts : HasParts s
  pub merged_full : IsMerged s.status → length s.completed_parts ≡ s.total_parts
  pub merged_file : IsMerged s.status → is_some s.file_id ≡ true
  pub untouched : s.status ≡ init → s.completed_parts ≡ []

create-Inv : (q : CreateParams) (now : ℕ) → Inv (create q now)
unfolding create
create-Inv q now = ground arith

allowed_range :
    (now n : ℕ) (s : UploadSession) → can_upload_part now n s ≡ true → (1 ≤ n) × (n ≤ s.total_parts)
unfolding can_upload_part
allowed_range now n s e = ground arith

-- A session with all its parts is given no further one.
mark_full :
    (now n size : ℕ) (s : UploadSession)
    → HasParts s
    → length s.completed_parts ≡ s.total_parts
    → 1 ≤ n
    → n ≤ s.total_parts
    → mark_part_completed now n size s ≡ record s { status = started s.status; updated_at = now }
unfolding mark_part_completed
mark_full now n size s p full l h =
    rw (includes_full 0 s.total_parts n s.completed_parts p.rising (ground (arith, full)) l h) refl

mark_unmerged :
    (now n size : ℕ) (s : UploadSession)
    → IsMerged (mark_part_completed now n size s).status
    → IsMerged s.status
unfolding mark_part_completed
mark_unmerged now n size s h = ground arith

mark_not_init :
    (now n size : ℕ) (s : UploadSession) → (mark_part_completed now n size s).status ≢ init
unfolding mark_part_completed
mark_not_init now n size s h = ground arith

mark-Inv :
    (now n size : ℕ) (s : UploadSession)
    → 1 ≤ n
    → n ≤ s.total_parts
    → Inv s
    → Inv (mark_part_completed now n size s)
mark-Inv now n size s l h v =
    let same = λ (m : IsMerged (mark_part_completed now n size s).status).
      mark_full now n size s v.parts (v.merged_full (mark_unmerged now n size s m)) l h in
    record {
      parts = (mark_part_completed-HasParts now n size s v.parts l h).0;
      merged_full = λ m. rw (same m) (v.merged_full (mark_unmerged now n size s m));
      merged_file = λ m. rw (same m) (v.merged_file (mark_unmerged now n size s m));
      untouched = λ e. absurd (mark_not_init now n size s e);
    }

expire-Inv : (now : ℕ) (s : UploadSession) → Inv s → Inv (after s (expire now s))
unfolding expire
expire-Inv now s v = ground arith

-- An upload of a part keeps what expiry keeps and what marking a part in range keeps.
part_uploaded-keeps :
    (P : UploadSession → Type 0) (now n size : ℕ) (row_done : Bool) (s : UploadSession)
    → P s
    → P (after s (expire now s))
    → (1 ≤ n → n ≤ s.total_parts → P (mark_part_completed now n size s))
    → P (part_uploaded now n size row_done s)
unfolding part_uploaded
part_uploaded-keeps P now n size row_done s stays late marked =
    elim (Bool-cases (is_expired now s)) [
      | inl t ↦ rw t late
      | inr f ↦ elim (Bool-cases (can_upload_part now n s)) [
        | inr refused ↦ rw (f, refused) stays
        | inl allowed ↦
            let a = allowed_range now n s allowed in
            elim (Bool-cases (includes s.completed_parts n && row_done)) [
              | inl there ↦ rw (f, allowed, there) stays
              | inr new ↦ rw (f, allowed, new) (marked a.0 a.1)
            ]
      ]
    ]

part_streamed-keeps :
    (P : UploadSession → Type 0) (now n size : ℕ) (s : UploadSession)
    → P s
    → P (after s (expire now s))
    → (1 ≤ n → n ≤ s.total_parts → P (mark_part_completed now n size s))
    → P (part_streamed now n size s)
unfolding part_streamed
part_streamed-keeps P now n size s stays late marked =
    elim (Bool-cases (is_completed s || is_aborted s)) [
      | inl ended ↦ rw ended stays
      | inr live ↦ elim (Bool-cases (is_expired now s)) [
        | inl t ↦ rw (live, t) late
        | inr f ↦ elim (Bool-cases (ltb n 1 || ltb s.total_parts n)) [
          | inl outside ↦ rw (live, f, outside) stays
          | inr inside ↦ rw (live, f, inside) (marked (ground arith) (ground arith))
        ]
      ]
    ]

step-Inv : (c : Call) (s : UploadSession) → Inv s → Inv (step c s)
unfolding step begin_completing complete abort expire
step-Inv (uploads now n size row_done) s v =
    part_uploaded-keeps Inv now n size row_done s v (expire-Inv now s v)
      (λ l h. mark-Inv now n size s l h v)
step-Inv (streams now n size) s v =
    part_streamed-keeps Inv now n size s v (expire-Inv now s v) (λ l h. mark-Inv now n size s l h v)
step-Inv (begins now f) s v = ground arith
step-Inv (completes now f) s v = ground arith
step-Inv (aborts now) s v = ground arith
step-Inv (expires now) s v = ground arith

run-Inv : (cs : List Call) (s : UploadSession) → Inv s → Inv (run cs s)
unfolding run
run-Inv [] s v = v
run-Inv (c ∷ cs) s v = run-Inv cs (step c s) (step-Inv c s v)

-- After any calls on a new session, one after the other, those of `uploadPartStream` included: the completed parts are rising, distinct and in range; a
-- session that is completing or completed has all its parts and a file id; and a session with
-- status INIT has no part.
pub run-create-Inv : (q : CreateParams) (now : ℕ) (cs : List Call) → Inv (run cs (create q now))
run-create-Inv q now cs = run-Inv cs (create q now) (create-Inv q now)

-- What a session whose merge has begun keeps.
StaysMerged : UploadSession → UploadSession → Type 0
StaysMerged s t = IsMerged t.status × (t.completed_parts ≡ s.completed_parts)

mark-StaysMerged :
    (now n size : ℕ) (s : UploadSession)
    → 1 ≤ n
    → n ≤ s.total_parts
    → Inv s
    → IsMerged s.status
    → StaysMerged s (mark_part_completed now n size s)
unfolding StaysMerged
mark-StaysMerged now n size s l h v m =
    rw (mark_full now n size s v.parts (v.merged_full m) l h) (ground arith, refl)

expire-StaysMerged :
    (now : ℕ) (s : UploadSession) → IsMerged s.status → StaysMerged s (after s (expire now s))
unfolding expire StaysMerged
expire-StaysMerged now s m = ground arith

step-StaysMerged :
    (c : Call) (s : UploadSession) → Inv s → IsMerged s.status → StaysMerged s (step c s)
unfolding step begin_completing complete abort expire StaysMerged
step-StaysMerged (uploads now n size row_done) s v h =
    part_uploaded-keeps (StaysMerged s) now n size row_done s (h, refl) (expire-StaysMerged now s h)
      (λ l u. mark-StaysMerged now n size s l u v h)
step-StaysMerged (streams now n size) s v h =
    part_streamed-keeps (StaysMerged s) now n size s (h, refl) (expire-StaysMerged now s h)
      (λ l u. mark-StaysMerged now n size s l u v h)
step-StaysMerged (begins now f) s v h = ground arith
step-StaysMerged (completes now f) s v h = ground arith
step-StaysMerged (aborts now) s v h = ground arith
step-StaysMerged (expires now) s v h = ground arith

run-StaysMerged :
    (cs : List Call) (s : UploadSession) → Inv s → IsMerged s.status → StaysMerged s (run cs s)
unfolding run StaysMerged
run-StaysMerged [] s v h = (h, refl)
run-StaysMerged (c ∷ cs) s v h =
    let one = step-StaysMerged c s v h in
    let rest = run-StaysMerged cs (step c s) (step-Inv c s v) one.0 in (rest.0, rest.1 ∙ one.1)

uploads_merged :
    (now n : ℕ) (s : UploadSession) → IsMerged s.status → can_upload_part now n s ≡ false
unfolding can_upload_part
uploads_merged now n s h = ground arith

-- A session with the invariant of the sessions, whose merge has begun, stays completing or completed
-- through any calls that come one after the other, streams included, and its completed parts stay as
-- they are (a stream may still replace the data of one of them). Afterwards `abort` and `expire` are
-- refused, and `canUploadPart` refuses every part.
pub run-IsMerged :
    (cs : List Call) (s : UploadSession) (now n : ℕ)
    → Inv s
    → IsMerged s.status
    → let t = run cs s in
      IsMerged t.status
      × (t.completed_parts ≡ s.completed_parts)
      × (abort now t ≡ err not_abortable)
      × (expire now t ≡ err not_expirable)
      × (can_upload_part now n t ≡ false)
unfolding abort expire StaysMerged
run-IsMerged cs s now n v h =
    let m = run-StaysMerged cs s v h in
    (m.0, m.1, ground arith, ground arith, uploads_merged now n (run cs s) m.0)
