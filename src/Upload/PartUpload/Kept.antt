-- ===== src/Upload/PartUpload/Kept.antt =====
-- What the calls of src/business/file/multipart-upload.service.ts do to the session of a merge that has begun,
-- where no two calls overlap.
use file_system_spike.Base.{
  ℕ, ◌≡◌, ◌⊎◌, inl, inr, refl, sym, ◌∙◌, ap, subst, String, str_eq, str_eq_iff, Bool-cases, ◌||◌,
  if◌then◌else◌, ltb, Option, none, some, some_inj, Result, ok, err, arith,
}
use file_system_spike.Base.Dict.{lookup, set, lookup_of_set, lookup-set}
use file_system_spike.Upload.Session.{
  UploadSession, SessionError, is_completed, is_aborted, is_expired, can_upload_part, includes,
  expire, mark_part_completed,
}
use file_system_spike.Upload.Part.{UploadPart}
use file_system_spike.Upload.Part
use file_system_spike.Upload.Session.Life.{IsMerged}
use file_system_spike.Upload.PartUpload.{
  Hashing, Tables, save_session, expired_session, open_stream, open_stream_found, open_part,
  open_part_found, existing_part, find_part, write_part, stream_opened, part_opened,
  upload_part_stream, upload_part,
}

-- Every session is stored under its own id.
abbrev pub OwnIds : Tables → Type 0
OwnIds t = (k : String) (s : UploadSession) → lookup k t.sessions ≡ some s → s.id ≡ k

-- The session `id` is completing or completed.
abbrev pub MergedAt : String → Tables → Type 0
MergedAt id t = (s : UploadSession) × (lookup id t.sessions ≡ some s) × IsMerged s.status

abbrev pub Kept : String → Tables → Type 0
Kept id t = OwnIds t × MergedAt id t

-- What a call does to the sessions: nothing, or it writes one of them back, merged if it was.
pub record Saved (t t' : Tables) : Type 0 where
  pub key : String
  pub before : UploadSession
  pub after : UploadSession
  pub found : lookup key t.sessions ≡ some before
  pub same_id : after.id ≡ before.id
  pub merged : IsMerged before.status → IsMerged after.status
  pub sessions : t'.sessions ≡ set after.id after t.sessions

abbrev pub Writes : Tables → Tables → Type 0
Writes t t' = (t'.sessions ≡ t.sessions) ⊎ Saved t t'

pub set-OwnIds :
    (s : UploadSession) (t t' : Tables) → t'.sessions ≡ set s.id s t.sessions → OwnIds t → OwnIds t'
set-OwnIds s t t' e own k x h =
    elim (lookup_of_set s.id k s x t.sessions (subst (λ ss. lookup k ss ≡ some x) e h)) [
      | inl new ↦ ap UploadSession.id (sym new.1) ∙ new.0
      | inr old ↦ own k x old.1
    ]

Saved-Kept : (id : String) (t t' : Tables) → Saved t t' → Kept id t → Kept id t'
Saved-Kept id t t' v (own, (s, l, m)) = (set-OwnIds v.after t t' v.sessions own, merged_at)
  where
    id_is_key : v.after.id ≡ v.key
    id_is_key = v.same_id ∙ own v.key v.before v.found

    now_at :
        lookup id t'.sessions
        ≡ (if str_eq v.after.id id then some v.after else lookup id t.sessions)
    now_at = ap (lookup id) v.sessions ∙ lookup-set v.after.id id v.after t.sessions

    merged_at : MergedAt id t'
    merged_at = elim (Bool-cases (str_eq v.after.id id)) [
      | inr other ↦ (s, rw (now_at, other) l, m)
      | inl here ↦
          let e : v.key ≡ id = sym id_is_key ∙ (str_eq_iff v.after.id id).0 here in
          let b : v.before ≡ s = some_inj (sym v.found ∙ (ap (λ k. lookup k t.sessions) e ∙ l)) in
          (
            v.after,
            rw (now_at, here) refl,
            v.merged (subst (λ x. IsMerged (UploadSession.status x)) (sym b) m),
          )
    ]

pub Writes-Kept : (id : String) (t t' : Tables) → Writes t t' → Kept id t → Kept id t'
Writes-Kept id t t' (inl same) k = (
  λ i x h. k.0 i x (subst (λ ss. lookup i ss ≡ some x) same h),
  (k.1.0, ap (lookup id) same ∙ k.1.1, k.1.2),
)
Writes-Kept id t t' (inr v) k = Saved-Kept id t t' v k

-- `expire` refuses a merged session.
pub expire_unmerged :
    (now : ℕ) (s s' : UploadSession)
    → expire now s ≡ ok s'
    → (s'.id ≡ s.id) × (IsMerged s.status → IsMerged s'.status)
unfolding expire
expire_unmerged now s s' e = ground arith

pub saves :
    (k : String) (s s' : UploadSession) (t t' : Tables)
    → lookup k t.sessions ≡ some s
    → (s'.id ≡ s.id) × (IsMerged s.status → IsMerged s'.status)
    → t'.sessions ≡ (save_session s' t).sessions
    → Writes t t'
unfolding save_session
saves k s s' t t' l h e = inr (record {
  key = k;
  before = s;
  after = s';
  found = l;
  same_id = h.0;
  merged = h.1;
  sessions = e;
})

expired-Writes :
    (now : ℕ) (k : String) (s : UploadSession) (t : Tables) (r : Result SessionError UploadSession)
    → lookup k t.sessions ≡ some s
    → expire now s ≡ r
    → Writes t (expired_session s t r).0
unfolding expired_session
expired-Writes now k s t (err x) l e = inl refl
expired-Writes now k s t (ok s') l e = saves k s s' t _ l (expire_unmerged now s s' e) refl

mark-IsMerged :
    (now n size : ℕ) (s : UploadSession)
    → ((mark_part_completed now n size s).id ≡ s.id)
      × (IsMerged s.status → IsMerged (mark_part_completed now n size s).status)
unfolding mark_part_completed
mark-IsMerged now n size s = ground arith

write_part-Writes :
    (later : ℕ) (k uuid : String) (h : Hashing) (s : UploadSession) (n : ℕ) (data_text : String)
    (t : Tables)
    → lookup k t.sessions ≡ some s
    → Writes t (write_part later uuid h s n data_text t).0
unfolding write_part save_session
write_part-Writes later k uuid h s n data_text t l =
    saves k s (mark_part_completed later n (h.byte_length data_text) s) t _ l
      (mark-IsMerged later n (h.byte_length data_text) s) refl

module _ (now later : ℕ) (uuid : String) (h : Hashing) (k : String) (n : ℕ) (data_text : String)
    (t : Tables) where
  stream_found-Writes :
      (o : Option UploadSession)
      → lookup k t.sessions ≡ o
      → Writes t (stream_opened later uuid h n data_text (open_stream_found now n o t)).0
  unfolding open_stream_found stream_opened
  stream_found-Writes none l = inl refl
  stream_found-Writes (some s) l = elim (Bool-cases (is_completed s || is_aborted s)) [
    | inl ended ↦ rw ended (inl refl)
    | inr live ↦ elim (Bool-cases (is_expired now s)) [
      | inl late ↦ rw (live, late) (expired-Writes now k s t (expire now s) l refl)
      | inr in_time ↦ elim (Bool-cases (ltb n 1 || ltb s.total_parts n)) [
        | inl outside ↦ rw (live, in_time, outside) (inl refl)
        | inr inside ↦
            rw (live, in_time, inside) (write_part-Writes later k uuid h s n data_text t l)
      ]
    ]
  ]

  pub upload_part_stream-Writes : Writes t (upload_part_stream now later uuid h k n data_text t).0
  unfolding upload_part_stream open_stream
  upload_part_stream-Writes = stream_found-Writes (lookup k t.sessions) refl

  existing-Writes :
      (s : UploadSession) (o : Option UploadPart)
      → lookup k t.sessions ≡ some s
      → Writes t (part_opened later uuid h n data_text (t, ok (existing_part s o))).0
  unfolding existing_part part_opened
  existing-Writes s none l = write_part-Writes later k uuid h s n data_text t l
  existing-Writes s (some p) l = elim (Bool-cases (Part.is_completed p)) [
    | inl there ↦ rw there (inl refl)
    | inr live ↦ rw live (write_part-Writes later k uuid h s n data_text t l)
  ]

  part_found-Writes :
      (o : Option UploadSession)
      → lookup k t.sessions ≡ o
      → Writes t (part_opened later uuid h n data_text (open_part_found now n o t)).0
  unfolding open_part_found part_opened
  part_found-Writes none l = inl refl
  part_found-Writes (some s) l = elim (Bool-cases (is_expired now s)) [
    | inl late ↦ rw late (expired-Writes now k s t (expire now s) l refl)
    | inr in_time ↦ elim (Bool-cases (can_upload_part now n s)) [
      | inr refused ↦ rw (in_time, refused) (inl refl)
      | inl allowed ↦ elim (Bool-cases (includes s.completed_parts n)) [
        | inr new ↦ rw (in_time, allowed, new) (write_part-Writes later k uuid h s n data_text t l)
        | inl done ↦ rw (in_time, allowed, done) (existing-Writes s (find_part s.id n t.parts) l)
      ]
    ]
  ]

  pub upload_part-Writes : Writes t (upload_part now later uuid h k n data_text t).0
  unfolding upload_part open_part
  upload_part-Writes = part_found-Writes (lookup k t.sessions) refl
