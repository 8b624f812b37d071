-- ===== src/Files/Manage/Busy.antt =====
-- Two operations of src/business/file/file-manage.service.ts on one file, one after the other.
use file_system_spike.Base.{
  ℕ, ◌≡◌, refl, String, str_eq_iff, true, Option, none, some, inl, inr, Bool-cases, Result, ok, err,
  IsErr, Ensures, arith,
}
use file_system_spike.Base.Dict.{lookup, lookup-set}
use file_system_spike.Files.StorageObject.{FileStorageObject, is_syncing, update_status}
use file_system_spike.Files.Manage.Checks.{
  Job, Tables, CheckError, Services, Plan, check_nas_sync_status, unless_syncing,
}
use file_system_spike.Files.Manage.Plans.{
  rename_plan, move_plan, delete_plan, rename_planned, move_planned, delete_planned,
}
use file_system_spike.Files.Manage.Operations.{
  Operation, rename_to, move_into, delete_it, plan_of, run, run-carry_out,
}
use file_system_spike.Files.Manage.Checked.{
  rename_plan-Ensures, move_plan-Ensures, delete_plan-Ensures,
}
use file_system_spike.Files.Manage.{queued, Managed, Call, saved_outside, committed, carry_out}

unless_syncing-busy :
    {A : Type 0} (r : Result CheckError A) (o : FileStorageObject)
    (next : A → Option FileStorageObject → Result CheckError Plan)
    → is_syncing o ≡ true
    → IsErr (unless_syncing r (some o) next)
unfolding unless_syncing check_nas_sync_status
unless_syncing-busy (ok a) o next s = rw s tt
unless_syncing-busy (err e) o next s = tt

-- The plan has a NAS object in synchronisation.
abbrev Syncs : Plan → Type 0
Syncs p = (o : FileStorageObject) × (p.object ≡ some o) × (is_syncing o ≡ true)

module _ (v : Services) (now : ℕ) (c : Call) where
  -- A file in synchronisation is refused by the checks of every operation.
  busy_plan :
      (op : Operation) (t : Tables) (o : FileStorageObject)
      → lookup c.file_id t.objects ≡ some o
      → is_syncing o ≡ true
      → IsErr (plan_of v now c op t)
  unfolding plan_of rename_plan move_plan delete_plan
  busy_plan (rename_to name) t o l s = rw l (unless_syncing-busy _ o _ s)
  busy_plan (move_into target) t o l s = rw l (unless_syncing-busy _ o _ s)
  busy_plan delete_it t o l s = rw l (unless_syncing-busy _ o _ s)

  plan-Syncs :
      (op : Operation) (t : Tables) (o : FileStorageObject)
      → lookup c.file_id t.objects ≡ some o
      → Ensures Syncs (plan_of v now c op t)
  unfolding plan_of rename_planned move_planned delete_planned is_syncing update_status
  plan-Syncs (rename_to name) t o l =
      rename_plan-Ensures v now c.uuid c.trash_id c.current_user c.user_id c.file_id t Syncs name
        (λ f n there free. rw l (_, refl, refl))
  plan-Syncs (move_into target) t o l =
      move_plan-Ensures v now c.uuid c.trash_id c.current_user c.user_id c.file_id t Syncs target
        (λ d f there free. rw l (_, refl, refl))
  plan-Syncs delete_it t o l =
      delete_plan-Ensures v now c.uuid c.trash_id c.current_user c.user_id c.file_id t Syncs
        (λ f there. rw l (_, refl, refl))

-- The NAS object of the file is in synchronisation.
abbrev Busy : String → Tables → Type 0
Busy id t = (o : FileStorageObject) × (lookup id t.objects ≡ some o) × (is_syncing o ≡ true)

queued-objects :
    (v : Services) (now : ℕ) (p : Plan) (m : Managed) (job : Option Job) (t : Tables)
    → (queued v now p m job t).0.objects ≡ t.objects
unfolding queued
queued-objects v now p m none t = refl
queued-objects v now p m (some job) t = elim (Bool-cases (v.accepts job)) [
  | inl taken ↦ rw taken refl
  | inr refused ↦ rw refused refl
]

committed-Busy : (id : String) (p : Plan) (t : Tables) → Syncs p → Busy id (committed id p t)
unfolding committed
committed-Busy id p t (o, e, s) =
    rw e (o, ground (arith, lookup-set id id o t.objects, str_eq_iff id id), s)

carry_out-Busy :
    (v : Services) (now : ℕ) (id : String) (r : Result CheckError Plan) (t : Tables) (m : Managed)
    → Ensures Syncs r
    → (carry_out v now id r t).1 ≡ ok m
    → Busy id (carry_out v now id r t).0
unfolding carry_out
carry_out-Busy v now id (err e) t m h k = absurd (ground (arith, k))
carry_out-Busy v now id (ok p) t m h k = elim (Bool-cases v.saves_file) [
  | inr lost ↦ absurd (ground (arith, rw lost at k))
  | inl filed ↦ elim (Bool-cases v.saves_event) [
    | inr lost ↦ absurd (ground (arith, rw (filed, lost) at k))
    | inl noted ↦ elim (Bool-cases v.commits) [
      | inl done ↦
          rw (filed, noted, done)
            (rw
              (queued-objects v now p
                (record { file = p.file; path = p.path; sync_event_id = p.event.id }) p.job
                (committed id p (saved_outside p t)))
              (committed-Busy id p (saved_outside p t) h))
      | inr failed ↦ absurd (ground (arith, rw (filed, noted, failed) at k))
    ]
  ]
]

refused_plan :
    (v : Services) (now : ℕ) (id : String) (r : Result CheckError Plan) (t : Tables)
    → IsErr r
    → ((carry_out v now id r t).0 ≡ t) × IsErr (carry_out v now id r t).1
unfolding carry_out
refused_plan v now id (err e) t h = (refl, tt)
refused_plan v now id (ok p) t h = absurd h

-- While the NAS has not caught up with an operation on a file that has a NAS object, every further
-- `rename`, `move` or `delete` of that file is refused and changes nothing.
pub busy_file_refuses :
    (v w : Services) (now later : ℕ) (c d : Call) (first next : Operation) (t : Tables)
    (o : FileStorageObject) (m : Managed)
    → lookup c.file_id t.objects ≡ some o
    → (run v now c first t).1 ≡ ok m
    → d.file_id ≡ c.file_id
    → let u = (run v now c first t).0 in
      ((run w later d next u).0 ≡ u) × IsErr (run w later d next u).1
busy_file_refuses v w now later c d first next t o m l e same =
    let u = (run v now c first t).0 in
    let busy : Busy c.file_id u = rw (run-carry_out v now c first t) (
      carry_out-Busy v now c.file_id (plan_of v now c first t) t m (plan-Syncs v now c first t o l)
        (rw (run-carry_out v now c first t) at e)) in
    rw (run-carry_out w later d next u) (
      refused_plan w later d.file_id (plan_of w later d next u) u
        (busy_plan w later d next u busy.0 (rw same busy.1) busy.2))
