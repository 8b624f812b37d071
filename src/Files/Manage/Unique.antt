-- ===== src/Files/Manage/Unique.antt =====
-- The files that src/business/file/file-manage.service.ts keeps apart. Its check of names compares the time
-- of creation too, so that files of one name that were created at different times may share a folder.
use file_system_spike.Base.{
  ℕ, ◌≡◌, refl, sym, subst, ◌∙◌, ap, ◌≢◌, inl, inr, String, str_eq, str_eq_iff, true, false, Option,
  none, some, some_inj, List, [], ◌∷◌, Bool-cases, Result, ok, err, Ensures, arith,
}
use file_system_spike.Base.Dict.{lookup, set, lookup_of_set}
use file_system_spike.Files.Item.{FileEntity, state_is_active}
use file_system_spike.Files.StorageObject.{FileStorageObject}
use file_system_spike.Trash.Store.{TrashMetadata}
use file_system_spike.Files.NameCheck.{matches, is_other, same_time, exists_by_name_in_folder}
use file_system_spike.Files.Manage.Checks.{Job, Tables, CheckError, Services, Plan}
use file_system_spike.Files.Manage.Plans.{rename_planned, move_planned, delete_planned}
use file_system_spike.Files.Manage.{
  queued, Managed, Call, save_trash, saved_outside, save_object, committed, carry_out,
}
use file_system_spike.Files.Manage.Checked.{
  rename_plan-Ensures, move_plan-Ensures, delete_plan-Ensures,
}
use file_system_spike.Files.Manage.Operations.{
  Operation, rename_to, move_into, delete_it, plan_of, run, run-carry_out,
}

-- What the check of names compares: the folder, the name, the type and the time of creation.
pub record SameFile (f g : FileEntity) : Type 0 where
  pub folder : f.folder_id ≡ g.folder_id
  pub name : f.name ≡ g.name
  pub mime_type : f.mime_type ≡ g.mime_type
  pub created_at : f.created_at ≡ g.created_at

abbrev pub RowIds : List (String × FileEntity) → Type 0
RowIds fs = (i : String) (f : FileEntity) → lookup i fs ≡ some f → f.id ≡ i

-- No two active files agree in all that the check compares. Active files of one name in one folder are
-- allowed where their types or their times of creation differ.
abbrev pub DistinctFiles : List (String × FileEntity) → Type 0
DistinctFiles fs =
    (i j : String) (f g : FileEntity)
    → lookup i fs ≡ some f
    → lookup j fs ≡ some g
    → i ≢ j
    → state_is_active f.state ≡ true
    → state_is_active g.state ≡ true
    → ¬ SameFile f g

free-matches :
    (folder name mime : String) (exclude : Option String) (created : Option ℕ)
    (fs : List (String × FileEntity)) (j : String) (g : FileEntity)
    → exists_by_name_in_folder folder name mime exclude created fs ≡ false
    → lookup j fs ≡ some g
    → matches folder name mime exclude created g ≡ false
unfolding exists_by_name_in_folder lookup
free-matches folder name mime exclude created [] j g h l = absurd (ground (arith, l))
free-matches folder name mime exclude created ((k, f) ∷ fs) j g h l =
    elim (Bool-cases (matches folder name mime exclude created f)) [
      | inl is ↦ absurd (ground (arith, rw is at h))
      | inr not ↦ elim (Bool-cases (str_eq k j)) [
        | inl here ↦ subst_row (some_inj (rw here at l)) not
        | inr there ↦
            free-matches folder name mime exclude created fs j g (rw not at h) (rw there at l)
      ]
    ]
  where
    subst_row :
        {f g : FileEntity}
        → f ≡ g
        → matches folder name mime exclude created f ≡ false
        → matches folder name mime exclude created g ≡ false
    subst_row e h = rw (sym e) h

-- A file that the check let pass has no namesake among the other rows.
free_name :
    (exclude : Option String) (f g : FileEntity)
    → matches f.folder_id f.name f.mime_type exclude (some f.created_at) g ≡ false
    → is_other exclude g ≡ true
    → state_is_active g.state ≡ true
    → ¬ SameFile f g
unfolding matches same_time
free_name exclude f g h o a s = ground (
  arith,
  h,
  o,
  a,
  s.folder,
  s.name,
  s.mime_type,
  s.created_at,
  str_eq_iff g.folder_id f.folder_id,
  str_eq_iff g.name f.name,
  str_eq_iff g.mime_type f.mime_type,
)

-- The planned file has its row's id, and where it is active no namesake in another row.
abbrev Keeps : String → Tables → Plan → Type 0
Keeps id t p =
    (p.file.id ≡ id)
    × ((j : String) (g : FileEntity)
        → lookup j t.files ≡ some g
        → j ≢ id
        → state_is_active p.file.state ≡ true
        → state_is_active g.state ≡ true
        → ¬ SameFile p.file g)

set-RowIds :
    (id : String) (f : FileEntity) (fs : List (String × FileEntity))
    → f.id ≡ id
    → RowIds fs
    → RowIds (set id f fs)
set-RowIds id f fs e h i g l = elim (lookup_of_set id i f g fs l) [
  | inl new ↦ ap FileEntity.id (sym new.1) ∙ e ∙ new.0
  | inr old ↦ h i g old.1
]

set-DistinctFiles :
    (id : String) (p : Plan) (t : Tables)
    → Keeps id t p
    → DistinctFiles t.files
    → DistinctFiles (set id p.file t.files)
set-DistinctFiles id p t k u i j f g l m apart live live' s =
    elim (lookup_of_set id i p.file f t.files l) [
      | inl new ↦ elim (lookup_of_set id j p.file g t.files m) [
        | inl new' ↦ apart (sym new.0 ∙ new'.0)
        | inr old' ↦ with_new f g j live live' (λ e. old'.0 (sym e)) new.1 old'.1 s
      ]
      | inr old ↦ elim (lookup_of_set id j p.file g t.files m) [
        | inl new' ↦
            with_new g f i live' live (λ e. old.0 (sym e)) new'.1 old.1 (SameFile-sym f g s)
        | inr old' ↦ u i j f g old.1 old'.1 apart live live' s
      ]
    ]
  where
    SameFile-sym : (f g : FileEntity) → SameFile f g → SameFile g f
    SameFile-sym f g s = record {
      folder = sym s.folder;
      name = sym s.name;
      mime_type = sym s.mime_type;
      created_at = sym s.created_at;
    }

    with_new :
        (f g : FileEntity) (j : String)
        → state_is_active f.state ≡ true
        → state_is_active g.state ≡ true
        → j ≢ id
        → p.file ≡ f
        → lookup j t.files ≡ some g
        → ¬ SameFile f g
    with_new f g j live live' apart e l s =
        k.1 j g l apart (subst (λ x. state_is_active (FileEntity.state x) ≡ true) (sym e) live)
          live' (subst (λ x. SameFile x g) (sym e) s)

other_row : (i j : String) (g : FileEntity) → g.id ≡ j → j ≢ i → is_other (some i) g ≡ true
unfolding is_other
other_row i j g own apart = elim (Bool-cases (str_eq g.id i)) [
  | inl same ↦ absurd (apart (sym own ∙ (str_eq_iff g.id i).0 same))
  | inr other ↦ rw other (ground arith)
]

module _ (v : Services) (now : ℕ) (c : Call) (t : Tables) (ids : RowIds t.files) where
  plan-Keeps : (op : Operation) → Ensures (Keeps c.file_id t) (plan_of v now c op t)
  unfolding plan_of rename_planned move_planned delete_planned is_other
  plan-Keeps (rename_to new_name) =
      rename_plan-Ensures v now c.uuid c.trash_id c.current_user c.user_id c.file_id t
        (Keeps c.file_id t) new_name
        (λ f n there free. (
          ids c.file_id f there.0,
          λ j g l apart live live' s.
              free_name (some c.file_id) _ g
                (free-matches f.folder_id n f.mime_type (some c.file_id) (some f.created_at) t.files
                  j g free l)
                (other_row c.file_id j g (ids j g l) apart) live' s,
        ))
  plan-Keeps (move_into target) =
      move_plan-Ensures v now c.uuid c.trash_id c.current_user c.user_id c.file_id t
        (Keeps c.file_id t) target
        (λ d f there free. (
          ids c.file_id f there.0,
          λ j g l apart live live' s.
              free_name none _ g
                (free-matches target f.name f.mime_type none (some f.created_at) t.files j g free l)
                refl live' s,
        ))
  plan-Keeps delete_it =
      delete_plan-Ensures v now c.uuid c.trash_id c.current_user c.user_id c.file_id t
        (Keeps c.file_id t)
        (λ f there.
          (ids c.file_id f there.0, λ j g l apart live live' s. absurd (ground (arith, live))))

save_trash-files : (r : Option TrashMetadata) (t : Tables) → (save_trash r t).files ≡ t.files
save_trash-files none t = refl
save_trash-files (some r) t = refl

save_object-files :
    (id : String) (o : Option FileStorageObject) (t : Tables) → (save_object id o t).files ≡ t.files
save_object-files id none t = refl
save_object-files id (some o) t = refl

queued-files :
    (v : Services) (now : ℕ) (p : Plan) (m : Managed) (job : Option Job) (t : Tables)
    → (queued v now p m job t).0.files ≡ t.files
unfolding queued
queued-files v now p m none t = refl
queued-files v now p m (some job) t = elim (Bool-cases (v.accepts job)) [
  | inl taken ↦ rw taken refl
  | inr refused ↦ rw refused refl
]

-- After a call the table of files is as it was or has the planned file.
carry_out-files :
    (v : Services) (now : ℕ) (id : String) (r : Result CheckError Plan) (t : Tables)
    (Q : List (String × FileEntity) → Type 0)
    → Q t.files
    → Ensures (λ p. Q (set id p.file t.files)) r
    → Q (carry_out v now id r t).0.files
unfolding carry_out committed saved_outside
carry_out-files v now id (err e) t Q q h = q
carry_out-files v now id (ok p) t Q q h = elim (Bool-cases v.saves_file) [
  | inr lost ↦ rw lost q
  | inl filed ↦ elim (Bool-cases v.saves_event) [
    | inr lost ↦ rw (filed, lost) (subst Q (sym (save_trash-files p.trashed t)) q)
    | inl noted ↦ elim (Bool-cases v.commits) [
      | inl done ↦
          rw (filed, noted, done)
            (subst Q
              (sym (
                queued-files v now p
                  (record { file = p.file; path = p.path; sync_event_id = p.event.id }) p.job
                  (committed id p (saved_outside p t))
                ∙ save_object-files id p.object _
                ∙ ap (set id p.file) (save_trash-files p.trashed t)))
              h)
      | inr failed ↦ rw (filed, noted, failed) (subst Q (sym (save_trash-files p.trashed t)) q)
    ]
  ]
]

-- `rename`, `move` and `delete` keep every row under its own id, and never make two active files agree in
-- folder, name, type and time of creation together, whatever the call, its arguments and its result. The
-- name alone is not kept apart: files of one name that were created at different times may end in one
-- folder.
pub run-DistinctFiles :
    (v : Services) (now : ℕ) (c : Call) (op : Operation) (t : Tables)
    → RowIds t.files
    → DistinctFiles t.files
    → let u = (run v now c op t).0 in RowIds u.files × DistinctFiles u.files
run-DistinctFiles v now c op t ids names = rw (run-carry_out v now c op t) (
    carry_out-files v now c.file_id (plan_of v now c op t) t (λ fs. RowIds fs × DistinctFiles fs)
      (ids, names) (with_plan (plan_of v now c op t) (plan-Keeps v now c t ids op)))
  where
    with_plan :
        (r : Result CheckError Plan)
        → Ensures (Keeps c.file_id t) r
        → Ensures
            (λ p.
              RowIds (set c.file_id (Plan.file p) t.files)
              × DistinctFiles (set c.file_id (Plan.file p) t.files))
            r
    with_plan (err e) h = tt
    with_plan (ok p) h =
        (set-RowIds c.file_id p.file t.files h.0 ids, set-DistinctFiles c.file_id p t h names)
