-- ===== src/Files/Manage/Checked.antt =====
-- What the checks of src/business/file/file-manage.service.ts have seen when an operation goes on to
-- write: a property of each plan that they give.
use file_system_spike.Base.{
  ℕ, ◌≡◌, refl, String, true, false, not, Option, none, some, inl, inr, Bool-cases, subst, Result,
  ok, err, ◌>>=◌, Ensures,
}
use file_system_spike.Base.Dict.{lookup}
use file_system_spike.Files.Item.{
  FileEntity, FolderEntity, state_is_active, state_is_trashed, trashed,
}
use file_system_spike.Files.File
use file_system_spike.Files.NameCheck.{exists_by_name_in_folder}
use file_system_spike.Files.StorageObject.{FileStorageObject, is_syncing}
use file_system_spike.Files.Manage.Checks.{
  Tables, CheckError, file_not_found, file_not_active, file_already_trashed, Services, Plan,
  check_nas_sync_status, unless_syncing, validate_rename_request, found, require,
}
use file_system_spike.Files.Manage.Plans.{
  target_found, rename_candidate, rename_checked, rename_plan, rename_planned, move_candidate,
  move_checked, move_plan, move_planned, delete_candidate, delete_checked, delete_plan,
  delete_planned, is_leased,
}

unless_syncing-Ensures :
    {A : Type 0} (P : Plan → Type 0) (r : Result CheckError A) (o : Option FileStorageObject)
    (next : A → Option FileStorageObject → Result CheckError Plan)
    → ((a : A) → r ≡ ok a → Ensures P (next a o))
    → Ensures P (unless_syncing r o next)
unfolding unless_syncing check_nas_sync_status
unless_syncing-Ensures P (err e) o next h = tt
unless_syncing-Ensures P (ok a) none next h = h a refl
unless_syncing-Ensures P (ok a) (some o) next h = elim (Bool-cases (is_syncing o)) [
  | inl busy ↦ rw busy tt
  | inr free ↦ rw free (h a refl)
]

-- The file has its row and is active.
abbrev pub IsThere : String → Tables → FileEntity → Type 0
IsThere id t f = (lookup id t.files ≡ some f) × (state_is_active f.state ≡ true)

module _ (v : Services) (now : ℕ) (uuid trash_id : String) (current_user : Option String)
    (user_id : String) (file_id : String) (t : Tables) (P : Plan → Type 0) where
  named-IsThere :
      (f : FileEntity) (r : Result CheckError String)
      → IsThere file_id t f
      → Ensures (λ (a : FileEntity × String). IsThere file_id t a.0) (r >>= λ name. ok (f, name))
  named-IsThere f (ok name) h = h
  named-IsThere f (err e) h = tt

  rename_candidate-IsThere :
      (new_name : Option String) (o : Option FileEntity)
      → lookup file_id t.files ≡ o
      → Ensures
          (λ (a : FileEntity × String). IsThere file_id t a.0)
          (found file_not_found o >>= λ f. require (File.is_active f) file_not_active >>= λ _.
            validate_rename_request v.to_lower_case f.name new_name >>= λ name. ok (f, name))
  unfolding File.is_active
  rename_candidate-IsThere new_name none l = tt
  rename_candidate-IsThere new_name (some f) l = elim (Bool-cases (state_is_active f.state)) [
    | inl live ↦
        rw live
          (named-IsThere f (validate_rename_request v.to_lower_case f.name new_name) (l, live))
    | inr dead ↦ rw dead tt
  ]

  rename_checked-Ensures :
      (f : FileEntity) (name : String) (o : Option FileStorageObject)
      → state_is_active f.state ≡ true
      → (exists_by_name_in_folder f.folder_id name f.mime_type
              (some file_id)
              (some f.created_at)
              t.files
            ≡ false
          → P (
              rename_planned v now uuid trash_id current_user user_id file_id name
                (record f { name = name; updated_at = now })
                o
                t))
      → Ensures P (rename_checked v now uuid trash_id current_user user_id file_id t (f, name) o)
  unfolding rename_checked File.rename File.is_active
  rename_checked-Ensures f name o live h =
      elim (Bool-cases (
        exists_by_name_in_folder f.folder_id name f.mime_type (some file_id) (some f.created_at)
          t.files)) [ inl taken ↦ rw taken tt | inr free ↦ rw (free, live) (h free) ]

  -- The plan of a renaming.
  pub rename_plan-Ensures :
      (new_name : Option String)
      → ((f : FileEntity) (name : String)
          → IsThere file_id t f
          → exists_by_name_in_folder f.folder_id name f.mime_type
              (some file_id)
              (some f.created_at)
              t.files
            ≡ false
          → P (
              rename_planned v now uuid trash_id current_user user_id file_id name
                (record f { name = name; updated_at = now })
                (lookup file_id t.objects)
                t))
      → Ensures P (rename_plan v now uuid trash_id current_user user_id file_id new_name t)
  unfolding rename_plan rename_candidate
  rename_plan-Ensures new_name h = unless_syncing-Ensures P _ (lookup file_id t.objects) _ (λ a e.
      let there =
        subst (Ensures (λ (a : FileEntity × String). IsThere file_id t a.0)) e
          (rename_candidate-IsThere new_name (lookup file_id t.files) refl) in
      rename_checked-Ensures a.0 a.1 (lookup file_id t.objects) there.1 (h a.0 a.1 there))

  move_candidate-IsThere :
      (target : Option FolderEntity) (o : Option FileEntity)
      → lookup file_id t.files ≡ o
      → Ensures
          (λ (a : FolderEntity × FileEntity). IsThere file_id t a.1)
          (target_found v now uuid trash_id current_user user_id file_id target >>= λ folder.
            found file_not_found o >>= λ f.
            require (File.is_active f) file_not_active >>= λ _. ok (folder, f))
  unfolding File.is_active target_found
  move_candidate-IsThere none o l = tt
  move_candidate-IsThere (some d) o l = elim (Bool-cases (state_is_active d.state)) [
    | inl live ↦ rw live (of_file o l)
    | inr dead ↦ rw dead tt
  ]
    where
      of_file :
          (o : Option FileEntity)
          → lookup file_id t.files ≡ o
          → Ensures
              (λ (a : FolderEntity × FileEntity). IsThere file_id t a.1)
              (found file_not_found o >>= λ f.
                require (File.is_active f) file_not_active >>= λ _. ok (d, f))
      of_file none l = tt
      of_file (some f) l = elim (Bool-cases (state_is_active f.state)) [
        | inl live ↦ rw live (l, live)
        | inr dead ↦ rw dead tt
      ]

  move_checked-Ensures :
      (target : String) (d : FolderEntity) (f : FileEntity) (o : Option FileStorageObject)
      → state_is_active f.state ≡ true
      → (exists_by_name_in_folder target f.name f.mime_type none (some f.created_at) t.files ≡ false
          → P (
              move_planned v now uuid trash_id current_user user_id file_id target d f
                (record f { folder_id = target; updated_at = now })
                o))
      → Ensures P (move_checked v now uuid trash_id current_user user_id file_id target t (d, f) o)
  unfolding move_checked File.move_to File.is_active
  move_checked-Ensures target d f o live h =
      elim (Bool-cases
        (exists_by_name_in_folder target f.name f.mime_type none (some f.created_at) t.files)) [
          | inl taken ↦ rw taken tt
          | inr free ↦ rw (free, live) (h free)
        ]

  -- The plan of a move.
  pub move_plan-Ensures :
      (target : String)
      → ((d : FolderEntity) (f : FileEntity)
          → IsThere file_id t f
          → exists_by_name_in_folder target f.name f.mime_type none (some f.created_at) t.files
            ≡ false
          → P (
              move_planned v now uuid trash_id current_user user_id file_id target d f
                (record f { folder_id = target; updated_at = now })
                (lookup file_id t.objects)))
      → Ensures P (move_plan v now uuid trash_id current_user user_id file_id target t)
  unfolding move_plan move_candidate
  move_plan-Ensures target h = unless_syncing-Ensures P _ (lookup file_id t.objects) _ (λ a e.
      let there =
        subst (Ensures (λ (a : FolderEntity × FileEntity). IsThere file_id t a.1)) e
          (move_candidate-IsThere (lookup target t.folders) (lookup file_id t.files) refl) in
      move_checked-Ensures target a.0 a.1 (lookup file_id t.objects) there.1 (h a.0 a.1 there))

  delete_candidate-IsThere :
      (o : Option FileEntity)
      → lookup file_id t.files ≡ o
      → Ensures (IsThere file_id t) (
          found file_not_found o >>= λ f.
          require (not (File.is_trashed f)) file_already_trashed >>= λ _.
          require (File.is_active f) file_not_active >>= λ _. ok f)
  unfolding File.is_active File.is_trashed
  delete_candidate-IsThere none l = tt
  delete_candidate-IsThere (some f) l = elim (Bool-cases (state_is_trashed f.state)) [
    | inl gone ↦ rw gone tt
    | inr here ↦ rw here (elim (Bool-cases (state_is_active f.state)) [
      | inl live ↦ rw live (l, live)
      | inr dead ↦ rw dead tt
    ])
  ]

  delete_checked-Ensures :
      (f : FileEntity) (o : Option FileStorageObject)
      → state_is_active f.state ≡ true
      → P (
          delete_planned v now uuid trash_id current_user user_id file_id f
            (record f { state = trashed; updated_at = now })
            o
            t)
      → Ensures P (delete_checked v now uuid trash_id current_user user_id file_id t f o)
  unfolding delete_checked File.delete File.is_active
  delete_checked-Ensures f o live h =
      elim (Bool-cases (is_leased v now uuid trash_id current_user user_id file_id o)) [
        | inl used ↦ rw used tt
        | inr free ↦ rw (free, live) h
      ]

  -- The plan of a deletion.
  pub delete_plan-Ensures :
      ((f : FileEntity)
        → IsThere file_id t f
        → P (
            delete_planned v now uuid trash_id current_user user_id file_id f
              (record f { state = trashed; updated_at = now })
              (lookup file_id t.objects)
              t))
      → Ensures P (delete_plan v now uuid trash_id current_user user_id file_id t)
  unfolding delete_plan delete_candidate
  delete_plan-Ensures h = unless_syncing-Ensures P _ (lookup file_id t.objects) _ (λ f e.
      let there =
        subst (Ensures (IsThere file_id t)) e
          (delete_candidate-IsThere (lookup file_id t.files) refl) in
      delete_checked-Ensures f (lookup file_id t.objects) there.1 (h f there))
