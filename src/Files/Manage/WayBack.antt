-- ===== src/Files/Manage/WayBack.antt =====
-- From the trash back to the folder: the path that `delete` of src/business/file/file-manage.service.ts
-- keeps, as `executeRestore` of src/business/trash/trash.service.ts reads it.
use file_system_spike.Base.{
  ℕ, ◌≡◌, refl, sym, ap, ◌∙◌, ◌≢◌, subst, String, str_eq, str_eq_iff, ◌||◌, Option, none, some,
  Bool-cases, inl, inr, Result, ok, err, Ensures, some_inj, ok_inj, arith, if◌then◌else◌,
}
use file_system_spike.Base.Dict.{lookup}
use file_system_spike.Files.Item.{FileEntity, FolderEntity}
use file_system_spike.Files.Paths.{build_path, before_last_slash}
use file_system_spike.Files.Paths.Parts.{built_parent, root_once}
use file_system_spike.Trash.Store.{TrashMetadata, id_or, folder_part, extract_parent_folder_path}
use file_system_spike.Files.Manage.Checks.{CheckError, Job, Tables, Services, Plan, path_of}
use file_system_spike.Files.Manage.Plans.{delete_planned}
use file_system_spike.Files.Manage.{
  queued, Managed, Call, committed, saved_outside, carry_out, delete,
}
use file_system_spike.Files.Manage.Checked.{delete_plan-Ensures}
use file_system_spike.Files.Manage.Deletion.{Left, delete-Left}

parent_of_built :
    (path name : String)
    → before_last_slash name ≡ none
    → name ≢ ""
    → path ≢ ""
    → extract_parent_folder_path (build_path path name) ≡ path
unfolding extract_parent_folder_path folder_part
parent_of_built path name whole named full =
    rw (built_parent name whole named path) (root_once name whole named path ∙ by_root)
  where
    by_root : (if str_eq path "" || str_eq path "/" then "/" else path) ≡ path
    by_root = elim (Bool-cases (str_eq path "")) [
      | inl empty ↦ absurd (full ((str_eq_iff path "").0 empty))
      | inr some_text ↦ elim (Bool-cases (str_eq path "/")) [
        | inl root ↦ rw (some_text, root) (sym ((str_eq_iff path "/").0 root))
        | inr deep ↦ rw (some_text, deep) refl
      ]
    ]

queued-path :
    (v : Services) (now : ℕ) (p : Plan) (r m : Managed) (job : Option Job) (t : Tables)
    → (queued v now p r job t).1 ≡ ok m
    → r ≡ m
unfolding queued
queued-path v now p r m none t e = ok_inj e
queued-path v now p r m (some job) t e = elim (Bool-cases (v.accepts job)) [
  | inl taken ↦ ok_inj (rw taken at e)
  | inr full ↦ absurd (ground (arith, rw full at e))
]

carry_out-path :
    (v : Services) (now : ℕ) (id path : String) (r : Result CheckError Plan) (t : Tables)
    (m : Managed)
    → Ensures (λ p. Plan.path p ≡ path) r
    → (carry_out v now id r t).1 ≡ ok m
    → m.path ≡ path
unfolding carry_out
carry_out-path v now id path (err e) t m h k = absurd (ground (arith, k))
carry_out-path v now id path (ok p) t m h k = elim (Bool-cases v.saves_file) [
  | inr lost ↦ absurd (ground (arith, rw lost at k))
  | inl filed ↦ elim (Bool-cases v.saves_event) [
    | inr lost ↦ absurd (ground (arith, rw (filed, lost) at k))
    | inl noted ↦ elim (Bool-cases v.commits) [
      | inl done ↦
          ap Managed.path (
            sym (
              queued-path v now p _ m p.job (committed id p (saved_outside p t))
                (rw (filed, noted, done) at k)))
          ∙ h
      | inr failed ↦ absurd (ground (arith, rw (filed, noted, failed) at k))
    ]
  ]
]

folder_path : (d : FolderEntity) → d.path ≢ "" → path_of (some d) ≡ d.path
unfolding id_or
folder_path d full = elim (Bool-cases (str_eq d.path "")) [
  | inl empty ↦ absurd (full ((str_eq_iff d.path "").0 empty))
  | inr other ↦ rw other refl
]

-- From the path that a successful deletion keeps in its trash row, `executeRestore` reads the path of the
-- folder that the file was in, where the folder has a path and the name of the file is not empty and has
-- no slash.
pub deleted_leads_back :
    (v : Services) (now : ℕ) (c : Call) (t : Tables) (m : Managed) (f : FileEntity)
    (d : FolderEntity)
    → lookup c.file_id t.files ≡ some f
    → lookup f.folder_id t.folders ≡ some d
    → d.path ≢ ""
    → f.name ≢ ""
    → before_last_slash f.name ≡ none
    → (delete v now c t).1 ≡ ok m
    → (row : TrashMetadata) × (lookup c.trash_id (delete v now c t).0.trash ≡ some row)
      × (extract_parent_folder_path row.original_path ≡ d.path)
unfolding delete delete_planned
deleted_leads_back v now c t m f d l ld full named whole e =
    let kept : Left c t (delete v now c t).0 (ok m) =
      subst (Left c t (delete v now c t).0) e (delete-Left v now c t) in
    let row = kept.2.row in
    (
      row,
      kept.2.found,
      ap extract_parent_folder_path (
            kept.2.path_kept
            ∙ carry_out-path v now c.file_id (build_path d.path f.name) _ t m
                (delete_plan-Ensures v now c.uuid c.trash_id c.current_user c.user_id c.file_id t
                  (λ p. Plan.path p ≡ build_path d.path f.name)
                  (λ g there. original_path g (some_inj (sym l ∙ there.0))))
                e)
          ∙ parent_of_built d.path f.name whole named full,
    )
  where
    original_path :
        (g : FileEntity)
        → f ≡ g
        → build_path (path_of (lookup g.folder_id t.folders)) g.name ≡ build_path d.path f.name
    original_path g same =
        subst
          (λ x.
            build_path (path_of (lookup (FileEntity.folder_id x) t.folders)) (FileEntity.name x)
            ≡ build_path d.path f.name)
          same (rw ld (rw (folder_path d full) refl))
