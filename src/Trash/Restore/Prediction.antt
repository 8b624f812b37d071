-- ===== src/Trash/Restore/Prediction.antt =====
-- `previewRestore` against `executeRestore` of src/business/trash/trash.service.ts.
use file_system_spike.Base.{
  ℕ, suc, ◌≡◌, refl, String, Bool, true, false, Option, none, some, if◌then◌else◌, ◌⊎◌, inl, inr,
  Bool-cases, some_inj, none_is_not_some, subst, arith,
}
use file_system_spike.Base.Dict.{lookup}
use file_system_spike.Files.File
use file_system_spike.Files.Folder
use file_system_spike.Files.Item.{FileEntity, FolderEntity}
use file_system_spike.SyncEvent.Entity.{SyncEvent}
use file_system_spike.Trash.Store.{TrashMetadata, is_file, is_folder, id_or, Job, Store, Services}
use file_system_spike.Trash.Restore.{
  RestoreItem, SkipReason, path_not_found, conflict, Run, Flow, goes_on, next_item, threw, skip,
  enqueue, restore_file, restore_file_found, restore_file_into, restore_folder,
  restore_folder_found, restore_folder_into, after_file, restore_found, restore_item, target_folder,
  named_folder, target_parent, conflicts, folder_conflicts,
}
use file_system_spike.Trash.Preview.{
  PathStatus, available, not_found, PreviewItem, path_status_of, conflict_in, folder_conflict_in,
  resolved_folder, preview_file, preview_folder, preview_metadata, preview_found, preview_item,
}

-- What a preview says will become of its item: it is skipped for a reason, or queued.
abbrev pub reason_of : PathStatus → Bool → Option SkipReason
reason_of not_found b = some path_not_found
reason_of available true = some conflict
reason_of available false = none

abbrev pub Becomes : Option SkipReason → String → String → Run → Run → Type 0
Becomes none id name r r' = (r'.queued ≡ suc r.queued) × (r'.skipped ≡ r.skipped)
Becomes (some reason) id name r r' = r' ≡ (skip id name reason r).0

-- A row of the trash is for a file or for a folder, and a file that it is for is in the trash.
pub record IsInTrash (t : TrashMetadata) (s : Store) : Type 0 where
  pub one_kind : (is_file t ≡ false) ⊎ (is_folder t ≡ false)
  pub file_trashed :
      (f : FileEntity) → lookup (id_or t.file_id "") s.files ≡ some f → File.is_trashed f ≡ true

module _ (v : Services) (now : ℕ) (uuid : ℕ → String) (current_user : Option String)
    (user_id id : String) (accepts : (job : Job) → v.accepts job ≡ true) where
  abbrev plain : RestoreItem
  plain = record { trash_metadata_id = id; target_folder_id = none; exclude = false }

  enqueue-Becomes :
      (e : SyncEvent) (job : Job) (name : String) (r : Run)
      → Becomes none id name r (enqueue v now e job r).0
  unfolding enqueue
  enqueue-Becomes e job name r = ground (arith, accepts job)

  file-Becomes :
      (t : TrashMetadata) (f : FileEntity) (o : Option String) (r : Run)
      → Becomes
          (reason_of (path_status_of o) (conflict_in o f r.store))
          id
          f.name
          r
          (restore_file_into v now uuid user_id t plain f o r).0
  unfolding restore_file_into conflict_in
  file-Becomes t f none r = refl
  file-Becomes t f (some target) r = elim (Bool-cases (conflicts target f r.store)) [
    | inl clash ↦ rw clash refl
    | inr free ↦ rw free (enqueue-Becomes _ _ f.name r)
  ]

  folder-Becomes :
      (t : TrashMetadata) (f : FolderEntity) (o : Option String) (r : Run)
      → Becomes
          (reason_of (path_status_of o) (folder_conflict_in v o f r.store))
          id
          f.name
          r
          (restore_folder_into v now uuid current_user user_id t plain f o r).0
  unfolding restore_folder_into folder_conflict_in
  folder-Becomes t f none r = refl
  folder-Becomes t f (some parent) r =
      elim (Bool-cases (folder_conflicts v parent f.name r.store)) [
        | inl clash ↦ rw clash refl
        | inr free ↦ rw free (enqueue-Becomes _ _ f.name r)
      ]

  file_predicts :
      (t : TrashMetadata) (p : PreviewItem) (o : Option FileEntity) (r : Run)
      → ((f : FileEntity) → o ≡ some f → File.is_trashed f ≡ true)
      → preview_file v id t r.store o ≡ some p
      → Becomes
          (reason_of p.path_status p.has_conflict)
          id
          p.file_name
          r
          (restore_file_found v now uuid user_id t plain o r).0
  unfolding preview_file restore_file_found resolved_folder target_folder named_folder
  file_predicts t p none r k h = cc
  file_predicts t p (some f) r k h =
      subst
        (λ q.
          Becomes (reason_of (PreviewItem.path_status q) (PreviewItem.has_conflict q)) id
            (PreviewItem.file_name q) r
            (restore_file_found v now uuid user_id t plain (some f) r).0)
        (some_inj h) (rw (k f refl) (file-Becomes t f (target_folder v t plain r.store) r))

  folder_predicts :
      (t : TrashMetadata) (p : PreviewItem) (o : Option FolderEntity) (r : Run)
      → preview_folder v id t r.store o ≡ some p
      → Becomes
          (reason_of p.path_status p.has_conflict)
          id
          p.file_name
          r
          (restore_folder_found v now uuid current_user user_id t plain o r).0
  unfolding preview_folder restore_folder_found
  folder_predicts t p none r h = cc
  folder_predicts t p (some f) r h = elim (Bool-cases (Folder.is_trashed f)) [
    | inl trashed ↦
        subst
          (λ q.
            Becomes (reason_of (PreviewItem.path_status q) (PreviewItem.has_conflict q)) id
              (PreviewItem.file_name q) r
              (restore_folder_found v now uuid current_user user_id t plain (some f) r).0)
          (some_inj (rw trashed at h))
          (rw trashed (folder-Becomes t f (target_parent v t r.store) r))
    | inr other ↦ absurd (none_is_not_some (rw other at h))
  ]

  after_file-fst :
      (t : TrashMetadata) (x : Run × Flow)
      → is_folder t ≡ false
      → (after_file v now uuid current_user user_id t plain x).0 ≡ x.0
  unfolding after_file restore_folder
  after_file-fst t (r, goes_on) h = rw h
  after_file-fst t (r, next_item) h = refl
  after_file-fst t (r, threw) h = refl

  folder_part :
      (t : TrashMetadata) (p : PreviewItem) (r : Run)
      → is_folder t ≡ true
      → preview_folder v id t r.store (lookup (id_or t.folder_id "") r.store.folders) ≡ some p
      → Becomes
          (reason_of p.path_status p.has_conflict)
          id
          p.file_name
          r
          (after_file v now uuid current_user user_id t plain (r, goes_on)).0
  unfolding after_file restore_folder
  folder_part t p r folder h =
      rw folder (folder_predicts t p (lookup (id_or t.folder_id "") r.store.folders) r h)

  predicts :
      (t : TrashMetadata) (p : PreviewItem) (r : Run)
      → IsInTrash t r.store
      → preview_metadata v id t r.store ≡ some p
      → Becomes
          (reason_of p.path_status p.has_conflict)
          id
          p.file_name
          r
          (after_file v now uuid current_user user_id t plain
            (restore_file v now uuid user_id t plain r)).0
  unfolding preview_metadata restore_file
  predicts t p r k h = elim (Bool-cases (is_file t)) [
    | inl file ↦ rw file (
        rw (after_file-fst t _ (ground (arith, file, k.one_kind))) (
          file_predicts t p (lookup (id_or t.file_id "") r.store.files) r k.file_trashed
            (rw file at h)))
    | inr other ↦ rw other (folder_case (rw other at h) (Bool-cases (is_folder t)))
  ]
    where
      folder_case :
          (if is_folder t
              then preview_folder v id t r.store (lookup (id_or t.folder_id "") r.store.folders)
              else none)
            ≡ some p
          → (is_folder t ≡ true) ⊎ (is_folder t ≡ false)
          → Becomes
              (reason_of p.path_status p.has_conflict)
              id
              p.file_name
              r
              (after_file v now uuid current_user user_id t plain (r, goes_on)).0
      folder_case g (inl folder) = folder_part t p r folder (rw folder at g)
      folder_case g (inr neither) = absurd (none_is_not_some (rw neither at g))

  -- The preview tells what `executeRestore` will do with an item whose folder the user does not name,
  -- in the same state and with a job queue that takes the job: an item that is not found is skipped for
  -- its path, one with a conflict for that, and any other one is queued. The row is for a file that is
  -- in the trash, or for a folder.
  pub preview_predicts :
      (t : TrashMetadata) (p : PreviewItem) (r : Run)
      → lookup id r.store.trash ≡ some t
      → IsInTrash t r.store
      → preview_item v id r.store ≡ some p
      → Becomes
          (reason_of p.path_status p.has_conflict)
          id
          p.file_name
          r
          (restore_item v now uuid current_user user_id
            (record { trash_metadata_id = id; target_folder_id = none; exclude = false })
            r).0
  unfolding preview_item preview_found restore_item restore_found
  preview_predicts t p r l k h = rw l (predicts t p r k (rw l at h))
