-- ===== src/Trash/Purge/Outcome.antt =====
-- What `purge` and `emptyTrash` of src/business/trash/trash.service.ts leave behind, by how they end.
use file_system_spike.Base.{
  ℕ, suc, ◌+◌, ◌≡◌, refl, ap, subst, inl, inr, Bool-cases, String, str_eq_iff, Bool, true, false,
  Option, none, some, List, [], ◌∷◌, if◌then◌else◌, Result, ok, err, length, length-append, arith,
}
use file_system_spike.Base.Dict.{lookup, delete, lookup-set, lookup-delete}
use file_system_spike.Files.Item.{FileEntity, FolderEntity, deleted}
use file_system_spike.Files.File
use file_system_spike.Files.Folder
use file_system_spike.Trash.Store.{TrashMetadata, is_file, is_folder, id_or, Job, Store, Services}
use file_system_spike.Trash.Purge.{
  PurgeError, trash_item_not_found, file_not_in_trash, folder_not_in_trash, invalid_item,
  queue_refused, entity_error, ItemType, file, folder, Purged, add_job, file_deleted,
  purge_file_found, folder_deleted, purge_folder_found, purge_found, purge, Emptied, counted,
  purge_all, empty_trash,
}

-- The item is deleted for good.
abbrev pub IsDeleted :
    ItemType → String → List (String × FileEntity) → List (String × FolderEntity) → Type 0
IsDeleted file i fs ds = (f : FileEntity) → lookup i fs ≡ some f → f.state ≡ deleted
IsDeleted folder i fs ds = (d : FolderEntity) → lookup i ds ≡ some d → d.state ≡ deleted

-- By the result of a purge of the row `id`: the store `t` after it against the store `s` before.
abbrev pub Outcome : String → Store → Store → Result PurgeError Purged → Type 0
Outcome id s t (ok p) =
    (lookup id t.trash ≡ none)
    × (t.events ≡ s.events)
    × (length t.jobs ≡ suc (length s.jobs))
    × IsDeleted p.item_type p.id t.files t.folders
Outcome id s t (err queue_refused) =
    (lookup id t.trash ≡ none) × (t.events ≡ s.events) × (t.jobs ≡ s.jobs)
Outcome id s t (err trash_item_not_found) = t ≡ s
Outcome id s t (err file_not_in_trash) = t ≡ s
Outcome id s t (err folder_not_in_trash) = t ≡ s
Outcome id s t (err invalid_item) = t ≡ s
Outcome id s t (err (entity_error e)) = t ≡ s

abbrev Ends : String → Store → Store × Result PurgeError Purged → Type 0
Ends id s x = Outcome id s x.0 x.1

permanent_delete-ok :
    (now : ℕ) (f : FileEntity)
    → File.is_trashed f ≡ true
    → File.permanent_delete now f ≡ ok (record f { state = deleted; updated_at = now })
unfolding File.permanent_delete File.is_trashed
permanent_delete-ok now f h = rw h

folder_permanent_delete-ok :
    (now : ℕ) (f : FolderEntity)
    → Folder.is_trashed f ≡ true
    → Folder.permanent_delete now f ≡ ok (record f { state = deleted; updated_at = now })
unfolding Folder.permanent_delete Folder.is_trashed
folder_permanent_delete-ok now f h = rw h

purge_of_none :
    (v : Services) (now : ℕ) (uuid user_id id : String) (s : Store)
    → lookup id s.trash ≡ none
    → purge v now uuid user_id id s ≡ (s, err trash_item_not_found)
unfolding purge purge_found
purge_of_none v now uuid user_id id s h = rw h

module _ (v : Services) (now : ℕ) (uuid user_id id : String) (s : Store) where
  add_job-Ends :
      (job : Job) (p : Purged) (t : Store)
      → lookup id t.trash ≡ none
      → t.events ≡ s.events
      → t.jobs ≡ s.jobs
      → IsDeleted p.item_type p.id t.files t.folders
      → Ends id s (add_job v job p t)
  unfolding add_job
  add_job-Ends job p t gone same jobs d = elim (Bool-cases (v.accepts job)) [
    | inl taken ↦
        rw taken (gone, same, omega (arith, length-append t.jobs (job ∷ []), ap length jobs), d)
    | inr refused ↦ rw refused (gone, same, jobs)
  ]

  row_gone : lookup id (delete id s.trash) ≡ none
  row_gone = ground (arith, lookup-delete id id s.trash, str_eq_iff id id)

  file_found-Ends : (o : Option FileEntity) → Ends id s (purge_file_found v now uuid user_id id o s)
  unfolding purge_file_found file_deleted
  file_found-Ends none = refl
  file_found-Ends (some f) = elim (Bool-cases (File.is_trashed f)) [
    | inl trashed ↦
        let f' : FileEntity = record f { state = deleted; updated_at = now } in
        rw trashed (
          rw (permanent_delete-ok now f trashed) (
            add_job-Ends _ _ _ row_gone refl refl
              (λ g e. ground (arith, e, lookup-set f.id f.id f' s.files, str_eq_iff f.id f.id))))
    | inr other ↦ rw other refl
  ]

  folder_found-Ends :
      (o : Option FolderEntity) → Ends id s (purge_folder_found v now uuid user_id id o s)
  unfolding purge_folder_found folder_deleted
  folder_found-Ends none = refl
  folder_found-Ends (some f) = elim (Bool-cases (Folder.is_trashed f)) [
    | inl trashed ↦
        let f' : FolderEntity = record f { state = deleted; updated_at = now } in
        rw trashed (
          rw (folder_permanent_delete-ok now f trashed) (
            add_job-Ends _ _ _ row_gone refl refl
              (λ g e. ground (arith, e, lookup-set f.id f.id f' s.folders, str_eq_iff f.id f.id))))
    | inr other ↦ rw other refl
  ]

  if-Ends :
      (b : Bool) (x y : Store × Result PurgeError Purged)
      → Ends id s x
      → Ends id s y
      → Ends id s (if b then x else y)
  if-Ends true x y h k = h
  if-Ends false x y h k = k

  found-Ends : (o : Option TrashMetadata) → Ends id s (purge_found v now uuid user_id id o s)
  unfolding purge_found
  found-Ends none = refl
  found-Ends (some t) =
      if-Ends (is_file t) _ _ (file_found-Ends (lookup (id_or t.file_id "") s.files)) (
        if-Ends (is_folder t) _ _ (folder_found-Ends (lookup (id_or t.folder_id "") s.folders))
          refl)

  -- A purge that succeeds has deleted its item for good, taken its row out of the trash and added one
  -- job, and it saves no sync event, although the job names one. A purge that the job queue refuses has
  -- taken the row out as well, without any job. Every other error leaves all as it was.
  pub purge-Outcome :
      Outcome id s (purge v now uuid user_id id s).0 (purge v now uuid user_id id s).1
  unfolding purge
  purge-Outcome = found-Ends (lookup id s.trash)

  -- A purge that the job queue refuses cannot be made up for: the next call for the row says that there
  -- is no such item, and there is no job for the stored content and no sync event.
  pub refused_purge_is_lost :
      (uuid' : String)
      → (purge v now uuid user_id id s).1 ≡ err queue_refused
      → let t = (purge v now uuid user_id id s).0 in
        (purge v now uuid' user_id id t ≡ (t, err trash_item_not_found))
        × (t.jobs ≡ s.jobs)
        × (t.events ≡ s.events)
  refused_purge_is_lost uuid' e =
      let t = (purge v now uuid user_id id s).0 in
      let o = subst (Outcome id s t) e purge-Outcome in (no_row uuid' t o.0, o.2, o.1)
    where
      no_row :
          (u : String) (t : Store)
          → lookup id t.trash ≡ none
          → purge v now u user_id id t ≡ (t, err trash_item_not_found)
      no_row u t h = purge_of_none v now u user_id id t h

module _ (v : Services) (now : ℕ) (uuid : String → String) (user_id : String) where
  counted-jobs :
      (id : String) (s : Store) (c : Emptied) (r : Result PurgeError Purged) (t : Store)
      → Outcome id s t r
      → let (t', c') = counted (t, r) c in
        (c'.success + c'.failed_count ≡ suc (c.success + c.failed_count))
        × (length t'.jobs + c.success ≡ length s.jobs + c'.success)
  unfolding counted
  counted-jobs id s c (ok p) t o = (omega arith, omega (arith, o.2))
  counted-jobs id s c (err queue_refused) t o = (omega arith, omega (arith, ap length o.2))
  counted-jobs id s c (err trash_item_not_found) t o = ground (arith, o)
  counted-jobs id s c (err file_not_in_trash) t o = ground (arith, o)
  counted-jobs id s c (err folder_not_in_trash) t o = ground (arith, o)
  counted-jobs id s c (err invalid_item) t o = ground (arith, o)
  counted-jobs id s c (err (entity_error e)) t o = ground (arith, o)

  purge_all-counts :
      (ts : List (String × TrashMetadata)) (s : Store) (c : Emptied)
      → let (t, d) = purge_all v now uuid user_id ts s c in
        (d.success + d.failed_count ≡ length ts + c.success + c.failed_count)
        × (length t.jobs + c.success ≡ length s.jobs + d.success)
  unfolding purge_all
  purge_all-counts [] s c = (omega arith, refl)
  purge_all-counts ((id, t) ∷ ts) s c =
      let x = purge v now (uuid id) user_id id s in
      let (s', c') = counted x c in
      let now_counted = counted-jobs id s c x.1 x.0 (purge-Outcome v now (uuid id) user_id id s) in
      let rest = purge_all-counts ts s' c' in
      (omega (arith, now_counted.0, rest.0), omega (arith, now_counted.1, rest.1))

  -- `emptyTrash` counts each row that was in the trash once, as deleted or as failed, and adds one job for
  -- each that it counts as deleted.
  empty_trash-counts :
      (s : Store)
      → let (t, d) = empty_trash v now uuid user_id s in
        (d.success + d.failed_count ≡ length s.trash) × (length t.jobs ≡ length s.jobs + d.success)
  unfolding empty_trash
  empty_trash-counts s =
      let c = purge_all-counts s.trash s (record { success = 0; failed_count = 0 }) in
      (omega (arith, c.0), omega (arith, c.1))
