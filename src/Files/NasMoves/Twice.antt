-- ===== src/Files/NasMoves/Twice.antt =====
-- The handlers of src/business/worker/handlers that move a stored file, called twice for one job.
use file_system_spike.Base.{
  ℕ, ◌≡◌, refl, String, str_eq_iff, true, Option, some, ltb, inl, inr, Bool-cases, ok, arith,
}
use file_system_spike.Base.Dict.{lookup, lookup-set_own}
use file_system_spike.Base.Text.{codes, text_of-codes}
use file_system_spike.Files.Item.{FolderEntity, state_is_active}
use file_system_spike.Files.StorageObject.{
  FileStorageObject, available, is_available, status_is_available, update_status, update_object_key,
}
use file_system_spike.SyncEvent.Entity.{SyncEvent}
use file_system_spike.SyncEvent.Lifecycle.{mark_processing}
use file_system_spike.Files.NasMoves.{
  NasAnswer, moved, not_there, exists_already, failed, World, MoveJob, TrashJob, with_effect,
  finished, given_up, after_move, move_on_nas, is_done, trash_found, execute_trash, move_found,
  execute_move,
}

-- The object of the file is available under the key.
abbrev IsAt : String → String → World → Type 0
IsAt id key w =
    (o : FileStorageObject) × (lookup id w.tables.objects ≡ some o) × (is_done key o ≡ true)

at_key-is_done :
    (now : ℕ) (key : String) (o : FileStorageObject)
    → is_done key (update_object_key now (codes key) (update_status now available o)) ≡ true
unfolding is_done is_available status_is_available update_status update_object_key
at_key-is_done now key o = rw (text_of-codes key) ((str_eq_iff key key).1 refl)

module _ (nas : String → String → NasAnswer) (now : ℕ) where
  after_move-IsAt :
      (id key : String) (o : FileStorageObject) (e : Option SyncEvent) (w : World) (a : NasAnswer)
      → (after_move nas now id key o e w a).1 ≡ ok tt
      → IsAt id key (after_move nas now id key o e w a).0
  unfolding after_move finished given_up
  after_move-IsAt id key o e w (failed f) h = absurd (ground (arith, h))
  after_move-IsAt id key o e w moved h =
      (_, lookup-set_own id id _ w.tables.objects refl, at_key-is_done now key o)
  after_move-IsAt id key o e w not_there h =
      (_, lookup-set_own id id _ w.tables.objects refl, at_key-is_done now key o)
  after_move-IsAt id key o e w exists_already h =
      (_, lookup-set_own id id _ w.tables.objects refl, at_key-is_done now key o)

  trash_found-IsAt :
      (j : TrashJob) (e : Option SyncEvent) (o : FileStorageObject) (w : World)
      → lookup j.file_id w.tables.objects ≡ some o
      → (trash_found nas now j e (some o) w).1 ≡ ok tt
      → IsAt j.file_id j.trash_path (trash_found nas now j e (some o) w).0
  unfolding trash_found finished given_up move_on_nas
  trash_found-IsAt j e o w l h = elim (Bool-cases (is_done j.trash_path o)) [
    | inl there ↦ rw there (o, l, there)
    | inr away ↦ elim (Bool-cases (ltb 0 o.lease_count)) [
      | inl used ↦ absurd (ground (arith, rw (away, used) at h))
      | inr free ↦
          rw (away, free)
            (after_move-IsAt j.file_id j.trash_path o e _ (nas j.current_object_key j.trash_path)
              (rw (away, free) at h))
    ]
  ]

  trash_of_moved :
      (j : TrashJob) (e : Option SyncEvent) (o : FileStorageObject) (w : World)
      → is_done j.trash_path o ≡ true
      → let r = trash_found nas now j e (some o) w in
        (r.1 ≡ ok tt) × (r.0.tables.objects ≡ w.tables.objects) × (r.0.moves ≡ w.moves)
  unfolding trash_found finished
  trash_of_moved j e o w h = rw h (refl, refl, refl)

  move_found-IsAt :
      (j : MoveJob) (e : Option SyncEvent) (o : FileStorageObject) (d : FolderEntity) (w : World)
      → lookup j.file_id w.tables.objects ≡ some o
      → lookup j.target_folder_id w.tables.folders ≡ some d
      → state_is_active d.state ≡ true
      → (move_found nas now j e (some o) w).1 ≡ ok tt
      → IsAt j.file_id j.target_path (move_found nas now j e (some o) w).0
  unfolding move_found finished move_on_nas
  move_found-IsAt j e o d w l ld live h = elim (Bool-cases (is_done j.target_path o)) [
    | inl there ↦ rw there (o, l, there)
    | inr away ↦ rw away (
        rw ld (
          rw live (
            after_move-IsAt j.file_id j.target_path o e _ (nas j.source_path j.target_path)
              (rw live at (rw ld at (rw away at h))))))
  ]

  move_of_moved :
      (j : MoveJob) (e : Option SyncEvent) (o : FileStorageObject) (w : World)
      → is_done j.target_path o ≡ true
      → let r = move_found nas now j e (some o) w in
        (r.1 ≡ ok tt) × (r.0.tables.objects ≡ w.tables.objects) × (r.0.moves ≡ w.moves)
  unfolding move_found finished
  move_of_moved j e o w h = rw h (refl, refl, refl)

-- A job of the trash that has been done is not done again: after an `execute` that succeeded, for a file
-- that has a NAS object, a second `execute` of the job succeeds, asks nothing of the NAS and leaves the
-- NAS objects as they are, whatever the NAS answered and would answer.
pub trash_once :
    (nas again : String → String → NasAnswer) (now later : ℕ) (j : TrashJob) (w : World)
    (o : FileStorageObject)
    → lookup j.file_id w.tables.objects ≡ some o
    → (execute_trash nas now j w).1 ≡ ok tt
    → let u = (execute_trash nas now j w).0 in
      let r = execute_trash again later j u in
      (r.1 ≡ ok tt) × (r.0.tables.objects ≡ u.tables.objects) × (r.0.moves ≡ u.moves)
unfolding execute_trash
trash_once nas again now later j w o l h =
    let start = mark_processing now (lookup j.sync_event_id w.tables.events) in
    let done : IsAt j.file_id j.trash_path (execute_trash nas now j w).0 =
      rw l (trash_found-IsAt nas now j start.event o (with_effect start w) l (rw l at h)) in
    let u = (execute_trash nas now j w).0 in
    let start' = mark_processing later (lookup j.sync_event_id u.tables.events) in
    rw done.1 (trash_of_moved again later j start'.event done.0 (with_effect start' u) done.2)

-- A job that moves a file into a folder that is active is not done again either.
move_once :
    (nas again : String → String → NasAnswer) (now later : ℕ) (j : MoveJob) (w : World)
    (o : FileStorageObject) (d : FolderEntity)
    → lookup j.file_id w.tables.objects ≡ some o
    → lookup j.target_folder_id w.tables.folders ≡ some d
    → state_is_active d.state ≡ true
    → (execute_move nas now j w).1 ≡ ok tt
    → let u = (execute_move nas now j w).0 in
      let r = execute_move again later j u in
      (r.1 ≡ ok tt) × (r.0.tables.objects ≡ u.tables.objects) × (r.0.moves ≡ u.moves)
unfolding execute_move
move_once nas again now later j w o d l ld live h =
    let start = mark_processing now (lookup j.sync_event_id w.tables.events) in
    let done : IsAt j.file_id j.target_path (execute_move nas now j w).0 =
      rw l
        (move_found-IsAt nas now j start.event o d (with_effect start w) l ld live (rw l at h)) in
    let u = (execute_move nas now j w).0 in
    let start' = mark_processing later (lookup j.sync_event_id u.tables.events) in
    rw done.1 (move_of_moved again later j start'.event done.0 (with_effect start' u) done.2)
