-- ===== src/Trash/Restore/Counts.antt =====
-- What a call of `executeRestore` of src/business/trash/trash.service.ts has done when it returns, and
-- what `getRestoreStatus` says of it.
use file_system_spike.Base.{
  ℕ, ◌+◌, ◌≡◌, refl, String, Bool, true, false, Option, none, some, List, [], ◌∷◌, not,
  if◌then◌else◌, length, length-append, arith,
}
use file_system_spike.Base.Dict.{
  lookup, set, lookup-set, has, has-append, DistinctKeys, DistinctKeys-set,
}
use file_system_spike.Files.File
use file_system_spike.Files.Folder
use file_system_spike.Files.Item.{FileEntity, FolderEntity}
use file_system_spike.SyncEvent.Entity.{SyncEvent, queued, mark_queued}
use file_system_spike.Trash.Store.{TrashMetadata, is_file, is_folder, id_or, Job, Store, Services}
use file_system_spike.Trash.Restore.{
  RestoreItem, SkipReason, Run, Flow, goes_on, next_item, threw, skip, enqueue, restore_file,
  restore_file_found, restore_file_into, restore_folder, restore_folder_found, restore_folder_into,
  go_on_with, after_file, restore_found, restore_item, restore_items, first_run, execute_restore,
  target_folder, target_parent, conflicts, folder_conflicts,
}

-- The events that the call has made are queued.
abbrev pub EventsQueued : List String → List (String × SyncEvent) → Type 0
EventsQueued ids es =
    (k : String) (e : SyncEvent) → has ids k ≡ true → lookup k es ≡ some e → e.status ≡ queued

-- The counters against the lists, and what the call leaves alone. `s` is the store at the start.
pub record Counted (s : Store) (r : Run) : Type 0 where
  pub keys : DistinctKeys r.store.events
  pub waiting : EventsQueued r.sync_event_ids r.store.events
  pub ids : length r.sync_event_ids ≡ r.queued
  pub skips : length r.skipped_items ≡ r.skipped
  pub jobs : length r.store.jobs ≡ length s.jobs + r.queued
  pub trash : r.store.trash ≡ s.trash
  pub files : r.store.files ≡ s.files
  pub folders : r.store.folders ≡ s.folders

-- A part of the body that does not throw keeps that.
abbrev Keeps : Store → Run × Flow → Type 0
Keeps s (r, goes_on) = Counted s r
Keeps s (r, next_item) = Counted s r
Keeps s (r, threw) = Unit {0}

module _ (s : Store) where
  go_on_with-Counted :
      (rest : Run → Run × Bool)
      → ((r : Run) → Counted s r → (rest r).1 ≡ true → Counted s (rest r).0)
      → (x : Run × Flow) → Keeps s x
      → (go_on_with rest x).1 ≡ true
      → Counted s (go_on_with rest x).0
  unfolding go_on_with
  go_on_with-Counted rest keep (r, goes_on) c e = keep r c e
  go_on_with-Counted rest keep (r, next_item) c e = keep r c e
  go_on_with-Counted rest keep (r, threw) c e = cc

  if-Keeps : (b : Bool) (x y : Run × Flow) → Keeps s x → Keeps s y → Keeps s (if b then x else y)
  if-Keeps true x y h k = h
  if-Keeps false x y h k = k

  skip-Keeps :
      (id name : String) (reason : SkipReason) (r : Run)
      → Counted s r
      → Keeps s (skip id name reason r)
  skip-Keeps id name reason r c = record {
    keys = c.keys;
    waiting = c.waiting;
    ids = c.ids;
    skips = omega (arith, c.skips, length-append r.skipped_items _);
    jobs = c.jobs;
    trash = c.trash;
    files = c.files;
    folders = c.folders;
  }

  module _ (v : Services) (now : ℕ) where
    enqueue_taken :
        (b : Bool) (e : SyncEvent) (job : Job) (r : Run)
        → v.accepts job ≡ b
        → Counted s r
        → Keeps s (enqueue v now e job r)
    unfolding enqueue mark_queued
    enqueue_taken false e job r a c = rw a tt
    enqueue_taken true e job r a c = rw a (record {
      keys = DistinctKeys-set e.id _ _ (DistinctKeys-set e.id e _ c.keys);
      waiting = λ k f h l. ground (
        arith,
        h,
        l,
        c.waiting k f,
        has-append r.sync_event_ids e.id k,
        lookup-set e.id k (mark_queued now e) (set e.id e r.store.events),
        lookup-set e.id k e r.store.events,
      );
      ids = omega (arith, c.ids, length-append r.sync_event_ids (e.id ∷ []));
      skips = c.skips;
      jobs = omega (arith, c.jobs, length-append r.store.jobs (job ∷ []));
      trash = c.trash;
      files = c.files;
      folders = c.folders;
    })

    enqueue-Keeps :
        (e : SyncEvent) (job : Job) (r : Run) → Counted s r → Keeps s (enqueue v now e job r)
    enqueue-Keeps e job r c = enqueue_taken (v.accepts job) e job r refl c

    module _ (uuid : ℕ → String) (user_id : String) where
      into-Keeps :
          (t : TrashMetadata) (item : RestoreItem) (f : FileEntity) (o : Option String) (r : Run)
          → Counted s r
          → Keeps s (restore_file_into v now uuid user_id t item f o r)
      unfolding restore_file_into
      into-Keeps t item f none r c = skip-Keeps _ _ _ r c
      into-Keeps t item f (some target) r c =
          if-Keeps (conflicts target f r.store) _ _ (skip-Keeps _ _ _ r c) (enqueue-Keeps _ _ r c)

      file_found-Keeps :
          (t : TrashMetadata) (item : RestoreItem) (o : Option FileEntity) (r : Run)
          → Counted s r
          → Keeps s (restore_file_found v now uuid user_id t item o r)
      unfolding restore_file_found
      file_found-Keeps t item none r c = c
      file_found-Keeps t item (some f) r c =
          if-Keeps (not (File.is_trashed f)) _ _ c
            (into-Keeps t item f (target_folder v t item r.store) r c)

      restore_file-Keeps :
          (t : TrashMetadata) (item : RestoreItem) (r : Run)
          → Counted s r
          → Keeps s (restore_file v now uuid user_id t item r)
      unfolding restore_file
      restore_file-Keeps t item r c =
          if-Keeps (is_file t) _ _
            (file_found-Keeps t item (lookup (id_or t.file_id "") r.store.files) r c) c

      module _ (current_user : Option String) where
        folder_into-Keeps :
            (t : TrashMetadata) (item : RestoreItem) (f : FolderEntity) (o : Option String)
            (r : Run)
            → Counted s r
            → Keeps s (restore_folder_into v now uuid current_user user_id t item f o r)
        unfolding restore_folder_into
        folder_into-Keeps t item f none r c = skip-Keeps _ _ _ r c
        folder_into-Keeps t item f (some parent) r c =
            if-Keeps (folder_conflicts v parent f.name r.store) _ _ (skip-Keeps _ _ _ r c)
              (enqueue-Keeps _ _ r c)

        folder_found-Keeps :
            (t : TrashMetadata) (item : RestoreItem) (o : Option FolderEntity) (r : Run)
            → Counted s r
            → Keeps s (restore_folder_found v now uuid current_user user_id t item o r)
        unfolding restore_folder_found
        folder_found-Keeps t item none r c = c
        folder_found-Keeps t item (some f) r c =
            if-Keeps (not (Folder.is_trashed f)) _ _ c
              (folder_into-Keeps t item f (target_parent v t r.store) r c)

        restore_folder-Keeps :
            (t : TrashMetadata) (item : RestoreItem) (r : Run)
            → Counted s r
            → Keeps s (restore_folder v now uuid current_user user_id t item r)
        unfolding restore_folder
        restore_folder-Keeps t item r c =
            if-Keeps (is_folder t) _ _
              (folder_found-Keeps t item (lookup (id_or t.folder_id "") r.store.folders) r c) c

        after_file-Keeps :
            (t : TrashMetadata) (item : RestoreItem) (x : Run × Flow)
            → Keeps s x
            → Keeps s (after_file v now uuid current_user user_id t item x)
        unfolding after_file
        after_file-Keeps t item (r, goes_on) c = restore_folder-Keeps t item r c
        after_file-Keeps t item (r, next_item) c = c
        after_file-Keeps t item (r, threw) c = c

        found-Keeps :
            (item : RestoreItem) (o : Option TrashMetadata) (r : Run)
            → Counted s r
            → Keeps s (restore_found v now uuid current_user user_id item o r)
        unfolding restore_found
        found-Keeps item none r c = c
        found-Keeps item (some t) r c =
            after_file-Keeps t item (restore_file v now uuid user_id t item r)
              (restore_file-Keeps t item r c)

        restore_item-Keeps :
            (item : RestoreItem) (r : Run)
            → Counted s r
            → Keeps s (restore_item v now uuid current_user user_id item r)
        unfolding restore_item
        restore_item-Keeps item r c =
            if-Keeps item.exclude _ _
              (record {
                keys = c.keys;
                waiting = c.waiting;
                ids = c.ids;
                skips = c.skips;
                jobs = c.jobs;
                trash = c.trash;
                files = c.files;
                folders = c.folders;
              })
              (found-Keeps item (lookup item.trash_metadata_id r.store.trash) r c)

        restore_items-Counted :
            (items : List RestoreItem) (r : Run)
            → Counted s r
            → (restore_items v now uuid current_user user_id items r).1 ≡ true
            → Counted s (restore_items v now uuid current_user user_id items r).0
        unfolding restore_items
        restore_items-Counted [] r c e = c
        restore_items-Counted (item ∷ items) r c e =
            go_on_with-Counted (restore_items v now uuid current_user user_id items)
              (restore_items-Counted items) _ (restore_item-Keeps item r c) e

module _ (v : Services) (now : ℕ) (uuid : ℕ → String) (current_user : Option String)
    (user_id : String) (items : List RestoreItem) (s : Store) where
  first_run-Counted : DistinctKeys s.events → Counted s (first_run s)
  unfolding has
  first_run-Counted d = record {
    keys = d;
    waiting = λ k e h. cc;
    ids = refl;
    skips = refl;
    jobs = omega arith;
    trash = refl;
    files = refl;
    folders = refl;
  }

  -- When `executeRestore` returns, nothing is restored yet: the files, the folders and the trash are as
  -- they were, each of the queued items has added one job and one id, and each skipped item is
  -- listed.
  pub execute_restore-Counted :
      DistinctKeys s.events
      → (execute_restore v now uuid current_user user_id items s).1 ≡ true
      → Counted s (execute_restore v now uuid current_user user_id items s).0
  unfolding execute_restore
  execute_restore-Counted d e =
      restore_items-Counted s v now uuid user_id current_user items _ (first_run-Counted d) e
