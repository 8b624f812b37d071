-- ===== src/Examples/Events.antt =====
-- The life of an event of src/domain/sync-event/entities/sync-event.entity.ts.
use file_system_spike.Base.{ℕ, some, List, [], ◌∷◌, length}
use file_system_spike.SyncEvent.Entity.{SyncEvent}
use file_system_spike.SyncEvent.FileFactory.{FileTrashParams, create_file_trash_event}
use file_system_spike.SyncEvent.Lifecycle.{Failure}
use file_system_spike.SyncEvent.Retries.{file_trash, Tried, handle_all, handle_all-Made}

abbrev failure : Failure
failure = record { message = "write failed"; cause = some "ENOSPC" }

abbrev params : FileTrashParams
params = record {
  id = "e";
  file_id = "f";
  source_path = "/a.txt";
  target_path = "/.trash/a.txt";
  original_path = "/a.txt";
  original_folder_id = "d";
  current_object_key = "20250101000000__a.txt";
  trash_path = ".trash/a.txt";
  user_id = "ann";
}

abbrev event : SyncEvent
event = create_file_trash_event params 1

abbrev failures : List (ℕ × Failure)
failures = (2, failure) ∷ (3, failure) ∷ (4, failure) ∷ (5, failure) ∷ (6, failure) ∷ []

handle_all-Made_example :
    Tried 0 3 (length failures) (handle_all failures event).0 (handle_all failures event).1
handle_all-Made_example = handle_all-Made failures (file_trash params 1)
