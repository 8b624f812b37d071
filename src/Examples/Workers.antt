-- ===== src/Examples/Workers.antt =====
-- Runs of the handlers that move a stored file.
use file_system_spike.Base.{◌≡◌, refl, String, ok, [], ◌∷◌}
use file_system_spike.Base.Dict.{lookup}
use file_system_spike.Base.Text.{text_of}
use file_system_spike.Files.StorageObject.{is_available, status_is_available}
use file_system_spike.SyncEvent.Lifecycle.{mark_processing}
use file_system_spike.Files.NasMoves.{
  NasAnswer, moved, not_there, World, TrashJob, execute_trash, trash_found, move_on_nas, after_move,
  finished, is_done,
}
use file_system_spike.Files.NasMoves.Twice.{trash_once}
use file_system_spike.Examples.Manage.{tables, on_nas}

abbrev world : World
world = record { tables = tables; moves = [] }

abbrev to_trash : TrashJob
to_trash = record {
  file_id = "f1";
  current_object_key = "20260203023315__a.txt";
  trash_path = ".trash/t1__20260203023315__a.txt";
  sync_event_id = "e1";
}

abbrev obeys : String → String → NasAnswer
obeys source target = moved

abbrev finds_nothing : String → String → NasAnswer
finds_nothing source target = not_there

trashes : (execute_trash obeys 9 to_trash world).1 ≡ ok tt
unfolding execute_trash trash_found move_on_nas after_move finished is_done text_of lookup
    is_available status_is_available
trashes = refl

one_move :
    (execute_trash obeys 9 to_trash world).0.moves
    ≡ ("20260203023315__a.txt", ".trash/t1__20260203023315__a.txt") ∷ []
unfolding execute_trash trash_found move_on_nas after_move finished is_done text_of lookup
    is_available status_is_available mark_processing
one_move = refl

trash_once_example :
    let u = (execute_trash obeys 9 to_trash world).0 in
    let r = execute_trash finds_nothing 10 to_trash u in
    (r.1 ≡ ok tt) × (r.0.tables.objects ≡ u.tables.objects) × (r.0.moves ≡ u.moves)
unfolding lookup
trash_once_example = trash_once obeys finds_nothing 9 10 to_trash world on_nas refl trashes
