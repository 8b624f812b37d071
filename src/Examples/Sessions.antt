-- ===== src/Examples/Sessions.antt =====
-- Sessions and parts of src/domain/upload-session/entities, and callers of
-- src/common/utils/semaphore.ts.
use file_system_spike.Base.{◌≡◌, refl, inl, false, some, none, List, [], ◌∷◌, ok, err, arith}
use file_system_spike.Base.Int.{pos}
use file_system_spike.Upload.Session.{
  UploadSession, CreateParams, completing, create, mark_part_completed, abort, expire, ceil_div,
  includes, sort, can_upload_part, not_abortable, not_expirable,
}
use file_system_spike.Upload.Session.Life.{
  Call, uploads, streams, completes, aborts, run, IsMerged, Inv, run-create-Inv, run-IsMerged,
}
use file_system_spike.Concurrency.Semaphore.{Semaphore, new, acquire}
use file_system_spike.Concurrency.Semaphore.Protocol.{
  System, Reach, here, next, acquires, releases, holders-Inv, acquire_all, release_times,
}
use file_system_spike.Concurrency.Semaphore.Protocol

abbrev params : CreateParams
params = record {
  id = "s";
  file_name = "video.mp4";
  folder_id = "root-id";
  total_size = 25;
  mime_type = "video/mp4";
  part_size = some 10;
  upload_id = none;
}

-- A session of three parts with two uploaded, the last one first.
abbrev two_parts : UploadSession
two_parts = mark_part_completed 2 1 10 (mark_part_completed 1 3 5 (create params 0))

abbrev three_parts : UploadSession
three_parts = mark_part_completed 3 2 10 two_parts

abbrev merging : UploadSession
merging = record three_parts { status = completing; file_id = some "file" }

merging-Inv : Inv merging
unfolding create ceil_div mark_part_completed includes sort
merging-Inv = record {
  parts = record { rising = ground arith };
  merged_full = λ m. refl;
  merged_file = λ m. refl;
  untouched = λ e. absurd (cc e);
}

abbrev calls : List Call
calls = uploads 1 3 5 false ∷ aborts 2 ∷ streams 3 1 10 ∷ completes 4 "file" ∷ []

run-create-Inv_example : Inv (run calls (create params 0))
run-create-Inv_example = run-create-Inv params 0 calls

run-IsMerged_example :
    let t = run calls merging in
    IsMerged t.status
    × (t.completed_parts ≡ merging.completed_parts)
    × (abort 9 t ≡ err not_abortable)
    × (expire 9 t ≡ err not_expirable)
    × (can_upload_part 9 2 t ≡ false)
run-IsMerged_example = run-IsMerged calls merging 9 2 merging-Inv (inl refl)

abbrev pair_of_slots : Semaphore
pair_of_slots = record { max = 2; current = pos 0; wait_queue = [] }

made : new 2 ≡ ok pair_of_slots
unfolding new
made = refl

abbrev idle : System
idle = record { sem = pair_of_slots; holders = [] }

abbrev one_in : System
one_in = record { sem = (acquire 7 pair_of_slots).0; holders = 7 ∷ [] }

one_step : Reach idle (record {
  sem = (acquire 7 pair_of_slots).0;
  holders = Protocol.admit (acquire 7 pair_of_slots).1 7 [];
})
one_step = next here (acquires idle 7)

holders-Inv_example : Protocol.Inv (record {
  sem = (acquire 7 pair_of_slots).0;
  holders = Protocol.admit (acquire 7 pair_of_slots).1 7 [];
})
holders-Inv_example = holders-Inv 2 made one_step
