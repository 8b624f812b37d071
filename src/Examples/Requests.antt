-- ===== src/Examples/Requests.antt =====
-- Requests of src/domain/share-request and src/domain/file-action-request.
use file_system_spike.Base.{refl, some, none, List, [], ◌∷◌}
use file_system_spike.Requests.FileAction.{FileActionRequest, FileActionType, pending}
use file_system_spike.Requests.FileAction.Execution.{Consistent, run-records}
use file_system_spike.Requests.FileAction.Execution

abbrev move : FileActionRequest
move = record {
  id = "r";
  kind = FileActionType.move;
  status = pending;
  file_id = "f";
  file_name = "a.txt";
  source_folder_id = some "d";
  target_folder_id = some "e";
  requester_id = "ann";
  designated_approver_id = "max";
  approver_id = none;
  reason = "tidy";
  decision_comment = none;
  snapshot_folder_id = "d";
  snapshot_file_state = "ACTIVE";
  execution_note = none;
  requested_at = 1;
  decided_at = none;
  executed_at = none;
  updated_at = none;
}

abbrev calls : List Execution.Call
calls =
    Execution.approves 2 "max" none
    ∷ Execution.cancels 3
    ∷ Execution.validates 4 "d" "ACTIVE"
    ∷ Execution.executes 5
    ∷ []

run-records_example : Consistent (Execution.run calls move).status (Execution.run calls move)
run-records_example = run-records calls move (refl, refl, refl)
