-- ===== src/Requests/FileAction/Execution.antt =====
-- From the decision to the execution, for any calls of
-- src/domain/file-action-request/entities/file-action-request.entity.ts.
use file_system_spike.Base.{
  ℕ, ◌≡◌, refl, String, str_eq_iff, Bool, true, false, Option, some, none, List, [], ◌∷◌, arith,
  is_some, Result, ok, err, after, ◌↔◌,
}
use file_system_spike.Base.Text.{codes, is_blank}
use file_system_spike.Requests.FileAction.{
  FileActionRequest, FileActionRequestStatus, ActionError, pending, approved, rejected, canceled,
  executed, invalidated, failed, is_decidable, is_executable, approve, reject, cancel,
  validate_state_for_execution, mark_executed, mark_failed,
}

pub data Call : Type 0 where
  approves : ℕ → String → Option String → Call
  rejects : ℕ → String → String → Call
  cancels : ℕ → Call
  validates : ℕ → String → String → Call
  executes : ℕ → Call
  fails : ℕ → String → Call

abbrev checked :
    FileActionRequest → Result ActionError (FileActionRequest × Bool) → FileActionRequest
checked r (ok (r', b)) = r'
checked r (err e) = r

-- A call that throws leaves the request as it was.
unfoldable pub step : Call → FileActionRequest → FileActionRequest
step (approves now user comment) r = after r (approve now user comment r)
step (rejects now user comment) r = after r (reject now user comment r)
step (cancels now) r = after r (cancel now r)
step (validates now folder state) r = checked r (validate_state_for_execution now folder state r)
step (executes now) r = after r (mark_executed now r)
step (fails now reason) r = after r (mark_failed now reason r)

unfoldable pub run : List Call → FileActionRequest → FileActionRequest
run [] r = r
run (c ∷ cs) r = run cs (step c r)

step-settled :
    (c : Call) (r : FileActionRequest)
    → is_decidable r ≡ false
    → is_executable r ≡ false
    → step c r ≡ r
unfolding step approve reject cancel validate_state_for_execution mark_executed mark_failed
step-settled (approves now user comment) r d e = ground arith
step-settled (rejects now user comment) r d e = ground arith
step-settled (cancels now) r d e = ground arith
step-settled (validates now folder state) r d e = ground arith
step-settled (executes now) r d e = ground arith
step-settled (fails now reason) r d e = ground arith

-- A request that is neither pending nor approved is settled: no calls change it, so that a request is
-- executed, failed or invalidated at most once.
settled_is_final :
    (cs : List Call) (r : FileActionRequest)
    → is_decidable r ≡ false
    → is_executable r ≡ false
    → run cs r ≡ r
unfolding run
settled_is_final [] r d e = refl
settled_is_final (c ∷ cs) r d e = rw (step-settled c r d e) (settled_is_final cs r d e)

abbrev Undecided : FileActionRequest → Type 0
Undecided r = (r.approver_id ≡ none) × (r.decided_at ≡ none) × (r.executed_at ≡ none)

abbrev Decided : FileActionRequest → Type 0
Decided r = (is_some r.approver_id ≡ true) × (is_some r.decided_at ≡ true)

abbrev NonBlank : Option String → Type 0
NonBlank none = ⊥
NonBlank (some s) = is_blank (codes s) ≡ false

-- What the fields say in each status.
abbrev pub Consistent : FileActionRequestStatus → FileActionRequest → Type 0
Consistent pending r = Undecided r
Consistent canceled r = Undecided r
Consistent approved r = Decided r × (r.executed_at ≡ none)
Consistent rejected r = Decided r × (r.executed_at ≡ none) × NonBlank r.decision_comment
Consistent executed r = Decided r × (is_some r.executed_at ≡ true)
Consistent invalidated r = Decided r × (r.executed_at ≡ none) × (is_some r.execution_note ≡ true)
Consistent failed r = Decided r × (r.executed_at ≡ none) × (is_some r.execution_note ≡ true)

step-Consistent :
    (c : Call) (r : FileActionRequest)
    → Consistent r.status r
    → Consistent (step c r).status (step c r)
unfolding step approve reject cancel validate_state_for_execution mark_executed mark_failed
step-Consistent (approves now user comment) r k = ground arith
step-Consistent (rejects now user comment) r k = ground arith
step-Consistent (cancels now) r k = ground arith
step-Consistent (validates now folder state) r k = ground arith
step-Consistent (executes now) r k = ground arith
step-Consistent (fails now reason) r k = ground arith

-- Any calls keep the record in step with the status: nothing is executed, failed or invalidated
-- without an approver and the time of the decision; exactly an executed request has the time of its
-- execution; a failed or invalidated one has a note, a rejected one a comment that is not blank.
pub run-records :
    (cs : List Call) (r : FileActionRequest)
    → Consistent r.status r
    → Consistent (run cs r).status (run cs r)
unfolding run
run-records [] r k = k
run-records (c ∷ cs) r k = run-records cs (step c r) (step-Consistent c r k)

-- The optimistic check passes exactly when the request is approved, the file is still in the folder
-- of the snapshot and it is active; the request is then unchanged. The state of the snapshot plays no
-- part.
validation_passes :
    (now : ℕ) (folder state : String) (r r' : FileActionRequest)
    → (validate_state_for_execution now folder state r ≡ ok (r', true))
      ↔ ((r.status ≡ approved) × (r.snapshot_folder_id ≡ folder) × (state ≡ "ACTIVE") × (r' ≡ r))
unfolding validate_state_for_execution
validation_passes now folder state r r' =
    ground (arith, str_eq_iff r.snapshot_folder_id folder, str_eq_iff state "ACTIVE")
