-- ===== src/Requests/FileAction.antt =====
-- FileActionRequest of src/domain/file-action-request/entities/file-action-request.entity.ts, with
-- its enums. A method takes the time that its `new Date()` reads.
pub mod Execution
use Prim.Native.String
use file_system_spike.Base.{
  ℕ, String, str_eq, Bool, true, false, not, Option, some, if◌then◌else◌, Result, ok, err,
}
use file_system_spike.Base.Text.{codes, is_blank}

pub data FileActionType : Type 0 where
  move delete : FileActionType

pub data FileActionRequestStatus : Type 0 where
  pending approved rejected canceled executed invalidated failed : FileActionRequestStatus

pub record FileActionRequest : Type 0 where
  pub id : String
  pub kind : FileActionType
  pub status : FileActionRequestStatus
  pub file_id : String
  pub file_name : String
  pub source_folder_id : Option String
  pub target_folder_id : Option String
  pub requester_id : String
  pub designated_approver_id : String
  pub approver_id : Option String
  pub reason : String
  pub decision_comment : Option String
  pub snapshot_folder_id : String
  pub snapshot_file_state : String
  pub execution_note : Option String
  pub requested_at : ℕ
  pub decided_at : Option ℕ
  pub executed_at : Option ℕ
  pub updated_at : Option ℕ

pub data ActionError : Type 0 where
  only_pending comment_required only_approved : ActionError

status_is_pending : FileActionRequestStatus → Bool
status_is_pending pending = true
status_is_pending _ = false

status_is_approved : FileActionRequestStatus → Bool
status_is_approved approved = true
status_is_approved _ = false

unfoldable pub is_decidable : FileActionRequest → Bool
unfolding status_is_pending
is_decidable r = status_is_pending r.status

unfoldable pub is_executable : FileActionRequest → Bool
unfolding status_is_approved
is_executable r = status_is_approved r.status

unfoldable pub approve :
    ℕ → String → Option String → FileActionRequest → Result ActionError FileActionRequest
unfolding is_decidable
approve now approver comment r =
    if not (is_decidable r)
    then err only_pending
    else ok (record r {
      status = approved;
      approver_id = some approver;
      decided_at = some now;
      decision_comment = comment;
      updated_at = some now;
    })

unfoldable pub reject :
    ℕ → String → String → FileActionRequest → Result ActionError FileActionRequest
unfolding is_decidable
reject now approver comment r =
    if not (is_decidable r)
    then err only_pending
    else if is_blank (codes comment)
    then err comment_required
    else ok (record r {
      status = rejected;
      approver_id = some approver;
      decided_at = some now;
      decision_comment = some comment;
      updated_at = some now;
    })

unfoldable pub cancel : ℕ → FileActionRequest → Result ActionError FileActionRequest
unfolding is_decidable
cancel now r =
    if not (is_decidable r)
    then err only_pending
    else ok (record r { status = canceled; updated_at = some now })

abbrev change_note : String → String → String → String
change_note what before now =
    String.◌++◌ what (
      String.◌++◌ " 변경됨 (요청 시점: " (String.◌++◌ before (String.◌++◌ ", 현재: " (String.◌++◌ now ")"))))

-- The request after the call, and what the call returns.
unfoldable pub validate_state_for_execution :
    ℕ → String → String → FileActionRequest → Result ActionError (FileActionRequest × Bool)
unfolding is_executable
validate_state_for_execution now folder state r =
    if not (is_executable r)
    then err only_approved
    else if not (str_eq r.snapshot_folder_id folder)
    then ok (
      record r {
        status = invalidated;
        execution_note = some (change_note "파일 위치" r.snapshot_folder_id folder);
        updated_at = some now;
      },
      false,
    )
    else if not (str_eq state "ACTIVE")
    then ok (
      record r {
        status = invalidated;
        execution_note = some (change_note "파일 상태" r.snapshot_file_state state);
        updated_at = some now;
      },
      false,
    )
    else ok (r, true)

unfoldable pub mark_executed : ℕ → FileActionRequest → Result ActionError FileActionRequest
unfolding is_executable
mark_executed now r =
    if not (is_executable r)
    then err only_approved
    else ok (record r { status = executed; executed_at = some now; updated_at = some now })

unfoldable pub mark_failed : ℕ → String → FileActionRequest → Result ActionError FileActionRequest
unfolding is_executable
mark_failed now reason r =
    if not (is_executable r)
    then err only_approved
    else ok (record r { status = failed; execution_note = some reason; updated_at = some now })
