-- ===== src/Requests/ShareRequest.antt =====
-- ShareRequest of src/domain/share-request/entities/share-request.entity.ts, with the types of
-- src/domain/share-request/type. A method takes the time that its `new Date()` reads.
pub mod Decisions
use file_system_spike.Base.{
  ℕ, String, Bool, true, false, not, Option, some, none, List, [], if◌then◌else◌, Result, ok, err,
}
use file_system_spike.Base.Text.{codes, is_blank}

pub data ShareRequestStatus : Type 0 where
  pending approved rejected canceled : ShareRequestStatus

pub data ShareTargetType : Type 0 where
  internal_user external_user : ShareTargetType

pub record ShareTarget : Type 0 where
  pub kind : ShareTargetType
  pub user_id : String

pub data SharePermissionType : Type 0 where
  view download : SharePermissionType

pub record Permission : Type 0 where
  pub kind : SharePermissionType
  pub max_downloads : Option ℕ

pub record ShareRequest : Type 0 where
  pub id : String
  pub status : ShareRequestStatus
  pub file_ids : List String
  pub requester_id : String
  pub targets : List ShareTarget
  pub permission : Permission
  pub start_at : ℕ
  pub end_at : ℕ
  pub reason : String
  pub designated_approver_id : String
  pub approver_id : Option String
  pub decided_at : Option ℕ
  pub decision_comment : Option String
  pub is_auto_approved : Bool
  pub public_share_ids : List String
  pub requested_at : ℕ
  pub updated_at : Option ℕ

pub data RequestError : Type 0 where
  only_pending comment_required : RequestError

status_is_pending : ShareRequestStatus → Bool
status_is_pending pending = true
status_is_pending _ = false

unfoldable pub is_decidable : ShareRequest → Bool
unfolding status_is_pending
is_decidable r = status_is_pending r.status

unfoldable pub approve :
    ℕ → String → Option String → ShareRequest → Result RequestError ShareRequest
unfolding is_decidable
approve now approver comment r =
    if not (is_decidable r)
    then err only_pending
    else ok (record r {
      status = approved;
      approver_id = some approver;
      decided_at = some now;
      decision_comment = comment;
      updated_at = some now;
    })

unfoldable pub reject : ℕ → String → String → ShareRequest → Result RequestError ShareRequest
unfolding is_decidable
reject now approver comment r =
    if not (is_decidable r)
    then err only_pending
    else if is_blank (codes comment)
    then err comment_required
    else ok (record r {
      status = rejected;
      approver_id = some approver;
      decided_at = some now;
      decision_comment = some comment;
      updated_at = some now;
    })

unfoldable pub cancel : ℕ → ShareRequest → Result RequestError ShareRequest
unfolding is_decidable
cancel now r =
    if not (is_decidable r)
    then err only_pending
    else ok (record r { status = canceled; updated_at = some now })
