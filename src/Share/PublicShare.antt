-- ===== src/Share/PublicShare.antt =====
-- PublicShare of src/domain/external-share/entities/public-share.entity.ts. A method takes the time
-- that its `new Date()` reads; `undefined` is `none`. Of the fields that are filled in for display
-- only the name and the type of the file are kept.
pub mod Limits
use file_system_spike.Base.{
  ℕ, ◌+◌, String, Bool, true, false, ◌||◌, Option, some, none, List, [], ◌∷◌, leb, ltb,
  if◌then◌else◌, Result, ok, err,
}

pub data SharePermission : Type 0 where
  view download : SharePermission

pub record PublicShare : Type 0 where
  pub id : String
  pub file_id : String
  pub owner_id : String
  pub external_user_id : String
  pub internal_user_id : Option String
  pub permissions : List SharePermission
  pub file_name : String
  pub mime_type : String
  pub max_view_count : Option ℕ
  pub current_view_count : ℕ
  pub max_download_count : Option ℕ
  pub current_download_count : ℕ
  pub expires_at : Option ℕ
  pub start_at : Option ℕ
  pub is_blocked : Bool
  pub blocked_at : Option ℕ
  pub blocked_by : Option String
  pub is_revoked : Bool
  pub created_at : ℕ
  pub updated_at : Option ℕ

pub data ShareError : Type 0 where
  view_limit_exceeded download_limit_exceeded : ShareError

abbrev passed : ℕ → Option ℕ → Bool
passed now none = false
passed now (some at) = ltb at now

abbrev reached : Option ℕ → ℕ → Bool
reached none n = false
reached (some max) n = leb max n

unfoldable pub is_expired : ℕ → PublicShare → Bool
is_expired now s = passed now s.expires_at

unfoldable pub is_valid : ℕ → PublicShare → Bool
unfolding is_expired
is_valid now s =
    if s.is_blocked || s.is_revoked then false else if is_expired now s then false else true

unfoldable pub is_view_limit_exceeded : PublicShare → Bool
is_view_limit_exceeded s = reached s.max_view_count s.current_view_count

unfoldable pub is_download_limit_exceeded : PublicShare → Bool
is_download_limit_exceeded s = reached s.max_download_count s.current_download_count

unfoldable pub increment_view_count : ℕ → PublicShare → Result ShareError PublicShare
unfolding is_view_limit_exceeded
increment_view_count now s =
    if is_view_limit_exceeded s
    then err view_limit_exceeded
    else ok (record s { current_view_count = s.current_view_count + 1; updated_at = some now })

unfoldable pub increment_download_count : ℕ → PublicShare → Result ShareError PublicShare
unfolding is_download_limit_exceeded
increment_download_count now s =
    if is_download_limit_exceeded s
    then err download_limit_exceeded
    else ok
        (record s { current_download_count = s.current_download_count + 1; updated_at = some now })

abbrev same_permission : SharePermission → SharePermission → Bool
same_permission view view = true
same_permission download download = true
same_permission _ _ = false

includes_permission : List SharePermission → SharePermission → Bool
includes_permission [] p = false
includes_permission (x ∷ xs) p = if same_permission x p then true else includes_permission xs p

unfoldable pub has_permission : SharePermission → PublicShare → Bool
unfolding includes_permission
has_permission p s = includes_permission s.permissions p

unfoldable pub block : ℕ → String → PublicShare → PublicShare
block now admin_id s = record s {
  is_blocked = true;
  blocked_by = some admin_id;
  blocked_at = some now;
  updated_at = some now;
}

unfoldable pub unblock : ℕ → PublicShare → PublicShare
unblock now s = record s {
  is_blocked = false;
  blocked_by = none;
  blocked_at = none;
  updated_at = some now;
}

unfoldable pub revoke : ℕ → PublicShare → PublicShare
revoke now s = record s { is_revoked = true; updated_at = some now }
