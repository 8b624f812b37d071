-- ===== src/Share/Access.antt =====
-- ExternalShareAccessService of src/business/external-share/external-share-access.service.ts, with the
-- logs of src/domain/external-share/entities/share-access-log.entity.ts. The shares and the external
-- users are tables; `downloadWithRange` is an argument, `none` where it throws. A request runs to its
-- end with no other between its awaits.
pub mod Rules
pub mod Tokens
use Prim.Native.String
use file_system_spike.Base.{
  ℕ, ◌+◌, String, str_eq, Bool, true, false, not, ◌&&◌, ◌||◌, Option, some, none, List, [], ◌∷◌,
  ◌++◌, if◌then◌else◌, Result, ok, err, ◌>>=◌,
}
use file_system_spike.Base.Dict.{lookup, set}
use file_system_spike.Share.PublicShare.{
  SharePermission, view, download, PublicShare, ShareError, view_limit_exceeded,
  download_limit_exceeded, is_expired, is_view_limit_exceeded, is_download_limit_exceeded,
  increment_view_count, increment_download_count, has_permission,
}
use file_system_spike.Share.TokenStore.{TokenData, TokenStore, set_token, del_token, get_token}

pub data Denial : Type 0 where
  share_blocked_by_admin token_invalid token_used token_share_mismatch share_not_found share_blocked
        share_revoked user_blocked share_expired view_limit download_limit permission_denied
        access_denied download_failed :
      Denial

-- `AccessAction` has the two values of `SharePermission`.
pub record AccessParams : Type 0 where
  pub external_user_id : String
  pub share_id : String
  pub token : String
  pub action : SharePermission
  pub ip_address : String
  pub user_agent : String
  pub device_type : String
  pub range_header : Option String
  pub if_range_header : Option String

pub record ShareAccessLog : Type 0 where
  pub public_share_id : String
  pub external_user_id : String
  pub action : SharePermission
  pub ip_address : String
  pub user_agent : String
  pub device_type : String
  pub accessed_at : ℕ
  pub fail_reason : Option Denial

pub record FileMeta : Type 0 where
  pub name : String
  pub mime_type : String

pub record World : Type 0 where
  pub shares : List (String × PublicShare)
  pub active_users : List (String × Bool)
  pub tokens : TokenStore
  pub logs : List ShareAccessLog

abbrev pub token_key : String → String
token_key token = String.◌++◌ "content-token:" token

abbrev pub token_ttl_seconds : ℕ
token_ttl_seconds = 60

detail_of : ℕ → String → String → Option PublicShare → World → Result Denial (World × PublicShare)
detail_of now token_id user none w = err share_not_found
detail_of now token_id user (some s) w =
    if not (str_eq s.external_user_id user)
    then err access_denied
    else ok (
      record w {
        tokens =
            set_token now (token_key token_id)
              (record { share_id = s.id; permission = "VIEW"; used = false }) token_ttl_seconds
              w.tokens;
      },
      s,
    )

-- `token_id` is the id that `uuidv4` gives.
unfoldable pub get_share_detail :
    ℕ → String → String → String → World → Result Denial (World × PublicShare)
unfolding detail_of
get_share_detail now token_id user share_id w =
    detail_of now token_id user (lookup share_id w.shares) w

consume : String → TokenStore × Option TokenData → TokenStore × Result Denial TokenData
consume key (store, none) = (store, err token_invalid)
consume key (store, some d) =
    if d.used then (store, err token_used) else (del_token key store, ok d)

unfoldable pub validate_and_consume_token :
    ℕ → String → TokenStore → TokenStore × Result Denial TokenData
unfolding consume
validate_and_consume_token now token store =
    consume (token_key token) (get_token now (token_key token) store)

abbrev require : Bool → Denial → Result Denial (Unit {0})
require true e = ok tt
require false e = err e

abbrev found : Option PublicShare → Result Denial PublicShare
found none = err share_not_found
found (some s) = ok s

abbrev is_active_user : Option Bool → Bool
is_active_user none = false
is_active_user (some b) = b

limits : SharePermission → PublicShare → Result Denial (Unit {0})
limits view s = require (not (is_view_limit_exceeded s)) view_limit
limits download s = require (not (is_download_limit_exceeded s)) download_limit

-- Steps 2 to 6 of `accessContent` on the share that was looked up.
unfoldable pub check_share :
    ℕ → SharePermission → Option Bool → PublicShare → Result Denial (Unit {0})
unfolding limits
check_share now action user s = require (not s.is_blocked) share_blocked >>= λ _.
    require (not s.is_revoked) share_revoked >>= λ _.
    require (is_active_user user) user_blocked >>= λ _.
    require (not (is_expired now s)) share_expired >>= λ _.
    limits action s >>= λ _. require (has_permission action s) permission_denied

counted : Result ShareError PublicShare → Result Denial PublicShare
counted (ok s) = ok s
counted (err view_limit_exceeded) = err view_limit
counted (err download_limit_exceeded) = err download_limit

unfoldable pub count_access : ℕ → SharePermission → PublicShare → Result Denial PublicShare
unfolding counted
count_access now view s = counted (increment_view_count now s)
count_access now download s = counted (increment_download_count now s)

delivered : ℕ → SharePermission → PublicShare → Option FileMeta → Result Denial PublicShare
delivered now action s none = err download_failed
delivered now action s (some m) =
    count_access now action (record s { file_name = m.name; mime_type = m.mime_type })

abbrev pub Download : Type 0
Download = String → Option String → Option String → Option FileMeta

unfoldable pub authorize :
    Download → ℕ → AccessParams → World → TokenData → Result Denial PublicShare
unfolding delivered
authorize fetch now p w d = require (str_eq d.share_id p.share_id) token_share_mismatch >>= λ _.
    found (lookup p.share_id w.shares) >>= λ s.
    check_share now p.action (lookup p.external_user_id w.active_users) s >>= λ _.
    delivered now p.action s (fetch s.file_id p.range_header p.if_range_header)

abbrev pub log_of : ℕ → AccessParams → Option Denial → ShareAccessLog
log_of now p reason = record {
  public_share_id = p.share_id;
  external_user_id = p.external_user_id;
  action = p.action;
  ip_address = p.ip_address;
  user_agent = p.user_agent;
  device_type = p.device_type;
  accessed_at = now;
  fail_reason = reason;
}

-- The save of the share and the log of a success; the `catch` block otherwise.
finish : ℕ → AccessParams → World → Result Denial PublicShare → World × Result Denial PublicShare
finish now p w (ok s) =
    (record w { shares = set p.share_id s w.shares; logs = w.logs ++ log_of now p none ∷ [] }, ok s)
finish now p w (err e) = (record w { logs = w.logs ++ log_of now p (some e) ∷ [] }, err e)

abbrev blocked_by_admin : Option PublicShare → Bool
blocked_by_admin none = false
blocked_by_admin (some s) = s.is_blocked

after_token :
    Download
    → ℕ
    → AccessParams
    → World
    → TokenStore × Result Denial TokenData
    → World × Result Denial PublicShare
unfolding finish
after_token fetch now p w (store, r) =
    let w' = record w { tokens = store } in finish now p w' (r >>= λ d. authorize fetch now p w' d)

unfoldable pub access_content :
    Download → ℕ → AccessParams → World → World × Result Denial PublicShare
unfolding after_token
access_content fetch now p w =
    if blocked_by_admin (lookup p.share_id w.shares)
    then finish now p w (err share_blocked_by_admin)
    else after_token fetch now p w (validate_and_consume_token now p.token w.tokens)
