-- ===== src/Examples/Accesses.antt =====
-- Accesses to a share in src/business/external-share/external-share-access.service.ts.
use file_system_spike.Base.{◌≡◌, refl, ◌≢◌, true, false, some, none, [], ◌∷◌, ◌++◌, ok}
use file_system_spike.Base.Dict.{lookup, set, delete}
use file_system_spike.Share.PublicShare.{
  PublicShare, view, has_permission, is_expired, is_view_limit_exceeded, increment_view_count,
}
use file_system_spike.Share.TokenStore.{TokenData, get_token, get_found, del_token}
use file_system_spike.Share.Access.{
  AccessParams, FileMeta, World, Download, access_content, validate_and_consume_token, log_of,
  check_share, authorize, count_access,
}
use file_system_spike.Share.Access.Rules.{
  Granted, after_consume, counted_share, access_content-Granted, Granted-access_content,
}
use file_system_spike.Share.Access.Tokens.{single_use}

abbrev share : PublicShare
share = record {
  id = "s";
  file_id = "f";
  owner_id = "ann";
  external_user_id = "eve";
  internal_user_id = none;
  permissions = view ∷ [];
  file_name = "a.txt";
  mime_type = "text/plain";
  max_view_count = some 2;
  current_view_count = 1;
  max_download_count = none;
  current_download_count = 0;
  expires_at = some 1000;
  start_at = none;
  is_blocked = false;
  blocked_at = none;
  blocked_by = none;
  is_revoked = false;
  created_at = 0;
  updated_at = none;
}

abbrev token_data : TokenData
token_data = record { share_id = "s"; permission = "VIEW"; used = false }

abbrev world : World
world = record {
  shares = ("s", share) ∷ [];
  active_users = ("eve", true) ∷ [];
  tokens = ("content-token:t", record { value = token_data; expires_at = 900 }) ∷ [];
  logs = [];
}

abbrev params : AccessParams
params = record {
  external_user_id = "eve";
  share_id = "s";
  token = "t";
  action = view;
  ip_address = "10.0.0.1";
  user_agent = "curl";
  device_type = "desktop";
  range_header = none;
  if_range_header = none;
}

abbrev file_meta : FileMeta
file_meta = record { name = "a.txt"; mime_type = "text/plain" }

abbrev fetch : Download
fetch file_id range if_range = some file_meta

abbrev viewed : PublicShare
viewed = counted_share 500 view file_meta share

granted : (access_content fetch 500 params world).1 ≡ ok viewed
unfolding access_content validate_and_consume_token get_token get_found del_token lookup set delete
    authorize check_share count_access increment_view_count is_view_limit_exceeded is_expired
    has_permission
granted = refl

token_good : (validate_and_consume_token 500 "t" world.tokens).1 ≡ ok token_data
unfolding validate_and_consume_token get_token get_found lookup
token_good = refl

grounds : Granted fetch 500 params (after_consume 500 params world) token_data viewed
unfolding lookup has_permission is_expired is_view_limit_exceeded
grounds = record {
  share = share;
  meta = file_meta;
  matching = refl;
  stored = refl;
  may = record {
    unblocked = refl;
    unrevoked = refl;
    active = refl;
    in_time = refl;
    in_limit = refl;
    permitted = refl;
  };
  fetched = refl;
  result = refl;
}

access_content-Granted_example :
    (d : TokenData) × ((validate_and_consume_token 500 "t" world.tokens).1 ≡ ok d)
    × Granted fetch 500 params (after_consume 500 params world) d viewed
    × ((access_content fetch 500 params world).0 ≡ record (after_consume 500 params world) {
      shares = set "s" viewed world.shares;
      logs = world.logs ++ log_of 500 params none ∷ [];
    })
access_content-Granted_example = access_content-Granted fetch 500 params world granted

Granted-access_content_example : (access_content fetch 500 params world).1 ≡ ok viewed
Granted-access_content_example =
    Granted-access_content fetch 500 params world token_data token_good grounds

single_use_example :
    (access_content fetch 501 params (access_content fetch 500 params world).0).1 ≢ ok viewed
single_use_example = single_use fetch 500 501 params params world granted refl
