-- ===== src/Share/TokenStore.antt =====
-- InMemoryTokenStore of src/infra/cache/in-memory-token-store.ts. A value is the token data that the
-- service writes as JSON and parses again.
use file_system_spike.Base.{ℕ, ◌+◌, ◌*◌, String, Bool, Option, some, none, List, ltb, if◌then◌else◌}
use file_system_spike.Base.Dict.{lookup, set, delete}

pub record TokenData : Type 0 where
  pub share_id : String
  pub permission : String
  pub used : Bool

pub record TokenEntry : Type 0 where
  pub value : TokenData
  pub expires_at : ℕ

abbrev pub TokenStore : Type 0
TokenStore = List (String × TokenEntry)

unfoldable pub set_token : ℕ → String → TokenData → ℕ → TokenStore → TokenStore
set_token now key value ttl_seconds store =
    set key (record { value = value; expires_at = now + ttl_seconds * 1000 }) store

-- The timer that `set` leaves behind runs `delete` when the time is over, as `del` does.
unfoldable pub del_token : String → TokenStore → TokenStore
del_token key store = delete key store

unfoldable pub get_found :
    ℕ → String → Option TokenEntry → TokenStore → TokenStore × Option TokenData
get_found now key none store = (store, none)
get_found now key (some entry) store =
    if ltb entry.expires_at now then (delete key store, none) else (store, some entry.value)

unfoldable pub get_token : ℕ → String → TokenStore → TokenStore × Option TokenData
unfolding get_found
get_token now key store = get_found now key (lookup key store) store
