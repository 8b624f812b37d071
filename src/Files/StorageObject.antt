-- ===== src/Files/StorageObject.antt =====
-- FileStorageObjectEntity of src/domain/storage/file/entity/file-storage-object.entity.ts. An object key
-- and a file name are lists of code points, and a date has the fields that `getUTC…` read.
pub mod Keys
use file_system_spike.Base.{
  ℕ, zero, suc, ◌+◌, ◌-◌, String, Bool, true, false, ◌&&◌, Option, none, some, List, [], ◌∷◌, ◌++◌,
  ◌==◌, if◌then◌else◌,
}
use file_system_spike.Base.Text.{codes, decimal, pad_start}

pub data StorageType : Type 0 where
  cache nas : StorageType

pub data AvailabilityStatus : Type 0 where
  available syncing missing evicting error : AvailabilityStatus

pub record FileStorageObject : Type 0 where
  pub id : String
  pub file_id : String
  pub storage_type : StorageType
  pub object_key : List ℕ
  pub availability_status : AvailabilityStatus
  pub last_accessed : Option ℕ
  pub access_count : ℕ
  pub lease_count : ℕ
  pub checksum : Option String
  pub created_at : ℕ
  pub updated_at : Option ℕ

unfoldable pub status_is_available : AvailabilityStatus → Bool
status_is_available available = true
status_is_available _ = false

status_is_syncing : AvailabilityStatus → Bool
status_is_syncing syncing = true
status_is_syncing _ = false

unfoldable pub type_is_cache : StorageType → Bool
type_is_cache cache = true
type_is_cache nas = false

unfoldable pub is_available : FileStorageObject → Bool
unfolding status_is_available
is_available o = status_is_available o.availability_status

unfoldable pub is_syncing : FileStorageObject → Bool
unfolding status_is_syncing
is_syncing o = status_is_syncing o.availability_status

unfoldable pub acquire_lease : ℕ → FileStorageObject → FileStorageObject
acquire_lease now o = record o {
  lease_count = o.lease_count + 1;
  last_accessed = some now;
  access_count = o.access_count + 1;
}

-- `Math.max(this.leaseCount - 1, 0)`.
unfoldable pub release_lease : FileStorageObject → FileStorageObject
release_lease o = record o { lease_count = o.lease_count - 1 }

unfoldable pub is_evictable : FileStorageObject → Bool
unfolding type_is_cache status_is_available
is_evictable o =
    type_is_cache o.storage_type && status_is_available o.availability_status && o.lease_count == 0

unfoldable pub update_status : ℕ → AvailabilityStatus → FileStorageObject → FileStorageObject
update_status now status o = record o { availability_status = status; updated_at = some now }

unfoldable pub update_object_key : ℕ → List ℕ → FileStorageObject → FileStorageObject
update_object_key now new_key o = record o { object_key = new_key; updated_at = some now }

unfoldable pub update_checksum : ℕ → String → FileStorageObject → FileStorageObject
update_checksum now checksum o = record o { checksum = some checksum; updated_at = some now }

-- `getUTCMonth` counts from 0.
pub record UtcDate : Type 0 where
  pub year : ℕ
  pub month : ℕ
  pub day : ℕ
  pub hours : ℕ
  pub minutes : ℕ
  pub seconds : ℕ
  pub time : ℕ

-- The digits in front of the separator.
unfoldable pub timestamp : UtcDate → List ℕ
timestamp d =
    pad_start 4 (decimal d.year)
    ++ pad_start 2 (decimal (d.month + 1))
    ++ pad_start 2 (decimal d.day)
    ++ pad_start 2 (decimal d.hours)
    ++ pad_start 2 (decimal d.minutes)
    ++ pad_start 2 (decimal d.seconds)

unfoldable pub build_nas_object_key : UtcDate → List ℕ → List ℕ
build_nas_object_key d file_name = timestamp d ++ b'_' ∷ b'_' ∷ file_name

abbrev one_more : Option ℕ → Option ℕ
one_more none = none
one_more (some n) = some (suc n)

-- `indexOf` of two underscores.
unfoldable pub separator_index : List ℕ → Option ℕ
separator_index [] = none
separator_index (c ∷ []) = none
separator_index (c ∷ d ∷ s) =
    let rest = one_more (separator_index (d ∷ s)) in if c == b'_' && d == b'_' then some 0 else rest

-- `substring` from an index on.
unfoldable pub substring : ℕ → List ℕ → List ℕ
substring zero s = s
substring (suc n) [] = []
substring (suc n) (c ∷ s) = substring n s

abbrev name_after : Option ℕ → List ℕ → List ℕ
name_after none key = key
name_after (some i) key = substring (i + 2) key

unfoldable pub extract_file_name_from_nas_object_key : List ℕ → List ℕ
extract_file_name_from_nas_object_key key = name_after (separator_index key) key

unfoldable pub create_for_cache : ℕ → String → String → FileStorageObject
create_for_cache now id file_id = record {
  id = id;
  file_id = file_id;
  storage_type = cache;
  object_key = codes file_id;
  availability_status = available;
  last_accessed = some now;
  access_count = 1;
  lease_count = 0;
  checksum = none;
  created_at = now;
  updated_at = none;
}

unfoldable pub create_for_nas : String → String → UtcDate → List ℕ → FileStorageObject
unfolding build_nas_object_key
create_for_nas id file_id created_at file_name = record {
  id = id;
  file_id = file_id;
  storage_type = nas;
  object_key = build_nas_object_key created_at file_name;
  availability_status = syncing;
  last_accessed = none;
  access_count = 0;
  lease_count = 0;
  checksum = none;
  created_at = created_at.time;
  updated_at = none;
}
