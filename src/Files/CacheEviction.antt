-- ===== src/Files/CacheEviction.antt =====
-- CacheManagementService of src/business/admin/cache-management.service.ts with the queries of
-- src/infra/database/repositories/file-storage-object.repository.ts that it uses. Bytes are compared in
-- hundredths, so that the percents need no fractions. `evict_one` takes the rows as they are when the
-- candidate's turn comes, whatever others have written since the query for candidates; `perform_eviction`
-- chains these steps with no other writer of the rows.
pub mod Ends
pub mod Leased
use file_system_spike.Base.{
  ℕ, zero, suc, ◌+◌, ◌-◌, ◌*◌, String, str_eq, Bool, true, false, not, ◌&&◌, Option, none, some,
  List, [], ◌∷◌, ◌++◌, filter, ◌==◌, ltb, if◌then◌else◌, or_else,
}
use file_system_spike.Files.StorageObject.{
  StorageType, cache, nas, AvailabilityStatus, available, evicting, FileStorageObject,
  type_is_cache, is_available, is_evictable,
}

pub record EvictionResult : Type 0 where
  pub evicted_count : ℕ
  pub freed_bytes : ℕ
  pub skipped_count : ℕ
  pub error_count : ℕ

abbrev pub nothing_evicted : EvictionResult
nothing_evicted = record { evicted_count = 0; freed_bytes = 0; skipped_count = 0; error_count = 0 }

-- What the database and the cache storage answer: whether the update or the delete of a row throws, and
-- the size of a stored file, if it can be read. Whether the file is really deleted changes nothing.
pub record Answers : Type 0 where
  pub mark_throws : String → Bool
  pub delete_throws : String → Bool
  pub file_size : List ℕ → Option ℕ

-- The rows, the keys whose files were deleted, and the counters.
pub record Eviction : Type 0 where
  pub rows : List FileStorageObject
  pub deleted_keys : List (List ℕ)
  pub result : EvictionResult

type_is_nas : StorageType → Bool
type_is_nas nas = true
type_is_nas cache = false

is_nas_copy : String → FileStorageObject → Bool
is_nas_copy file_id o = str_eq o.file_id file_id && (type_is_nas o.storage_type && is_available o)

-- The subquery: the file is available on the NAS.
unfoldable pub is_synced : List FileStorageObject → String → Bool
unfolding is_nas_copy type_is_nas
is_synced [] file_id = false
is_synced (o ∷ os) file_id = if is_nas_copy file_id o then true else is_synced os file_id

unfoldable pub candidates_of :
    List FileStorageObject → List FileStorageObject → List FileStorageObject
candidates_of all [] = []
candidates_of all (o ∷ os) =
    let rest = candidates_of all os in
    if is_evictable o && is_synced all o.file_id then o ∷ rest else rest

-- `NULLS FIRST`.
earlier : Option ℕ → Option ℕ → Bool
earlier none none = false
earlier none (some b) = true
earlier (some a) none = false
earlier (some a) (some b) = ltb a b

unfoldable pub insert_by_access :
    FileStorageObject → List FileStorageObject → List FileStorageObject
unfolding earlier
insert_by_access o [] = o ∷ []
insert_by_access o (p ∷ ps) =
    if earlier p.last_accessed o.last_accessed then p ∷ insert_by_access o ps else o ∷ (p ∷ ps)

unfoldable pub by_last_access : List FileStorageObject → List FileStorageObject
by_last_access [] = []
by_last_access (o ∷ os) = insert_by_access o (by_last_access os)

unfoldable pub take : ℕ → List FileStorageObject → List FileStorageObject
take zero os = []
take (suc n) [] = []
take (suc n) (o ∷ os) = o ∷ take n os

-- `findEvictionCandidatesLRU`.
unfoldable pub find_eviction_candidates_lru : ℕ → List FileStorageObject → List FileStorageObject
find_eviction_candidates_lru limit rows = take limit (by_last_access (candidates_of rows rows))

abbrev pub is_target : String → FileStorageObject → Bool
is_target file_id o = str_eq o.file_id file_id && is_evictable o

-- `tryMarkEvicting`, with the number of the rows that it has changed.
unfoldable pub try_mark_evicting : String → List FileStorageObject → List FileStorageObject × ℕ
try_mark_evicting file_id [] = ([], 0)
try_mark_evicting file_id (o ∷ os) =
    let (os', n) = try_mark_evicting file_id os in
    if is_target file_id o
    then (record o { availability_status = evicting } ∷ os', suc n)
    else (o ∷ os', n)

unfoldable pub delete_cache_record : String → List FileStorageObject → List FileStorageObject
delete_cache_record file_id [] = []
delete_cache_record file_id (o ∷ os) =
    let rest = delete_cache_record file_id os in
    if str_eq o.file_id file_id && type_is_cache o.storage_type then rest else o ∷ rest

one_skipped : EvictionResult → EvictionResult
one_skipped r = record r { skipped_count = suc r.skipped_count }

one_error : EvictionResult → EvictionResult
one_error r = record r { error_count = suc r.error_count }

one_evicted : ℕ → EvictionResult → EvictionResult
one_evicted size r = record r {
  evicted_count = suc r.evicted_count;
  freed_bytes = r.freed_bytes + size;
}

module _ (a : Answers) where
  -- What follows the mark, by the number of the rows that it has changed.
  marked : FileStorageObject → List FileStorageObject × ℕ → Eviction → Eviction
  unfolding one_skipped one_error one_evicted
  marked o (rows, zero) e = record e { result = one_skipped e.result }
  marked o (rows, suc n) e =
      let keys = o.object_key ∷ e.deleted_keys in
      if a.delete_throws o.file_id
      then record { rows = rows; deleted_keys = keys; result = one_error e.result }
      else record {
        rows = delete_cache_record o.file_id rows;
        deleted_keys = keys;
        result = one_evicted (or_else (a.file_size o.object_key) 0) e.result;
      }

  -- The body of the loop over the candidates.
  unfoldable pub evict_one : FileStorageObject → Eviction → Eviction
  unfolding marked one_error
  evict_one o e =
      if a.mark_throws o.file_id
      then record e { result = one_error e.result }
      else marked o (try_mark_evicting o.file_id e.rows) e

  -- `goal` is the number of bytes to free, in hundredths.
  abbrev pub is_enough : ℕ → Eviction → Bool
  is_enough goal e = not (ltb (e.result.freed_bytes * 100) goal)

  unfoldable pub evict_candidates : ℕ → List FileStorageObject → Eviction → Eviction
  evict_candidates goal [] e = e
  evict_candidates goal (o ∷ os) e =
      let rest = evict_candidates goal os (evict_one o e) in if is_enough goal e then e else rest

  -- A round of the while loop; `again` is the rest of it.
  next_batch :
      (Eviction → Option Eviction) → ℕ → List FileStorageObject → Eviction → Option Eviction
  next_batch again goal [] e = some e
  next_batch again goal (o ∷ os) e = again (evict_candidates goal (o ∷ os) e)

  -- The while loop. `none`: the fuel has run out.
  unfoldable pub perform_eviction : ℕ → ℕ → ℕ → Eviction → Option Eviction
  unfolding next_batch
  perform_eviction zero limit goal e = none
  perform_eviction (suc fuel) limit goal e =
      if is_enough goal e
      then some e
      else next_batch (perform_eviction fuel limit goal) goal
          (find_eviction_candidates_lru limit e.rows) e

pub record CacheManager : Type 0 where
  pub is_running : Bool
  pub max_size_bytes : ℕ
  pub threshold_percent : ℕ
  pub target_percent : ℕ
  pub batch_size : ℕ

-- `runEviction`; the usage is what the directory holds. An eviction that is running already is not
-- started again.
unfoldable pub run_eviction :
    Answers → ℕ → CacheManager → ℕ → List FileStorageObject → Option Eviction
run_eviction a fuel m usage rows =
    let start : Eviction = record { rows = rows; deleted_keys = []; result = nothing_evicted } in
    if m.is_running
    then some start
    else if ltb (usage * 100) (m.threshold_percent * m.max_size_bytes)
    then some start
    else perform_eviction a fuel m.batch_size (usage * 100 - m.target_percent * m.max_size_bytes)
        start
