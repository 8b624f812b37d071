-- ===== src/Examples/Evictions.antt =====
-- Evictions of src/business/admin/cache-management.service.ts: one file in the cache that is on the NAS
-- too.
use file_system_spike.Base.{◌≡◌, refl, true, false, none, some, [], ◌∷◌, count, arith}
use file_system_spike.Files.StorageObject.{
  cache, nas, available, FileStorageObject, is_available, is_evictable, type_is_cache,
  status_is_available,
}
use file_system_spike.Files.CacheEviction.{
  Answers, Eviction, nothing_evicted, perform_eviction, find_eviction_candidates_lru, candidates_of,
  is_synced, by_last_access, insert_by_access, take, evict_candidates, evict_one, try_mark_evicting,
  delete_cache_record,
}
use file_system_spike.Files.CacheEviction.Ends.{Ended, eviction_ends, eviction_spins}
use file_system_spike.Files.CacheEviction.Leased.{
  kept, OneInCache, SparesContent, evict_one_spares_leased,
}

abbrev cached : FileStorageObject
cached = record {
  id = "o1";
  file_id = "f1";
  storage_type = cache;
  object_key = 1 ∷ [];
  availability_status = available;
  last_accessed = none;
  access_count = 0;
  lease_count = 0;
  checksum = none;
  created_at = 0;
  updated_at = none;
}

abbrev on_nas : FileStorageObject
on_nas = record cached { id = "o2"; storage_type = nas; object_key = 2 ∷ [] }

abbrev full : Eviction
full = record { rows = cached ∷ on_nas ∷ []; deleted_keys = []; result = nothing_evicted }

abbrev calm : Answers
calm = record { mark_throws = λ i. false; delete_throws = λ i. false; file_size = λ k. some 10 }

abbrev stubborn : Answers
stubborn = record calm { mark_throws = λ i. true }

evictable_rows : count is_evictable full.rows ≡ 1
unfolding count is_evictable type_is_cache status_is_available
evictable_rows = refl

eviction_ends_example : Ended calm 100 500 (perform_eviction calm 5 100 500 full)
eviction_ends_example =
    eviction_ends calm (λ i. refl) 5 100 500 full (rw evictable_rows (omega arith))

is_candidate : find_eviction_candidates_lru 100 full.rows ≡ cached ∷ []
unfolding find_eviction_candidates_lru candidates_of is_synced by_last_access insert_by_access take
    is_evictable type_is_cache status_is_available is_available
is_candidate = refl

eviction_spins_example : perform_eviction stubborn 1000 100 500 full ≡ none
eviction_spins_example =
    eviction_spins stubborn (λ i. refl) 1000 100 500 full cached [] refl is_candidate

abbrev emptied : Eviction
emptied = record {
  rows = on_nas ∷ [];
  deleted_keys = (1 ∷ []) ∷ [];
  result = record { evicted_count = 1; freed_bytes = 10; skipped_count = 0; error_count = 0 };
}

empties : perform_eviction calm 3 100 500 full ≡ some emptied
unfolding perform_eviction evict_candidates evict_one try_mark_evicting delete_cache_record
    find_eviction_candidates_lru candidates_of is_synced by_last_access insert_by_access take
    is_evictable type_is_cache status_is_available is_available
empties = refl

one_row : OneInCache full.rows
unfolding count type_is_cache
one_row i = ground arith

-- The row of the candidate, after a download has taken a lease on it.
abbrev in_use : Eviction
in_use = record full { rows = record cached { lease_count = 1 } ∷ on_nas ∷ [] }

one_row_in_use : OneInCache in_use.rows
unfolding count type_is_cache
one_row_in_use i = ground arith

-- The mark changes no row, and the candidate is skipped.
skips :
    evict_one calm cached in_use
    ≡ record in_use { result = record nothing_evicted { skipped_count = 1 } }
unfolding evict_one try_mark_evicting is_evictable type_is_cache status_is_available
skips = refl

evict_one_spares_leased_example :
    (kept (evict_one calm cached in_use).rows ≡ kept in_use.rows)
    × SparesContent cached in_use (evict_one calm cached in_use)
evict_one_spares_leased_example = evict_one_spares_leased calm cached in_use one_row_in_use
