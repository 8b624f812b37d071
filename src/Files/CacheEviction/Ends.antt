-- ===== src/Files/CacheEviction/Ends.antt =====
-- Whether the loop of `performEviction` of src/business/admin/cache-management.service.ts ends.
use file_system_spike.Base.{
  ℕ, zero, suc, ◌+◌, ◌≤◌, ◌<◌, ◌≡◌, refl, ◌⊎◌, inl, inr, String, str_eq_iff, true, false, Option,
  none, some, List, [], ◌∷◌, Bool-cases, All, All-of_get, count, count-get, get_elem?, subst,
  All-map, arith,
}
use file_system_spike.Files.StorageObject.{
  FileStorageObject, is_evictable, type_is_cache, status_is_available,
}
use file_system_spike.Files.CacheEviction.{
  Answers, Eviction, candidates_of, earlier, insert_by_access, by_last_access, take, is_target,
  is_synced, find_eviction_candidates_lru, try_mark_evicting, delete_cache_record, marked,
  one_error, evict_one, is_enough, evict_candidates, next_batch, perform_eviction,
}

-- The rows that may be evicted.
abbrev pub evictables : List FileStorageObject → ℕ
evictables os = count is_evictable os

try_mark_evicting-count :
    (file_id : String) (os : List FileStorageObject)
    → let (os', n) = try_mark_evicting file_id os in
      (evictables os' + n ≡ evictables os) × (n ≡ count (is_target file_id) os)
unfolding try_mark_evicting is_evictable type_is_cache status_is_available count
try_mark_evicting-count file_id [] = (refl, refl)
try_mark_evicting-count file_id (o ∷ os) = ground (arith, try_mark_evicting-count file_id os)

delete_cache_record-count :
    (file_id : String) (os : List FileStorageObject)
    → evictables (delete_cache_record file_id os) ≤ evictables os
unfolding delete_cache_record count
delete_cache_record-count file_id [] = omega arith
delete_cache_record-count file_id (o ∷ os) = ground (arith, delete_cache_record-count file_id os)

-- What holds of all rows holds of the candidates.
module _ {κ} (P : FileStorageObject → Type κ) where
  All-candidates :
      (all os : List FileStorageObject)
      → All P os
      → All (λ o. P o × (is_evictable o ≡ true)) (candidates_of all os)
  unfolding candidates_of
  All-candidates all [] h = tt
  All-candidates all (o ∷ os) h =
      let rest = All-candidates all os h.1 in
      elim (Bool-cases (is_evictable o)) [
        | inr off ↦ rw off rest
        | inl on ↦ elim (Bool-cases (is_synced all o.file_id)) [
          | inl synced ↦ rw on (rw synced ((h.0, on), rest))
          | inr unsynced ↦ rw on (rw unsynced rest)
        ]
      ]

  All-insert :
      (o : FileStorageObject) (os : List FileStorageObject)
      → P o
      → All P os
      → All P (insert_by_access o os)
  unfolding insert_by_access
  All-insert o [] p h = (p, tt)
  All-insert o (q ∷ os) p h = elim (Bool-cases (earlier q.last_accessed o.last_accessed)) [
    | inl before ↦ rw before (h.0, All-insert o os p h.1)
    | inr other ↦ rw other (p, h)
  ]

  All-sorted : (os : List FileStorageObject) → All P os → All P (by_last_access os)
  unfolding by_last_access
  All-sorted [] h = tt
  All-sorted (o ∷ os) h = All-insert o (by_last_access os) h.0 (All-sorted os h.1)

  All-take : (n : ℕ) (os : List FileStorageObject) → All P os → All P (take n os)
  unfolding take
  All-take zero os h = tt
  All-take (suc n) [] h = tt
  All-take (suc n) (o ∷ os) h = (h.0, All-take n os h.1)

-- A candidate is a row that the update of its mark finds.
abbrev Found : List FileStorageObject → FileStorageObject → Type 0
Found rows o = 1 ≤ count (is_target o.file_id) rows

abbrev Findable : List FileStorageObject → FileStorageObject → Type 0
Findable rows o = is_evictable o ≡ true → Found rows o

candidates-Found :
    (limit : ℕ) (rows : List FileStorageObject)
    → All (Found rows) (find_eviction_candidates_lru limit rows)
unfolding find_eviction_candidates_lru
candidates-Found limit rows = All-take (Found rows) limit _ (
    All-sorted (Found rows) (candidates_of rows rows) (
      All-map _ (Found rows) (candidates_of rows rows) (λ o h. h.0 h.1)
        (All-candidates (Findable rows) rows rows (All-of_get (Findable rows) rows found))))
  where
    found : (i : ℕ) (o : FileStorageObject) → get_elem? rows i ≡ some o → Findable rows o
    found i o h on =
        count-get (is_target o.file_id) rows i o h
          (ground (arith, on, str_eq_iff o.file_id o.file_id))

-- The loop has ended, for one of its two reasons.
abbrev pub Ended : Answers → ℕ → ℕ → Option Eviction → Type 0
Ended a limit goal r =
    (e : Eviction) × (r ≡ some e)
    × ((is_enough a goal e ≡ true) ⊎ (find_eviction_candidates_lru limit e.rows ≡ []))

module _ (a : Answers) (calm : (i : String) → a.mark_throws i ≡ false) where
  evict_one-le :
      (o : FileStorageObject) (e : Eviction)
      → evictables (evict_one a o e).rows + count (is_target o.file_id) e.rows ≤ evictables e.rows
  unfolding evict_one
  evict_one-le o e = rw (calm o.file_id) (by_mark (try_mark_evicting o.file_id e.rows) refl)
    where
      counts :
          (x : List FileStorageObject × ℕ)
          → try_mark_evicting o.file_id e.rows ≡ x
          → (evictables x.0 + x.1 ≡ evictables e.rows) × (x.1 ≡ count (is_target o.file_id) e.rows)
      counts x h =
          subst
            (λ y.
              (evictables y.0 + y.1 ≡ evictables e.rows)
              × (y.1 ≡ count (is_target o.file_id) e.rows))
            h (try_mark_evicting-count o.file_id e.rows)

      by_mark :
          (x : List FileStorageObject × ℕ)
          → try_mark_evicting o.file_id e.rows ≡ x
          → evictables (marked a o x e).rows + count (is_target o.file_id) e.rows
            ≤ evictables e.rows
      by_mark (os, zero) h = omega (arith, counts (os, zero) h)
      by_mark (os, suc n) h = elim (Bool-cases (a.delete_throws o.file_id)) [
        | inl failed ↦ rw failed (omega (arith, counts (os, suc n) h))
        | inr done ↦
            rw done (omega (arith, counts (os, suc n) h, delete_cache_record-count o.file_id os))
      ]

  evict_candidates-le :
      (goal : ℕ) (os : List FileStorageObject) (e : Eviction)
      → evictables (evict_candidates a goal os e).rows ≤ evictables e.rows
  unfolding evict_candidates
  evict_candidates-le goal [] e = omega arith
  evict_candidates-le goal (o ∷ os) e =
      let rest = evict_candidates-le goal os (evict_one a o e) in
      elim (Bool-cases (is_enough a goal e)) [
        | inl enough ↦ rw enough (omega arith)
        | inr more ↦ rw more (omega (arith, rest, evict_one-le o e))
      ]

  -- A round that has candidates evicts or at least marks the first of them.
  round-lt :
      (goal limit : ℕ) (os : List FileStorageObject) (o : FileStorageObject) (e : Eviction)
      → is_enough a goal e ≡ false
      → find_eviction_candidates_lru limit e.rows ≡ o ∷ os
      → evictables (evict_candidates a goal (o ∷ os) e).rows < evictables e.rows
  unfolding evict_candidates
  round-lt goal limit os o e more h =
      let found = subst (All (Found e.rows)) h (candidates-Found limit e.rows) in
      rw more
        (omega (arith, found.0, evict_one-le o e, evict_candidates-le goal os (evict_one a o e)))

  next_batch-Ended :
      (again : Eviction → Option Eviction) (limit goal n : ℕ) (e : Eviction)
      (os : List FileStorageObject)
      → ((d : Eviction) → evictables d.rows < n → Ended a limit goal (again d))
      → evictables e.rows < suc n
      → is_enough a goal e ≡ false
      → find_eviction_candidates_lru limit e.rows ≡ os
      → Ended a limit goal (next_batch a again goal os e)
  unfolding next_batch
  next_batch-Ended again limit goal n e [] ih h more q = (e, refl, inr q)
  next_batch-Ended again limit goal n e (o ∷ os) ih h more q =
      ih (evict_candidates a goal (o ∷ os) e) (omega (arith, h, round-lt goal limit os o e more q))

  -- Where no update of a mark throws, the loop of performEviction ends, within one round more than there
  -- are rows that may be evicted; and it ends because enough bytes are free or because there are no
  -- candidates left.
  pub eviction_ends :
      (fuel limit goal : ℕ) (e : Eviction)
      → evictables e.rows < fuel
      → Ended a limit goal (perform_eviction a fuel limit goal e)
  unfolding perform_eviction
  eviction_ends zero limit goal e h = absurd (omega arith)
  eviction_ends (suc fuel) limit goal e h =
      let ih = eviction_ends fuel limit goal in
      elim (Bool-cases (is_enough a goal e)) [
        | inl enough ↦ rw enough (e, refl, inl enough)
        | inr more ↦ rw more (
            next_batch-Ended (perform_eviction a fuel limit goal) limit goal fuel e
              (find_eviction_candidates_lru limit e.rows) ih h more refl)
      ]

module _ (a : Answers) (refuses : (i : String) → a.mark_throws i ≡ true) where
  evict_candidates-stuck :
      (goal : ℕ) (os : List FileStorageObject) (e : Eviction)
      → let d = evict_candidates a goal os e in
        (d.rows ≡ e.rows) × (d.result.freed_bytes ≡ e.result.freed_bytes)
  unfolding evict_candidates evict_one one_error
  evict_candidates-stuck goal [] e = (refl, refl)
  evict_candidates-stuck goal (o ∷ os) e =
      let rest = evict_candidates-stuck goal os (record e { result = one_error e.result }) in
      elim (Bool-cases (is_enough a goal e)) [
        | inl enough ↦ rw enough (refl, refl)
        | inr more ↦ rw more (rw (refuses o.file_id) rest)
      ]

  -- A database that refuses every mark keeps the loop of performEviction going: as long as bytes are to be
  -- freed and there is a candidate, no number of rounds is enough, since a row whose mark throws stays a
  -- candidate.
  pub eviction_spins :
      (fuel limit goal : ℕ) (e : Eviction) (o : FileStorageObject) (os : List FileStorageObject)
      → is_enough a goal e ≡ false
      → find_eviction_candidates_lru limit e.rows ≡ o ∷ os
      → perform_eviction a fuel limit goal e ≡ none
  unfolding perform_eviction next_batch
  eviction_spins zero limit goal e o os more q = refl
  eviction_spins (suc fuel) limit goal e o os more q =
      let d = evict_candidates a goal (o ∷ os) e in
      let stuck = evict_candidates-stuck goal (o ∷ os) e in
      rw more (rw q (eviction_spins fuel limit goal d o os (rw stuck.1 more) (rw stuck.0 q)))
