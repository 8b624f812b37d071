-- ===== src/Files/CacheEviction/Leased.antt =====
-- Which rows an eviction of src/business/admin/cache-management.service.ts leaves alone.
use file_system_spike.Base.{
  ℕ, zero, suc, ◌+◌, ◌≤◌, ◌≡◌, ◌⊎◌, refl, inl, inr, String, str_eq, Bool, not, ◌&&◌, Option, some,
  List, [], ◌∷◌, if◌then◌else◌, ◌==◌, Bool-cases, some_inj, subst, ◌∙◌, count, arith,
}
use file_system_spike.Files.StorageObject.{
  FileStorageObject, is_evictable, type_is_cache, status_is_available,
}
use file_system_spike.Files.CacheEviction.{
  Answers, Eviction, find_eviction_candidates_lru, try_mark_evicting, delete_cache_record, marked,
  evict_one, is_enough, evict_candidates, next_batch, perform_eviction,
}

-- A row that a download holds, or one of the NAS.
abbrev pub is_kept : FileStorageObject → Bool
is_kept o = not (type_is_cache o.storage_type && o.lease_count == 0)

pub kept : List FileStorageObject → List FileStorageObject
kept [] = []
kept (o ∷ os) = let rest = kept os in if is_kept o then o ∷ rest else rest

abbrev pub in_cache : String → FileStorageObject → Bool
in_cache file_id o = str_eq o.file_id file_id && type_is_cache o.storage_type

-- A file has at most one row in the cache.
abbrev pub OneInCache : List FileStorageObject → Type 0
OneInCache os = (i : String) → count (in_cache i) os ≤ 1

abbrev leased_in_cache : String → FileStorageObject → Bool
leased_in_cache i o = in_cache i o && is_kept o

mark_keeps :
    (i : String) (os : List FileStorageObject)
    → let (os', n) = try_mark_evicting i os in
      (kept os' ≡ kept os) × (count (leased_in_cache i) os' + n ≤ count (in_cache i) os)
unfolding try_mark_evicting kept count is_evictable type_is_cache status_is_available
mark_keeps i [] = (refl, omega arith)
mark_keeps i (o ∷ os) = ground (arith, mark_keeps i os)

mark-in_cache :
    (i j : String) (os : List FileStorageObject)
    → count (in_cache j) (try_mark_evicting i os).0 ≡ count (in_cache j) os
unfolding try_mark_evicting count
mark-in_cache i j [] = refl
mark-in_cache i j (o ∷ os) = ground (arith, mark-in_cache i j os)

delete_keeps :
    (i : String) (os : List FileStorageObject)
    → count (leased_in_cache i) os ≡ 0
    → kept (delete_cache_record i os) ≡ kept os
unfolding delete_cache_record kept count
delete_keeps i [] h = refl
delete_keeps i (o ∷ os) h = ground (arith, h, delete_keeps i os)

delete-in_cache :
    (i j : String) (os : List FileStorageObject)
    → count (in_cache j) (delete_cache_record i os) ≤ count (in_cache j) os
unfolding delete_cache_record count
delete-in_cache i j [] = omega arith
delete-in_cache i j (o ∷ os) = ground (arith, delete-in_cache i j os)

mark-leased :
    (i : String) (os : List FileStorageObject)
    → count (leased_in_cache i) (try_mark_evicting i os).0 ≡ count (leased_in_cache i) os
unfolding try_mark_evicting count type_is_cache
mark-leased i [] = refl
mark-leased i (o ∷ os) = ground (arith, mark-leased i os)

-- The keys whose content an eviction has deleted, after a candidate: those from before, or with them the
-- key of the candidate, where no row of its file in the cache is leased.
pub SparesContent : FileStorageObject → Eviction → Eviction → Type 0
SparesContent o e d =
    (d.deleted_keys ≡ e.deleted_keys)
    ⊎ ((d.deleted_keys ≡ o.object_key ∷ e.deleted_keys)
        × (count (leased_in_cache o.file_id) e.rows ≡ 0))

-- The rows of an eviction that began with those of `e`.
abbrev Keeps : List FileStorageObject → Eviction → Type 0
Keeps os d = (kept d.rows ≡ kept os) × OneInCache d.rows

module _ (a : Answers) where
  evict_one-Keeps :
      (os : List FileStorageObject) (o : FileStorageObject) (e : Eviction)
      → Keeps os e
      → Keeps os (evict_one a o e)
  unfolding evict_one
  evict_one-Keeps os o e k = elim (Bool-cases (a.mark_throws o.file_id)) [
    | inl failed ↦ rw failed k
    | inr done ↦ rw done (by_mark (try_mark_evicting o.file_id e.rows) refl)
  ]
    where
      by_mark :
          (x : List FileStorageObject × ℕ)
          → try_mark_evicting o.file_id e.rows ≡ x
          → Keeps os (marked a o x e)
      by_mark (rows, zero) h = k
      by_mark (rows, suc n) h =
          let m =
            subst
              (λ y.
                (kept y.0 ≡ kept e.rows)
                × (count (leased_in_cache o.file_id) y.0 + y.1 ≤ count (in_cache o.file_id) e.rows))
              h (mark_keeps o.file_id e.rows) in
          let one = λ (j : String).
            subst (λ y. count (in_cache j) y.0 ≡ count (in_cache j) e.rows) h
              (mark-in_cache o.file_id j e.rows) in
          elim (Bool-cases (a.delete_throws o.file_id)) [
            | inl failed ↦ rw failed (m.0 ∙ k.0, λ j. omega (arith, one j, k.1 j))
            | inr gone ↦ rw gone (
              delete_keeps o.file_id rows (omega (arith, m.1, k.1 o.file_id)) ∙ (m.0 ∙ k.0),
              λ j. omega (arith, delete-in_cache o.file_id j rows, one j, k.1 j),
            )
          ]

  evict_one-SparesContent :
      (o : FileStorageObject) (e : Eviction)
      → OneInCache e.rows
      → SparesContent o e (evict_one a o e)
  unfolding evict_one SparesContent
  evict_one-SparesContent o e one = elim (Bool-cases (a.mark_throws o.file_id)) [
    | inl failed ↦ rw failed (inl refl)
    | inr done ↦ rw done (by_mark (try_mark_evicting o.file_id e.rows) refl)
  ]
    where
      by_mark :
          (x : List FileStorageObject × ℕ)
          → try_mark_evicting o.file_id e.rows ≡ x
          → SparesContent o e (marked a o x e)
      by_mark (rows, zero) h = inl refl
      by_mark (rows, suc n) h =
          let m : count (leased_in_cache o.file_id) rows + suc n
              ≤ count (in_cache o.file_id) e.rows =
            subst
              (λ y. count (leased_in_cache o.file_id) y.0 + y.1 ≤ count (in_cache o.file_id) e.rows)
              h (mark_keeps o.file_id e.rows).1 in
          let same : count (leased_in_cache o.file_id) rows
              ≡ count (leased_in_cache o.file_id) e.rows =
            subst
              (λ y.
                count (leased_in_cache o.file_id) y.0 ≡ count (leased_in_cache o.file_id) e.rows)
              h (mark-leased o.file_id e.rows) in
          let free : count (leased_in_cache o.file_id) e.rows ≡ 0 =
            omega (arith, m, same, one o.file_id) in
          elim (Bool-cases (a.delete_throws o.file_id)) [
            | inl failed ↦ rw failed (inr (refl, free))
            | inr gone ↦ rw gone (inr (refl, free))
          ]

  -- The turn of one candidate, whatever others have written to the rows since the query for candidates, so
  -- that a download may hold the file by now: every leased row and every row of the NAS stays as it is,
  -- and the content is deleted only where no row of the file in the cache is leased. This holds
  -- whatever the database and the cache storage answer, where a file has at most one row in the cache
  -- and nobody writes the rows from the mark of the candidate to the deletion of its row.
  pub evict_one_spares_leased :
      (o : FileStorageObject) (e : Eviction)
      → OneInCache e.rows
      → (kept (evict_one a o e).rows ≡ kept e.rows) × SparesContent o e (evict_one a o e)
  evict_one_spares_leased o e one =
      ((evict_one-Keeps e.rows o e (refl, one)).0, evict_one-SparesContent o e one)

  evict_candidates-Keeps :
      (os : List FileStorageObject) (goal : ℕ) (cs : List FileStorageObject) (e : Eviction)
      → Keeps os e
      → Keeps os (evict_candidates a goal cs e)
  unfolding evict_candidates
  evict_candidates-Keeps os goal [] e k = k
  evict_candidates-Keeps os goal (c ∷ cs) e k =
      let rest = evict_candidates-Keeps os goal cs (evict_one a c e) (evict_one-Keeps os c e k) in
      elim (Bool-cases (is_enough a goal e)) [ inl enough ↦ rw enough k | inr more ↦ rw more rest ]

  next_batch-Keeps :
      (again : Eviction → Option Eviction) (os : List FileStorageObject) (goal : ℕ)
      (cs : List FileStorageObject) (e d : Eviction)
      → ((b : Eviction) → Keeps os b → again b ≡ some d → Keeps os d)
      → Keeps os e
      → next_batch a again goal cs e ≡ some d
      → Keeps os d
  unfolding next_batch
  next_batch-Keeps again os goal [] e d ih k h = ground (arith, k, h)
  next_batch-Keeps again os goal (c ∷ cs) e d ih k h =
      ih (evict_candidates a goal (c ∷ cs) e) (evict_candidates-Keeps os goal (c ∷ cs) e k) h

  perform-Keeps :
      (fuel limit goal : ℕ) (os : List FileStorageObject) (e d : Eviction)
      → Keeps os e
      → perform_eviction a fuel limit goal e ≡ some d
      → Keeps os d
  unfolding perform_eviction
  perform-Keeps zero limit goal os e d k h = cc
  perform-Keeps (suc fuel) limit goal os e d k h = elim (Bool-cases (is_enough a goal e)) [
    | inl enough ↦ subst (Keeps os) (some_inj (rw enough at h)) k
    | inr more ↦
        next_batch-Keeps (perform_eviction a fuel limit goal) os goal
          (find_eviction_candidates_lru limit e.rows) e d
          (λ b. perform-Keeps fuel limit goal os b d) k (rw more at h)
  ]

  -- A whole eviction that nobody else writes in between leaves every leased row and every row of the NAS as it
  -- was, whatever the database and the cache storage answer, where a file has at most one row in the
  -- cache.
  eviction_keeps_leased :
      (fuel limit goal : ℕ) (e d : Eviction)
      → OneInCache e.rows
      → perform_eviction a fuel limit goal e ≡ some d
      → kept d.rows ≡ kept e.rows
  eviction_keeps_leased fuel limit goal e d one h =
      (perform-Keeps fuel limit goal e.rows e d (refl, one) h).0
