-- ===== src/Files/StorageObject/Keys.antt =====
-- Object keys and leases of src/domain/storage/file/entity/file-storage-object.entity.ts.
use file_system_spike.Base.{
  ℕ, zero, suc, ◌+◌, ◌<◌, ◌≡◌, refl, String, false, some, List, [], ◌∷◌, ◌++◌, arith, length,
}
use file_system_spike.Base.Text.{
  Digits, decimal, decimal-Digits, pad_start, pad_start-Digits, Digits-append,
}
use file_system_spike.Files.StorageObject.{
  FileStorageObject, UtcDate, timestamp, build_nas_object_key, separator_index, substring,
  extract_file_name_from_nas_object_key, create_for_nas, acquire_lease, release_lease, is_evictable,
}

separator_index-Digits :
    (s name : List ℕ) → Digits s → separator_index (s ++ b'_' ∷ b'_' ∷ name) ≡ some (length s)
unfolding separator_index
separator_index-Digits [] name d = refl
separator_index-Digits (c ∷ []) name d = ground arith
separator_index-Digits (c ∷ e ∷ s) name d = ground (arith, separator_index-Digits (e ∷ s) name d.2)

substring_past : (s name : List ℕ) → substring (length s + 2) (s ++ b'_' ∷ b'_' ∷ name) ≡ name
unfolding substring
substring_past [] name = refl
substring_past (c ∷ s) name =
    let one_more : suc (length s) + 2 ≡ suc (length s + 2) = omega arith in
    rw one_more (substring_past s name)

timestamp-Digits : (d : UtcDate) → Digits (timestamp d)
unfolding timestamp
timestamp-Digits d =
    Digits-append _ (pad_start 2 (decimal d.seconds))
      (Digits-append _ (pad_start 2 (decimal d.minutes))
        (Digits-append _ (pad_start 2 (decimal d.hours))
          (Digits-append _ (pad_start 2 (decimal d.day))
            (Digits-append (pad_start 4 (decimal d.year)) (pad_start 2 (decimal (d.month + 1)))
              (field 4 d.year) (field 2 (d.month + 1)))
            (field 2 d.day))
          (field 2 d.hours))
        (field 2 d.minutes))
      (field 2 d.seconds)
  where
    field : (width n : ℕ) → Digits (pad_start width (decimal n))
    field width n = pad_start-Digits width (decimal n) (decimal-Digits n)

-- The name of a file comes back out of its NAS key, whatever the name is, underscores included, and
-- whatever the date.
pub extract-build :
    (id file_id : String) (d : UtcDate) (name : List ℕ)
    → extract_file_name_from_nas_object_key (create_for_nas id file_id d name).object_key ≡ name
unfolding extract_file_name_from_nas_object_key create_for_nas build_nas_object_key
extract-build id file_id d name =
    rw (separator_index-Digits (timestamp d) name (timestamp-Digits d))
      (substring_past (timestamp d) name)

pub data LeaseCall : Type 0 where
  acquires : ℕ → LeaseCall
  releases : LeaseCall

unfoldable pub run : List LeaseCall → FileStorageObject → FileStorageObject
run [] o = o
run (acquires now ∷ cs) o = run cs (acquire_lease now o)
run (releases ∷ cs) o = run cs (release_lease o)

-- The leases that are out after the calls, if there are `n` before them and none is given back twice.
abbrev pub Outstanding : ℕ → List LeaseCall → ℕ → Type 0
Outstanding n [] k = n ≡ k
Outstanding n (acquires now ∷ cs) k = Outstanding (suc n) cs k
Outstanding zero (releases ∷ cs) k = ⊥
Outstanding (suc n) (releases ∷ cs) k = Outstanding n cs k

run_count :
    (cs : List LeaseCall) (o : FileStorageObject) (n k : ℕ)
    → o.lease_count ≡ n
    → Outstanding n cs k
    → (run cs o).lease_count ≡ k
unfolding run acquire_lease release_lease
run_count [] o n k e h = ground arith
run_count (acquires now ∷ cs) o n k e h =
    run_count cs (acquire_lease now o) (suc n) k (omega (arith, e)) h
run_count (releases ∷ cs) o zero k e h = absurd h
run_count (releases ∷ cs) o (suc n) k e h = run_count cs (release_lease o) n k (omega (arith, e)) h

-- Where no lease is given back twice the count is the number of the leases that are out, and while
-- there is one the object cannot be evicted.
leased_stays :
    (cs : List LeaseCall) (o : FileStorageObject) (k : ℕ)
    → Outstanding o.lease_count cs k
    → ((run cs o).lease_count ≡ k) × (0 < k → is_evictable (run cs o) ≡ false)
unfolding is_evictable
leased_stays cs o k h =
    let e = run_count cs o o.lease_count k refl h in (e, λ l. ground (arith, e, l))
