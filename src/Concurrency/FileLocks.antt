-- ===== src/Concurrency/FileLocks.antt =====
-- FileLockManager of src/infra/storage/file-lock.manager.ts. An RWLock object of the package async-rwlock
-- is the number that it gets when it is made; what the package grants is a parameter. The callers are
-- part of the state: a claim is one call of acquireRead or acquireWrite with the release function that
-- it gives.
pub mod Table
pub mod Exclusion
pub mod Several
use file_system_spike.Base.{
  ℕ, zero, suc, ◌≡◌, String, Bool, true, false, ◌&&◌, Option, none, some, List, [], ◌∷◌, ◌++◌,
  if◌then◌else◌, length, ◌==◌, set, count,
}
use file_system_spike.Base.Int.{ℤ, pos, negsuc, incr, decr}
use file_system_spike.Base.Dict

pub data Mode : Type 0 where
  read write : Mode

-- The source's `LockEntry`.
pub record FileLock : Type 0 where
  pub lock : ℕ
  pub ref_count : ℤ

-- A call waits for the package, holds the lock, or is over: it timed out or its release function ran.
pub data Phase : Type 0 where
  waiting held over : Phase

pub record Claim : Type 0 where
  pub key : String
  pub lock : ℕ
  pub mode : Mode
  pub phase : Phase

-- `next_lock` is the number of the next `new RWLock()`.
pub record Manager : Type 0 where
  pub locks : List (String × FileLock)
  pub next_lock : ℕ
  pub claims : List Claim

abbrev pub counted : String → FileLock → Manager → Manager
counted key e m = record m {
  locks = Dict.set key (record e { ref_count = incr e.ref_count }) m.locks;
}

unfoldable pub get_or_create_found : String → Option FileLock → Manager → Manager × ℕ
get_or_create_found key (some e) m = (counted key e m, e.lock)
get_or_create_found key none m = (
  counted key (record { lock = m.next_lock; ref_count = pos 0 })
      (record m { next_lock = suc m.next_lock }),
  m.next_lock,
)

-- `getOrCreateLock`, which also counts the reference.
unfoldable pub get_or_create_lock : String → Manager → Manager × ℕ
unfolding get_or_create_found
get_or_create_lock key m = get_or_create_found key (Dict.lookup key m.locks) m

unfoldable pub decrement_found : String → Option FileLock → Manager → Manager
decrement_found key none m = m
decrement_found key (some e) m = record m {
  locks = Dict.set key (record e { ref_count = decr e.ref_count }) m.locks;
}

unfoldable pub decrement_ref : String → Manager → Manager
unfolding decrement_found
decrement_ref key m = decrement_found key (Dict.lookup key m.locks) m

-- `acquireRead` and `acquireWrite` up to the wait for the package.
unfoldable pub acquire : Mode → String → Manager → Manager
acquire mode key m =
    let (m', lock) = get_or_create_lock key m in
    record m' {
      claims = m'.claims ++ record { key = key; lock = lock; mode = mode; phase = waiting } ∷ [];
    }

abbrev pub put_claim : ℕ → Claim → Manager → Manager
put_claim i c m = record m { claims = set m.claims i c }

-- The wait ends well: the release function is given to the caller.
unfoldable pub granted : ℕ → Claim → Manager → Manager
granted i c m = put_claim i (record c { phase = held }) m

-- The wait ends by the time limit: the reference is given back and the call throws.
unfoldable pub timed_out : ℕ → Claim → Manager → Manager
timed_out i c m = decrement_ref c.key (put_claim i (record c { phase = over }) m)

unfoldable pub release_phase : ℕ → Claim → Phase → Manager → Manager
release_phase i c held m = decrement_ref c.key (put_claim i (record c { phase = over }) m)
release_phase i c _ m = m

-- The release function. A second call does nothing.
unfoldable pub release : ℕ → Claim → Manager → Manager
unfolding release_phase
release i c m = release_phase i c c.phase m

unfoldable pub is_zero : ℤ → Bool
is_zero (pos zero) = true
is_zero (pos (suc n)) = false
is_zero (negsuc n) = false

unfoldable pub unused_dropped : List (String × FileLock) → List (String × FileLock)
unfolding is_zero
unused_dropped [] = []
unused_dropped ((k, e) ∷ m) =
    let rest = unused_dropped m in if is_zero e.ref_count then rest else (k, e) ∷ rest

unfoldable pub cleanup : Manager → Manager
cleanup m = record m { locks = unused_dropped m.locks }

unfoldable pub get_active_lock_count : Manager → ℕ
get_active_lock_count m = length m.locks

abbrev pub is_live : Phase → Bool
is_live waiting = true
is_live held = true
is_live over = false

abbrev pub is_held : Phase → Bool
is_held held = true
is_held _ = false

abbrev pub is_write : Mode → Bool
is_write write = true
is_write read = false

-- The claims on one lock object that hold it, and those of them that write.
abbrev pub holders : ℕ → List Claim → ℕ
holders l cs = count (λ c. c.lock == l && is_held c.phase) cs

abbrev pub writers : ℕ → List Claim → ℕ
writers l cs = count (λ c. c.lock == l && (is_held c.phase && is_write c.mode)) cs

-- What the source relies on of async-rwlock, whose `readLock` and `writeLock` may grant a lock with so
-- many holders and writers: a writer has it alone.
pub record RwLockPackage : Type 1 where
  pub Grants : Mode → ℕ → ℕ → Type 0
  pub write_alone : (h w : ℕ) → Grants write h w → h ≡ 0
  pub read_shared : (h w : ℕ) → Grants read h w → w ≡ 0
