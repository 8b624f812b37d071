-- ===== src/Concurrency/MemoryLock.antt =====
-- InMemoryLockAdapter of src/infra/queue/local/in-memory-lock.adapter.ts. The pending timers of
-- `setTimeout` are part of the state; a handle is a number. `generateLockValue` is an argument.
pub mod Timers
pub mod Ownership
use file_system_spike.Base.{
  ℕ, zero, suc, ◌+◌, ◌-◌, String, str_eq, Bool, true, false, Option, none, some, List, [], ◌∷◌, leb,
  ◌==◌, if◌then◌else◌, or_else, is_some,
}
use file_system_spike.Base.Dict.{lookup, set, delete}

pub record LockEntry : Type 0 where
  pub value : String
  pub expires_at : ℕ
  pub timeout_id : ℕ

pub record Timer : Type 0 where
  pub id : ℕ
  pub key : String
  pub value : String
  pub at : ℕ

-- `next_id` is the handle that the next `setTimeout` gives.
pub record Locks : Type 0 where
  pub locks : List (String × LockEntry)
  pub timers : List Timer
  pub next_id : ℕ

pub record LockOptions : Type 0 where
  pub ttl : Option ℕ
  pub wait_timeout : Option ℕ

abbrev pub default_ttl : ℕ
default_ttl = 30000

abbrev pub default_wait_timeout : ℕ
default_wait_timeout = 10000

unfoldable pub clear_timeout : ℕ → List Timer → List Timer
clear_timeout id [] = []
clear_timeout id (t ∷ ts) = let rest = clear_timeout id ts in if t.id == id then rest else t ∷ rest

-- The entry goes, and its timer with it.
abbrev pub dropped : String → LockEntry → Locks → Locks
dropped key e s = record s {
  locks = delete key s.locks;
  timers = clear_timeout e.timeout_id s.timers;
}

cleanup_found : ℕ → String → Option LockEntry → Locks → Locks × Bool
cleanup_found now key none s = (s, false)
cleanup_found now key (some e) s =
    if leb e.expires_at now then (dropped key e s, true) else (s, false)

unfoldable pub cleanup_expired_lock : ℕ → String → Locks → Locks × Bool
unfolding cleanup_found
cleanup_expired_lock now key s = cleanup_found now key (lookup key s.locks) s

abbrev pub entry_for : ℕ → String → ℕ → Locks → LockEntry
entry_for now value ttl s = record { value = value; expires_at = now + ttl; timeout_id = s.next_id }

-- The new entry with its new timer.
abbrev pub installed : ℕ → String → String → ℕ → Locks → Locks
installed now key value ttl s = record {
  locks = set key (entry_for now value ttl s) s.locks;
  timers = record { id = s.next_id; key = key; value = value; at = now + ttl } ∷ s.timers;
  next_id = suc s.next_id;
}

pub data Attempt : Type 0 where
  acquired timed_out sleeps : Attempt

attempted : ℕ → ℕ → String → String → LockOptions → Option LockEntry → Locks → Locks × Attempt
attempted now since value key options (some e) s =
    if leb (or_else options.wait_timeout default_wait_timeout) (now - since)
    then (s, timed_out)
    else (s, sleeps)
attempted now since value key options none s =
    (installed now key value (or_else options.ttl default_ttl) s, acquired)

-- One round of the loop of `acquire`, which began at `since`.
unfoldable pub attempt : ℕ → ℕ → String → String → LockOptions → Locks → Locks × Attempt
unfolding cleanup_expired_lock attempted
attempt now since value key options s =
    let s1 = (cleanup_expired_lock now key s).0 in
    attempted now since value key options (lookup key s1.locks) s1

release_found : String → String → Option LockEntry → Locks → Locks
release_found value key none s = s
release_found value key (some e) s = if str_eq e.value value then dropped key e s else s

-- The `release` that `acquire` gives to the owner of `value`.
unfoldable pub release : String → String → Locks → Locks
unfolding release_found
release value key s = release_found value key (lookup key s.locks) s

extend_found : ℕ → String → String → ℕ → Option LockEntry → Locks → Locks × Bool
extend_found now value key ttl none s = (s, false)
extend_found now value key ttl (some e) s =
    if str_eq e.value value
    then (
      installed now key value ttl (record s { timers = clear_timeout e.timeout_id s.timers }),
      true,
    )
    else (s, false)

-- `ttl` is that of the call, or else of the `acquire`.
unfoldable pub extend : ℕ → String → String → ℕ → Locks → Locks × Bool
unfolding extend_found
extend now value key ttl s = extend_found now value key ttl (lookup key s.locks) s

fire_found : Timer → Option LockEntry → Locks → Locks
fire_found t none s = s
fire_found t (some e) s =
    if str_eq e.value t.value then record s { locks = delete t.key s.locks } else s

-- The callback of a timer that has run out; a timer runs once.
unfoldable pub fire : Timer → Locks → Locks
unfolding fire_found
fire t s = fire_found t (lookup t.key s.locks) (record s { timers = clear_timeout t.id s.timers })

unfoldable pub is_locked : ℕ → String → Locks → Locks × Bool
unfolding cleanup_expired_lock
is_locked now key s =
    let s1 = (cleanup_expired_lock now key s).0 in (s1, is_some (lookup key s1.locks))

force_found : String → Option LockEntry → Locks → Locks
force_found key none s = s
force_found key (some e) s = dropped key e s

unfoldable pub force_release : String → Locks → Locks
unfolding force_found
force_release key s = force_found key (lookup key s.locks) s
