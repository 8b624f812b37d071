-- ===== src/Concurrency/MemoryLock/Ownership.antt =====
-- Who may take a lock of src/infra/queue/local/in-memory-lock.adapter.ts away from its owner.
use file_system_spike.Base.{
  ℕ, ◌≤◌, ◌<◌, ◌≡◌, refl, ◌≢◌, ◌⊎◌, String, str_eq_iff, Option, none, some, arith, ◌↔◌, ◌-◌,
  or_else,
}
use file_system_spike.Base.Dict.{lookup, lookup-set, lookup-delete}
use file_system_spike.Concurrency.MemoryLock.{
  acquired, timed_out, LockEntry, Timer, Locks, LockOptions, clear_timeout, entry_for, attempted,
  cleanup_expired_lock, default_wait_timeout, cleanup_found, attempt, release, release_found,
  extend, extend_found, fire, fire_found, is_locked, force_release, force_found, default_ttl,
}
use file_system_spike.Concurrency.MemoryLock.Timers.{
  Sound, Call, tries, releases, extends, fires, asks, forces, call, Allowed, Reach, Reach-Sound,
}

-- The calls by which an owner of `value` gives up or renews the lock of `key`, and the one that takes
-- any lock away.
abbrev pub IsOther : String → String → Call → Type 0
IsOther key value (releases v k) = (k ≢ key) ⊎ (v ≢ value)
IsOther key value (extends v k ttl) = (k ≢ key) ⊎ (v ≢ value)
IsOther key value (forces k) = k ≢ key
IsOther key value _ = Unit {0}

Held : String → LockEntry → Locks → Type 0
Held key e s = lookup key s.locks ≡ some e

cleanup_found-Held :
    (now : ℕ) (k key : String) (e : LockEntry) (o : Option LockEntry) (s : Locks)
    → lookup k s.locks ≡ o
    → now < e.expires_at
    → Held key e s
    → Held key e (cleanup_found now k o s).0
unfolding cleanup_found Held
cleanup_found-Held now k key e none s h l g = g
cleanup_found-Held now k key e (some d) s h l g =
    ground (arith, h, l, g, lookup-delete k key s.locks, str_eq_iff k key)

attempted-Held :
    (now since : ℕ) (value k key : String) (options : LockOptions) (e : LockEntry)
    (o : Option LockEntry) (s : Locks)
    → lookup k s.locks ≡ o
    → Held key e s
    → Held key e (attempted now since value k options o s).0
unfolding attempted Held
attempted-Held now since value k key options e (some d) s h g = ground (arith, g)
attempted-Held now since value k key options e none s h g = ground (
  arith,
  g,
  h,
  str_eq_iff k key,
  lookup-set k key (entry_for now value (or_else options.ttl default_ttl) s) s.locks,
)

release_found-Held :
    (value k key : String) (e : LockEntry) (o : Option LockEntry) (s : Locks)
    → lookup k s.locks ≡ o
    → (k ≢ key) ⊎ (value ≢ e.value)
    → Held key e s
    → Held key e (release_found value k o s)
unfolding release_found Held
release_found-Held value k key e none s h n g = g
release_found-Held value k key e (some d) s h n g =
    ground (arith, h, n, g, lookup-delete k key s.locks, str_eq_iff k key, str_eq_iff d.value value)

extend_found-Held :
    (now : ℕ) (value k key : String) (ttl : ℕ) (e : LockEntry) (o : Option LockEntry) (s : Locks)
    → lookup k s.locks ≡ o
    → (k ≢ key) ⊎ (value ≢ e.value)
    → Held key e s
    → Held key e (extend_found now value k ttl o s).0
unfolding extend_found Held
extend_found-Held now value k key ttl e none s h n g = g
extend_found-Held now value k key ttl e (some d) s h n g = ground (
  arith,
  h,
  n,
  g,
  lookup-set k key (entry_for now value ttl s) s.locks,
  str_eq_iff k key,
  str_eq_iff d.value value,
)

fire_found-Held :
    (t : Timer) (key : String) (e : LockEntry) (o : Option LockEntry) (s : Locks)
    → lookup t.key s.locks ≡ o
    → (e.value ≡ t.value → t.key ≢ key)
    → Held key e s
    → Held key e (fire_found t o s)
unfolding fire_found Held
fire_found-Held t key e none s h n g = g
fire_found-Held t key e (some d) s h n g = ground (
  arith,
  h,
  n,
  g,
  lookup-delete t.key key s.locks,
  str_eq_iff t.key key,
  str_eq_iff d.value t.value,
)

force_found-Held :
    (k key : String) (e : LockEntry) (o : Option LockEntry) (s : Locks)
    → k ≢ key
    → Held key e s
    → Held key e (force_found k o s)
unfolding force_found Held
force_found-Held k key e none s n g = g
force_found-Held k key e (some d) s n g =
    ground (arith, n, g, lookup-delete k key s.locks, str_eq_iff k key)

-- Until its time is over a lock is its owner's: in every state that calls lead to, where the values of
-- locks are fresh and no timer runs early, no attempt of another, no `release` or `extend` with another
-- value or for another key, no timer and no query changes the entry of the key. Only the owner's own
-- `release` and `extend` do, and `forceRelease`.
pub call_keeps_entry :
    {s : Locks} (now : ℕ) (c : Call) (key : String) (e : LockEntry)
    → Reach s
    → Allowed now c s
    → lookup key s.locks ≡ some e
    → now < e.expires_at
    → IsOther key e.value c
    → lookup key (call now c s).locks ≡ some e
unfolding call attempt cleanup_expired_lock release extend fire is_locked force_release Held
call_keeps_entry {s} now (tries since value k options) key e r a g l n =
    let s1 = (cleanup_found now k (lookup k s.locks) s).0 in
    attempted-Held now since value k key options e (lookup k s1.locks) s1 refl
      (cleanup_found-Held now k key e (lookup k s.locks) s refl l g)
call_keeps_entry {s} now (releases value k) key e r a g l n =
    release_found-Held value k key e (lookup k s.locks) s refl n g
call_keeps_entry {s} now (extends value k ttl) key e r a g l n =
    extend_found-Held now value k key ttl e (lookup k s.locks) s refl n g
call_keeps_entry {s} now (fires t) key e r a g l n =
    fire_found-Held t key e (lookup t.key s.locks)
      (record s { timers = clear_timeout t.id s.timers }) refl (early (Reach-Sound r)) g
  where
    early : Sound s → e.value ≡ t.value → t.key ≢ key
    early v q k = ground (arith, a.1, l, (v.due t e a.0 (ground (arith, g, k)) q).1)
call_keeps_entry {s} now (asks k) key e r a g l n =
    cleanup_found-Held now k key e (lookup k s.locks) s refl l g
call_keeps_entry {s} now (forces k) key e r a g l n =
    force_found-Held k key e (lookup k s.locks) s n g

-- What lets an attempt have the lock: no entry, or one whose time is over.
abbrev pub Free : ℕ → Option LockEntry → Type 0
Free now none = Unit {0}
Free now (some e) = e.expires_at ≤ now

attempt_found :
    (now since : ℕ) (value key : String) (options : LockOptions) (o : Option LockEntry) (s : Locks)
    → lookup key s.locks ≡ o
    → let s1 = (cleanup_found now key o s).0 in
      let r = attempted now since value key options (lookup key s1.locks) s1 in
      ((r.1 ≡ acquired) ↔ Free now o)
      × (r.1 ≡ timed_out → or_else options.wait_timeout default_wait_timeout ≤ now - since)
unfolding cleanup_found attempted
attempt_found now since value key options none s h = ground (arith, h)
attempt_found now since value key options (some e) s h =
    ground (arith, h, lookup-delete key key s.locks, str_eq_iff key key)

-- A round of `acquire` takes the lock exactly when the key has no entry or one whose time is over,
-- and it gives up only when the time to wait has passed.
attempt_takes :
    (now since : ℕ) (value key : String) (options : LockOptions) (s : Locks)
    → (((attempt now since value key options s).1 ≡ acquired) ↔ Free now (lookup key s.locks))
      × ((attempt now since value key options s).1 ≡ timed_out
          → or_else options.wait_timeout default_wait_timeout ≤ now - since)
unfolding attempt cleanup_expired_lock
attempt_takes now since value key options s =
    attempt_found now since value key options (lookup key s.locks) s refl
