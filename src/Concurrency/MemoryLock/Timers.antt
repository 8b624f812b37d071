-- ===== src/Concurrency/MemoryLock/Timers.antt =====
-- The timers of src/infra/queue/local/in-memory-lock.adapter.ts over any calls.
use file_system_spike.Base.{
  ℕ, ◌≤◌, ◌≡◌, refl, ◌≢◌, ◌⊎◌, inl, inr, String, str_eq, str_eq_iff, true, false, Option, none,
  some, List, [], ◌∷◌, arith, Bool-cases, leb, ap, ◌==◌, ◌-◌, sym, or_else,
}
use file_system_spike.Base.Dict.{lookup, delete, lookup-set, lookup-delete}
use file_system_spike.Concurrency.MemoryLock.{
  LockEntry, Timer, Locks, LockOptions, clear_timeout, dropped, entry_for, attempted,
  cleanup_expired_lock, default_wait_timeout, cleanup_found, installed, attempt, release,
  release_found, extend, extend_found, fire, fire_found, is_locked, force_release, force_found,
  default_ttl,
}

abbrev pub In : Timer → List Timer → Type 0
In t [] = ⊥
In t (x ∷ xs) = (t ≡ x) ⊎ In t xs

-- The timers of an entry's value run out when the entry does, and handles are never used twice.
pub record Sound (s : Locks) : Type 0 where
  pub due :
      (t : Timer) (e : LockEntry)
      → In t s.timers
      → lookup t.key s.locks ≡ some e
      → e.value ≡ t.value
      → (t.id ≡ e.timeout_id) × (t.at ≡ e.expires_at)

clear_timeout-In :
    (id : ℕ) (t : Timer) (ts : List Timer) → In t (clear_timeout id ts) → In t ts × (t.id ≢ id)
unfolding clear_timeout
clear_timeout-In id t [] h = absurd h
clear_timeout-In id t (x ∷ ts) h = elim (Bool-cases (x.id == id)) [
  | inl hit ↦ later (clear_timeout-In id t ts (rw hit at h))
  | inr miss ↦ here_or_later miss (clear_timeout-In id t ts) (rw miss at h)
]
  where
    later : In t ts × (t.id ≢ id) → In t (x ∷ ts) × (t.id ≢ id)
    later (i, n) = (inr i, n)

    here_or_later :
        (x.id == id) ≡ false
        → (In t (clear_timeout id ts) → In t ts × (t.id ≢ id))
        → (t ≡ x) ⊎ In t (clear_timeout id ts)
        → In t (x ∷ ts) × (t.id ≢ id)
    here_or_later miss below (inl e) = (inl e, ground (arith, miss, ap (λ y. Timer.id y) e))
    here_or_later miss below (inr i) = later (below i)

dropped-Sound : (key : String) (e : LockEntry) (s : Locks) → Sound s → Sound (dropped key e s)
dropped-Sound key e s v = record {
  due = λ t d i f q. v.due t d (clear_timeout-In e.timeout_id t s.timers i).0 (still t d f) q;
}
  where
    still :
        (t : Timer) (d : LockEntry)
        → lookup t.key (delete key s.locks) ≡ some d
        → lookup t.key s.locks ≡ some d
    still t d f = ground (arith, lookup-delete key t.key s.locks)

cleanup_found-Sound :
    (now : ℕ) (key : String) (o : Option LockEntry) (s : Locks)
    → Sound s
    → Sound (cleanup_found now key o s).0
unfolding cleanup_found
cleanup_found-Sound now key none s v = v
cleanup_found-Sound now key (some e) s v = elim (Bool-cases (leb e.expires_at now)) [
  | inl over ↦ rw over (dropped-Sound key e s v)
  | inr live ↦ rw live v
]

installed-Sound :
    (now : ℕ) (key value : String) (ttl : ℕ) (s : Locks)
    → ((t : Timer) → In t s.timers → t.key ≡ key → t.value ≢ value)
    → Sound s
    → Sound (installed now key value ttl s)
installed-Sound now key value ttl s u v = record { due = λ t d i f q. go t d i f q }
  where
    go :
        (t : Timer) (d : LockEntry)
        → In t (installed now key value ttl s).timers
        → lookup t.key (installed now key value ttl s).locks ≡ some d
        → d.value ≡ t.value
        → (t.id ≡ d.timeout_id) × (t.at ≡ d.expires_at)
    go t d (inl e) f q =
        ground
          (arith, e, lookup-set key key (entry_for now value ttl s) s.locks, str_eq_iff key key)
    go t d (inr i) f q = elim (Bool-cases (str_eq key t.key)) [
      | inl own ↦ absurd (
          u t i (sym ((str_eq_iff key t.key).0 own))
            (ground (arith, f, own, q, lookup-set key t.key (entry_for now value ttl s) s.locks)))
      | inr other ↦
          v.due t d i
            (ground (arith, f, other, lookup-set key t.key (entry_for now value ttl s) s.locks)) q
    ]

pub data Call : Type 0 where
  tries : ℕ → String → String → LockOptions → Call
  releases : String → String → Call
  extends : String → String → ℕ → Call
  fires : Timer → Call
  asks : String → Call
  forces : String → Call

unfoldable pub call : ℕ → Call → Locks → Locks
call now (tries since value key options) s = (attempt now since value key options s).0
call now (releases value key) s = release value key s
call now (extends value key ttl) s = (extend now value key ttl s).0
call now (fires t) s = fire t s
call now (asks key) s = (is_locked now key s).0
call now (forces key) s = force_release key s

-- A value that no entry and no timer has.
pub record Unused (value : String) (s : Locks) : Type 0 where
  pub no_entry : (key : String) (e : LockEntry) → lookup key s.locks ≡ some e → e.value ≢ value
  pub no_timer : (t : Timer) → In t s.timers → t.value ≢ value

-- A lock value is made afresh, and a timer does not run early.
abbrev pub Allowed : ℕ → Call → Locks → Type 0
Allowed now (tries since value key options) s = Unused value s
Allowed now (fires t) s = In t s.timers × (t.at ≤ now)
Allowed now _ s = Unit {0}

pub data Reach : Locks → Type 0 where
  start : Reach (record { locks = []; timers = []; next_id = 0 })
  next : {s : Locks} (now : ℕ) (c : Call) → Reach s → Allowed now c s → Reach (call now c s)

cleanup_timers_differ :
    (now : ℕ) (value key : String) (o : Option LockEntry) (s : Locks) (t : Timer)
    → Unused value s
    → In t (cleanup_found now key o s).0.timers
    → t.value ≢ value
unfolding cleanup_found
cleanup_timers_differ now value key none s t u i = u.no_timer t i
cleanup_timers_differ now value key (some e) s t u i = elim (Bool-cases (leb e.expires_at now)) [
  | inl over ↦ u.no_timer t (clear_timeout-In e.timeout_id t s.timers (rw over at i)).0
  | inr live ↦ u.no_timer t (rw live at i)
]

attempted-Sound :
    (now since : ℕ) (value key : String) (options : LockOptions) (o : Option LockEntry) (s : Locks)
    → ((t : Timer) → In t s.timers → t.value ≢ value)
    → Sound s
    → Sound (attempted now since value key options o s).0
unfolding attempted
attempted-Sound now since value key options (some e) s u v =
    elim (Bool-cases (leb (or_else options.wait_timeout default_wait_timeout) (now - since))) [
      | inl late ↦ rw late v
      | inr early ↦ rw early v
    ]
attempted-Sound now since value key options none s u v =
    installed-Sound now key value (or_else options.ttl default_ttl) s (λ t i k. u t i) v

release_found-Sound :
    (value key : String) (o : Option LockEntry) (s : Locks)
    → Sound s
    → Sound (release_found value key o s)
unfolding release_found
release_found-Sound value key none s v = v
release_found-Sound value key (some e) s v = elim (Bool-cases (str_eq e.value value)) [
  | inl own ↦ rw own (dropped-Sound key e s v)
  | inr other ↦ rw other v
]

force_found-Sound :
    (key : String) (o : Option LockEntry) (s : Locks) → Sound s → Sound (force_found key o s)
unfolding force_found
force_found-Sound key none s v = v
force_found-Sound key (some e) s v = dropped-Sound key e s v

cleared-Sound :
    (id : ℕ) (s : Locks) → Sound s → Sound (record s { timers = clear_timeout id s.timers })
cleared-Sound id s v = record {
  due = λ t d i f q. v.due t d (clear_timeout-In id t s.timers i).0 f q;
}

extend_found-Sound :
    (now : ℕ) (value key : String) (ttl : ℕ) (o : Option LockEntry) (s : Locks)
    → lookup key s.locks ≡ o
    → Sound s
    → Sound (extend_found now value key ttl o s).0
unfolding extend_found
extend_found-Sound now value key ttl none s h v = v
extend_found-Sound now value key ttl (some e) s h v = elim (Bool-cases (str_eq e.value value)) [
  | inr other ↦ rw other v
  | inl own ↦ rw own (
      installed-Sound now key value ttl (record s { timers = clear_timeout e.timeout_id s.timers })
        (λ t i k q. gone own t i k q) (cleared-Sound e.timeout_id s v))
]
  where
    gone :
        str_eq e.value value ≡ true
        → (t : Timer) → In t (clear_timeout e.timeout_id s.timers)
        → t.key ≡ key
        → t.value ≢ value
    gone own t i k q =
        let (j, n) = clear_timeout-In e.timeout_id t s.timers i in
        n (v.due t e j (ground (arith, h, k)) (ground (arith, q, own, str_eq_iff e.value value))).0

fire_found-Sound :
    (t : Timer) (o : Option LockEntry) (s : Locks) → Sound s → Sound (fire_found t o s)
unfolding fire_found
fire_found-Sound t none s v = v
fire_found-Sound t (some e) s v = elim (Bool-cases (str_eq e.value t.value)) [
  | inr other ↦ rw other v
  | inl own ↦ rw own (record { due = λ u d i f q. v.due u d i (still u d f) q })
]
  where
    still :
        (u : Timer) (d : LockEntry)
        → lookup u.key (delete t.key s.locks) ≡ some d
        → lookup u.key s.locks ≡ some d
    still u d f = ground (arith, lookup-delete t.key u.key s.locks)

call-Sound : (now : ℕ) (c : Call) (s : Locks) → Allowed now c s → Sound s → Sound (call now c s)
unfolding call attempt cleanup_expired_lock release extend fire is_locked force_release
call-Sound now (tries since value key options) s u v =
    let s1 = (cleanup_found now key (lookup key s.locks) s).0 in
    attempted-Sound now since value key options (lookup key s1.locks) s1
      (λ t i. cleanup_timers_differ now value key (lookup key s.locks) s t u i)
      (cleanup_found-Sound now key (lookup key s.locks) s v)
call-Sound now (releases value key) s u v = release_found-Sound value key (lookup key s.locks) s v
call-Sound now (extends value key ttl) s u v =
    extend_found-Sound now value key ttl (lookup key s.locks) s refl v
call-Sound now (fires t) s u v =
    fire_found-Sound t (lookup t.key s.locks) (record s { timers = clear_timeout t.id s.timers })
      (cleared-Sound t.id s v)
call-Sound now (asks key) s u v = cleanup_found-Sound now key (lookup key s.locks) s v
call-Sound now (forces key) s u v = force_found-Sound key (lookup key s.locks) s v

pub Reach-Sound : {s : Locks} → Reach s → Sound s
unfolding lookup
Reach-Sound start = record { due = λ t e i f q. absurd i }
Reach-Sound (next {s} now c r a) = call-Sound now c s a (Reach-Sound r)
