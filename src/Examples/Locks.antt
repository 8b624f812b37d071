-- ===== src/Examples/Locks.antt =====
-- Locks of src/infra/queue/local/in-memory-lock.adapter.ts.
use file_system_spike.Base.{
  ◌≢◌, ◌≡◌, refl, ap, sym, ◌∙◌, str_eq, str_eq_iff, Bool-cases, inl, inr, String, some, none, [],
  ◌∷◌, arith,
}
use file_system_spike.Base.Dict.{lookup, set}
use file_system_spike.Concurrency.MemoryLock.{
  LockEntry, LockOptions, Locks, Timer, attempt, cleanup_expired_lock,
}
use file_system_spike.Concurrency.MemoryLock.Timers.{tries, call, Unused, Reach, start, next}
use file_system_spike.Concurrency.MemoryLock.Ownership.{call_keeps_entry}

abbrev options : LockOptions
options = record { ttl = some 50; wait_timeout = none }

abbrev none_held : Locks
none_held = record { locks = []; timers = []; next_id = 0 }

abbrev held : Locks
held = call 10 (tries 10 "v1" "file" options) none_held

abbrev entry : LockEntry
entry = record { value = "v1"; expires_at = 60; timeout_id = 0 }

v1-Unused : Unused "v1" none_held
unfolding lookup
v1-Unused = record { no_entry = λ key e h. cc; no_timer = λ t i. absurd i }

reached : Reach held
reached = next 10 (tries 10 "v1" "file" options) start v1-Unused

is_held : lookup "file" held.locks ≡ some entry
unfolding call attempt cleanup_expired_lock lookup set
is_held = refl

v1_is_not_v2 : ◌≢◌ {A = String} "v1" "v2"
v1_is_not_v2 q = cc ((str_eq_iff "v1" "v2").1 q)

only_v1 :
    (key : String) (e : LockEntry) → lookup key (("file", entry) ∷ []) ≡ some e → e.value ≡ "v1"
unfolding lookup
only_v1 key e q = elim (Bool-cases (str_eq "file" key)) [
  | inl same ↦ ground (arith, rw same at q)
  | inr other ↦ absurd (cc (rw other at q))
]

v2-Unused : Unused "v2" held
unfolding call attempt cleanup_expired_lock lookup set
v2-Unused = record {
  no_entry = λ key e h q. v1_is_not_v2 (sym (only_v1 key e h) ∙ q);
  no_timer = λ t i q. elim i [
    | inl e ↦ v1_is_not_v2 (sym (ap (λ u. Timer.value u) e) ∙ q)
    | inr j ↦ absurd j
  ];
}

call_keeps_entry_example :
    lookup "file" (call 20 (tries 15 "v2" "file" options) held).locks ≡ some entry
call_keeps_entry_example =
    call_keeps_entry 20 (tries 15 "v2" "file" options) "file" entry reached v2-Unused is_held
      (omega arith) tt
