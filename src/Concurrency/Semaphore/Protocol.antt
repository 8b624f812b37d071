-- ===== src/Concurrency/Semaphore/Protocol.antt =====
-- Callers of src/common/utils/semaphore.ts that release only what they hold.
use file_system_spike.Base.{
  ℕ, suc, ◌+◌, ◌≤◌, ◌<◌, ◌≡◌, refl, List, [], ◌∷◌, ◌++◌, zero, ap, Option, none, some, arith,
  length, length-append, ok,
}
use mathlib.Core.List.{append-nil, append_assoc}
use file_system_spike.Base.Int.{pos}
use file_system_spike.Concurrency.Semaphore.{
  Semaphore, new, Acquired, granted, queued, acquire, release,
}

-- The semaphore with the callers whose `acquire` has been resolved and not yet given back.
pub record System : Type 0 where
  pub sem : Semaphore
  pub holders : List ℕ

abbrev grant_to : Option ℕ → List ℕ → List ℕ
grant_to none hs = hs
grant_to (some c) hs = c ∷ hs

abbrev pub admit : Acquired → ℕ → List ℕ → List ℕ
admit granted c hs = c ∷ hs
admit queued c hs = hs

pub data Step : System → System → Type 0 where
  acquires :
      (s : System) (c : ℕ)
      → Step s
          (record { sem = (acquire c s.sem).0; holders = admit (acquire c s.sem).1 c s.holders })
  releases :
      (s : System) (hs : List ℕ) (h : ℕ) (ks : List ℕ)
      → s.holders ≡ hs ++ h ∷ ks
      → Step s (record { sem = (release s.sem).0; holders = grant_to (release s.sem).1 (hs ++ ks) })

pub data Reach (s : System) : System → Type 0 where
  here : Reach s s
  next : {t u : System} → Reach s t → Step t u → Reach s u

-- `current` counts the holders, never passes `max`, and nobody waits while a slot is free.
pub record Inv (s : System) : Type 0 where
  pub counted : s.sem.current ≡ pos (length s.holders)
  pub bounded : length s.holders ≤ s.sem.max
  pub busy : 0 < length s.sem.wait_queue → length s.holders ≡ s.sem.max

start-Inv : (max : ℕ) {m : Semaphore} → new max ≡ ok m → Inv (record { sem = m; holders = [] })
unfolding new
start-Inv max h = ground arith

releases-Inv :
    (s : System) (hs : List ℕ) (h : ℕ) (ks q : List ℕ)
    → s.sem.wait_queue ≡ q
    → s.holders ≡ hs ++ h ∷ ks
    → Inv s
    → Inv (record { sem = (release s.sem).0; holders = grant_to (release s.sem).1 (hs ++ ks) })
unfolding release
releases-Inv s hs h ks [] w e v =
    ground (arith, ap (length {0}) e, length-append hs (h ∷ ks), length-append hs ks)
releases-Inv s hs h ks (c ∷ q) w e v =
    ground (arith, ap (length {0}) e, length-append hs (h ∷ ks), length-append hs ks)

Step-Inv : {s t : System} → Step s t → Inv s → Inv t
unfolding acquire
Step-Inv (acquires s c) v = ground (arith, length-append s.sem.wait_queue (c ∷ []))
Step-Inv (releases s hs h ks e) v = releases-Inv s hs h ks s.sem.wait_queue refl e v

-- Whatever callers do, from a new semaphore on, as long as each gives back only a slot that it
-- holds: `current` is the number of holders, there are at most `max` of them, and while a caller
-- waits every slot is taken.
pub holders-Inv :
    (max : ℕ) {m : Semaphore} {s : System}
    → new max ≡ ok m
    → Reach (record { sem = m; holders = [] }) s
    → Inv s
holders-Inv max e here = start-Inv max e
holders-Inv max e (next r st) = Step-Inv st (holders-Inv max e r)

-- The callers that a row of `release` calls wakes, in order.
abbrev prepend : Option ℕ → List ℕ → List ℕ
prepend none cs = cs
prepend (some c) cs = c ∷ cs

unfoldable pub release_times : ℕ → Semaphore → Semaphore × List ℕ
release_times zero s = (s, [])
release_times (suc n) s =
    let (t, woken) = release s in let (u, later) = release_times n t in (u, prepend woken later)

unfoldable pub acquire_all : List ℕ → Semaphore → Semaphore
acquire_all [] s = s
acquire_all (c ∷ cs) s = acquire_all cs (acquire c s).0

acquire_all-full :
    (cs : List ℕ) (s : Semaphore) (m : ℕ)
    → s.current ≡ pos m
    → s.max ≤ m
    → acquire_all cs s ≡ record s { wait_queue = s.wait_queue ++ cs }
unfolding acquire_all acquire
acquire_all-full [] s m e h = ground (arith, append-nil s.wait_queue)
acquire_all-full (c ∷ cs) s m e h = ground (
  arith,
  acquire_all-full cs (record s { wait_queue = s.wait_queue ++ c ∷ [] }) m,
  append_assoc s.wait_queue (c ∷ []) cs,
)

release_times-queue :
    (q : List ℕ) (s : Semaphore)
    → s.wait_queue ≡ q
    → release_times (length q) s ≡ (record s { wait_queue = [] }, q)
unfolding release_times release
release_times-queue [] s e = ground arith
release_times-queue (c ∷ q) s e =
    ground (arith, release_times-queue q (record s { wait_queue = q }))

-- Callers that find every slot taken are woken in the order of their calls: after the calls `cs`
-- on a full semaphore with no waiter, as many releases wake exactly `cs`, in that order, and leave
-- the semaphore as it was before.
wakes_in_order :
    (cs : List ℕ) (s : Semaphore) (m : ℕ)
    → s.current ≡ pos m
    → s.max ≤ m
    → s.wait_queue ≡ []
    → release_times (length cs) (acquire_all cs s) ≡ (s, cs)
wakes_in_order cs s m e h w =
    ground
      (arith, acquire_all-full cs s m e h, release_times-queue cs (record s { wait_queue = cs }))

acquire_all-free :
    (cs : List ℕ) (s : Semaphore) (n : ℕ)
    → s.current ≡ pos n
    → n + length cs ≤ s.max
    → acquire_all cs s ≡ record s { current = pos (n + length cs) }
unfolding acquire_all acquire
acquire_all-free [] s n e h = ground arith
acquire_all-free (c ∷ cs) s n e h =
    ground (arith, acquire_all-free cs (record s { current = pos (n + 1) }) (n + 1))

-- `release` does not test that a slot is taken: one release too many on an idle semaphore, and the
-- next `max + 1` callers are all let in, none of them waiting.
stray_release_overcommits :
    (c : ℕ) (cs : List ℕ) (s : Semaphore)
    → s.current ≡ pos 0
    → s.wait_queue ≡ []
    → length cs ≡ s.max
    → acquire_all (c ∷ cs) (release s).0 ≡ record s { current = pos s.max }
unfolding release acquire acquire_all
stray_release_overcommits c cs s e w n =
    ground (arith, acquire_all-free cs (record s { current = pos 0 }) 0)
