-- ===== src/Concurrency/Semaphore.antt =====
-- src/common/utils/semaphore.ts. A waiting caller's `resolve` callback is that caller's number.
pub mod Protocol
use file_system_spike.Base.{
  ℕ, ◌≡◌, List, [], ◌∷◌, ◌++◌, Option, none, some, Bool, ltb, if◌then◌else◌, length, Result, ok,
  err,
}
use file_system_spike.Base.Int.{ℤ, pos, ltb_ℤ, incr, decr, sub_ℕ, pos_part, neg_part}
use Prim.Native.Nat.{◌+◌}

-- `current` is decremented with no test, so it is an integer.
pub record Semaphore : Type 0 where
  pub max : ℕ
  pub current : ℤ
  pub wait_queue : List ℕ

pub data Error : Type 0 where
  max_below_one : ℕ → Error

unfoldable pub new : ℕ → Result Error Semaphore
new max =
    if ltb max 1
    then err (max_below_one max)
    else ok (record { max = max; current = pos 0; wait_queue = [] })

-- The promise of `acquire`: resolved at once, or left to the wait queue.
pub data Acquired : Type 0 where
  granted queued : Acquired

unfoldable pub acquire : ℕ → Semaphore → Semaphore × Acquired
acquire caller s =
    if ltb_ℤ s.current (pos s.max)
    then (record s { current = incr s.current }, granted)
    else (record s { wait_queue = s.wait_queue ++ caller ∷ [] }, queued)

-- `waitQueue.shift()!` and the call of the callback: the result is the caller that is woken.
release_from : List ℕ → Semaphore → Semaphore × Option ℕ
release_from [] s = (record s { current = decr s.current }, none)
release_from (next ∷ rest) s = (record s { wait_queue = rest }, some next)

unfoldable pub release : Semaphore → Semaphore × Option ℕ
unfolding release_from
release s = release_from s.wait_queue s

unfoldable pub available : Semaphore → ℤ
available s = sub_ℕ (s.max + neg_part s.current) (pos_part s.current)

unfoldable pub waiting : Semaphore → ℕ
waiting s = length s.wait_queue

unfoldable pub active : Semaphore → ℤ
active s = s.current

unfoldable pub capacity : Semaphore → ℕ
capacity s = s.max
