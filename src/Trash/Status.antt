-- ===== src/Trash/Status.antt =====
-- `getRestoreStatus` of src/business/trash/trash.service.ts.
pub mod AfterRestore
use file_system_spike.Base.{
  ℕ, suc, String, Bool, true, false, ◌&&◌, Option, none, some, List, [], ◌∷◌, ◌==◌, length,
  if◌then◌else◌,
}
use file_system_spike.Base.Dict.{has}
use file_system_spike.SyncEvent.Entity.{
  SyncEvent, Status, pending, queued, retrying, processing, done, failed,
}
use file_system_spike.Trash.Store.{Store}

pub record Summary : Type 0 where
  pub total : ℕ
  pub pending_count : ℕ
  pub processing_count : ℕ
  pub done_count : ℕ
  pub failed_count : ℕ

pub record RestoreStatus : Type 0 where
  pub summary : Summary
  pub is_completed : Bool

-- `findByIds`.
unfoldable pub find_by_ids : List String → List (String × SyncEvent) → List SyncEvent
find_by_ids ids [] = []
find_by_ids ids ((k, e) ∷ es) =
    let rest = find_by_ids ids es in if has ids k then e ∷ rest else rest

-- The switch over the status of one event.
unfoldable pub add_status : Status → Summary → Summary
add_status pending s = record s { pending_count = suc s.pending_count }
add_status processing s = record s { processing_count = suc s.processing_count }
add_status done s = record s { done_count = suc s.done_count }
add_status failed s = record s { failed_count = suc s.failed_count }
add_status queued s = s
add_status retrying s = s

unfoldable pub summarize : List SyncEvent → Summary → Summary
unfolding add_status
summarize [] s = s
summarize (e ∷ es) s = summarize es (add_status e.status s)

abbrev pub summary_of_none : ℕ → Summary
summary_of_none n = record {
  total = n;
  pending_count = 0;
  processing_count = 0;
  done_count = 0;
  failed_count = 0;
}

unfoldable pub completed : Summary → RestoreStatus
completed s = record { summary = s; is_completed = s.pending_count == 0 && s.processing_count == 0 }

unfoldable pub get_restore_status : List String → Store → RestoreStatus
unfolding find_by_ids summarize completed
get_restore_status [] s = record { summary = summary_of_none 0; is_completed = true }
get_restore_status (i ∷ ids) s =
    let es = find_by_ids (i ∷ ids) s.events in
    completed (summarize es (summary_of_none (length es)))
