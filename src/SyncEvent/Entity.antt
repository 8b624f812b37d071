-- ===== src/SyncEvent/Entity.antt =====
-- SyncEventEntity of src/domain/sync-event/entities/sync-event.entity.ts. A method takes the time
-- that its `new Date()` reads.
use file_system_spike.Base.{
  ℕ, ◌+◌, String, Bool, true, false, ◌||◌, Option, some, List, leb, if◌then◌else◌,
}

pub data EventType : Type 0 where
  create move delete rename trash restore purge : EventType

pub data TargetType : Type 0 where
  file folder : TargetType

pub data Status : Type 0 where
  pending queued retrying processing done failed : Status

-- The metadata is a JSON object with texts and `null`s.
pub record SyncEvent : Type 0 where
  pub id : String
  pub event_type : EventType
  pub target_type : TargetType
  pub file_id : Option String
  pub folder_id : Option String
  pub source_path : String
  pub target_path : String
  pub status : Status
  pub process_by : String
  pub retry_count : ℕ
  pub max_retries : ℕ
  pub error_message : Option String
  pub metadata : Option (List (String × Option String))
  pub processed_at : Option ℕ
  pub created_at : ℕ
  pub updated_at : ℕ

abbrev status_is_pending : Status → Bool
status_is_pending pending = true
status_is_pending _ = false

abbrev status_is_queued : Status → Bool
status_is_queued queued = true
status_is_queued _ = false

abbrev status_is_processing : Status → Bool
status_is_processing processing = true
status_is_processing _ = false

abbrev status_is_done : Status → Bool
status_is_done done = true
status_is_done _ = false

abbrev status_is_failed : Status → Bool
status_is_failed failed = true
status_is_failed _ = false

unfoldable pub is_pending : SyncEvent → Bool
is_pending e = status_is_pending e.status

unfoldable pub is_queued : SyncEvent → Bool
is_queued e = status_is_queued e.status

unfoldable pub is_processing : SyncEvent → Bool
is_processing e = status_is_processing e.status

unfoldable pub is_done : SyncEvent → Bool
is_done e = status_is_done e.status

unfoldable pub is_failed : SyncEvent → Bool
is_failed e = status_is_failed e.status

unfoldable pub is_completed : SyncEvent → Bool
unfolding is_done is_failed
is_completed e = is_done e || is_failed e

unfoldable pub mark_queued : ℕ → SyncEvent → SyncEvent
mark_queued now e = record e { status = queued; updated_at = now }

unfoldable pub start_processing : ℕ → SyncEvent → SyncEvent
start_processing now e = record e { status = processing; updated_at = now }

unfoldable pub complete : ℕ → SyncEvent → SyncEvent
complete now e = record e { status = done; processed_at = some now; updated_at = now }

unfoldable pub fail : ℕ → String → SyncEvent → SyncEvent
fail now message e = record e { status = failed; error_message = some message; updated_at = now }

unfoldable pub retry : ℕ → String → SyncEvent → SyncEvent × Bool
unfolding fail
retry now message e = if leb e.max_retries e.retry_count then (fail now message e, false) else (
  record e {
    retry_count = e.retry_count + 1;
    error_message = some message;
    status = retrying;
    updated_at = now;
  },
  true,
)
