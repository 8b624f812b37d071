-- ===== src/SyncEvent/Retries.antt =====
-- The life of a sync event of src/domain/sync-event/entities/sync-event.entity.ts, from the factory on.
use file_system_spike.Base.{
  ℕ, suc, ◌+◌, ◌≤◌, ◌<◌, ◌≡◌, ◌⊎◌, String, Bool, true, false, Option, some, none, List, [], ◌∷◌,
  arith, length, is_some, or_else, ◌-◌, min, leb, if◌then◌else◌, get_last?, inl, inr, Bool-cases,
  suc,
}
use file_system_spike.SyncEvent.Entity.{
  SyncEvent, TargetType, pending, retrying, done, failed, mark_queued, start_processing, complete,
  fail, retry,
}
use file_system_spike.SyncEvent.FileFactory.{
  FileCreateParams, FileRenameParams, FileMoveParams, FileTrashParams, FileRestoreParams,
  FilePurgeParams, create_file_create_event, create_file_rename_event, create_file_move_event,
  create_file_trash_event, create_file_restore_event, create_file_purge_event,
}
use file_system_spike.SyncEvent.FolderFactory.{
  FolderCreateParams, FolderRenameParams, FolderMoveParams, FolderTrashParams, FolderRestoreParams,
  FolderPurgeParams, create_folder_create_event, create_folder_rename_event,
  create_folder_move_event, create_folder_trash_event, create_folder_restore_event,
  create_folder_purge_event,
}
use file_system_spike.SyncEvent.Lifecycle.{Failure, handle_retry, extract_detailed_error_message}

-- The events that the factory makes.
pub data Made : SyncEvent → Type 0 where
  file_create : (p : FileCreateParams) (now : ℕ) → Made (create_file_create_event p now)
  file_rename : (p : FileRenameParams) (now : ℕ) → Made (create_file_rename_event p now)
  file_move : (p : FileMoveParams) (now : ℕ) → Made (create_file_move_event p now)
  file_trash : (p : FileTrashParams) (now : ℕ) → Made (create_file_trash_event p now)
  file_restore : (p : FileRestoreParams) (now : ℕ) → Made (create_file_restore_event p now)
  file_purge : (p : FilePurgeParams) (now : ℕ) → Made (create_file_purge_event p now)
  folder_create : (p : FolderCreateParams) (now : ℕ) → Made (create_folder_create_event p now)
  folder_rename : (p : FolderRenameParams) (now : ℕ) → Made (create_folder_rename_event p now)
  folder_move : (p : FolderMoveParams) (now : ℕ) → Made (create_folder_move_event p now)
  folder_trash : (p : FolderTrashParams) (now : ℕ) → Made (create_folder_trash_event p now)
  folder_restore : (p : FolderRestoreParams) (now : ℕ) → Made (create_folder_restore_event p now)
  folder_purge : (p : FolderPurgeParams) (now : ℕ) → Made (create_folder_purge_event p now)

-- The target type and the two target ids agree.
abbrev pub TargetAgrees : TargetType → Option String → Option String → Type 0
TargetAgrees TargetType.file f d = (is_some f ≡ true) × (d ≡ none)
TargetAgrees TargetType.folder f d = (f ≡ none) × (is_some d ≡ true)

pub record IsFresh (e : SyncEvent) : Type 0 where
  pub waits : e.status ≡ pending
  pub untried : e.retry_count ≡ 0
  pub three : e.max_retries ≡ 3
  pub no_error : e.error_message ≡ none
  pub target : TargetAgrees e.target_type e.file_id e.folder_id

-- Every factory method makes a pending event with no retry used, three allowed and no error, whose
-- target is one file or one folder as its target type says.
Made-IsFresh : {e : SyncEvent} → Made e → IsFresh e
unfolding create_file_create_event create_file_rename_event create_file_move_event
    create_file_trash_event create_file_restore_event create_file_purge_event
    create_folder_create_event create_folder_rename_event create_folder_move_event
    create_folder_trash_event create_folder_restore_event create_folder_purge_event
Made-IsFresh (file_create p now) = ground arith
Made-IsFresh (file_rename p now) = ground arith
Made-IsFresh (file_move p now) = ground arith
Made-IsFresh (file_trash p now) = ground arith
Made-IsFresh (file_restore p now) = ground arith
Made-IsFresh (file_purge p now) = ground arith
Made-IsFresh (folder_create p now) = ground arith
Made-IsFresh (folder_rename p now) = ground arith
Made-IsFresh (folder_move p now) = ground arith
Made-IsFresh (folder_trash p now) = ground arith
Made-IsFresh (folder_restore p now) = ground arith
Made-IsFresh (folder_purge p now) = ground arith

-- The calls of the entity's methods, which have no guard on the status.
pub data Call : Type 0 where
  marks_queued starts completes : ℕ → Call
  fails retries : ℕ → String → Call

unfoldable pub step : Call → SyncEvent → SyncEvent
step (marks_queued now) e = mark_queued now e
step (starts now) e = start_processing now e
step (completes now) e = complete now e
step (fails now m) e = fail now m e
step (retries now m) e = (retry now m e).0

unfoldable pub run : List Call → SyncEvent → SyncEvent
run [] e = e
run (c ∷ cs) e = run cs (step c e)

pub record Inv (e : SyncEvent) : Type 0 where
  pub capped : e.retry_count ≤ e.max_retries
  pub explained : (e.status ≡ failed) ⊎ (e.status ≡ retrying) → is_some e.error_message ≡ true
  pub stamped : e.status ≡ done → is_some e.processed_at ≡ true
  pub counted : e.status ≡ retrying → 0 < e.retry_count

fresh-Inv : {e : SyncEvent} → IsFresh e → Inv e
fresh-Inv f = ground arith

step-Inv : (c : Call) (e : SyncEvent) → Inv e → Inv (step c e)
unfolding step mark_queued start_processing complete fail retry
step-Inv (marks_queued now) e v = ground arith
step-Inv (starts now) e v = ground arith
step-Inv (completes now) e v = ground arith
step-Inv (fails now m) e v = ground arith
step-Inv (retries now m) e v = ground arith

run-Inv : (cs : List Call) (e : SyncEvent) → Inv e → Inv (run cs e)
unfolding run
run-Inv [] e v = v
run-Inv (c ∷ cs) e v = run-Inv cs (step c e) (step-Inv c e v)

-- After any calls on an event that the factory made: the retry count is at most the maximum, a
-- failed or retrying event has an error message, a done event has its time of completion, and a
-- retrying event has used a retry.
run-Made-Inv : {e : SyncEvent} (cs : List Call) → Made e → Inv (run cs e)
run-Made-Inv {e} cs m = run-Inv cs e (fresh-Inv (Made-IsFresh m))

-- The failures that a worker reports to `handleRetry`, one after another on the same event: the
-- event that results, and how many final failures were logged.
abbrev alert_count : Bool → ℕ
alert_count true = 1
alert_count false = 0

unfoldable pub handle_all : List (ℕ × Failure) → SyncEvent → SyncEvent × ℕ
handle_all [] e = (e, 0)
handle_all ((now, error) ∷ es) e =
    let eff = handle_retry now error (some e) in
    let (r, alerts) = handle_all es (or_else eff.event e) in (r, alert_count eff.alerted + alerts)

-- What `n` more failures make of an event that has used `k` of `m` retries.
pub record Tried (k m n : ℕ) (r : SyncEvent) (alerts : ℕ) : Type 0 where
  pub used : r.retry_count ≡ min (k + n) m
  pub allowed : r.max_retries ≡ m
  pub logged : alerts ≡ k + n - m
  pub given_up : m < k + n → r.status ≡ failed
  pub waiting : k + n ≤ m → 0 < n → r.status ≡ retrying

-- What one failure does.
record Once (e r : SyncEvent) (alerted : Bool) : Type 0 where
  same_max : r.max_retries ≡ e.max_retries
  retried :
      e.retry_count < e.max_retries
      → (r.retry_count ≡ e.retry_count + 1) × (alerted ≡ false) × (r.status ≡ retrying)
  exhausted :
      e.max_retries ≤ e.retry_count
      → (r.retry_count ≡ e.retry_count) × (alerted ≡ true) × (r.status ≡ failed)

handle_retry-Once :
    (now : ℕ) (error : Failure) (e : SyncEvent)
    → let eff = handle_retry now error (some e) in Once e (or_else eff.event e) eff.alerted
unfolding handle_retry retry
handle_retry-Once now error e = ground arith

Tried-one :
    {e r : SyncEvent} {b : Bool}
    → e.retry_count ≤ e.max_retries
    → Once e r b
    → Tried e.retry_count e.max_retries 1 r (alert_count b + 0)
Tried-one h o = ground arith

Tried-more :
    {e r q : SyncEvent} {b : Bool} (n alerts : ℕ)
    → e.retry_count ≤ e.max_retries
    → Once e r b
    → Tried r.retry_count r.max_retries (suc n) q alerts
    → Tried e.retry_count e.max_retries (suc (suc n)) q (alert_count b + alerts)
Tried-more n alerts h o t = ground arith

Once-le :
    {e r : SyncEvent} {b : Bool}
    → e.retry_count ≤ e.max_retries
    → Once e r b
    → r.retry_count ≤ r.max_retries
Once-le h o = ground arith

handle_all-Tried :
    (x : ℕ × Failure) (es : List (ℕ × Failure)) (e : SyncEvent)
    → e.retry_count ≤ e.max_retries
    → Tried e.retry_count e.max_retries
        (suc (length es))
        (handle_all (x ∷ es) e).0
        (handle_all (x ∷ es) e).1
unfolding handle_all
handle_all-Tried (now, error) [] e h = Tried-one h (handle_retry-Once now error e)
handle_all-Tried (now, error) (y ∷ es) e h =
    let o = handle_retry-Once now error e in
    Tried-more (length es) _ h o (handle_all-Tried y es _ (Once-le h o))

-- On an event that the factory made, the first three reported failures leave the event retrying
-- and are not logged as final; every failure from the fourth on leaves it failed, is logged once,
-- and uses no further retry.
pub handle_all-Made :
    {e : SyncEvent} (es : List (ℕ × Failure))
    → Made e
    → Tried 0 3 (length es) (handle_all es e).0 (handle_all es e).1
unfolding handle_all
handle_all-Made [] m = ground (arith, Made-IsFresh m)
handle_all-Made {e} (x ∷ es) m = ground (arith, handle_all-Tried x es e, Made-IsFresh m)

-- What one call of `handleRetry` leaves in the repository: the last save is the event as the call
-- returns it, with the detailed message. Where the retries are used up the event is failed and the
-- failure is logged; where they are not it is retrying, and in no case pending.
handle_retry-saved :
    (now : ℕ) (error : Failure) (e : SyncEvent)
    → let eff = handle_retry now error (some e) in
      (r : SyncEvent) × (eff.event ≡ some r)
      × (get_last? eff.saved ≡ some r)
      × (r.error_message ≡ some (extract_detailed_error_message error))
      × (eff.alerted ≡ leb e.max_retries e.retry_count)
      × (r.status ≡ (if leb e.max_retries e.retry_count then failed else retrying))
unfolding handle_retry retry
handle_retry-saved now error e = elim (Bool-cases (leb e.max_retries e.retry_count)) [
  | inl t ↦ (
    fail now (extract_detailed_error_message error) e,
    ground arith,
    ground arith,
    ground arith,
    ground arith,
    ground arith,
  )
  | inr t ↦ (
    (retry now (extract_detailed_error_message error) e).0,
    ground arith,
    ground arith,
    ground arith,
    ground arith,
    ground arith,
  )
]
