-- ===== src/SyncEvent/Lifecycle.antt =====
-- src/business/worker/shared/sync-event-lifecycle.helper.ts. `syncEventDomainService.저장` is the
-- repository's: an effect is the list of the snapshots that are saved, in order, and `null` is `none`.
use Prim.Native.String
use file_system_spike.Base.{
  ℕ, String, str_eq, Bool, true, false, Option, some, none, List, [], ◌∷◌, if◌then◌else◌,
}
use file_system_spike.SyncEvent.Entity.{SyncEvent, start_processing, complete, fail, retry}

-- An `Error` with the message of its `cause`, where that is an object with a message.
pub record Failure : Type 0 where
  pub message : String
  pub cause : Option String

-- What a call leaves behind: the event, the saves, and whether the final failure was logged.
pub record Effect : Type 0 where
  pub event : Option SyncEvent
  pub saved : List SyncEvent
  pub alerted : Bool

abbrev nothing_done : Effect
nothing_done = record { event = none; saved = []; alerted = false }

abbrev save_once : SyncEvent → Effect
save_once e = record { event = some e; saved = e ∷ []; alerted = false }

unfoldable pub mark_processing : ℕ → Option SyncEvent → Effect
unfolding start_processing
mark_processing now none = nothing_done
mark_processing now (some e) = save_once (start_processing now e)

unfoldable pub mark_done : ℕ → Option SyncEvent → Effect
unfolding complete
mark_done now none = nothing_done
mark_done now (some e) = save_once (complete now e)

unfoldable pub mark_failed : ℕ → String → Option SyncEvent → Effect
unfolding fail
mark_failed now reason none = nothing_done
mark_failed now reason (some e) = save_once (fail now reason e)

with_cause : String → Option String → String
with_cause message none = message
with_cause message (some cause) =
    if str_eq cause "" then message else String.◌++◌ message (String.◌++◌ ": " cause)

unfoldable pub extract_detailed_error_message : Failure → String
unfolding with_cause
extract_detailed_error_message error = with_cause error.message error.cause

-- The tail of `handleRetry`, after the event has been saved once.
after_retry : ℕ → String → SyncEvent × Bool → Effect
unfolding fail
after_retry now message (e, true) = save_once e
after_retry now message (e, false) =
    let final = fail now message e in
    record { event = some final; saved = e ∷ final ∷ []; alerted = true }

unfoldable pub handle_retry : ℕ → Failure → Option SyncEvent → Effect
unfolding after_retry
handle_retry now error none = nothing_done
handle_retry now error (some e) =
    let message = extract_detailed_error_message error in
    after_retry now message (retry now message e)
