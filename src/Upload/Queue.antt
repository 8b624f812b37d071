-- ===== src/Upload/Queue.antt =====
-- UploadQueueService of src/business/file/upload-queue.service.ts: admission of multipart uploads and
-- the virtual queue. A handler is one step, in which nobody else runs while it awaits the session store;
-- Queue/Overlap is about two admissions that overlap. A handler takes the time that it reads, and the id that `uuidv4` gives.
pub mod Handlers
pub mod Admission
pub mod Invariant
pub mod Runs
pub mod Capacity
pub mod Overlap
pub mod Promotion
pub mod Starvation
use Prim.Native.String
use file_system_spike.Base.{
  ℕ, zero, suc, ◌+◌, ◌-◌, ◌*◌, String, str_eq, Bool, true, false, ◌||◌, Option, some, none, List,
  [], ◌∷◌, ◌++◌, leb, ltb, if◌then◌else◌, length, Result, ok, err,
}
use file_system_spike.Base.Dict.{lookup, set, delete, has, remove, position}

pub data TicketStatus : Type 0 where
  waiting ready active expired cancelled : TicketStatus

pub record InitiateRequest : Type 0 where
  pub file_name : String
  pub folder_id : String
  pub total_size : ℕ
  pub mime_type : String

pub record InitiateResponse : Type 0 where
  pub session_id : String
  pub part_size : ℕ
  pub total_parts : ℕ
  pub expires_at : ℕ

pub record QueueTicket : Type 0 where
  pub ticket_id : String
  pub user_id : String
  pub status : TicketStatus
  pub request : InitiateRequest
  pub session : Option InitiateResponse
  pub ready_at : Option ℕ
  pub created_at : ℕ
  pub ticket_expires_at : ℕ

pub record Config : Type 0 where
  pub max_active_sessions : ℕ
  pub max_sessions_per_user : ℕ
  pub max_total_upload_bytes : ℕ
  pub max_file_size_bytes : ℕ
  pub queue_ticket_ttl_ms : ℕ
  pub queue_ready_claim_ms : ℕ
  pub max_queue_size : ℕ
  pub estimated_session_duration_seconds : ℕ

-- The defaults of the constructor, for keys that the environment does not set.
unfoldable pub default_config : Config
default_config = record {
  max_active_sessions = 10;
  max_sessions_per_user = 3;
  max_total_upload_bytes = 50 * 1024 * 1024 * 1024;
  max_file_size_bytes = 20 * 1024 * 1024 * 1024;
  queue_ticket_ttl_ms = 30 * 60 * 1000;
  queue_ready_claim_ms = 5 * 60 * 1000;
  max_queue_size = 50;
  estimated_session_duration_seconds = 300;
}

pub record UploadQueue : Type 0 where
  pub ticket_map : List (String × QueueTicket)
  pub waiting_order : List String
  pub user_tickets : List (String × List String)

unfoldable pub empty : UploadQueue
empty = record { ticket_map = []; waiting_order = []; user_tickets = [] }

pub record Stats : Type 0 where
  pub count : ℕ
  pub total_bytes : ℕ

-- What the queue asks of the upload sessions: `활성세션통계`, and `MultipartUploadService.initiate`,
-- which gives `none` where it
-- throws. Both read the clock.
pub record SessionStore : Type 1 where
  pub State : Type 0
  pub stats : ℕ → State → Stats
  pub initiate : ℕ → InitiateRequest → State → Option (InitiateResponse × State)

pub data QueueError : Type 0 where
  file_too_large queue_full : ℕ → QueueError
  initiate_failed : QueueError

pub data InitiateOrQueue : Type 0 where
  admitted : InitiateResponse → InitiateOrQueue
  enqueued : String → ℕ → ℕ → InitiateOrQueue

pub data ExpiryReason : Type 0 where
  not_found ticket_ttl was_expired ready_claim used : ExpiryReason

-- The answers to a poll: position and estimated wait, the session with the claim deadline, and why
-- a ticket is no longer good.
pub data QueueStatus : Type 0 where
  is_waiting : ℕ → ℕ → QueueStatus
  is_ready : Option InitiateResponse → ℕ → QueueStatus
  is_expired : ExpiryReason → QueueStatus
  is_cancelled : QueueStatus

pub record OverallStatus : Type 0 where
  pub active_sessions : ℕ
  pub max_active_sessions : ℕ
  pub waiting_count : ℕ
  pub max_queue_size : ℕ
  pub total_upload_bytes : ℕ
  pub max_total_upload_bytes : ℕ
  pub available_slots : ℕ

pub data CancelResult : Type 0 where
  cancel_ok cancel_not_found cancel_active : CancelResult

abbrev pub counts : TicketStatus → Bool
counts waiting = true
counts ready = true
counts active = true
counts expired = false
counts cancelled = false

abbrev pub status_is_waiting : TicketStatus → Bool
status_is_waiting waiting = true
status_is_waiting _ = false

abbrev pub ticket_counts : Option QueueTicket → ℕ
ticket_counts none = 0
ticket_counts (some t) = if counts t.status then 1 else 0

unfoldable pub count_tickets : List (String × QueueTicket) → List String → ℕ
count_tickets m [] = 0
count_tickets m (k ∷ ks) = ticket_counts (lookup k m) + count_tickets m ks

abbrev pub set_of : Option (List String) → List String
set_of none = []
set_of (some ks) = ks

unfoldable pub get_user_active_ticket_count : String → UploadQueue → ℕ
get_user_active_ticket_count user q =
    count_tickets q.ticket_map (set_of (lookup user q.user_tickets))

abbrev pub add_once : String → List String → List String
add_once k ks = if has ks k then ks else ks ++ k ∷ []

unfoldable pub track_user_ticket : String → String → UploadQueue → UploadQueue
track_user_ticket user ticket_id q = record q {
  user_tickets = set user (add_once ticket_id (set_of (lookup user q.user_tickets))) q.user_tickets;
}

abbrev untrack_set :
    String → List String → List (String × List String) → List (String × List String)
untrack_set user [] m = delete user m
untrack_set user (k ∷ ks) m = set user (k ∷ ks) m

abbrev untrack :
    String
    → String
    → Option (List String)
    → List (String × List String)
    → List (String × List String)
untrack user ticket_id none m = m
untrack user ticket_id (some ks) m = untrack_set user (remove ticket_id ks) m

abbrev untrack_ticket :
    String → Option QueueTicket → List (String × List String) → List (String × List String)
untrack_ticket ticket_id none m = m
untrack_ticket ticket_id (some t) m = untrack t.user_id ticket_id (lookup t.user_id m) m

unfoldable pub remove_ticket : String → UploadQueue → UploadQueue
remove_ticket ticket_id q = record q {
  user_tickets = untrack_ticket ticket_id (lookup ticket_id q.ticket_map) q.user_tickets;
  waiting_order = remove ticket_id q.waiting_order;
  ticket_map = delete ticket_id q.ticket_map;
}

unfoldable pub check_capacity : Config → Stats → ℕ → Bool
check_capacity cfg st additional =
    if leb cfg.max_active_sessions st.count
    then false
    else if ltb cfg.max_total_upload_bytes (st.total_bytes + additional)
    then false
    else true

unfoldable pub new_ticket : Config → ℕ → String → InitiateRequest → String → QueueTicket
new_ticket cfg now uuid request user = record {
  ticket_id = uuid;
  user_id = user;
  status = waiting;
  request = request;
  session = none;
  ready_at = none;
  created_at = now;
  ticket_expires_at = now + cfg.queue_ticket_ttl_ms;
}

unfoldable pub place_ticket : String → QueueTicket → UploadQueue → UploadQueue
place_ticket uuid ticket q = track_user_ticket ticket.user_id uuid (record q {
  ticket_map = set uuid ticket q.ticket_map;
  waiting_order = q.waiting_order ++ uuid ∷ [];
})

unfoldable pub enqueue :
    Config
    → ℕ
    → String
    → InitiateRequest
    → String
    → UploadQueue
    → Result QueueError (UploadQueue × InitiateOrQueue)
enqueue cfg now uuid request user q =
    if leb cfg.max_queue_size (length q.waiting_order)
    then err (queue_full cfg.max_queue_size)
    else let q' = place_ticket uuid (new_ticket cfg now uuid request user) q in
      let place = length q'.waiting_order in
      ok (q', enqueued uuid place (place * cfg.estimated_session_duration_seconds))

abbrev pub promoted_ticket : ℕ → InitiateResponse → QueueTicket → QueueTicket
promoted_ticket now r t = record t { status = ready; session = some r; ready_at = some now }

abbrev pub claim_deadline : Config → ℕ → Option ℕ → ℕ
claim_deadline cfg now none = now + cfg.queue_ready_claim_ms
claim_deadline cfg now (some at) = at + cfg.queue_ready_claim_ms

unfoldable pub build_ready_response : Config → ℕ → QueueTicket → QueueStatus
build_ready_response cfg now t = is_ready t.session (claim_deadline cfg now t.ready_at)

-- Whether a READY ticket has not been claimed in time.
abbrev pub claim_over : Config → ℕ → Option ℕ → Bool
claim_over cfg now none = false
claim_over cfg now (some at) = ltb cfg.queue_ready_claim_ms (now - at)

abbrev pub head_or_empty : List String → String
head_or_empty [] = ""
head_or_empty (k ∷ ks) = k

abbrev pub size_of : Option QueueTicket → ℕ
size_of none = 0
size_of (some t) = t.request.total_size

cancel_status : String → TicketStatus → UploadQueue → UploadQueue × CancelResult
cancel_status ticket_id active q = (q, cancel_active)
cancel_status ticket_id _ q = (remove_ticket ticket_id q, cancel_ok)

cancel_found : String → Option QueueTicket → UploadQueue → UploadQueue × CancelResult
unfolding cancel_status
cancel_found ticket_id none q = (q, cancel_not_found)
cancel_found ticket_id (some t) q = cancel_status ticket_id t.status q

-- The status that the source sets before the removal is that of a ticket which is dropped.
unfoldable pub cancel_queue : String → UploadQueue → UploadQueue × CancelResult
unfolding cancel_found
cancel_queue ticket_id q = cancel_found ticket_id (lookup ticket_id q.ticket_map) q
