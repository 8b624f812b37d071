-- ===== src/Upload/Queue/Handlers.antt =====
-- The handlers of src/business/file/upload-queue.service.ts that use the session store.
use Prim.Native.String
use file_system_spike.Base.{
  ℕ, zero, suc, ◌+◌, ◌-◌, ◌*◌, String, str_eq, Bool, true, false, Option, some, none, List, [], ◌∷◌,
  leb, ltb, if◌then◌else◌, length, Result, ok, err,
}
use file_system_spike.Base.Dict.{lookup, set, remove, position}
use file_system_spike.Upload.Queue.{
  waiting, ready, active, expired, cancelled, InitiateRequest, InitiateResponse, QueueTicket,
  TicketStatus, Config, UploadQueue, OverallStatus, Stats, SessionStore, QueueError, file_too_large,
  initiate_failed, InitiateOrQueue, admitted, QueueStatus, not_found, ticket_ttl, was_expired,
  ready_claim, used, is_waiting, is_expired, is_cancelled, status_is_waiting,
  get_user_active_ticket_count, track_user_ticket, remove_ticket, check_capacity, enqueue,
  promoted_ticket, build_ready_response, claim_over, head_or_empty, size_of,
}

module _ (cfg : Config) (S : SessionStore) where
  open S use {State, stats, initiate}

  -- The ticket of a direct session, a text made of its session id.
  abbrev pub direct_ticket : InitiateResponse → String
  direct_ticket r = String.◌++◌ "direct-" r.session_id

  unfoldable pub created :
      String
      → UploadQueue
      → Option (InitiateResponse × State)
      → Result QueueError ((UploadQueue × State) × InitiateOrQueue)
  created user q none = err initiate_failed
  created user q (some (r, w')) = ok ((track_user_ticket user (direct_ticket r) q, w'), admitted r)

  unfoldable pub create_session_immediately :
      ℕ
      → InitiateRequest
      → String
      → UploadQueue
      → State
      → Result QueueError ((UploadQueue × State) × InitiateOrQueue)
  unfolding created
  create_session_immediately now request user q w = created user q (initiate now request w)

  abbrev pub with_state :
      State
      → Result QueueError (UploadQueue × InitiateOrQueue)
      → Result QueueError ((UploadQueue × State) × InitiateOrQueue)
  with_state w (ok (q, r)) = ok ((q, w), r)
  with_state w (err e) = err e

  -- What `tryInitiateOrEnqueue` decides, up to the answer of `checkCapacity`: whether a session is created
  -- at once. The queue and the statistics are read here.
  abbrev pub admission : InitiateRequest → String → UploadQueue → Stats → Result QueueError Bool
  admission request user q st =
      if ltb cfg.max_file_size_bytes request.total_size
      then err (file_too_large cfg.max_file_size_bytes)
      else if leb cfg.max_sessions_per_user (get_user_active_ticket_count user q)
      then ok false
      else if check_capacity cfg st request.total_size
      then ok true
      else ok false

  -- What it does after that decision, on the queue and the sessions as they are by then.
  abbrev pub after_admission :
      ℕ
      → String
      → InitiateRequest
      → String
      → Result QueueError Bool
      → UploadQueue
      → State
      → Result QueueError ((UploadQueue × State) × InitiateOrQueue)
  after_admission now uuid request user (err e) q w = err e
  after_admission now uuid request user (ok true) q w =
      create_session_immediately now request user q w
  after_admission now uuid request user (ok false) q w =
      with_state w (enqueue cfg now uuid request user q)

  -- The handler where no other call runs while it awaits the statistics and the creation.
  unfoldable pub try_initiate_or_enqueue :
      ℕ
      → String
      → InitiateRequest
      → String
      → UploadQueue
      → State
      → Result QueueError ((UploadQueue × State) × InitiateOrQueue)
  try_initiate_or_enqueue now uuid request user q w =
      after_admission now uuid request user (admission request user q (stats now w)) q w

  abbrev pub promoted_queue :
      ℕ → String → QueueTicket → InitiateResponse → UploadQueue → UploadQueue
  promoted_queue now ticket_id t r q = record q {
    ticket_map = set ticket_id (promoted_ticket now r t) q.ticket_map;
    waiting_order = remove ticket_id q.waiting_order;
  }

  unfoldable pub promoted :
      ℕ
      → String
      → QueueTicket
      → UploadQueue
      → State
      → Option (InitiateResponse × State)
      → (UploadQueue × State) × Bool
  promoted now ticket_id t q w none = ((q, w), false)
  promoted now ticket_id t q w (some (r, w')) = ((promoted_queue now ticket_id t r q, w'), true)

  -- The `try` block of `tryPromote`; a throw of `initiate` is caught and gives `false`.
  unfoldable pub promote_ticket :
      ℕ → String → QueueTicket → UploadQueue → State → (UploadQueue × State) × Bool
  unfolding promoted
  promote_ticket now ticket_id t q w = promoted now ticket_id t q w (initiate now t.request w)

  unfoldable pub promote_found :
      ℕ → String → Option QueueTicket → UploadQueue → State → (UploadQueue × State) × Bool
  promote_found now ticket_id none q w = ((q, w), false)
  promote_found now ticket_id (some t) q w =
      if status_is_waiting t.status
      then if leb cfg.max_sessions_per_user (get_user_active_ticket_count t.user_id q)
        then ((q, w), false)
        else if check_capacity cfg (stats now w) t.request.total_size
        then promote_ticket now ticket_id t q w
        else ((q, w), false)
      else ((q, w), false)

  unfoldable pub try_promote : ℕ → String → UploadQueue → State → (UploadQueue × State) × Bool
  try_promote now ticket_id q w = promote_found now ticket_id (lookup ticket_id q.ticket_map) q w

  -- The `for` loop of `promoteNext`, which reads the length of the shrinking array each round. The
  -- fuel bounds the rounds; `Promotion` shows that the length at the start is enough.
  unfoldable pub promote_loop : ℕ → ℕ → ℕ → UploadQueue → State → UploadQueue × State
  promote_loop zero now i q w = (q, w)
  promote_loop (suc fuel) now i q w =
      let head = head_or_empty q.waiting_order in
      let next = (try_promote now head q w).0 in
      let rest = promote_loop fuel now (i + 1) next.0 next.1 in
      if ltb i (length q.waiting_order)
      then if str_eq head ""
        then (q, w)
        else if check_capacity cfg (stats now w) (size_of (lookup head q.ticket_map))
        then rest
        else (q, w)
      else (q, w)

  unfoldable pub promote_next : ℕ → UploadQueue → State → UploadQueue × State
  promote_next now q w = promote_loop (length q.waiting_order) now 0 q w

  abbrev pub poll_waiting :
      ℕ → String → (UploadQueue × State) × Bool → (UploadQueue × State) × QueueStatus
  poll_waiting now ticket_id ((q, w), true) = elim (lookup ticket_id q.ticket_map) [
    | none ↦ ((q, w), is_expired not_found)
    | some t ↦ ((q, w), build_ready_response cfg now t)
  ]
  poll_waiting now ticket_id ((q, w), false) =
      let place = position ticket_id q.waiting_order in
      ((q, w), is_waiting place (place * cfg.estimated_session_duration_seconds))

  unfoldable pub poll_status :
      ℕ
      → String
      → TicketStatus
      → QueueTicket
      → UploadQueue
      → State
      → (UploadQueue × State) × QueueStatus
  poll_status now ticket_id cancelled t q w = ((q, w), is_cancelled)
  poll_status now ticket_id expired t q w = ((q, w), is_expired was_expired)
  poll_status now ticket_id waiting t q w =
      poll_waiting now ticket_id (try_promote now ticket_id q w)
  poll_status now ticket_id ready t q w =
      if claim_over cfg now t.ready_at
      then ((remove_ticket ticket_id q, w), is_expired ready_claim)
      else ((q, w), build_ready_response cfg now t)
  poll_status now ticket_id active t q w = ((q, w), is_expired used)

  unfoldable pub poll_found :
      ℕ → String → Option QueueTicket → UploadQueue → State → (UploadQueue × State) × QueueStatus
  unfolding poll_status
  poll_found now ticket_id none q w = ((q, w), is_expired not_found)
  poll_found now ticket_id (some t) q w =
      if ltb t.ticket_expires_at now
      then ((remove_ticket ticket_id q, w), is_expired ticket_ttl)
      else poll_status now ticket_id t.status t q w

  unfoldable pub get_queue_status :
      ℕ → String → UploadQueue → State → (UploadQueue × State) × QueueStatus
  unfolding poll_found
  get_queue_status now ticket_id q w = poll_found now ticket_id (lookup ticket_id q.ticket_map) q w

  -- `Math.max(0, …)` is the subtraction that stops at 0.
  unfoldable pub get_overall_status : ℕ → UploadQueue → State → OverallStatus
  get_overall_status now q w = record {
    active_sessions = (stats now w).count;
    max_active_sessions = cfg.max_active_sessions;
    waiting_count = length q.waiting_order;
    max_queue_size = cfg.max_queue_size;
    total_upload_bytes = (stats now w).total_bytes;
    max_total_upload_bytes = cfg.max_total_upload_bytes;
    available_slots = cfg.max_active_sessions - (stats now w).count;
  }

  -- The two sweeps of `handleQueueMaintenance`: over the entries that the map has at the start.
  abbrev pub unclaimed : ℕ → QueueTicket → Bool
  unclaimed now t = elim t.status [ ready ↦ claim_over cfg now t.ready_at | _ ↦ false ]

  abbrev pub outlived : ℕ → QueueTicket → Bool
  outlived now t = elim t.status [
    | waiting ↦ ltb t.ticket_expires_at now
    | cancelled ↦ ltb t.ticket_expires_at now
    | expired ↦ ltb t.ticket_expires_at now
    | _ ↦ false
  ]

  unfoldable pub sweep :
      (QueueTicket → Bool) → List (String × QueueTicket) → UploadQueue → UploadQueue
  sweep over [] q = q
  sweep over ((k, t) ∷ m) q = sweep over m (if over t then remove_ticket k q else q)

  unfoldable pub handle_queue_maintenance : ℕ → UploadQueue → State → UploadQueue × State
  unfolding sweep
  handle_queue_maintenance now q w =
      let q1 = sweep (unclaimed now) q.ticket_map q in
      let q2 = sweep (outlived now) q1.ticket_map q1 in
      if ltb 0 (length q2.waiting_order) then promote_next now q2 w else (q2, w)
