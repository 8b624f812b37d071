-- ===== src/Upload/Queue/Runs.antt =====
-- Any history of requests to src/business/file/upload-queue.service.ts.
use mathlib.Core.Path.{subst}
use file_system_spike.Base.{
  ℕ, ◌≡◌, refl, ◌≢◌, ◌⊎◌, inl, inr, String, Bool, Option, some, none, leb, ltb, length, arith,
  Result, ok, err, Bool-cases, str_eq_iff,
}
use file_system_spike.Base.Dict.{has, lookup, lookup-delete}
use file_system_spike.Upload.Queue.{
  InitiateRequest, QueueTicket, Config, UploadQueue, SessionStore, InitiateOrQueue, QueueError,
  empty, build_ready_response, enqueue, remove_ticket, cancel_queue, cancel_status, cancel_found,
  check_capacity, get_user_active_ticket_count, is_cancelled, is_expired, not_found, cancel_ok,
  was_expired, used, waiting, ready, TicketStatus,
}
use file_system_spike.Upload.Queue.Handlers.{
  try_initiate_or_enqueue, create_session_immediately, with_state, promote_next, poll_found,
  poll_status, get_queue_status, handle_queue_maintenance,
}
use file_system_spike.Upload.Queue.Invariant.{
  Inv, Agrees, empty-Inv, enqueue-Inv, created-Inv, cancel_queue-Inv, poll_found-Inv,
  promote_loop-Inv, maintenance-Inv,
}

module _ (cfg : Config) (S : SessionStore) where
  open S use {State, stats, initiate}

  initiate-Inv :
      (now : ℕ) (uuid : String) (request : InitiateRequest) (user : String) (q : UploadQueue)
      (w : State) {q' : UploadQueue} {w' : State} {r : InitiateOrQueue}
      → lookup uuid q.ticket_map ≡ none
      → try_initiate_or_enqueue cfg S now uuid request user q w ≡ ok ((q', w'), r)
      → Inv cfg q
      → Inv cfg q'
  unfolding try_initiate_or_enqueue create_session_immediately
  initiate-Inv now uuid request user q w {q'} {w'} {r} new e v =
      elim (Bool-cases (ltb cfg.max_file_size_bytes request.total_size)) [
        | inl big ↦ cc (e, big)
        | inr fits ↦
            elim (Bool-cases
              (leb cfg.max_sessions_per_user (get_user_active_ticket_count user q))) [
                | inl many ↦
                    queued (enqueue cfg now uuid request user q) refl (rw (fits, many) at e)
                | inr few ↦
                    elim (Bool-cases (check_capacity cfg (stats now w) request.total_size)) [
                      | inl room ↦
                          created-Inv cfg S user q (initiate now request w)
                            (rw (fits, few, room) at e) v
                      | inr full ↦
                          queued (enqueue cfg now uuid request user q) refl
                            (rw (fits, few, full) at e)
                    ]
              ]
      ]
    where
      queued :
          (o : Result QueueError (UploadQueue × InitiateOrQueue))
          → enqueue cfg now uuid request user q ≡ o
          → with_state cfg S w o ≡ ok ((q', w'), r)
          → Inv cfg q'
      queued (err x) h f = cc
      queued (ok (p, y)) h f =
          subst (Inv cfg) (ground arith) (enqueue-Inv cfg now uuid request user q new h v)

  -- A handler of the service, run to its end at the time `now`.
  pub data Handler (now : ℕ) : UploadQueue × State → UploadQueue × State → Type 0 where
    initiates :
        (uuid : String) (request : InitiateRequest) (user : String) (q : UploadQueue) (w : State)
        (q' : UploadQueue) (w' : State) (r : InitiateOrQueue)
        → lookup uuid q.ticket_map ≡ none
        → try_initiate_or_enqueue cfg S now uuid request user q w ≡ ok ((q', w'), r)
        → Handler now (q, w) (q', w')
    polls :
        (k : String) (q : UploadQueue) (w : State)
        → Handler now (q, w) (get_queue_status cfg S now k q w).0
    cancels :
        (k : String) (q : UploadQueue) (w : State) → Handler now (q, w) ((cancel_queue k q).0, w)
    promotes : (q : UploadQueue) (w : State) → Handler now (q, w) (promote_next cfg S now q w)
    maintains :
        (q : UploadQueue) (w : State) → Handler now (q, w) (handle_queue_maintenance cfg S now q w)

  -- Between two handlers the sessions may be uploaded to, completed, aborted or expire.
  pub data Step : UploadQueue × State → UploadQueue × State → Type 0 where
    handles : (now : ℕ) {s t : UploadQueue × State} → Handler now s t → Step s t
    sessions_change : (q : UploadQueue) (w w' : State) → Step (q, w) (q, w')

  pub data Reach : UploadQueue × State → Type 0 where
    start : (w : State) → Reach (empty, w)
    next : {s t : UploadQueue × State} → Reach s → Step s t → Reach t

  Handler-Inv : (now : ℕ) {s t : UploadQueue × State} → Handler now s t → Inv cfg s.0 → Inv cfg t.0
  unfolding get_queue_status promote_next
  Handler-Inv now (initiates uuid request user q w q' w' r new e) v =
      initiate-Inv now uuid request user q w new e v
  Handler-Inv now (polls k q w) v = poll_found-Inv cfg S now k (lookup k q.ticket_map) q w v
  Handler-Inv now (cancels k q w) v = cancel_queue-Inv cfg k q v
  Handler-Inv now (promotes q w) v = promote_loop-Inv cfg S (length q.waiting_order) now 0 q w v
  Handler-Inv now (maintains q w) v = maintenance-Inv cfg S now q w v

  Step-Inv : {s t : UploadQueue × State} → Step s t → Inv cfg s.0 → Inv cfg t.0
  Step-Inv (handles now h) v = Handler-Inv now h v
  Step-Inv (sessions_change q w w') v = v

  -- In every state that requests can lead to, with upload sessions that come and go as they like
  -- and fresh ticket ids: the waiting order has no id twice and at most `max_queue_size` ids, and
  -- the tickets in the map are exactly the waiting ones, which are in that order, and ready ones,
  -- which are not.
  pub Reach-Inv : {s : UploadQueue × State} → Reach s → Inv cfg s.0
  Reach-Inv (start w) = empty-Inv cfg
  Reach-Inv (next r st) = Step-Inv st (Reach-Inv r)

  poll_status_live :
      (now : ℕ) (k : String) (b : Bool) (t : QueueTicket) (q : UploadQueue) (w : State)
      → Agrees b (some t)
      → let answer = (poll_status cfg S now k t.status t q w).1 in
        (answer ≢ is_cancelled) × (answer ≢ is_expired was_expired) × (answer ≢ is_expired used)
  unfolding poll_status build_ready_response
  poll_status_live now k b t q w a = (ground arith, ground arith, ground arith)

  poll_found_live :
      (now : ℕ) (k : String) (b : Bool) (o : Option QueueTicket) (q : UploadQueue) (w : State)
      → Agrees b o
      → let answer = (poll_found cfg S now k o q w).1 in
        (answer ≢ is_cancelled) × (answer ≢ is_expired was_expired) × (answer ≢ is_expired used)
  unfolding poll_found
  poll_found_live now k b none q w a = (ground arith, ground arith, ground arith)
  poll_found_live now k b (some t) q w a =
      let l = poll_status_live now k b t q w a in
      (ground (arith, l.0), ground (arith, l.1), ground (arith, l.2))

  -- Three of the answers that a poll has are never given: in every state that requests lead to,
  -- `getQueueStatus` does not answer that the ticket was cancelled, that its status was EXPIRED, or
  -- that it is already used, since such tickets are never in the map.
  get_queue_status_live :
      {s : UploadQueue × State} (now : ℕ) (k : String)
      → Reach s
      → let answer = (get_queue_status cfg S now k s.0 s.1).1 in
        (answer ≢ is_cancelled) × (answer ≢ is_expired was_expired) × (answer ≢ is_expired used)
  unfolding get_queue_status
  get_queue_status_live {s} now k r =
      poll_found_live now k (has s.0.waiting_order k) (lookup k s.0.ticket_map) s.0 s.1
        ((Reach-Inv r).agrees k)

  cancel_status_removes :
      (k : String) (st : TicketStatus) (q : UploadQueue)
      → (st ≡ waiting) ⊎ (st ≡ ready)
      → cancel_status k st q ≡ (remove_ticket k q, cancel_ok)
  unfolding cancel_status
  cancel_status_removes k st q h = ground arith

  cancel_queue_removes :
      (k : String) (t : QueueTicket) (q : UploadQueue)
      → lookup k q.ticket_map ≡ some t
      → (t.status ≡ waiting) ⊎ (t.status ≡ ready)
      → cancel_queue k q ≡ (remove_ticket k q, cancel_ok)
  unfolding cancel_queue cancel_found
  cancel_queue_removes k t q e h = rw (e, cancel_found) (cancel_status_removes k t.status q h)

  poll_missing :
      (now : ℕ) (k : String) (q : UploadQueue) (w : State)
      → lookup k q.ticket_map ≡ none
      → (get_queue_status cfg S now k q w).1 ≡ is_expired not_found
  unfolding get_queue_status poll_found
  poll_missing now k q w e = ground arith

  lookup-remove_ticket :
      (k : String) (q : UploadQueue) → lookup k (remove_ticket k q).ticket_map ≡ none
  unfolding remove_ticket
  lookup-remove_ticket k q = ground (arith, lookup-delete k k q.ticket_map, str_eq_iff k k)

  -- A ticket that is in the map of a reachable state can be cancelled; its next poll then answers
  -- that there is no such ticket, and not that it was cancelled.
  poll_after_cancel :
      {s : UploadQueue × State} (now : ℕ) (k : String) (t : QueueTicket)
      → Reach s
      → lookup k s.0.ticket_map ≡ some t
      → ((cancel_queue k s.0).1 ≡ cancel_ok)
        × ((get_queue_status cfg S now k (cancel_queue k s.0).0 s.1).1 ≡ is_expired not_found)
  poll_after_cancel {s} now k t r e =
      rw (cancel_queue_removes k t s.0 e (ground (arith, (Reach-Inv r).agrees k)))
        (refl, poll_missing now k (remove_ticket k s.0) s.1 (lookup-remove_ticket k s.0))
