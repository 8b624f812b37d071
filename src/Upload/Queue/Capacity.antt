-- ===== src/Upload/Queue/Capacity.antt =====
-- The limits on the active sessions that src/business/file/upload-queue.service.ts keeps, where its
-- handlers run one after the other.
use file_system_spike.Base.{
  ℕ, zero, suc, ◌+◌, ◌≤◌, ◌≡◌, refl, inl, inr, String, str_eq, Bool, true, false, Option, some,
  none, leb, ltb, length, arith, Result, ok, err, Bool-cases, subst,
}
use file_system_spike.Base.Dict.{lookup}
use file_system_spike.Upload.Queue.{
  InitiateRequest, InitiateResponse, QueueTicket, Config, UploadQueue, Stats, SessionStore,
  InitiateOrQueue, QueueError, enqueue, check_capacity, get_user_active_ticket_count, head_or_empty,
  size_of,
}
use file_system_spike.Upload.Queue.Handlers.{
  try_initiate_or_enqueue, create_session_immediately, created, with_state, promoted,
  promote_ticket, promote_found, try_promote, promote_next, promote_loop, poll_found, poll_waiting,
  get_queue_status, handle_queue_maintenance, sweep, unclaimed, outlived,
}
use file_system_spike.Upload.Queue.Runs.{Handler, initiates, polls, cancels, promotes, maintains}

-- What the queue relies on: a session that is created is one more active session of its size.
pub record Counting (S : SessionStore) : Type 0 where
  pub counted :
      (now : ℕ) (request : InitiateRequest) (w : S.State) (r : InitiateResponse) (w' : S.State)
      → S.initiate now request w ≡ some (r, w')
      → ((S.stats now w').count ≡ (S.stats now w).count + 1)
        × ((S.stats now w').total_bytes ≡ (S.stats now w).total_bytes + request.total_size)

-- At most so many active sessions, and at most so many bytes announced by them.
pub record WithinLimits (cfg : Config) (st : Stats) : Type 0 where
  pub sessions : st.count ≤ cfg.max_active_sessions
  pub bytes : st.total_bytes ≤ cfg.max_total_upload_bytes

check_capacity_room :
    (cfg : Config) (st st' : Stats) (n : ℕ)
    → check_capacity cfg st n ≡ true
    → st'.count ≡ st.count + 1
    → st'.total_bytes ≡ st.total_bytes + n
    → WithinLimits cfg st'
unfolding check_capacity
check_capacity_room cfg st st' n e c b = ground arith

module _ (cfg : Config) (S : SessionStore) (law : Counting S) where
  open S use {State, stats, initiate}

  abbrev Keeps : ℕ → State → Type 0
  Keeps now w = WithinLimits cfg (stats now w)

  promoted-Keeps :
      (now : ℕ) (k : String) (t : QueueTicket) (q : UploadQueue) (w : State)
      (o : Option (InitiateResponse × State))
      → initiate now t.request w ≡ o
      → check_capacity cfg (stats now w) t.request.total_size ≡ true
      → Keeps now w
      → Keeps now (promoted cfg S now k t q w o).0.1
  unfolding promoted
  promoted-Keeps now k t q w none e c v = v
  promoted-Keeps now k t q w (some (r, w')) e c v =
      let l = law.counted now t.request w r w' e in
      check_capacity_room cfg (stats now w) (stats now w') t.request.total_size c l.0 l.1

  promote_found-Keeps :
      (now : ℕ) (k : String) (o : Option QueueTicket) (q : UploadQueue) (w : State)
      → Keeps now w
      → Keeps now (promote_found cfg S now k o q w).0.1
  unfolding promote_found promote_ticket
  promote_found-Keeps now k none q w v = v
  promote_found-Keeps now k (some t) q w v =
      elim (Bool-cases (check_capacity cfg (stats now w) t.request.total_size)) [
        | inl room ↦
            ground (arith, v, promoted-Keeps now k t q w (initiate now t.request w) refl room v)
        | inr full ↦ ground (arith, v)
      ]

  promote_loop-Keeps :
      (fuel now i : ℕ) (q : UploadQueue) (w : State)
      → Keeps now w
      → Keeps now (promote_loop cfg S fuel now i q w).1
  unfolding promote_loop try_promote
  promote_loop-Keeps zero now i q w v = v
  promote_loop-Keeps (suc fuel) now i q w v =
      let head = head_or_empty q.waiting_order in
      let o = lookup head q.ticket_map in
      let step = promote_found cfg S now head o q w in
      let rest =
        promote_loop-Keeps fuel now (i + 1) step.0.0 step.0.1
          (promote_found-Keeps now head o q w v) in
      elim (Bool-cases (ltb i (length q.waiting_order))) [
        | inr stop ↦ rw stop v
        | inl more ↦ rw more (elim (Bool-cases (str_eq head "")) [
          | inl gone ↦ rw gone v
          | inr there ↦ rw there (elim (Bool-cases (check_capacity cfg (stats now w) (size_of o))) [
            | inl room ↦ rw room rest
            | inr full ↦ rw full v
          ])
        ])
      ]

  poll_waiting-state :
      (now : ℕ) (k : String) (q : UploadQueue) (w : State) (b : Bool)
      → (poll_waiting cfg S now k ((q, w), b)).0.1 ≡ w
  poll_waiting-state now k q w true = ground arith
  poll_waiting-state now k q w false = refl

  poll_found-Keeps :
      (now : ℕ) (k : String) (o : Option QueueTicket) (q : UploadQueue) (w : State)
      → Keeps now w
      → Keeps now (poll_found cfg S now k o q w).0.1
  unfolding poll_found try_promote
  poll_found-Keeps now k none q w v = v
  poll_found-Keeps now k (some t) q w v =
      let o = lookup k q.ticket_map in
      let p = promote_found cfg S now k o q w in
      ground (arith, v, poll_waiting-state now k p.0.0 p.0.1 p.1, promote_found-Keeps now k o q w v)

  created-Keeps :
      (now : ℕ) (request : InitiateRequest) (user : String) (q : UploadQueue) (w : State)
      (o : Option (InitiateResponse × State)) {q' : UploadQueue} {w' : State} {r : InitiateOrQueue}
      → initiate now request w ≡ o
      → check_capacity cfg (stats now w) request.total_size ≡ true
      → created cfg S user q o ≡ ok ((q', w'), r)
      → Keeps now w'
  unfolding created
  created-Keeps now request user q w none e c f = cc
  created-Keeps now request user q w (some (x, u)) e c f =
      let l = law.counted now request w x u e in
      subst (Keeps now) (ground arith)
        (check_capacity_room cfg (stats now w) (stats now u) request.total_size c l.0 l.1)

  with_state-state :
      (w : State) (o : Result QueueError (UploadQueue × InitiateOrQueue)) {q' : UploadQueue}
      {w' : State} {r : InitiateOrQueue}
      → with_state cfg S w o ≡ ok ((q', w'), r)
      → w ≡ w'
  with_state-state w (ok (q, r)) e = ground arith
  with_state-state w (err x) e = cc

  initiate-Keeps :
      (now : ℕ) (uuid : String) (request : InitiateRequest) (user : String) (q : UploadQueue)
      (w : State) {q' : UploadQueue} {w' : State} {r : InitiateOrQueue}
      → try_initiate_or_enqueue cfg S now uuid request user q w ≡ ok ((q', w'), r)
      → Keeps now w
      → Keeps now w'
  unfolding try_initiate_or_enqueue create_session_immediately
  initiate-Keeps now uuid request user q w e v =
      elim (Bool-cases (ltb cfg.max_file_size_bytes request.total_size)) [
        | inl big ↦ cc (e, big)
        | inr fits ↦
            elim (Bool-cases
              (leb cfg.max_sessions_per_user (get_user_active_ticket_count user q))) [
                | inl many ↦
                    subst (Keeps now)
                      (with_state-state w (enqueue cfg now uuid request user q)
                        (rw (fits, many) at e))
                      v
                | inr few ↦
                    elim (Bool-cases (check_capacity cfg (stats now w) request.total_size)) [
                      | inl room ↦
                          created-Keeps now request user q w (initiate now request w) refl room
                            (rw (fits, few, room) at e)
                      | inr full ↦
                          subst (Keeps now)
                            (with_state-state w (enqueue cfg now uuid request user q)
                              (rw (fits, few, full) at e))
                            v
                    ]
              ]
      ]

  maintenance-Keeps :
      (now : ℕ) (q : UploadQueue) (w : State)
      → Keeps now w
      → Keeps now (handle_queue_maintenance cfg S now q w).1
  unfolding handle_queue_maintenance promote_next
  maintenance-Keeps now q w v =
      let q1 = sweep cfg S (unclaimed cfg S now) q.ticket_map q in
      let q2 = sweep cfg S (outlived cfg S now) q1.ticket_map q1 in
      let rest = promote_loop-Keeps (length q2.waiting_order) now 0 q2 w v in
      elim (Bool-cases (ltb 0 (length q2.waiting_order))) [
        | inl some_wait ↦ rw some_wait rest
        | inr none_wait ↦ rw none_wait v
      ]

  -- A handler that runs alone, so that no other call comes between its capacity check and its creation of
  -- a session, does not take the active sessions over the configured number or their sizes over the
  -- configured total, as counted at the time of the handler, given that a session that is created
  -- adds one session of its size: neither a request that is admitted at once, nor a promotion by a
  -- poll, by `promoteNext` or by the maintenance job.
  pub Handler-WithinLimits :
      (now : ℕ) {s t : UploadQueue × State}
      → Handler cfg S now s t
      → WithinLimits cfg (stats now s.1)
      → WithinLimits cfg (stats now t.1)
  unfolding get_queue_status promote_next
  Handler-WithinLimits now (initiates uuid request user q w q' w' r new e) v =
      initiate-Keeps now uuid request user q w e v
  Handler-WithinLimits now (polls k q w) v = poll_found-Keeps now k (lookup k q.ticket_map) q w v
  Handler-WithinLimits now (cancels k q w) v = v
  Handler-WithinLimits now (promotes q w) v =
      promote_loop-Keeps (length q.waiting_order) now 0 q w v
  Handler-WithinLimits now (maintains q w) v = maintenance-Keeps now q w v
