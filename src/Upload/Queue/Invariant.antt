-- ===== src/Upload/Queue/Invariant.antt =====
-- The tickets and the waiting order of src/business/file/upload-queue.service.ts agree.
use mathlib.Core.Path.{subst}
use file_system_spike.Base.{
  ℕ, zero, suc, ◌+◌, ◌≤◌, ◌≡◌, refl, ◌⊎◌, inl, inr, String, str_eq, str_eq_iff, Bool, true, false,
  Option, some, none, List, [], ◌∷◌, length, length-append, arith, leb, ltb, ok, Bool-cases, ◌<◌,
}
use file_system_spike.Base.Dict.{
  lookup, set, has, remove, lookup-set, lookup-delete, Distinct, Distinct-append, Distinct-remove,
  has-append, has-remove, length-remove,
}
use file_system_spike.Upload.Queue.{
  place_ticket, new_ticket, TicketStatus, active, cancel_status, cancel_found, InitiateResponse,
  waiting, ready, InitiateRequest, QueueTicket, Config, UploadQueue, SessionStore, InitiateOrQueue,
  empty, enqueue, track_user_ticket, remove_ticket, cancel_queue, head_or_empty, check_capacity,
  size_of,
}
use file_system_spike.Upload.Queue.Handlers.{
  promoted, promote_ticket, promote_found, try_promote, promote_loop, promote_next, poll_found,
  sweep, unclaimed, created, poll_waiting, direct_ticket, outlived, handle_queue_maintenance,
}

-- A ticket of the map is waiting and in the waiting order, or ready and not in it.
abbrev pub Agrees : Bool → Option QueueTicket → Type 0
Agrees b none = b ≡ false
Agrees b (some t) = ((t.status ≡ waiting) × (b ≡ true)) ⊎ ((t.status ≡ ready) × (b ≡ false))

pub record Inv (cfg : Config) (q : UploadQueue) : Type 0 where
  pub distinct : Distinct q.waiting_order
  pub bounded : length q.waiting_order ≤ cfg.max_queue_size
  pub agrees : (k : String) → Agrees (has q.waiting_order k) (lookup k q.ticket_map)

pub empty-Inv : (cfg : Config) → Inv cfg empty
unfolding empty has lookup
empty-Inv cfg = record { distinct = tt; bounded = omega arith; agrees = λ k. refl }

track-Inv :
    (cfg : Config) (u k : String) (q : UploadQueue) → Inv cfg q → Inv cfg (track_user_ticket u k q)
unfolding track_user_ticket
track-Inv cfg u k q v = record {
  distinct = v.distinct;
  bounded = v.bounded;
  agrees = λ j. v.agrees j;
}

remove_ticket-Inv :
    (cfg : Config) (k : String) (q : UploadQueue) → Inv cfg q → Inv cfg (remove_ticket k q)
unfolding remove_ticket
remove_ticket-Inv cfg k q v = record {
  distinct = Distinct-remove q.waiting_order k v.distinct;
  bounded = omega (arith, v.bounded, length-remove q.waiting_order k);
  agrees = λ j. ground (
    arith,
    v.agrees j,
    has-remove q.waiting_order k j v.distinct,
    lookup-delete k j q.ticket_map,
  );
}

promote-Inv :
    (cfg : Config) (k : String) (t t' : QueueTicket) (q : UploadQueue)
    → lookup k q.ticket_map ≡ some t
    → t'.status ≡ ready
    → Inv cfg q
    → Inv cfg
        (record q { ticket_map = set k t' q.ticket_map; waiting_order = remove k q.waiting_order })
promote-Inv cfg k t t' q e r v = record {
  distinct = Distinct-remove q.waiting_order k v.distinct;
  bounded = omega (arith, v.bounded, length-remove q.waiting_order k);
  agrees = λ j. ground (
    arith,
    v.agrees j,
    has-remove q.waiting_order k j v.distinct,
    lookup-set k j t' q.ticket_map,
  );
}

cancel_status-Inv :
    (cfg : Config) (k : String) (st : TicketStatus) (q : UploadQueue)
    → Inv cfg q
    → Inv cfg (cancel_status k st q).0
unfolding cancel_status
cancel_status-Inv cfg k active q v = v
cancel_status-Inv cfg k _ q v = remove_ticket-Inv cfg k q v

cancel_found-Inv :
    (cfg : Config) (k : String) (o : Option QueueTicket) (q : UploadQueue)
    → Inv cfg q
    → Inv cfg (cancel_found k o q).0
unfolding cancel_found
cancel_found-Inv cfg k none q v = v
cancel_found-Inv cfg k (some t) q v = cancel_status-Inv cfg k t.status q v

pub cancel_queue-Inv :
    (cfg : Config) (k : String) (q : UploadQueue) → Inv cfg q → Inv cfg (cancel_queue k q).0
unfolding cancel_queue
cancel_queue-Inv cfg k q v = cancel_found-Inv cfg k (lookup k q.ticket_map) q v

place_ticket-Inv :
    (cfg : Config) (uuid : String) (t : QueueTicket) (q : UploadQueue)
    → lookup uuid q.ticket_map ≡ none
    → t.status ≡ waiting
    → length q.waiting_order < cfg.max_queue_size
    → Inv cfg q
    → Inv cfg (place_ticket uuid t q)
unfolding place_ticket
place_ticket-Inv cfg uuid t q new st room v = track-Inv cfg t.user_id uuid _ (record {
  distinct = Distinct-append q.waiting_order uuid v.distinct (ground (arith, v.agrees uuid));
  bounded = omega (arith, length-append q.waiting_order (uuid ∷ []));
  agrees = λ j. ground (
    arith,
    v.agrees j,
    has-append q.waiting_order uuid j,
    lookup-set uuid j t q.ticket_map,
    str_eq_iff uuid j,
  );
})

-- A request that is queued under a fresh ticket id keeps the invariant.
pub enqueue-Inv :
    (cfg : Config) (now : ℕ) (uuid : String) (request : InitiateRequest) (user : String)
    (q : UploadQueue) {q' : UploadQueue} {r : InitiateOrQueue}
    → lookup uuid q.ticket_map ≡ none
    → enqueue cfg now uuid request user q ≡ ok (q', r)
    → Inv cfg q
    → Inv cfg q'
unfolding enqueue new_ticket
enqueue-Inv cfg now uuid request user q {q'} new e v =
    elim (Bool-cases (leb cfg.max_queue_size (length q.waiting_order))) [
      | inl t ↦ cc (e, t)
      | inr f ↦ subst (Inv cfg) (ground arith) (
          place_ticket-Inv cfg uuid (new_ticket cfg now uuid request user) q new refl (ground arith)
            v)
    ]

module _ (cfg : Config) (S : SessionStore) where
  open S use {State, stats, initiate}

  promoted-Inv :
      (now : ℕ) (k : String) (t : QueueTicket) (q : UploadQueue) (w : State)
      (o : Option (InitiateResponse × State))
      → lookup k q.ticket_map ≡ some t
      → Inv cfg q
      → Inv cfg (promoted cfg S now k t q w o).0.0
  unfolding promoted
  promoted-Inv now k t q w none e v = v
  promoted-Inv now k t q w (some (r, w')) e v = promote-Inv cfg k t _ q e refl v

  promote_found-Inv :
      (now : ℕ) (k : String) (o : Option QueueTicket) (q : UploadQueue) (w : State)
      → lookup k q.ticket_map ≡ o
      → Inv cfg q
      → Inv cfg (promote_found cfg S now k o q w).0.0
  unfolding promote_found promote_ticket
  promote_found-Inv now k none q w e v = v
  promote_found-Inv now k (some t) q w e v =
      ground (arith, promoted-Inv now k t q w (initiate now t.request w) e v)

  pub promote_loop-Inv :
      (fuel now i : ℕ) (q : UploadQueue) (w : State)
      → Inv cfg q
      → Inv cfg (promote_loop cfg S fuel now i q w).0
  unfolding promote_loop try_promote
  promote_loop-Inv zero now i q w v = v
  promote_loop-Inv (suc fuel) now i q w v =
      let head = head_or_empty q.waiting_order in
      let o = lookup head q.ticket_map in
      let step = promote_found cfg S now head o q w in
      let rest =
        promote_loop-Inv fuel now (i + 1) step.0.0 step.0.1
          (promote_found-Inv now head o q w refl v) in
      elim (Bool-cases (ltb i (length q.waiting_order))) [
        | inr stop ↦ rw stop v
        | inl more ↦ rw more (elim (Bool-cases (str_eq head "")) [
          | inl gone ↦ rw gone v
          | inr there ↦ rw there (elim (Bool-cases (check_capacity cfg (stats now w) (size_of o))) [
            | inl room ↦ rw room rest
            | inr full ↦ rw full v
          ])
        ])
      ]

  sweep-Inv :
      (over : QueueTicket → Bool) (m : List (String × QueueTicket)) (q : UploadQueue)
      → Inv cfg q
      → Inv cfg (sweep cfg S over m q)
  unfolding sweep
  sweep-Inv over [] q v = v
  sweep-Inv over ((k, t) ∷ m) q v = elim (Bool-cases (over t)) [
    | inl e ↦ rw e (sweep-Inv over m _ (remove_ticket-Inv cfg k q v))
    | inr e ↦ rw e (sweep-Inv over m q v)
  ]

  pub maintenance-Inv :
      (now : ℕ) (q : UploadQueue) (w : State)
      → Inv cfg q
      → Inv cfg (handle_queue_maintenance cfg S now q w).0
  unfolding handle_queue_maintenance promote_next
  maintenance-Inv now q w v =
      let q1 = sweep cfg S (unclaimed cfg S now) q.ticket_map q in
      let q2 = sweep cfg S (outlived cfg S now) q1.ticket_map q1 in
      let v2 =
        sweep-Inv (outlived cfg S now) q1.ticket_map q1
          (sweep-Inv (unclaimed cfg S now) q.ticket_map q v) in
      ground (arith, v2, promote_loop-Inv (length q2.waiting_order) now 0 q2 w v2)

  poll_waiting-Inv :
      (now : ℕ) (k : String) (q : UploadQueue) (w : State) (b : Bool)
      → Inv cfg q
      → Inv cfg (poll_waiting cfg S now k ((q, w), b)).0.0
  poll_waiting-Inv now k q w true v = ground (arith, v)
  poll_waiting-Inv now k q w false v = v

  pub poll_found-Inv :
      (now : ℕ) (k : String) (o : Option QueueTicket) (q : UploadQueue) (w : State)
      → Inv cfg q
      → Inv cfg (poll_found cfg S now k o q w).0.0
  unfolding poll_found try_promote
  poll_found-Inv now k none q w v = v
  poll_found-Inv now k (some t) q w v =
      let o = lookup k q.ticket_map in
      let p = promote_found cfg S now k o q w in
      ground (
        arith,
        v,
        remove_ticket-Inv cfg k q v,
        poll_waiting-Inv now k p.0.0 p.0.1 p.1 (promote_found-Inv now k o q w refl v),
      )

  pub created-Inv :
      (user : String) (q : UploadQueue) (o : Option (InitiateResponse × State)) {q' : UploadQueue}
      {w' : State} {r : InitiateOrQueue}
      → created cfg S user q o ≡ ok ((q', w'), r)
      → Inv cfg q
      → Inv cfg q'
  unfolding created
  created-Inv user q none e v = cc
  created-Inv user q (some (r, w')) e v =
      subst (Inv cfg) (ground arith) (track-Inv cfg user (direct_ticket cfg S r) q v)
