-- ===== src/Upload/Queue/Admission.antt =====
-- Who is admitted and who is counted in src/business/file/upload-queue.service.ts.
use file_system_spike.Base.{
  ℕ, ◌+◌, ◌≡◌, refl, String, str_eq, str_eq_iff, true, false, Option, some, none, List, [], ◌∷◌,
  ◌++◌, if◌then◌else◌, arith, ok,
}
use file_system_spike.Base.Dict.{lookup, set, has, lookup-set}
use file_system_spike.Upload.Queue.{
  InitiateRequest, InitiateResponse, QueueTicket, Config, UploadQueue, SessionStore, admitted,
  counts, ticket_counts, count_tickets, set_of, add_once, get_user_active_ticket_count,
  track_user_ticket, place_ticket,
}
use file_system_spike.Upload.Queue.Handlers.{create_session_immediately, created, direct_ticket}

count_tickets-append :
    (m : List (String × QueueTicket)) (ks : List String) (k : String)
    → count_tickets m (ks ++ k ∷ []) ≡ count_tickets m ks + ticket_counts (lookup k m)
unfolding count_tickets
count_tickets-append m [] k = omega arith
count_tickets-append m (x ∷ ks) k = omega (arith, count_tickets-append m ks k)

count_tickets-add_once :
    (m : List (String × QueueTicket)) (ks : List String) (k : String)
    → lookup k m ≡ none
    → count_tickets m (add_once k ks) ≡ count_tickets m ks
count_tickets-add_once m ks k e = ground (arith, count_tickets-append m ks k)

track_uncounted :
    (user k u : String) (q : UploadQueue)
    → lookup k q.ticket_map ≡ none
    → get_user_active_ticket_count u (track_user_ticket user k q) ≡ get_user_active_ticket_count u q
unfolding get_user_active_ticket_count track_user_ticket
track_uncounted user k u q e = ground (
  arith,
  lookup-set user u (add_once k (set_of (lookup user q.user_tickets))) q.user_tickets,
  str_eq_iff user u,
  count_tickets-add_once q.ticket_map (set_of (lookup user q.user_tickets)) k,
)

module _ (cfg : Config) (S : SessionStore) where
  open S use {State, initiate}

  created_uncounted :
      (user : String) (q : UploadQueue) (o : Option (InitiateResponse × State)) {q' : UploadQueue}
      {w' : State} {r : InitiateResponse} (u : String)
      → created cfg S user q o ≡ ok ((q', w'), admitted r)
      → lookup (direct_ticket cfg S r) q.ticket_map ≡ none
      → get_user_active_ticket_count u q' ≡ get_user_active_ticket_count u q
  unfolding created
  created_uncounted user q none u e new = cc
  created_uncounted user q (some (r, w')) u e new =
      ground (arith, track_uncounted user (direct_ticket cfg S r) u q)

  -- A session that is created at once counts for nobody: its ticket, `direct-` and the session id,
  -- is put in the user's set but never in the ticket map, and the count skips tickets that are not
  -- in the map. So the limit of sessions for one user does not see direct sessions.
  pub direct_session_uncounted :
      (now : ℕ) (request : InitiateRequest) (user : String) (q : UploadQueue) (w : State)
      {q' : UploadQueue} {w' : State} {r : InitiateResponse} (u : String)
      → create_session_immediately cfg S now request user q w ≡ ok ((q', w'), admitted r)
      → lookup (direct_ticket cfg S r) q.ticket_map ≡ none
      → get_user_active_ticket_count u q' ≡ get_user_active_ticket_count u q
  unfolding create_session_immediately
  direct_session_uncounted now request user q w u e new =
      created_uncounted user q (initiate now request w) u e new

count_tickets-set :
    (m : List (String × QueueTicket)) (ks : List String) (k : String) (t : QueueTicket)
    → lookup k m ≡ none
    → has ks k ≡ false
    → count_tickets (set k t m) ks ≡ count_tickets m ks
unfolding count_tickets has
count_tickets-set m [] k t e h = refl
count_tickets-set m (x ∷ ks) k t e h =
    ground (arith, lookup-set k x t m, str_eq_iff k x, str_eq_iff x k, count_tickets-set m ks k t)

-- A ticket that is put into the queue under a fresh id counts at once, and for its user only: the
-- user's count is one more, and that of every other user is as before.
place_ticket-counts :
    (uuid : String) (t : QueueTicket) (q : UploadQueue) (u : String)
    → counts t.status ≡ true
    → lookup uuid q.ticket_map ≡ none
    → ((v : String) → has (set_of (lookup v q.user_tickets)) uuid ≡ false)
    → get_user_active_ticket_count u (place_ticket uuid t q)
      ≡ get_user_active_ticket_count u q + (if str_eq t.user_id u then 1 else 0)
unfolding get_user_active_ticket_count place_ticket track_user_ticket
place_ticket-counts uuid t q u c new fresh =
    let ks = set_of (lookup t.user_id q.user_tickets) in
    ground (
      arith,
      c,
      lookup-set t.user_id u (add_once uuid ks) q.user_tickets,
      str_eq_iff t.user_id u,
      fresh u,
      fresh t.user_id,
      count_tickets-append (set uuid t q.ticket_map) ks uuid,
      count_tickets-set q.ticket_map ks uuid t,
      count_tickets-set q.ticket_map (set_of (lookup u q.user_tickets)) uuid t,
      lookup-set uuid uuid t q.ticket_map,
      str_eq_iff uuid uuid,
    )
