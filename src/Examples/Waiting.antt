-- ===== src/Examples/Waiting.antt =====
-- Tickets that wait in src/business/file/upload-queue.service.ts.
use file_system_spike.Base.{◌+◌, ◌≤◌, ◌/◌, ◌≡◌, refl, String, some, [], ok, arith, length}
use file_system_spike.Base.Dict.{lookup, set, has}
use file_system_spike.Upload.Queue.{
  Config, QueueTicket, UploadQueue, default_config, empty, enqueued, place_ticket, new_ticket,
  check_capacity, get_user_active_ticket_count, count_tickets, enqueue, track_user_ticket,
  head_or_empty,
}
use file_system_spike.Upload.Queue.Handlers.{try_initiate_or_enqueue, promote_next}
use file_system_spike.Upload.Queue.Promotion.{promote_next_half}
use file_system_spike.Upload.Queue.Starvation.{promote_next_starves}
use file_system_spike.Upload.Multipart.{get_active_session_stats}
use file_system_spike.Examples.Admissions.{store, request}

-- No session may be active, so that every request waits.
abbrev busy : Config
busy = record default_config { max_active_sessions = 0 }

abbrev ticket : String → QueueTicket
ticket id = new_ticket busy 5 id request "bob"

abbrev one : UploadQueue
one = place_ticket "t1" (ticket "t1") empty

abbrev three : UploadQueue
three = place_ticket "t3" (ticket "t3") (place_ticket "t2" (ticket "t2") one)

waits :
    try_initiate_or_enqueue busy store 5 "t1" request "bob" empty []
    ≡ ok ((one, []), enqueued "t1" 1 300)
unfolding try_initiate_or_enqueue default_config empty lookup get_user_active_ticket_count
    count_tickets check_capacity get_active_session_stats enqueue place_ticket track_user_ticket
    new_ticket
waits = refl

head_found : lookup (head_or_empty three.waiting_order) three.ticket_map ≡ some (ticket "t1")
unfolding empty lookup place_ticket track_user_ticket new_ticket set
head_found = refl

at_limit : Config.max_sessions_per_user default_config ≤ get_user_active_ticket_count "bob" three
unfolding default_config empty lookup place_ticket track_user_ticket new_ticket set has
    get_user_active_ticket_count count_tickets
at_limit = omega arith

promote_next_starves_example : promote_next default_config store 7 three [] ≡ (three, [])
unfolding new_ticket
promote_next_starves_example =
    promote_next_starves default_config store 7 (ticket "t1") three [] head_found at_limit

promote_next_half_example :
    length three.waiting_order
    ≤ length (promote_next default_config store 7 three []).0.waiting_order
      + (length three.waiting_order + 1) / 2
promote_next_half_example = promote_next_half default_config store 7 three []
