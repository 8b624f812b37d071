-- ===== src/Examples/Admissions.antt =====
-- Requests to src/business/file/upload-queue.service.ts over the sessions of
-- src/business/file/multipart-upload.service.ts, under the default configuration.
use file_system_spike.Base.{◌*◌, ◌≡◌, refl, true, some, none, [], ◌∷◌, ok, arith}
use file_system_spike.Base.Dict.{lookup}
use file_system_spike.Upload.Session.{UploadSession, create, default_part_size}
use file_system_spike.Upload.Queue.{
  Config, InitiateRequest, InitiateResponse, UploadQueue, SessionStore, default_config, empty,
  admitted, track_user_ticket, check_capacity, get_user_active_ticket_count, count_tickets,
}
use file_system_spike.Upload.Queue.Handlers.{
  try_initiate_or_enqueue, create_session_immediately, created,
}
use file_system_spike.Upload.Queue.Runs.{start, next, handles, initiates, Handler, Reach-Inv}
use file_system_spike.Upload.Queue.Invariant.{Inv}
use file_system_spike.Upload.Queue.Capacity.{Counting, WithinLimits, Handler-WithinLimits}
use file_system_spike.Upload.Queue.Admission.{direct_session_uncounted}
use file_system_spike.Upload.Multipart.{Folders, initiate, get_active_session_stats}
use file_system_spike.Upload.Multipart.Store.{session_table, session_table-Counting}

abbrev pub folders : Folders
folders = record {
  root_folder = some "root-id";
  is_active_folder = λ id. some true;
  availability = λ id. none;
  normalize_file_name = λ name. name;
}

abbrev pub store : SessionStore
store = session_table folders (λ table. "first")

abbrev pub request : InitiateRequest
request = record {
  file_name = "video.mp4";
  folder_id = "root";
  total_size = 200 * 1024 * 1024;
  mime_type = "video/mp4";
}

abbrev row : UploadSession
row =
    create
      (record {
        id = "first";
        file_name = "video.mp4";
        folder_id = "root-id";
        total_size = 200 * 1024 * 1024;
        mime_type = "video/mp4";
        part_size = some default_part_size;
        upload_id = none;
      })
      5

abbrev response : InitiateResponse
response = record {
  session_id = row.id;
  part_size = row.part_size;
  total_parts = row.total_parts;
  expires_at = row.expires_at;
}

abbrev after_first : UploadQueue
after_first = track_user_ticket "ann" "direct-first" empty

creates :
    create_session_immediately default_config store 5 request "ann" empty []
    ≡ ok ((after_first, row ∷ []), admitted response)
unfolding create_session_immediately created initiate create
creates = refl

admits :
    try_initiate_or_enqueue default_config store 5 "ticket" request "ann" empty []
    ≡ ok ((after_first, row ∷ []), admitted response)
unfolding try_initiate_or_enqueue create_session_immediately created initiate default_config empty
    lookup get_user_active_ticket_count count_tickets check_capacity get_active_session_stats create
admits = refl

no_ticket : lookup "ticket" (UploadQueue.ticket_map empty) ≡ none
unfolding empty lookup
no_ticket = refl

no_direct_ticket : lookup "direct-first" (UploadQueue.ticket_map empty) ≡ none
unfolding empty lookup create
no_direct_ticket = refl

first : Handler default_config store 5 (empty, []) (after_first, row ∷ [])
first =
    initiates "ticket" request "ann" empty [] after_first (row ∷ []) (admitted response) no_ticket
      admits

nothing_open : WithinLimits default_config (get_active_session_stats 5 [])
unfolding get_active_session_stats default_config
nothing_open = record { sessions = omega arith; bytes = omega arith }

Handler-WithinLimits_example : WithinLimits default_config (get_active_session_stats 5 (row ∷ []))
Handler-WithinLimits_example =
    Handler-WithinLimits default_config store (session_table-Counting folders (λ table. "first")) 5
      first nothing_open

Reach-Inv_example : Inv default_config after_first
Reach-Inv_example = Reach-Inv default_config store (next (start []) (handles 5 first))

direct_session_uncounted_example :
    get_user_active_ticket_count "ann" after_first ≡ get_user_active_ticket_count "ann" empty
unfolding create
direct_session_uncounted_example =
    direct_session_uncounted default_config store 5 request "ann" empty [] "ann" creates
      no_direct_ticket

session_table-Counting_example : Counting store
session_table-Counting_example = session_table-Counting folders (λ table. "first")

abbrev one_slot : Config
one_slot = record default_config { max_active_sessions = 1 }

abbrev both_in : UploadQueue
both_in = track_user_ticket "bob" "direct-first" after_first
