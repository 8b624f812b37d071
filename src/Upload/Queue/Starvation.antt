-- ===== src/Upload/Queue/Starvation.antt =====
-- Users at their limit in src/business/file/upload-queue.service.ts.
use file_system_spike.Base.{ℕ, zero, suc, ◌+◌, ◌≤◌, ◌≡◌, refl, String, false, some, length, arith}
use file_system_spike.Base.Dict.{lookup}
use file_system_spike.Upload.Queue.{
  QueueTicket, Config, UploadQueue, SessionStore, get_user_active_ticket_count, head_or_empty,
}
use file_system_spike.Upload.Queue.Handlers.{promote_found, try_promote, promote_loop, promote_next}

module _ (cfg : Config) (S : SessionStore) where
  open S use {State, stats}

  try_promote_at_limit :
      (now : ℕ) (k : String) (t : QueueTicket) (q : UploadQueue) (w : State)
      → lookup k q.ticket_map ≡ some t
      → cfg.max_sessions_per_user ≤ get_user_active_ticket_count t.user_id q
      → try_promote cfg S now k q w ≡ ((q, w), false)
  unfolding try_promote promote_found
  try_promote_at_limit now k t q w e h = ground arith

  promote_loop_at_limit :
      (fuel now i : ℕ) (t : QueueTicket) (q : UploadQueue) (w : State)
      → lookup (head_or_empty q.waiting_order) q.ticket_map ≡ some t
      → cfg.max_sessions_per_user ≤ get_user_active_ticket_count t.user_id q
      → promote_loop cfg S fuel now i q w ≡ (q, w)
  unfolding promote_loop
  promote_loop_at_limit zero now i t q w e h = refl
  promote_loop_at_limit (suc fuel) now i t q w e h = ground (
    arith,
    try_promote_at_limit now (head_or_empty q.waiting_order) t q w e h,
    promote_loop_at_limit fuel now (i + 1) t q w e h,
  )

  -- The count of a user's tickets holds the waiting ones, and so the very ticket that is to be
  -- promoted. A user with `max_sessions_per_user` tickets in the queue has none promoted, however
  -- many slots are free and whoever waits behind: while a ticket of such a user is at the head,
  -- `promoteNext` changes nothing at all.
  pub promote_next_starves :
      (now : ℕ) (t : QueueTicket) (q : UploadQueue) (w : State)
      → lookup (head_or_empty q.waiting_order) q.ticket_map ≡ some t
      → cfg.max_sessions_per_user ≤ get_user_active_ticket_count t.user_id q
      → promote_next cfg S now q w ≡ (q, w)
  unfolding promote_next
  promote_next_starves now t q w e h =
      promote_loop_at_limit (length q.waiting_order) now 0 t q w e h
