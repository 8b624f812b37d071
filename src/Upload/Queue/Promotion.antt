-- ===== src/Upload/Queue/Promotion.antt =====
-- The loop of `promoteNext` in src/business/file/upload-queue.service.ts.
use native.Mathlib.Nat.{zero-add, suc-add}
use file_system_spike.Base.{
  ℕ, zero, suc, ◌+◌, ◌-◌, ◌/◌, ◌≤◌, ◌≡◌, refl, inl, inr, ◌⊎◌, ap, ◌∙◌, String, str_eq, str_eq_iff,
  Option, some, none, List, [], ◌∷◌, ◌++◌, ltb, if◌then◌else◌, length, arith, Bool-cases,
}
use file_system_spike.Base.Dict.{lookup, remove}
use file_system_spike.Upload.Queue.{
  QueueTicket, InitiateResponse, Config, UploadQueue, SessionStore, head_or_empty, check_capacity,
  size_of,
}
use file_system_spike.Upload.Queue.Handlers.{
  promoted, promote_ticket, promote_found, try_promote, promote_loop, promote_next,
}

-- What is left when some first part is taken off.
abbrev pub IsSuffix : List String → List String → Type 0
IsSuffix after before = (ks : List String) × (before ≡ ks ++ after)

module _ (cfg : Config) (S : SessionStore) where
  open S use {State, stats, initiate}

  -- A try leaves the waiting order as it is, or takes the ticket out.
  abbrev Tried : String → List String → List String → Type 0
  Tried k before after = (after ≡ before) ⊎ (after ≡ remove k before)

  promoted-Tried :
      (now : ℕ) (k : String) (t : QueueTicket) (q : UploadQueue) (w : State)
      (o : Option (InitiateResponse × State))
      → Tried k q.waiting_order (promoted cfg S now k t q w o).0.0.waiting_order
  unfolding promoted
  promoted-Tried now k t q w none = inl refl
  promoted-Tried now k t q w (some (r, w')) = inr refl

  promote_found-Tried :
      (now : ℕ) (k : String) (o : Option QueueTicket) (q : UploadQueue) (w : State)
      → Tried k q.waiting_order (promote_found cfg S now k o q w).0.0.waiting_order
  unfolding promote_found promote_ticket
  promote_found-Tried now k none q w = inl refl
  promote_found-Tried now k (some t) q w =
      ground (arith, promoted-Tried now k t q w (initiate now t.request w))

  try_promote-Tried :
      (now : ℕ) (k : String) (q : UploadQueue) (w : State)
      → Tried k q.waiting_order (try_promote cfg S now k q w).0.0.waiting_order
  unfolding try_promote
  try_promote-Tried now k q w = promote_found-Tried now k (lookup k q.ticket_map) q w

  -- A round of the loop takes the head out, or leaves the order.
  abbrev Shorter : List String → List String → Type 0
  Shorter before after = (after ≡ before) ⊎ ((k : String) × (before ≡ k ∷ after))

  head-Tried :
      (before after : List String)
      → Tried (head_or_empty before) before after
      → Shorter before after
  unfolding remove
  head-Tried [] after h = ground arith
  head-Tried (k ∷ ks) after (inl e) = inl e
  head-Tried (k ∷ ks) after (inr e) = inr (k, ground (arith, str_eq_iff k k))

  round-Shorter :
      (now : ℕ) (q : UploadQueue) (w : State)
      → Shorter q.waiting_order
          (try_promote cfg S now (head_or_empty q.waiting_order) q w).0.0.waiting_order
  round-Shorter now q w =
      head-Tried q.waiting_order _ (try_promote-Tried now (head_or_empty q.waiting_order) q w)

  length-Shorter :
      (before after : List String)
      → Shorter before after
      → (length after ≤ length before) × (length before ≤ length after + 1)
  length-Shorter before after (inl e) = ground arith
  length-Shorter before after (inr (k, e)) = ground arith

  promote_loop-length :
      (fuel now i : ℕ) (q : UploadQueue) (w : State)
      → length q.waiting_order
        ≤ length (promote_loop cfg S fuel now i q w).0.waiting_order
          + (length q.waiting_order + 1 - i) / 2
  unfolding promote_loop
  promote_loop-length zero now i q w = omega arith
  promote_loop-length (suc fuel) now i q w =
      let head = head_or_empty q.waiting_order in
      let step = (try_promote cfg S now head q w).0 in
      let b = length-Shorter q.waiting_order step.0.waiting_order (round-Shorter now q w) in
      ground (arith, b, promote_loop-length fuel now (i + 1) step.0 step.1)

  -- One call of `promoteNext` promotes at most half of the waiting tickets, rounded up, however
  -- many slots are free: its loop counts up while the array that bounds it shrinks.
  pub promote_next_half :
      (now : ℕ) (q : UploadQueue) (w : State)
      → length q.waiting_order
        ≤ length (promote_next cfg S now q w).0.waiting_order + (length q.waiting_order + 1) / 2
  unfolding promote_next
  promote_next_half now q w = omega (arith, promote_loop-length (length q.waiting_order) now 0 q w)

  promote_loop-suc :
      (fuel now i : ℕ) (q : UploadQueue) (w : State)
      → length q.waiting_order ≤ fuel + i
      → promote_loop cfg S (suc fuel) now i q w ≡ promote_loop cfg S fuel now i q w
  unfolding promote_loop
  promote_loop-suc zero now i q w h = ground arith
  promote_loop-suc (suc fuel) now i q w h =
      let step = (try_promote cfg S now (head_or_empty q.waiting_order) q w).0 in
      let b = length-Shorter q.waiting_order step.0.waiting_order (round-Shorter now q w) in
      ap
        (λ rest.
          if ltb i (length q.waiting_order)
          then if str_eq (head_or_empty q.waiting_order) ""
            then (q, w)
            else if check_capacity cfg (stats now w)
                (size_of (lookup (head_or_empty q.waiting_order) q.ticket_map))
            then rest
            else (q, w)
          else (q, w))
        (promote_loop-suc fuel now (i + 1) step.0 step.1 (omega (arith, b)))

  -- The fuel of `promote_next` is enough: the loop with any more rounds allowed gives the same.
  promote_loop-fuel :
      (extra now : ℕ) (q : UploadQueue) (w : State)
      → promote_loop cfg S (extra + length q.waiting_order) now 0 q w ≡ promote_next cfg S now q w
  unfolding promote_next
  promote_loop-fuel zero now q w = rw zero-add
  promote_loop-fuel (suc extra) now q w = rw suc-add (
      promote_loop-suc (extra + length q.waiting_order) now 0 q w (omega arith)
      ∙ promote_loop-fuel extra now q w)

  IsSuffix-Shorter :
      (before mid after : List String)
      → Shorter before mid
      → IsSuffix after mid
      → IsSuffix after before
  IsSuffix-Shorter before mid after (inl e) (ks, s) = (ks, ground arith)
  IsSuffix-Shorter before mid after (inr (k, e)) (ks, s) = (k ∷ ks, ground arith)

  promote_loop-IsSuffix :
      (fuel now i : ℕ) (q : UploadQueue) (w : State)
      → IsSuffix (promote_loop cfg S fuel now i q w).0.waiting_order q.waiting_order
  unfolding promote_loop
  promote_loop-IsSuffix zero now i q w = ([], refl)
  promote_loop-IsSuffix (suc fuel) now i q w =
      let head = head_or_empty q.waiting_order in
      let step = (try_promote cfg S now head q w).0 in
      let rest =
        IsSuffix-Shorter q.waiting_order step.0.waiting_order _ (round-Shorter now q w)
          (promote_loop-IsSuffix fuel now (i + 1) step.0 step.1) in
      elim (Bool-cases (ltb i (length q.waiting_order))) [
        | inr stop ↦ rw stop ([], refl)
        | inl more ↦ rw more (elim (Bool-cases (str_eq head "")) [
          | inl gone ↦ rw gone ([], refl)
          | inr there ↦
              rw there
                (elim (Bool-cases
                  (check_capacity cfg (stats now w) (size_of (lookup head q.ticket_map)))) [
                    | inl room ↦ rw room rest
                    | inr full ↦ rw full ([], refl)
                  ])
        ])
      ]

  -- The queue is first in, first out: `promoteNext` takes tickets off the front of the waiting
  -- order alone, and those that stay keep their order.
  promote_next-IsSuffix :
      (now : ℕ) (q : UploadQueue) (w : State)
      → IsSuffix (promote_next cfg S now q w).0.waiting_order q.waiting_order
  unfolding promote_next
  promote_next-IsSuffix now q w = promote_loop-IsSuffix (length q.waiting_order) now 0 q w
