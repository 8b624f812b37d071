-- ===== src/Requests/ShareRequest/Decisions.antt =====
-- What any calls make of a request of src/domain/share-request/entities/share-request.entity.ts.
use file_system_spike.Base.{
  ℕ, ◌≡◌, refl, String, true, false, Option, some, none, List, [], ◌∷◌, arith, is_some, after,
}
use file_system_spike.Base.Text.{codes, is_blank}
use file_system_spike.Requests.ShareRequest.{
  ShareRequest, ShareRequestStatus, pending, approved, rejected, canceled, is_decidable, approve,
  reject, cancel,
}

pub data Call : Type 0 where
  approves : ℕ → String → Option String → Call
  rejects : ℕ → String → String → Call
  cancels : ℕ → Call

-- A call that throws leaves the request as it was.
unfoldable pub step : Call → ShareRequest → ShareRequest
step (approves now user comment) r = after r (approve now user comment r)
step (rejects now user comment) r = after r (reject now user comment r)
step (cancels now) r = after r (cancel now r)

unfoldable pub run : List Call → ShareRequest → ShareRequest
run [] r = r
run (c ∷ cs) r = run cs (step c r)

step-decided : (c : Call) (r : ShareRequest) → is_decidable r ≡ false → step c r ≡ r
unfolding step approve reject cancel
step-decided (approves now user comment) r e = ground (arith, e)
step-decided (rejects now user comment) r e = ground (arith, e)
step-decided (cancels now) r e = ground (arith, e)

-- The first decision stands: a request that is not pending is not changed by any calls.
decided_is_final : (cs : List Call) (r : ShareRequest) → is_decidable r ≡ false → run cs r ≡ r
unfolding run
decided_is_final [] r e = refl
decided_is_final (c ∷ cs) r e = rw (step-decided c r e) (decided_is_final cs r e)

abbrev pub NonBlank : Option String → Type 0
NonBlank none = ⊥
NonBlank (some s) = is_blank (codes s) ≡ false

-- What the fields of a decision say in each status.
abbrev pub Consistent : ShareRequestStatus → ShareRequest → Type 0
Consistent pending r = (r.approver_id ≡ none) × (r.decided_at ≡ none)
Consistent approved r = (is_some r.approver_id ≡ true) × (is_some r.decided_at ≡ true)
Consistent rejected r =
    (is_some r.approver_id ≡ true) × (is_some r.decided_at ≡ true) × NonBlank r.decision_comment
Consistent canceled r = (r.approver_id ≡ none) × (r.decided_at ≡ none)

step-Consistent :
    (c : Call) (r : ShareRequest) → Consistent r.status r → Consistent (step c r).status (step c r)
unfolding step approve reject cancel
step-Consistent (approves now user comment) r k = ground arith
step-Consistent (rejects now user comment) r k = ground arith
step-Consistent (cancels now) r k = ground arith

-- Any calls keep the record of the decision in step with the status: pending or cancelled without
-- an approver and a time, approved or rejected with both, and rejected only with a comment that is
-- not blank.
run-Consistent :
    (cs : List Call) (r : ShareRequest)
    → Consistent r.status r
    → Consistent (run cs r).status (run cs r)
unfolding run
run-Consistent [] r k = k
run-Consistent (c ∷ cs) r k = run-Consistent cs (step c r) (step-Consistent c r k)
