-- ===== src/Share/PublicShare/Limits.antt =====
-- The counters and switches of src/domain/external-share/entities/public-share.entity.ts over any calls.
use file_system_spike.Base.{
  ℕ, ◌≤◌, ◌≡◌, String, true, false, Option, some, none, List, [], ◌∷◌, arith, after, is_some,
}
use file_system_spike.Share.PublicShare.{
  PublicShare, increment_view_count, increment_download_count, block, unblock, revoke, is_valid,
}

pub data Call : Type 0 where
  views downloads unblocks revokes : ℕ → Call
  blocks : ℕ → String → Call

-- A call that throws leaves the share as it was.
unfoldable pub step : Call → PublicShare → PublicShare
step (views now) s = after s (increment_view_count now s)
step (downloads now) s = after s (increment_download_count now s)
step (unblocks now) s = unblock now s
step (revokes now) s = revoke now s
step (blocks now admin) s = block now admin s

unfoldable pub run : List Call → PublicShare → PublicShare
run [] s = s
run (c ∷ cs) s = run cs (step c s)

abbrev pub WithinMax : Option ℕ → ℕ → Type 0
WithinMax none n = Unit {0}
WithinMax (some max) n = n ≤ max

pub record Inv (s : PublicShare) : Type 0 where
  pub views_capped : WithinMax s.max_view_count s.current_view_count
  pub downloads_capped : WithinMax s.max_download_count s.current_download_count
  pub blocker : s.is_blocked ≡ true → (is_some s.blocked_by ≡ true) × (is_some s.blocked_at ≡ true)
  pub unblocked : s.is_blocked ≡ false → (s.blocked_by ≡ none) × (s.blocked_at ≡ none)

pub step-Inv : (c : Call) (s : PublicShare) → Inv s → Inv (step c s)
unfolding step increment_view_count increment_download_count block unblock revoke
step-Inv (views now) s v = ground arith
step-Inv (downloads now) s v = ground arith
step-Inv (unblocks now) s v = ground arith
step-Inv (revokes now) s v = ground arith
step-Inv (blocks now admin) s v = ground arith

-- After any calls the counters are at most their maxima, where those are set, and a share is
-- blocked exactly with the administrator and the time of the block on record, if it was so before.
run_calls-Inv : (cs : List Call) (s : PublicShare) → Inv s → Inv (run cs s)
unfolding run
run_calls-Inv [] s v = v
run_calls-Inv (c ∷ cs) s v = run_calls-Inv cs (step c s) (step-Inv c s v)

step-revoked : (c : Call) (s : PublicShare) → s.is_revoked ≡ true → (step c s).is_revoked ≡ true
unfolding step increment_view_count increment_download_count block unblock revoke
step-revoked (views now) s e = ground arith
step-revoked (downloads now) s e = ground arith
step-revoked (unblocks now) s e = ground arith
step-revoked (revokes now) s e = ground arith
step-revoked (blocks now admin) s e = ground arith

run-revoked :
    (cs : List Call) (s : PublicShare) → s.is_revoked ≡ true → (run cs s).is_revoked ≡ true
unfolding run
run-revoked [] s e = e
run-revoked (c ∷ cs) s e = run-revoked cs (step c s) (step-revoked c s e)

-- A revoked share is never valid again, whatever is called and at whatever time it is asked.
revoked_is_final :
    (cs : List Call) (s : PublicShare) (now : ℕ)
    → s.is_revoked ≡ true
    → is_valid now (run cs s) ≡ false
unfolding is_valid
revoked_is_final cs s now e = ground (arith, run-revoked cs s e)

-- `isValid` asks nothing about the counters: it is the same for shares that agree on the two
-- switches and the expiry, also where one of them has used up its views and downloads.
is_valid_ignores_limits :
    (s t : PublicShare) (now : ℕ)
    → s.is_blocked ≡ t.is_blocked
    → s.is_revoked ≡ t.is_revoked
    → s.expires_at ≡ t.expires_at
    → is_valid now s ≡ is_valid now t
unfolding is_valid
is_valid_ignores_limits s t now b r e = ground arith
