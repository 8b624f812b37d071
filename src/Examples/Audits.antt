-- ===== src/Examples/Audits.antt =====
-- A writer of src/business/audit/buffered-writer.ts that saves one batch and fails with another.
use file_system_spike.Base.{ℕ, ◌+◌, ◌≡◌, refl, [], ◌∷◌, ◌==◌, count}
use file_system_spike.Audit.BufferedWriter.{
  BufferConfig, Writer, new, flush, enqueue, persisted, not_persisted, drop_at,
}
use file_system_spike.Audit.BufferedWriter.Accounting.{
  Reach, start, enqueues, ticks, saves, fails, count_all, accounts_for_all,
}

abbrev small : BufferConfig
small = record { max_size = 2; flush_interval_ms = 5000 }

abbrev one_batch : Writer ℕ
one_batch = enqueue 8 (enqueue 7 (new small))

abbrev two_batches : Writer ℕ
two_batches = flush (enqueue 9 one_batch)

abbrev failed_once : Writer ℕ
failed_once = not_persisted 0 (7 ∷ 8 ∷ []) two_batches

reached : Reach small (9 ∷ 8 ∷ 7 ∷ []) (persisted 0 (9 ∷ []) failed_once)
unfolding enqueue flush not_persisted drop_at
reached =
    saves 0 (9 ∷ [])
      (fails 0 (7 ∷ 8 ∷ []) (ticks (enqueues 9 (enqueues 8 (enqueues 7 start))) refl) refl) refl

accounts_for_all_example :
    let w = persisted 0 (9 ∷ []) failed_once in
    count (λ x. x == 8) w.stored + count_all (λ x. x == 8) w.saving + count (λ x. x == 8) w.buffer
    ≡ count (λ x. x == 8) (9 ∷ 8 ∷ 7 ∷ [])
accounts_for_all_example = accounts_for_all (λ x. x == 8) reached
