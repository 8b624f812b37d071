-- ===== src/Audit/BufferedWriter.antt =====
-- BufferedWriter of src/business/audit/buffered-writer.ts. `persistBatch`, which its subclasses
-- implement, is awaited: the batches that are being saved are part of the state, and each of them ends
-- well or fails later.
pub mod Accounting
use file_system_spike.Base.{
  ℕ, zero, suc, Bool, true, false, List, [], ◌∷◌, ◌++◌, length, leb, if◌then◌else◌,
}

pub record BufferConfig : Type 0 where
  pub max_size : ℕ
  pub flush_interval_ms : ℕ

abbrev pub default_buffer_config : BufferConfig
default_buffer_config = record { max_size = 100; flush_interval_ms = 5000 }

-- `saving` has the batches that `persistBatch` has not answered for; `stored` what it has saved, in
-- order; `timer` tells whether the interval timer runs.
pub record Writer {ℓ} (A : Type ℓ) : Type ℓ where
  pub config : BufferConfig
  pub buffer : List A
  pub timer : Bool
  pub saving : List (List A)
  pub stored : List A

module _ {ℓ} {A : Type ℓ} where
  -- The constructor, which starts the timer.
  abbrev pub new : BufferConfig → Writer A
  new c = record { config = c; buffer = []; timer = true; saving = []; stored = [] }

  started : List A → Writer A → Writer A
  started [] w = w
  started (x ∷ xs) w = record w { buffer = []; saving = w.saving ++ (x ∷ xs) ∷ [] }

  -- `flush` up to its await.
  unfoldable pub flush : Writer A → Writer A
  unfolding started
  flush w = started w.buffer w

  unfoldable pub enqueue : A → Writer A → Writer A
  enqueue x w =
      let pushed = record w { buffer = w.buffer ++ x ∷ [] } in
      if leb w.config.max_size (length pushed.buffer) then flush pushed else pushed

  -- One batch less is being saved.
  unfoldable pub drop_at : ℕ → List (List A) → List (List A)
  drop_at i [] = []
  drop_at zero (b ∷ bs) = bs
  drop_at (suc i) (b ∷ bs) = b ∷ drop_at i bs

  -- `flush` after its await, where `persistBatch` has saved the batch.
  unfoldable pub persisted : ℕ → List A → Writer A → Writer A
  persisted i batch w = record w { saving = drop_at i w.saving; stored = w.stored ++ batch }

  -- The same where it has failed: the batch goes behind what has come in the meantime.
  unfoldable pub not_persisted : ℕ → List A → Writer A → Writer A
  not_persisted i batch w = record w { saving = drop_at i w.saving; buffer = w.buffer ++ batch }

  unfoldable pub buffer_size : Writer A → ℕ
  buffer_size w = length w.buffer

  stop_auto_flush : Writer A → Writer A
  stop_auto_flush w = record w { timer = false }

  unfoldable pub on_module_destroy : Writer A → Writer A
  unfolding stop_auto_flush
  on_module_destroy w = flush (stop_auto_flush w)
