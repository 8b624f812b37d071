-- ===== src/Audit/BufferedWriter/Accounting.antt =====
-- Where the items of a writer of src/business/audit/buffered-writer.ts are, over any order of pushes,
-- flushes and answers of `persistBatch`.
use file_system_spike.Base.{
  ℕ, zero, suc, ◌+◌, ◌<◌, ◌≡◌, refl, ap, ◌∙◌, one_if, Bool, true, some, List, [], ◌∷◌, ◌++◌, length,
  leb, get_elem?, count, count-append_one, Bool-cases, inl, inr, arith,
}
use file_system_spike.Audit.BufferedWriter.{
  BufferConfig, Writer, new, started, flush, enqueue, drop_at, persisted, not_persisted,
  on_module_destroy,
}

module _ {ℓ} {A : Type ℓ} where
  -- Any order of the events of one writer; the list has the items that were given to `enqueue`, the last
  -- one first.
  pub data Reach (c : BufferConfig) : List A → Writer A → Type ℓ where
    start : Reach c [] (new c)
    enqueues : (x : A) {xs : List A} {w : Writer A} → Reach c xs w → Reach c (x ∷ xs) (enqueue x w)
    ticks : {xs : List A} {w : Writer A} → Reach c xs w → w.timer ≡ true → Reach c xs (flush w)
    saves :
        (i : ℕ) (batch : List A) {xs : List A} {w : Writer A}
        → Reach c xs w
        → get_elem? w.saving i ≡ some batch
        → Reach c xs (persisted i batch w)
    fails :
        (i : ℕ) (batch : List A) {xs : List A} {w : Writer A}
        → Reach c xs w
        → get_elem? w.saving i ≡ some batch
        → Reach c xs (not_persisted i batch w)
    destroys : {xs : List A} {w : Writer A} → Reach c xs w → Reach c xs (on_module_destroy w)

  pub count_all : (A → Bool) → List (List A) → ℕ
  count_all p [] = 0
  count_all p (b ∷ bs) = count p b + count_all p bs

  count-append : (p : A → Bool) (xs ys : List A) → count p (xs ++ ys) ≡ count p xs + count p ys
  unfolding count
  count-append p [] ys = omega arith
  count-append p (x ∷ xs) ys = omega (arith, count-append p xs ys)

  count_all-append_one :
      (p : A → Bool) (bs : List (List A)) (b : List A)
      → count_all p (bs ++ b ∷ []) ≡ count_all p bs + count p b
  unfolding count_all
  count_all-append_one p [] b = omega arith
  count_all-append_one p (a ∷ bs) b = omega (arith, count_all-append_one p bs b)

  count_all-drop_at :
      (p : A → Bool) (i : ℕ) (bs : List (List A)) (b : List A)
      → get_elem? bs i ≡ some b
      → count_all p (drop_at i bs) + count p b ≡ count_all p bs
  unfolding count_all drop_at
  count_all-drop_at p i [] b h = cc
  count_all-drop_at p zero (a ∷ bs) b h = ground (arith, h)
  count_all-drop_at p (suc i) (a ∷ bs) b h = omega (arith, count_all-drop_at p i bs b h)

  -- The items of a writer that pass a test, wherever they are.
  abbrev pub within : (A → Bool) → Writer A → ℕ
  within p w = count p w.stored + count_all p w.saving + count p w.buffer

  started-within :
      (p : A → Bool) (l : List A) (w : Writer A)
      → w.buffer ≡ l
      → within p (started l w) ≡ within p w
  unfolding started count
  started-within p [] w e = refl
  started-within p (x ∷ xs) w e =
      omega (arith, ap (count p) e, count_all-append_one p w.saving (x ∷ xs))

  flush-within : (p : A → Bool) (w : Writer A) → within p (flush w) ≡ within p w
  unfolding flush
  flush-within p w = started-within p w.buffer w refl

  enqueue-within :
      (p : A → Bool) (x : A) (w : Writer A) → within p (enqueue x w) ≡ within p w + one_if (p x)
  unfolding enqueue
  enqueue-within p x w =
      let pushed : Writer A = record w { buffer = w.buffer ++ x ∷ [] } in
      elim (Bool-cases (leb w.config.max_size (length pushed.buffer))) [
        | inl full ↦ rw full (omega (arith, flush-within p pushed, count-append_one p w.buffer x))
        | inr room ↦ rw room (omega (arith, count-append_one p w.buffer x))
      ]

  -- Nothing is lost and nothing is saved twice, in whatever order the pushes, the ticks of the timer and
  -- the answers of `persistBatch` come: of the items that were given to `enqueue`, those that pass any
  -- test are as many as those that are stored, being saved or in the buffer.
  pub accounts_for_all :
      (p : A → Bool) {c : BufferConfig} {xs : List A} {w : Writer A}
      → Reach c xs w
      → count p w.stored + count_all p w.saving + count p w.buffer ≡ count p xs
  unfolding count count_all persisted not_persisted on_module_destroy
  accounts_for_all p start = refl
  accounts_for_all p (enqueues x {w = w} r) =
      omega (arith, enqueue-within p x w, accounts_for_all p r)
  accounts_for_all p (ticks {w = w} r t) = flush-within p w ∙ accounts_for_all p r
  accounts_for_all p (saves i b {w = w} r h) =
      omega
        (arith, accounts_for_all p r, count-append p w.stored b, count_all-drop_at p i w.saving b h)
  accounts_for_all p (fails i b {w = w} r h) =
      omega
        (arith, accounts_for_all p r, count-append p w.buffer b, count_all-drop_at p i w.saving b h)
  accounts_for_all p (destroys {w = w} r) = flush-within p _ ∙ accounts_for_all p r

  started-buffer : (l : List A) (w : Writer A) → w.buffer ≡ l → (started l w).buffer ≡ []
  unfolding started
  started-buffer [] w e = e
  started-buffer (x ∷ xs) w e = refl

  -- After `enqueue` the buffer is below its limit, whatever it was before, since a failed batch may have
  -- filled it over the limit.
  enqueue_below_limit :
      (x : A) (w : Writer A)
      → 0 < w.config.max_size
      → length (enqueue x w).buffer < w.config.max_size
  unfolding enqueue flush
  enqueue_below_limit x w h =
      let pushed : Writer A = record w { buffer = w.buffer ++ x ∷ [] } in
      elim (Bool-cases (leb w.config.max_size (length pushed.buffer))) [
        | inl full ↦ rw full (omega (arith, ap length (started-buffer pushed.buffer pushed refl)))
        | inr room ↦ rw room (ground (arith, room))
      ]
