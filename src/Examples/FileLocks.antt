-- ===== src/Examples/FileLocks.antt =====
-- Locks of src/infra/storage/file-lock.manager.ts: two readers of a file and a writer that waits, and two
-- calls for the same two files.
use text.Mathlib.TextEquality.{Char-path}
use file_system_spike.Base.{
  ℕ, ◌≡◌, refl, String, Bool, true, false, List, [], ◌∷◌, count, if◌then◌else◌, ltb, arith,
}
use file_system_spike.Base.Text.{codes}
use file_system_spike.Base.Dict.{has, lookup, set}
use file_system_spike.Concurrency.FileLocks.{
  Mode, read, write, waiting, held, Claim, Manager, acquire, granted, RwLockPackage,
  get_or_create_lock,
}
use file_system_spike.Concurrency.FileLocks.Exclusion.{
  Reach, start, next, acquires, grants, fresh_manager, same_key_excludes,
}
use file_system_spike.Concurrency.FileLocks.Several.{
  TextOrder, Several, begin, after_grants, Started, WaitChain, no_circular_wait,
}

-- A package that grants whatever a writer that is alone allows.
abbrev Eager : Mode → ℕ → ℕ → Type 0
Eager read h w = w ≡ 0
Eager write h w = h ≡ 0

abbrev eager : RwLockPackage
eager = record { Grants = Eager; write_alone = λ h w g. g; read_shared = λ h w g. g }

abbrev two_asked : Manager
two_asked = acquire read "a" (acquire read "a" fresh_manager)

abbrev claim : Claim
claim = record { key = "a"; lock = 0; mode = read; phase = waiting }

abbrev reading : Claim
reading = record claim { phase = held }

abbrev two_reading : Manager
two_reading = granted 1 claim (granted 0 claim two_asked)

abbrev writer : Claim
writer = record claim { mode = write }

reached : Reach eager two_reading
unfolding acquire granted get_or_create_lock lookup set count
reached =
    next
      (next (next (next start (acquires read "a" _)) (acquires read "a" _))
        (grants 0 claim two_asked refl refl refl))
      (grants 1 claim _ refl refl refl)

same_key_excludes_example : (reading.mode ≡ read) × (reading.mode ≡ read)
unfolding acquire granted get_or_create_lock lookup set count
same_key_excludes_example =
    same_key_excludes 0 1 reading reading reached refl refl (omega arith) refl refl refl

-- The order of texts by their code points.
codes_lt : List ℕ → List ℕ → Bool
codes_lt xs [] = false
codes_lt [] (y ∷ ys) = true
codes_lt (x ∷ xs) (y ∷ ys) =
    let rest = codes_lt xs ys in if ltb x y then true else if ltb y x then false else rest

codes_lt_irrefl : (xs : List ℕ) → codes_lt xs xs ≡ false
unfolding codes_lt
codes_lt_irrefl [] = refl
codes_lt_irrefl (x ∷ xs) = ground (arith, codes_lt_irrefl xs)

codes_lt_trans :
    (xs ys zs : List ℕ) → codes_lt xs ys ≡ true → codes_lt ys zs ≡ true → codes_lt xs zs ≡ true
unfolding codes_lt
codes_lt_trans xs ys [] h k = k
codes_lt_trans xs [] (z ∷ zs) h k = cc
codes_lt_trans [] (y ∷ ys) (z ∷ zs) h k = refl
codes_lt_trans (x ∷ xs) (y ∷ ys) (z ∷ zs) h k = ground (arith, h, k, codes_lt_trans xs ys zs)

codes_lt_total : (xs ys : List ℕ) → codes_lt xs ys ≡ false → codes_lt ys xs ≡ false → xs ≡ ys
unfolding codes_lt
codes_lt_total [] [] h k = refl
codes_lt_total (x ∷ xs) [] h k = cc
codes_lt_total [] (y ∷ ys) h k = cc
codes_lt_total (x ∷ xs) (y ∷ ys) h k = ground (arith, h, k, codes_lt_total xs ys)

codes_inj : (s t : String) → codes s ≡ codes t → s ≡ t
codes_inj String.[] String.[] h = refl
codes_inj String.[] (String.◌∷◌ d t) h = cc
codes_inj (String.◌∷◌ c s) String.[] h = cc
codes_inj (String.◌∷◌ c s) (String.◌∷◌ d t) h = cc (Char-path c d (cc), codes_inj s t (cc))

by_codes : TextOrder
by_codes = record {
  lt = λ s t. codes_lt (codes s) (codes t);
  irreflexive = λ s. codes_lt_irrefl (codes s);
  transitive = λ s t u. codes_lt_trans (codes s) (codes t) (codes u);
  total = λ s t h k. codes_inj s t (codes_lt_total (codes s) (codes t) h k);
}

-- The two calls name the files in opposite orders.
abbrev first_call : Several
first_call = after_grants 1 (begin by_codes ("b" ∷ "a" ∷ []))

abbrev second_call : Several
second_call = after_grants 0 (begin by_codes ("a" ∷ "b" ∷ []))

first_call-Started : Started by_codes first_call
unfolding has
first_call-Started = ("b" ∷ "a" ∷ [], 1, (refl, (refl, tt)), refl)

second_call-Started : Started by_codes second_call
unfolding has
second_call-Started = ("a" ∷ "b" ∷ [], 0, (refl, (refl, tt)), refl)

no_circular_wait_example : ¬ WaitChain by_codes first_call (second_call ∷ []) first_call
no_circular_wait_example =
    no_circular_wait by_codes first_call (second_call ∷ []) first_call-Started
      (second_call-Started, tt)
