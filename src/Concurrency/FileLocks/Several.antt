-- ===== src/Concurrency/FileLocks/Several.antt =====
-- acquireWriteMultiple and acquireReadWrite of src/infra/storage/file-lock.manager.ts: the order in which
-- they take the locks of their keys. The order of texts by which JavaScript sorts is a parameter.
use file_system_spike.Base.{
  ℕ, zero, suc, ◌≡◌, refl, subst, String, str_eq, str_eq_iff, Bool, true, false, Option, none, some,
  List, [], ◌∷◌, if◌then◌else◌, Bool-cases, inl, inr, All, arith,
}
use file_system_spike.Base.Dict.{has, Distinct}
use file_system_spike.Concurrency.FileLocks.{Mode, read, write}

pub record TextOrder : Type 0 where
  pub lt : String → String → Bool
  pub irreflexive : (a : String) → lt a a ≡ false
  pub transitive : (a b c : String) → lt a b ≡ true → lt b c ≡ true → lt a c ≡ true
  pub total : (a b : String) → lt a b ≡ false → lt b a ≡ false → a ≡ b

-- A call of acquireWriteMultiple: the keys whose locks it has, the last one first, and those to come.
pub record Several : Type 0 where
  pub taken : List String
  pub left : List String

module _ (o : TextOrder) where
  unfoldable pub insert : String → List String → List String
  insert a [] = a ∷ []
  insert a (b ∷ bs) = if o.lt b a then b ∷ insert a bs else a ∷ (b ∷ bs)

  -- `[...keys].sort()`.
  unfoldable pub sort : List String → List String
  unfolding insert
  sort [] = []
  sort (a ∷ ks) = insert a (sort ks)

  unfoldable pub begin : List String → Several
  unfolding sort
  begin keys = record { taken = []; left = sort keys }

-- The wait of the loop for its next lock ends well.
took_next : List String → Several → Several
took_next [] s = s
took_next (a ∷ ks) s = record { taken = a ∷ s.taken; left = ks }

unfoldable pub took : Several → Several
unfolding took_next
took s = took_next s.left s

-- The state of a call after so many grants.
unfoldable pub after_grants : ℕ → Several → Several
unfolding took
after_grants zero s = s
after_grants (suc n) s = after_grants n (took s)

head : List String → Option String
head [] = none
head (a ∷ ks) = some a

-- The key whose lock the call waits for, if it has not got them all.
unfoldable pub wanted : Several → Option String
unfolding head
wanted s = head s.left

-- The order in which acquireReadWrite takes its two locks, with their modes.
unfoldable pub read_write_order : TextOrder → String → String → List (String × Mode)
read_write_order o read_key write_key =
    if o.lt write_key read_key
    then (write_key, write) ∷ (read_key, read) ∷ []
    else (read_key, read) ∷ (write_key, write) ∷ []

module _ (o : TextOrder) where
  abbrev Below : String → List String → Type 0
  Below a = All (λ b. o.lt a b ≡ true)

  abbrev Rising : List String → Type 0
  Rising [] = Unit {0}
  Rising (a ∷ ks) = Below a ks × Rising ks

  Below-trans : (a b : String) (cs : List String) → o.lt a b ≡ true → Below b cs → Below a cs
  Below-trans a b [] h k = tt
  Below-trans a b (c ∷ cs) h k = (o.transitive a b c h k.0, Below-trans a b cs h k.1)

  has-insert :
      (a k : String) (bs : List String)
      → has (insert o a bs) k ≡ (if str_eq a k then true else has bs k)
  unfolding has insert
  has-insert a k [] = refl
  has-insert a k (b ∷ bs) = ground (arith, has-insert a k bs)

  has-sort : (k : String) (ks : List String) → has (sort o ks) k ≡ has ks k
  unfolding has sort
  has-sort k [] = refl
  has-sort k (a ∷ ks) = ground (arith, has-insert a k (sort o ks), has-sort k ks)

  Below-insert :
      (c a : String) (bs : List String) → o.lt c a ≡ true → Below c bs → Below c (insert o a bs)
  unfolding insert
  Below-insert c a [] h k = (h, tt)
  Below-insert c a (b ∷ bs) h k = ground (arith, h, k, Below-insert c a bs h k.1)

  insert-Rising :
      (a : String) (bs : List String) → Rising bs → has bs a ≡ false → Rising (insert o a bs)
  unfolding insert has
  insert-Rising a [] r n = (tt, tt)
  insert-Rising a (b ∷ bs) r n = elim (Bool-cases (o.lt b a)) [
    | inl before ↦
        rw before (Below-insert b a bs before r.0, insert-Rising a bs r.1 (ground (arith, n)))
    | inr not_before ↦ rw not_before (
        let ab : o.lt a b ≡ true = ground (arith, n, not_before, o.total a b, str_eq_iff b a) in
        ((ab, Below-trans a b bs ab r.0), r))
  ]

  sort-Rising : (ks : List String) → Distinct ks → Rising (sort o ks)
  unfolding sort
  sort-Rising [] d = tt
  sort-Rising (a ∷ ks) d = insert-Rising a (sort o ks) (sort-Rising ks d.1) (rw (has-sort a ks) d.0)

  -- Every key that is taken comes before every key that is left.
  abbrev Ordered : Several → Type 0
  Ordered s = All (λ a. Below a s.left) s.taken × Rising s.left

  All-tail :
      (a : String) (ks ts : List String) → All (λ t. Below t (a ∷ ks)) ts → All (λ t. Below t ks) ts
  All-tail a ks [] h = tt
  All-tail a ks (t ∷ ts) h = (h.0.1, All-tail a ks ts h.1)

  took-Ordered : (s : Several) (l : List String) → s.left ≡ l → Ordered s → Ordered (took_next l s)
  unfolding took_next
  took-Ordered s [] e h = h
  took-Ordered s (a ∷ ks) e h =
      let h' : All (λ t. Below t (a ∷ ks)) s.taken × Rising (a ∷ ks) =
        subst (λ l. All (λ t. Below t l) s.taken × Rising l) e h in
      ((h'.1.0, All-tail a ks s.taken h'.0), h'.1.1)

  after_grants-Ordered : (n : ℕ) (s : Several) → Ordered s → Ordered (after_grants n s)
  unfolding after_grants took
  after_grants-Ordered zero s h = h
  after_grants-Ordered (suc n) s h = after_grants-Ordered n (took s) (took-Ordered s s.left refl h)

  -- A call with keys that are all different, after some grants.
  abbrev pub Started : Several → Type 0
  Started s = (keys : List String) × (n : ℕ) × Distinct keys × (s ≡ after_grants n (begin o keys))

  Started-Ordered : (s : Several) → Started s → Ordered s
  unfolding begin
  Started-Ordered s (keys, n, d, e) =
      rw e (after_grants-Ordered n (begin o keys) (tt, sort-Rising keys d))

  -- The one call waits for a lock that the other has.
  abbrev pub WaitsFor : Several → Several → Type 0
  WaitsFor s t = (k : String) × (wanted s ≡ some k) × (has t.taken k ≡ true)

  -- A chain of such waits from the first call to the last one.
  abbrev pub WaitChain : Several → List Several → Several → Type 0
  WaitChain s [] z = WaitsFor s z
  WaitChain s (t ∷ ts) z = WaitsFor s t × WaitChain t ts z

  taken-Below :
      (k w : String) (ts ls : List String)
      → All (λ a. Below a ls) ts
      → has ts k ≡ true
      → head ls ≡ some w
      → o.lt k w ≡ true
  unfolding has head
  taken-Below k w [] ls h t e = cc
  taken-Below k w (a ∷ ts) [] h t e = cc
  taken-Below k w (a ∷ ts) (l ∷ ls) h t e =
      ground (arith, h.0, e, t, str_eq_iff a k, taken-Below k w ts (l ∷ ls) h.1)

  chain_wants :
      (s : Several) (ts : List Several) (z : Several)
      → WaitChain s ts z
      → (k : String) × (wanted s ≡ some k)
  chain_wants s [] z c = (c.0, c.1)
  chain_wants s (t ∷ ts) z c = (c.0.0, c.0.1)

  -- Along a chain of waits the wanted keys rise.
  chain_rises :
      (s : Several) (ts : List Several) (z : Several) (k w : String)
      → All Started ts
      → Started z
      → WaitChain s ts z
      → wanted s ≡ some k
      → wanted z ≡ some w
      → o.lt k w ≡ true
  unfolding wanted
  chain_rises s [] z k w a h c e f =
      taken-Below k w z.taken z.left (Started-Ordered z h).0 (ground (arith, c.1, c.2, e)) f
  chain_rises s (t ∷ ts) z k w a h c e f =
      let (v, q) = chain_wants t ts z c.1 in
      let below =
        taken-Below k v t.taken t.left (Started-Ordered t a.0).0 (ground (arith, c.0.1, c.0.2, e))
          q in
      o.transitive k v w below (chain_rises t ts z v w a.1 h c.1 q f)

  -- Calls of acquireWriteMultiple never wait for one another in a circle, however many there are and
  -- whatever locks they have got so far, where the keys of each call are all different.
  pub no_circular_wait :
      (s : Several) (ts : List Several) → Started s → All Started ts → ¬ WaitChain s ts s
  no_circular_wait s ts h a c =
      let (k, e) = chain_wants s ts s c in cc (o.irreflexive k, chain_rises s ts s k k a h c e e)
