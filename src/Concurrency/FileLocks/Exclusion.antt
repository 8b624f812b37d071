-- ===== src/Concurrency/FileLocks/Exclusion.antt =====
-- Who holds the locks of src/infra/storage/file-lock.manager.ts at the same time, over any sequence of
-- calls, grants, time limits, releases and sweeps.
use file_system_spike.Base.{
  ℕ, ◌≤◌, ◌≡◌, refl, ◌∙◌, sym, subst, ◌≢◌, ◌↔◌, ◌⊎◌, inr, String, Bool, true, ◌&&◌, Option, none,
  some, ◌∷◌, [], ◌++◌, ◌==◌, get_elem?, set, count, count-set, count-append_one, count-get,
  count-get_two, arith,
}
use file_system_spike.Base.Dict.{lookup}
use file_system_spike.Concurrency.FileLocks.{
  Mode, read, write, FileLock, waiting, held, over, Phase, Claim, Manager, get_or_create_found,
  get_or_create_lock, decrement_found, decrement_ref, acquire, granted, timed_out, release,
  release_phase, cleanup, is_live, is_held, is_write, holders, writers, RwLockPackage,
}
use file_system_spike.Concurrency.FileLocks.Table.{
  Inv, Points, acquire-Inv, granted-Inv, timed_out-Inv, release-Inv, cleanup-Inv,
}

pub data Step (p : RwLockPackage) : Manager → Manager → Type 0 where
  acquires : (mode : Mode) (key : String) (m : Manager) → Step p m (acquire mode key m)
  grants :
      (i : ℕ) (c : Claim) (m : Manager)
      → get_elem? m.claims i ≡ some c
      → c.phase ≡ waiting
      → p.Grants c.mode (holders c.lock m.claims) (writers c.lock m.claims)
      → Step p m (granted i c m)
  expires :
      (i : ℕ) (c : Claim) (m : Manager)
      → get_elem? m.claims i ≡ some c
      → c.phase ≡ waiting
      → Step p m (timed_out i c m)
  releases :
      (i : ℕ) (c : Claim) (m : Manager) → get_elem? m.claims i ≡ some c → Step p m (release i c m)
  cleans : (m : Manager) → Step p m (cleanup m)

abbrev pub fresh_manager : Manager
fresh_manager = record { locks = []; next_lock = 0; claims = [] }

pub data Reach (p : RwLockPackage) : Manager → Type 0 where
  start : Reach p fresh_manager
  next : {m n : Manager} → Reach p m → Step p m n → Reach p n

fresh_manager-Inv : Inv fresh_manager
unfolding lookup count
fresh_manager-Inv = record {
  keys = tt;
  counts = λ k. refl;
  same = λ i c g. cc;
  fresh = λ k e h. cc;
  apart = λ k j e d h. cc;
}

pub Reach-Inv : {p : RwLockPackage} {m : Manager} → Reach p m → Inv m
Reach-Inv start = fresh_manager-Inv
Reach-Inv (next r (acquires mode key m)) = acquire-Inv mode key m (Reach-Inv r)
Reach-Inv (next r (grants i c m at w g)) = granted-Inv i c m (Reach-Inv r) at w
Reach-Inv (next r (expires i c m at w)) = timed_out-Inv i c m (Reach-Inv r) at w
Reach-Inv (next r (releases i c m at)) = release-Inv i c m (Reach-Inv r) at
Reach-Inv (next r (cleans m)) = cleanup-Inv m (Reach-Inv r)

-- On every lock object there is one holder at most, or nobody writes.
abbrev Exclusive : Manager → Type 0
Exclusive m = (l : ℕ) → (holders l m.claims ≤ 1) ⊎ (writers l m.claims ≡ 0)

abbrev holds_on : ℕ → Claim → Bool
holds_on l c = c.lock == l && is_held c.phase

abbrev writes_on : ℕ → Claim → Bool
writes_on l c = c.lock == l && (is_held c.phase && is_write c.mode)

acquire-Exclusive :
    (mode : Mode) (key : String) (m : Manager) → Exclusive m → Exclusive (acquire mode key m)
unfolding acquire get_or_create_lock get_or_create_found
acquire-Exclusive mode key m v l = by_entry (lookup key m.locks)
  where
    by_entry :
        (o : Option FileLock)
        → let (m', lock) = get_or_create_found key o m in
          let cs =
            m'.claims ++ record { key = key; lock = lock; mode = mode; phase = waiting } ∷ [] in
          (holders l cs ≤ 1) ⊎ (writers l cs ≡ 0)
    by_entry none =
        let c : Claim = record { key = key; lock = m.next_lock; mode = mode; phase = waiting } in
        ground (
          arith,
          v l,
          count-append_one (holds_on l) m.claims c,
          count-append_one (writes_on l) m.claims c,
        )
    by_entry (some e) =
        let c : Claim = record { key = key; lock = e.lock; mode = mode; phase = waiting } in
        ground (
          arith,
          v l,
          count-append_one (holds_on l) m.claims c,
          count-append_one (writes_on l) m.claims c,
        )

module _ (i : ℕ) (c : Claim) (m : Manager) (at : get_elem? m.claims i ≡ some c) where
  granted-Exclusive :
      (p : RwLockPackage)
      → c.phase ≡ waiting
      → p.Grants c.mode (holders c.lock m.claims) (writers c.lock m.claims)
      → Exclusive m
      → Exclusive (granted i c m)
  unfolding granted
  granted-Exclusive p w g v l = by_mode c.mode refl
    where
      by_mode :
          (mode : Mode)
          → c.mode ≡ mode
          → (holders l (set m.claims i (record c { phase = held })) ≤ 1)
            ⊎ (writers l (set m.claims i (record c { phase = held })) ≡ 0)
      by_mode read e =
          let free =
            p.read_shared _ _
              (subst (λ k. p.Grants k (holders c.lock m.claims) (writers c.lock m.claims)) e g) in
          ground (
            arith,
            w,
            e,
            free,
            v l,
            count-set (holds_on l) m.claims i c (record c { phase = held }) at,
            count-set (writes_on l) m.claims i c (record c { phase = held }) at,
          )
      by_mode write e =
          let free =
            p.write_alone _ _
              (subst (λ k. p.Grants k (holders c.lock m.claims) (writers c.lock m.claims)) e g) in
          ground (
            arith,
            w,
            e,
            free,
            v l,
            count-set (holds_on l) m.claims i c (record c { phase = held }) at,
            count-set (writes_on l) m.claims i c (record c { phase = held }) at,
          )

  over-Exclusive :
      (o : Option FileLock)
      → Exclusive m
      → Exclusive (
          decrement_found c.key o
            (record m { claims = set m.claims i (record c { phase = over }) }))
  unfolding decrement_found
  over-Exclusive none v l = ground (
    arith,
    v l,
    count-set (holds_on l) m.claims i c (record c { phase = over }) at,
    count-set (writes_on l) m.claims i c (record c { phase = over }) at,
  )
  over-Exclusive (some e) v l = ground (
    arith,
    v l,
    count-set (holds_on l) m.claims i c (record c { phase = over }) at,
    count-set (writes_on l) m.claims i c (record c { phase = over }) at,
  )

  timed_out-Exclusive : Exclusive m → Exclusive (timed_out i c m)
  unfolding timed_out decrement_ref
  timed_out-Exclusive = over-Exclusive (lookup c.key m.locks)

  release-Exclusive : Exclusive m → Exclusive (release i c m)
  unfolding release release_phase decrement_ref
  release-Exclusive v = by_phase c.phase
    where
      by_phase : (q : Phase) → Exclusive (release_phase i c q m)
      by_phase waiting = v
      by_phase held = over-Exclusive (lookup c.key m.locks) v
      by_phase over = v

Reach-Exclusive : {p : RwLockPackage} {m : Manager} → Reach p m → Exclusive m
unfolding cleanup count
Reach-Exclusive start = λ l. inr refl
Reach-Exclusive (next r (acquires mode key m)) = acquire-Exclusive mode key m (Reach-Exclusive r)
Reach-Exclusive {p} (next r (grants i c m at w g)) =
    granted-Exclusive i c m at p w g (Reach-Exclusive r)
Reach-Exclusive (next r (expires i c m at w)) = timed_out-Exclusive i c m at (Reach-Exclusive r)
Reach-Exclusive (next r (releases i c m at)) = release-Exclusive i c m at (Reach-Exclusive r)
Reach-Exclusive (next r (cleans m)) = Reach-Exclusive r

Points-some :
    (l : ℕ) (o : Option FileLock) → Points l o → (e : FileLock) × (o ≡ some e) × (e.lock ≡ l)
Points-some l none h = absurd h
Points-some l (some e) h = (e, refl, h)

module _ {p : RwLockPackage} {m : Manager} (i j : ℕ) (c d : Claim) (r : Reach p m)
    (x : get_elem? m.claims i ≡ some c) (y : get_elem? m.claims j ≡ some d) where
  -- Of two calls that wait for or hold a lock, whatever the sweep has thrown away in between, both use
  -- one lock object exactly when they are for one key.
  one_lock_per_key :
      is_live c.phase ≡ true → is_live d.phase ≡ true → (c.key ≡ d.key) ↔ (c.lock ≡ d.lock)
  one_lock_per_key l k =
      let v = Reach-Inv r in
      let (a, f, s) = Points-some c.lock (lookup c.key m.locks) (v.same i c x l) in
      let (b, g, t) = Points-some d.lock (lookup d.key m.locks) (v.same j d y k) in
      (λ e. cc, λ e. v.apart c.key d.key a b f g (s ∙ e ∙ sym t))

  -- Of two calls that hold a lock for one key at the same time neither writes, after any calls, grants,
  -- time limits, releases and sweeps, where the package lets a writer have its lock object alone.
  pub same_key_excludes :
      i ≢ j → c.key ≡ d.key → c.phase ≡ held → d.phase ≡ held → (c.mode ≡ read) × (d.mode ≡ read)
  same_key_excludes n e h g =
      let same_lock = (one_lock_per_key (rw h) (rw g)).0 e in
      ground (
        arith,
        same_lock,
        h,
        g,
        Reach-Exclusive r c.lock,
        count-get_two (holds_on c.lock) m.claims i j c d x y n,
        count-get (writes_on c.lock) m.claims i c x,
        count-get (writes_on c.lock) m.claims j d y,
      )

  -- While a call holds the lock of a key, the lock package grants no waiting call of that key, where one of
  -- the two writes: neither a writer while a reader holds it, nor anybody while a writer does.
  held_lock_waits :
      c.key ≡ d.key
      → c.phase ≡ held
      → d.phase ≡ waiting
      → (c.mode ≡ write) ⊎ (d.mode ≡ write)
      → ¬ p.Grants d.mode (holders d.lock m.claims) (writers d.lock m.claims)
  held_lock_waits e h w k g =
      let same_lock = (one_lock_per_key (rw h) (rw w)).0 e in by_mode d.mode refl same_lock
    where
      by_mode : (q : Mode) → d.mode ≡ q → c.lock ≡ d.lock → ⊥
      by_mode read f s =
          let free =
            p.read_shared _ _
              (subst (λ q. p.Grants q (holders d.lock m.claims) (writers d.lock m.claims)) f g) in
          ground (arith, k, h, f, s, free, count-get (writes_on d.lock) m.claims i c x)
      by_mode write f s =
          let free =
            p.write_alone _ _
              (subst (λ q. p.Grants q (holders d.lock m.claims) (writers d.lock m.claims)) f g) in
          ground (arith, h, s, free, count-get (holds_on d.lock) m.claims i c x)
