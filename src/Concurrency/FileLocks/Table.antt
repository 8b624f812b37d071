-- ===== src/Concurrency/FileLocks/Table.antt =====
-- The table of locks of src/infra/storage/file-lock.manager.ts against the calls that wait or hold: the
-- counts of the references, and the lock objects of the keys.
use file_system_spike.Base.{
  ℕ, if◌then◌else◌, subst, Bool-cases, ◌<◌, ◌≡◌, refl, inl, inr, String, str_eq, str_eq_iff, Bool,
  true, ◌&&◌, Option, none, some, List, ◌∷◌, [], ◌++◌, get_elem?, get_elem?-set, get_elem?-append,
  set, count, count-set, count-append_one, count-get, arith,
}
use file_system_spike.Base.Int.{pos, incr, decr}
use file_system_spike.Base.Dict.{lookup, lookup-set, DistinctKeys, DistinctKeys-set}
use file_system_spike.Concurrency.FileLocks.{
  Mode, FileLock, waiting, held, over, Claim, Manager, get_or_create_found, get_or_create_lock,
  decrement_found, decrement_ref, acquire, granted, timed_out, release, release_phase, Phase,
  unused_dropped, is_zero, cleanup, is_live,
}

-- The claims on a key that wait or hold.
abbrev pub on_key : String → Claim → Bool
on_key k c = str_eq c.key k && is_live c.phase

abbrev pub live : String → List Claim → ℕ
live k cs = count (on_key k) cs

abbrev pub Counted : Option FileLock → ℕ → Type 0
Counted none n = n ≡ 0
Counted (some e) n = e.ref_count ≡ pos n

abbrev pub Points : ℕ → Option FileLock → Type 0
Points l none = ⊥
Points l (some e) = e.lock ≡ l

-- The table against the claims.
pub record Inv (m : Manager) : Type 0 where
  pub keys : DistinctKeys m.locks
  pub counts : (k : String) → Counted (lookup k m.locks) (live k m.claims)
  pub same :
      (i : ℕ) (c : Claim)
      → get_elem? m.claims i ≡ some c
      → is_live c.phase ≡ true
      → Points c.lock (lookup c.key m.locks)
  pub fresh : (k : String) (e : FileLock) → lookup k m.locks ≡ some e → e.lock < m.next_lock
  pub apart :
      (k j : String) (e d : FileLock)
      → lookup k m.locks ≡ some e
      → lookup j m.locks ≡ some d
      → e.lock ≡ d.lock
      → k ≡ j

module _ (mode : Mode) (key : String) (m : Manager) (v : Inv m) where
  acquired : Option FileLock → Manager
  unfolding get_or_create_found
  acquired o =
      let (m', lock) = get_or_create_found key o m in
      record m' {
        claims = m'.claims ++ record { key = key; lock = lock; mode = mode; phase = waiting } ∷ [];
      }

  acquired-counts :
      (o : Option FileLock) (k : String)
      → lookup key m.locks ≡ o
      → Counted (lookup k (acquired o).locks) (live k (acquired o).claims)
  unfolding acquired
  acquired-counts none k h =
      let e : FileLock = record { lock = m.next_lock; ref_count = pos 1 } in
      ground (
        arith,
        h,
        v.counts k,
        lookup-set key k e m.locks,
        str_eq_iff key k,
        count-append_one (on_key k) m.claims
            (record { key = key; lock = m.next_lock; mode = mode; phase = waiting }),
      )
  acquired-counts (some e) k h =
      let e' : FileLock = record e { ref_count = incr e.ref_count } in
      ground (
        arith,
        h,
        v.counts k,
        lookup-set key k e' m.locks,
        str_eq_iff key k,
        count-append_one (on_key k) m.claims
            (record { key = key; lock = e.lock; mode = mode; phase = waiting }),
      )

  acquired-same :
      (o : Option FileLock) (i : ℕ) (c : Claim)
      → lookup key m.locks ≡ o
      → get_elem? (acquired o).claims i ≡ some c
      → is_live c.phase ≡ true
      → Points c.lock (lookup c.key (acquired o).locks)
  unfolding acquired
  acquired-same none i c h g l =
      let n : Claim = record { key = key; lock = m.next_lock; mode = mode; phase = waiting } in
      let e : FileLock = record { lock = m.next_lock; ref_count = pos 1 } in
      ground (
        arith,
        h,
        g,
        v.same i c,
        lookup-set key c.key e m.locks,
        str_eq_iff key c.key,
        get_elem?-append m.claims n c i g,
      )
  acquired-same (some e) i c h g l =
      let n : Claim = record { key = key; lock = e.lock; mode = mode; phase = waiting } in
      let e' : FileLock = record e { ref_count = incr e.ref_count } in
      ground (
        arith,
        h,
        g,
        v.same i c,
        lookup-set key c.key e' m.locks,
        str_eq_iff key c.key,
        get_elem?-append m.claims n c i g,
      )

  acquired-fresh :
      (o : Option FileLock) (k : String) (d : FileLock)
      → lookup key m.locks ≡ o
      → lookup k (acquired o).locks ≡ some d
      → d.lock < (acquired o).next_lock
  unfolding acquired
  acquired-fresh none k d h g =
      let e : FileLock = record { lock = m.next_lock; ref_count = pos 1 } in
      ground (arith, h, g, v.fresh k d, lookup-set key k e m.locks, str_eq_iff key k)
  acquired-fresh (some e) k d h g =
      let e' : FileLock = record e { ref_count = incr e.ref_count } in
      ground
        (arith, h, g, v.fresh k d, v.fresh key e h, lookup-set key k e' m.locks, str_eq_iff key k)

  acquired-apart :
      (o : Option FileLock) (k j : String) (a b : FileLock)
      → lookup key m.locks ≡ o
      → lookup k (acquired o).locks ≡ some a
      → lookup j (acquired o).locks ≡ some b
      → a.lock ≡ b.lock
      → k ≡ j
  unfolding acquired
  acquired-apart none k j a b h g f q =
      let e : FileLock = record { lock = m.next_lock; ref_count = pos 1 } in
      ground (
        arith,
        h,
        g,
        f,
        q,
        v.fresh k a,
        v.fresh j b,
        v.apart k j a b,
        lookup-set key k e m.locks,
        lookup-set key j e m.locks,
        str_eq_iff key k,
        str_eq_iff key j,
      )
  acquired-apart (some e) k j a b h g f q =
      let e' : FileLock = record e { ref_count = incr e.ref_count } in
      ground (
        arith,
        h,
        g,
        f,
        q,
        v.apart k j a b,
        v.apart key j e b h,
        v.apart k key a e,
        lookup-set key k e' m.locks,
        lookup-set key j e' m.locks,
        str_eq_iff key k,
        str_eq_iff key j,
      )

  pub acquire-Inv : Inv (acquire mode key m)
  unfolding acquire get_or_create_lock acquired
  acquire-Inv =
      let o = lookup key m.locks in
      record {
        keys = acquired-keys o;
        counts = λ k. acquired-counts o k refl;
        same = λ i c. acquired-same o i c refl;
        fresh = λ k e. acquired-fresh o k e refl;
        apart = λ k j e d. acquired-apart o k j e d refl;
      }
    where
      acquired-keys : (o : Option FileLock) → DistinctKeys (acquired o).locks
      acquired-keys none = DistinctKeys-set key _ m.locks v.keys
      acquired-keys (some e) = DistinctKeys-set key _ m.locks v.keys

module _ (i : ℕ) (c : Claim) (m : Manager) (v : Inv m) (at : get_elem? m.claims i ≡ some c) where
  pub granted-Inv : c.phase ≡ waiting → Inv (granted i c m)
  unfolding granted
  granted-Inv w = record {
    keys = v.keys;
    counts = λ k.
        ground
          (arith, w, v.counts k, count-set (on_key k) m.claims i c (record c { phase = held }) at);
    same = λ j d g l. ground (
      arith,
      w,
      g,
      l,
      v.same j d,
      v.same i c at,
      get_elem?-set m.claims i j (record c { phase = held }) d g,
    );
    fresh = v.fresh;
    apart = v.apart;
  }

  -- What a call that is over leaves of the table.
  ended : Option FileLock → Manager
  unfolding decrement_found
  ended o =
      decrement_found c.key o (record m { claims = set m.claims i (record c { phase = over }) })

  ended-counts :
      (o : Option FileLock) (k : String)
      → lookup c.key m.locks ≡ o
      → is_live c.phase ≡ true
      → Counted (lookup k (ended o).locks) (live k (ended o).claims)
  unfolding ended
  ended-counts none k h l = absurd (subst (Points c.lock) h (v.same i c at l))
  ended-counts (some e) k h l =
      let e' : FileLock = record e { ref_count = decr e.ref_count } in
      ground (
        arith,
        h,
        l,
        v.counts k,
        lookup-set c.key k e' m.locks,
        str_eq_iff c.key k,
        count-get (on_key k) m.claims i c at,
        count-set (on_key k) m.claims i c (record c { phase = over }) at,
      )

  ended-same :
      (o : Option FileLock) (j : ℕ) (d : Claim)
      → lookup c.key m.locks ≡ o
      → get_elem? (ended o).claims j ≡ some d
      → is_live d.phase ≡ true
      → Points d.lock (lookup d.key (ended o).locks)
  unfolding ended
  ended-same none j d h g l =
      ground
        (arith, h, g, l, v.same j d, get_elem?-set m.claims i j (record c { phase = over }) d g)
  ended-same (some e) j d h g l =
      let e' : FileLock = record e { ref_count = decr e.ref_count } in
      ground (
        arith,
        h,
        g,
        l,
        v.same j d,
        lookup-set c.key d.key e' m.locks,
        str_eq_iff c.key d.key,
        get_elem?-set m.claims i j (record c { phase = over }) d g,
      )

  -- An entry keeps its lock object.
  ended-lock :
      (o : Option FileLock) (k : String) (d : FileLock)
      → lookup c.key m.locks ≡ o
      → lookup k (ended o).locks ≡ some d
      → (b : FileLock) × (lookup k m.locks ≡ some b) × (b.lock ≡ d.lock)
  unfolding ended
  ended-lock none k d h g = (d, g, refl)
  ended-lock (some e) k d h g =
      let e' : FileLock = record e { ref_count = decr e.ref_count } in
      elim (Bool-cases (str_eq c.key k)) [
        | inl same_key ↦ (
          e,
          ground (arith, h, same_key, str_eq_iff c.key k),
          ground (arith, g, same_key, lookup-set c.key k e' m.locks),
        )
        | inr other ↦ (d, ground (arith, g, other, lookup-set c.key k e' m.locks), refl)
      ]

  ended-next : (o : Option FileLock) → (ended o).next_lock ≡ m.next_lock
  unfolding ended
  ended-next none = refl
  ended-next (some e) = refl

  ended-Inv :
      is_live c.phase ≡ true → (o : Option FileLock) → lookup c.key m.locks ≡ o → Inv (ended o)
  unfolding ended
  ended-Inv l o h = record {
    keys = ended-keys o;
    counts = λ k. ended-counts o k h l;
    same = λ j d. ended-same o j d h;
    fresh = λ k d g.
        let (b, q, s) = ended-lock o k d h g in omega (arith, v.fresh k b q, ended-next o, s);
    apart = λ k j d f g q r.
        let (a, x, s) = ended-lock o k d h g in
        let (b, y, t) = ended-lock o j f h q in v.apart k j a b x y (ground (arith, s, t, r));
  }
    where
      ended-keys : (o : Option FileLock) → DistinctKeys (ended o).locks
      ended-keys none = v.keys
      ended-keys (some e) = DistinctKeys-set c.key _ m.locks v.keys

  pub timed_out-Inv : c.phase ≡ waiting → Inv (timed_out i c m)
  unfolding timed_out decrement_ref ended
  timed_out-Inv w = ended-Inv (ground (arith, w)) (lookup c.key m.locks) refl

  pub release-Inv : Inv (release i c m)
  unfolding release release_phase decrement_ref ended
  release-Inv = released c.phase refl
    where
      released : (p : Phase) → c.phase ≡ p → Inv (release_phase i c p m)
      released waiting e = v
      released held e = ended-Inv (ground (arith, e)) (lookup c.key m.locks) refl
      released over e = v

-- The sweep.
kept : Option FileLock → Option FileLock
kept none = none
kept (some e) = if is_zero e.ref_count then none else some e

lookup-unused_dropped :
    (k : String) (m : List (String × FileLock))
    → DistinctKeys m
    → lookup k (unused_dropped m) ≡ kept (lookup k m)
unfolding lookup unused_dropped kept
lookup-unused_dropped k [] d = refl
lookup-unused_dropped k ((j, e) ∷ m) d =
    ground (arith, d.0, str_eq_iff j k, lookup-unused_dropped k m d.1)

DistinctKeys-unused_dropped :
    (m : List (String × FileLock)) → DistinctKeys m → DistinctKeys (unused_dropped m)
unfolding unused_dropped kept
DistinctKeys-unused_dropped [] d = tt
DistinctKeys-unused_dropped ((j, e) ∷ m) d =
    ground (arith, d.0, lookup-unused_dropped j m d.1, DistinctKeys-unused_dropped m d.1)

module _ (m : Manager) (v : Inv m) where
  cleanup-counts :
      (k : String) (o : Option FileLock) → lookup k m.locks ≡ o → Counted (kept o) (live k m.claims)
  unfolding kept is_zero
  cleanup-counts k none h = ground (arith, h, v.counts k)
  cleanup-counts k (some e) h = ground (arith, h, v.counts k)

  cleanup-same :
      (i : ℕ) (c : Claim) (o : Option FileLock)
      → lookup c.key m.locks ≡ o
      → get_elem? m.claims i ≡ some c
      → is_live c.phase ≡ true
      → Points c.lock (kept o)
  unfolding kept is_zero
  cleanup-same i c none h g l = absurd (subst (Points c.lock) h (v.same i c g l))
  cleanup-same i c (some e) h g l = ground (
    arith,
    h,
    l,
    v.same i c g l,
    v.counts c.key,
    count-get (on_key c.key) m.claims i c g,
    str_eq_iff c.key c.key,
  )

  kept-some :
      (k : String) (d : FileLock)
      → lookup k (unused_dropped m.locks) ≡ some d
      → lookup k m.locks ≡ some d
  unfolding kept is_zero
  kept-some k d h = ground (arith, h, lookup-unused_dropped k m.locks v.keys)

  pub cleanup-Inv : Inv (cleanup m)
  unfolding cleanup
  cleanup-Inv = record {
    keys = DistinctKeys-unused_dropped m.locks v.keys;
    counts =
        λ k. rw (lookup-unused_dropped k m.locks v.keys) (cleanup-counts k (lookup k m.locks) refl);
    same = λ i c g l.
        rw (lookup-unused_dropped c.key m.locks v.keys)
          (cleanup-same i c (lookup c.key m.locks) refl g l);
    fresh = λ k d h. v.fresh k d (kept-some k d h);
    apart = λ k j d e h g. v.apart k j d e (kept-some k d h) (kept-some j e g);
  }
