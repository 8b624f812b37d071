-- ===== src/Upload/Session/Parts.antt =====
-- The bookkeeping of parts in src/domain/upload-session/entities/upload-session.entity.ts.
use mathlib.Core.List.{head?}
use file_system_spike.Base.{
  ℕ, zero, suc, ◌+◌, ◌-◌, ◌*◌, ◌≤◌, ◌<◌, ◌≡◌, refl, ◌↔◌, inl, inr, true, false, not, List, [], ◌∷◌,
  ◌++◌, length, arith, Bool-cases, ap, or_else, if◌then◌else◌, ltb, leb, ◌==◌,
}
use file_system_spike.Upload.Session.{
  UploadSession, CreateParams, create, includes, insert, sort, mark_part_completed, next_part_from,
  pending_from, get_next_part_number, get_pending_parts, all_parts_completed, default_part_size,
  session_expiry_ms, ceil_div,
}

-- Strictly rising part numbers above `lo` and up to `hi`.
abbrev pub Within : ℕ → ℕ → List ℕ → Type 0
Within lo hi [] = Unit {0}
Within lo hi (x ∷ xs) = (lo < x) × (x ≤ hi) × Within x hi xs

Within-insert :
    (lo hi a : ℕ) (xs : List ℕ)
    → Within lo hi xs
    → lo < a
    → a ≤ hi
    → includes xs a ≡ false
    → Within lo hi (insert a xs)
unfolding insert includes
Within-insert lo hi a [] w l h i = (l, h, tt)
Within-insert lo hi a (x ∷ xs) w l h i = ground (arith, Within-insert x hi a xs)

-- Sorting a rising list with one number at its end is an insertion.
sort-append : (lo hi a : ℕ) (xs : List ℕ) → Within lo hi xs → sort (xs ++ a ∷ []) ≡ insert a xs
unfolding sort insert
sort-append lo hi a [] w = refl
sort-append lo hi a (x ∷ []) w = ground arith
sort-append lo hi a (x ∷ y ∷ xs) w = ground (arith, sort-append x hi a (y ∷ xs))

includes_above : (lo hi i : ℕ) (xs : List ℕ) → Within lo hi xs → includes xs i ≡ true → lo < i
unfolding includes
includes_above lo hi i [] w e = cc
includes_above lo hi i (x ∷ xs) w e = ground (arith, includes_above x hi i xs)

length-Within : (lo hi : ℕ) (xs : List ℕ) → lo ≤ hi → Within lo hi xs → lo + length xs ≤ hi
length-Within lo hi [] h w = omega arith
length-Within lo hi (x ∷ xs) h w = omega (arith, length-Within x hi xs)

pub includes_full :
    (lo hi i : ℕ) (xs : List ℕ)
    → Within lo hi xs
    → lo + length xs ≡ hi
    → lo < i
    → i ≤ hi
    → includes xs i ≡ true
unfolding includes
includes_full lo hi i [] w e l h = absurd (omega arith)
includes_full lo hi i (x ∷ xs) w e l h =
    ground (arith, length-Within x hi xs, includes_full x hi i xs)

full_of_includes :
    (lo hi : ℕ) (xs : List ℕ)
    → Within lo hi xs
    → lo ≤ hi
    → ((i : ℕ) → lo < i → i ≤ hi → includes xs i ≡ true)
    → lo + length xs ≡ hi
unfolding includes
full_of_includes lo hi [] w h all = ground (arith, all (lo + 1))
full_of_includes lo hi (x ∷ xs) w h all = ground (
  arith,
  all (lo + 1),
  includes_above x hi (lo + 1) xs,
  full_of_includes x hi xs w.2 w.1 (λ i l u. ground (arith, all i)),
)

pending_nil_of_includes :
    (n i : ℕ) (xs : List ℕ)
    → ((j : ℕ) → i ≤ j → j < i + n → includes xs j ≡ true)
    → pending_from n i xs ≡ []
unfolding pending_from
pending_nil_of_includes zero i xs all = refl
pending_nil_of_includes (suc n) i xs all = ground (
  arith,
  all i,
  pending_nil_of_includes n (i + 1) xs (λ j l u. all j (omega arith) (omega arith)),
)

includes_of_pending_nil :
    (n i : ℕ) (xs : List ℕ)
    → pending_from n i xs ≡ []
    → (j : ℕ) → i ≤ j
    → j < i + n
    → includes xs j ≡ true
unfolding pending_from
includes_of_pending_nil zero i xs e j l u = absurd (omega arith)
includes_of_pending_nil (suc n) i xs e j l u = elim (Bool-cases (includes xs i)) [
  | inl t ↦ ground (arith, includes_of_pending_nil n (i + 1) xs (ground arith) j)
  | inr f ↦ ground arith
]

includes-insert :
    (a i : ℕ) (xs : List ℕ) → includes (insert a xs) i ≡ (if a == i then true else includes xs i)
unfolding includes insert
includes-insert a i [] = refl
includes-insert a i (x ∷ xs) = ground (arith, includes-insert a i xs)

length-insert : (a : ℕ) (xs : List ℕ) → length (insert a xs) ≡ length xs + 1
unfolding insert
length-insert a [] = omega arith
length-insert a (x ∷ xs) = ground (arith, length-insert a xs)

-- The part list of a session in order: part numbers from 1 to the total, rising, each once.
pub record HasParts (s : UploadSession) : Type 0 where
  pub rising : Within 0 s.total_parts s.completed_parts

-- Marking a part number in range keeps the list of completed parts rising, without duplicates and
-- in range; the completed parts are then those from before and that part.
pub mark_part_completed-HasParts :
    (now n size : ℕ) (s : UploadSession)
    → HasParts s
    → 1 ≤ n
    → n ≤ s.total_parts
    → let t = mark_part_completed now n size s in
      HasParts t
      × ((i : ℕ)
          → includes t.completed_parts i ≡ (if n == i then true else includes s.completed_parts i))
unfolding mark_part_completed
mark_part_completed-HasParts now n size s p l h = elim (Bool-cases (includes s.completed_parts n)) [
  | inl t ↦ (ground arith, λ i. ground (arith, ap (includes s.completed_parts)))
  | inr f ↦ (
    ground (
      arith,
      sort-append 0 s.total_parts n s.completed_parts p.rising,
      Within-insert 0 s.total_parts n s.completed_parts p.rising,
    ),
    λ i. ground (
      arith,
      sort-append 0 s.total_parts n s.completed_parts p.rising,
      includes-insert n i s.completed_parts,
    ),
  )
]

-- For a session whose parts are in order the count decides: `allPartsCompleted` holds exactly when
-- no part is pending.
all_parts_completed_iff :
    (s : UploadSession) → HasParts s → (all_parts_completed s ≡ true) ↔ (get_pending_parts s ≡ [])
unfolding all_parts_completed get_pending_parts
all_parts_completed_iff s p = (
  λ e. pending_nil_of_includes s.total_parts 1 s.completed_parts (λ j l u.
      includes_full 0 s.total_parts j s.completed_parts p.rising (ground arith) l (omega arith)),
  λ e. ground (
    arith,
    full_of_includes 0 s.total_parts s.completed_parts p.rising (omega arith)
        (λ i l u. includes_of_pending_nil s.total_parts 1 s.completed_parts e i l (omega arith)),
  ),
)

next_part_from-head : (n i : ℕ) (xs : List ℕ) → next_part_from n i xs ≡ head? (pending_from n i xs)
unfolding next_part_from pending_from
next_part_from-head zero i xs = refl
next_part_from-head (suc n) i xs = ground (arith, next_part_from-head n (i + 1) xs)

-- The next part to upload is the first of the pending ones, and there is none exactly when no part
-- is pending.
get_next_part_number-head :
    (s : UploadSession) → get_next_part_number s ≡ head? (get_pending_parts s)
unfolding get_next_part_number get_pending_parts
get_next_part_number-head s = next_part_from-head s.total_parts 1 s.completed_parts

pending_from-includes :
    (n i : ℕ) (xs : List ℕ) (j : ℕ)
    → includes (pending_from n i xs) j
      ≡ (if leb i j then (if ltb j (i + n) then not (includes xs j) else false) else false)
unfolding pending_from includes
pending_from-includes zero i xs j = ground arith
pending_from-includes (suc n) i xs j = elim (Bool-cases (includes xs i)) [
  | inl t ↦ ground (arith, pending_from-includes n (i + 1) xs j)
  | inr f ↦ ground (arith, pending_from-includes n (i + 1) xs j)
]

-- A part number is pending exactly when it lies from 1 to the total and is not completed.
get_pending_parts-includes :
    (s : UploadSession) (j : ℕ)
    → (includes (get_pending_parts s) j ≡ true)
      ↔ ((1 ≤ j) × (j ≤ s.total_parts) × (includes s.completed_parts j ≡ false))
unfolding get_pending_parts
get_pending_parts-includes s j = (
  λ e. ground (arith, pending_from-includes s.total_parts 1 s.completed_parts j),
  λ h. ground (arith, pending_from-includes s.total_parts 1 s.completed_parts j),
)

ceil_div_bounds :
    (a b : ℕ)
    → 0 < b
    → 0 < a
    → (a ≤ ceil_div a b * b) × ((ceil_div a b - 1) * b < a) × (0 < ceil_div a b)
unfolding ceil_div
ceil_div_bounds a b h k = grind arith

-- The parts of a new session cover the file and none of them is empty: for a file that is not
-- empty and a part size `p` that is not zero (the default where the request names none), the total
-- of parts `n` satisfies (n - 1) * p < size ≤ n * p; the session is open for a day.
create_covers :
    (q : CreateParams) (now : ℕ)
    → 0 < or_else q.part_size default_part_size
    → 0 < q.total_size
    → let s = create q now in
      (s.part_size ≡ or_else q.part_size default_part_size)
      × (q.total_size ≤ s.total_parts * s.part_size)
      × ((s.total_parts - 1) * s.part_size < q.total_size)
      × (s.expires_at ≡ now + session_expiry_ms)
unfolding create
create_covers q now h k =
    let b = ceil_div_bounds q.total_size (or_else q.part_size default_part_size) h k in
    (refl, b.0, b.1, refl)
