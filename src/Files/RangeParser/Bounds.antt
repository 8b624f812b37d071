-- ===== src/Files/RangeParser/Bounds.antt =====
-- Which ranges src/common/utils/range-parser.ts gives.
use file_system_spike.Base.{
  ℕ, zero, suc, ◌+◌, ◌-◌, ◌*◌, ◌/◌, ◌%◌, ◌<◌, ◌≤◌, ◌≡◌, refl, false, Option, none, some, List, [],
  ◌∷◌, ◌++◌, ltb, arith, min, inl, inr, Bool-cases, length,
}
use file_system_spike.Base.Int.{ℤ, pos, negsuc, pos_part}
use file_system_spike.Base.Text.{codes, decimal, digits_before, Digits, decimal-Digits, is_white}
use file_system_spike.Files.RangeParser.{
  RangeInfo, digits_value, parse_int, after_prefix, includes_char, before_dash, after_dash, bounds,
  checked, parse_spec, skip_white, skip_plus, parse_digits, both_bounds, parse_range_header,
}

-- The bytes from `start` to `end` lie in the file.
pub record InFile (file_size : ℕ) (r : RangeInfo) : Type 0 where
  pub last : ℕ
  pub is_last : r.end ≡ pos last
  pub ordered : r.start ≤ last
  pub inside : last < file_size

checked_pair-InFile :
    (file_size a : ℕ) (z : ℤ) {r : RangeInfo}
    → checked file_size (some (record { start = a; end = z })) ≡ some r
    → InFile file_size r
unfolding checked
checked_pair-InFile n a (negsuc b) e = absurd (ground arith)
checked_pair-InFile n a (pos b) {r} e = record {
  last = pos_part r.end;
  is_last = ground arith;
  ordered = ground arith;
  inside = ground arith;
}

checked-InFile :
    (file_size : ℕ) (o : Option RangeInfo) {r : RangeInfo}
    → checked file_size o ≡ some r
    → InFile file_size r
unfolding checked
checked-InFile n none e = cc
checked-InFile n (some q) e = checked_pair-InFile n q.start q.end e

parse_spec-InFile :
    (file_size : ℕ) (o : Option (List ℕ)) {r : RangeInfo}
    → parse_spec file_size o ≡ some r
    → InFile file_size r
unfolding parse_spec
parse_spec-InFile n none e = cc
parse_spec-InFile n (some s) e = elim (Bool-cases (includes_char b',' s)) [
  | inl many ↦ cc (e, many)
  | inr one ↦ checked-InFile n (bounds n (before_dash s) (after_dash s)) (rw one at e)
]

-- A range that is given lies in the file: its end is a byte of the file, its start not behind its end.
pub parse_range_header-InFile :
    (header : Option (List ℕ)) (file_size : ℕ) {r : RangeInfo}
    → parse_range_header header file_size ≡ some r
    → InFile file_size r
unfolding parse_range_header
parse_range_header-InFile none n e = cc
parse_range_header-InFile (some h) n e = parse_spec-InFile n (after_prefix (codes "bytes=") h) e

digits_value-before :
    (fuel n : ℕ) (acc : List ℕ)
    → n < fuel
    → digits_value 0 (digits_before fuel n acc) ≡ digits_value n acc
unfolding digits_value digits_before
digits_value-before zero n acc h = omega (arith, h)
digits_value-before (suc fuel) n acc h =
    let next = digits_value-before fuel (n / 10) ((48 + n % 10) ∷ acc) in
    elim (Bool-cases (ltb n 10)) [
      | inl small ↦
          let same : 0 * 10 + (48 + n - 48) ≡ n = omega arith in rw small (ground (arith, same))
      | inr big ↦
          let same : n / 10 * 10 + (48 + n % 10 - 48) ≡ n = omega arith in
          rw (big, next (ground arith)) (ground (arith, same))
    ]

-- A text of digits has no other character in it.
Digits-skip : (s : List ℕ) → Digits s → includes_char b',' s ≡ false
unfolding includes_char
Digits-skip [] d = refl
Digits-skip (c ∷ s) d = ground (arith, Digits-skip s d.2)

before_dash-Digits : (s t : List ℕ) → Digits s → before_dash (s ++ b'-' ∷ t) ≡ s
unfolding before_dash
before_dash-Digits [] t d = refl
before_dash-Digits (c ∷ s) t d = ground (arith, before_dash-Digits s t d.2)

before_dash-end : (s : List ℕ) → Digits s → before_dash s ≡ s
unfolding before_dash
before_dash-end [] d = refl
before_dash-end (c ∷ s) d = ground (arith, before_dash-end s d.2)

after_dash-Digits : (s t : List ℕ) → Digits s → after_dash (s ++ b'-' ∷ t) ≡ some (before_dash t)
unfolding after_dash
after_dash-Digits [] t d = refl
after_dash-Digits (c ∷ s) t d = ground (arith, after_dash-Digits s t d.2)

includes_char-append :
    (s t : List ℕ)
    → Digits s
    → includes_char b',' t ≡ false
    → includes_char b',' (s ++ b'-' ∷ t) ≡ false
unfolding includes_char
includes_char-append [] t d e = ground (arith, e)
includes_char-append (c ∷ s) t d e = ground (arith, includes_char-append s t d.2 e)

digits_before-length : (fuel n : ℕ) (acc : List ℕ) → length acc ≤ length (digits_before fuel n acc)
unfolding digits_before
digits_before-length zero n acc = omega arith
digits_before-length (suc fuel) n acc =
    ground (arith, digits_before-length fuel (n / 10) ((48 + n % 10) ∷ acc))

decimal-length : (n : ℕ) → 0 < length (decimal n)
unfolding decimal digits_before
decimal-length n = ground (arith, digits_before-length n (n / 10) ((48 + n % 10) ∷ []))

parse_int-Digits :
    (c : ℕ) (s : List ℕ) → Digits (c ∷ s) → parse_int (c ∷ s) ≡ some (digits_value 0 (c ∷ s))
unfolding parse_int skip_white skip_plus parse_digits is_white
parse_int-Digits c s d = ground arith

bounds-Digits :
    (file_size : ℕ) (s t : List ℕ)
    → Digits s
    → Digits t
    → 0 < length s
    → 0 < length t
    → bounds file_size s (some t)
      ≡ some (record { start = digits_value 0 s; end = pos (digits_value 0 t) })
unfolding bounds both_bounds
bounds-Digits n [] t d e h l = absurd (omega (arith, h))
bounds-Digits n (c ∷ s) [] d e h l = absurd (omega (arith, l))
bounds-Digits n (c ∷ s) (b ∷ t) d e h l = rw (parse_int-Digits c s d, parse_int-Digits b t e) refl

after_prefix-append : (p s : List ℕ) → after_prefix p (p ++ s) ≡ some s
unfolding after_prefix
after_prefix-append [] s = refl
after_prefix-append (c ∷ p) s = ground (arith, after_prefix-append p s)

digits_value-decimal : (n : ℕ) → digits_value 0 (decimal n) ≡ n
unfolding decimal digits_value
digits_value-decimal n = digits_value-before (suc n) n [] (omega arith)

checked_pair :
    (file_size a b : ℕ)
    → a ≤ b
    → a < file_size
    → checked file_size (some (record { start = a; end = pos b }))
      ≡ some (record { start = a; end = pos (min b (file_size - 1)) })
unfolding checked
checked_pair n a b h l = ground arith

-- The header `bytes=a-b` that a client writes for the bytes from `a` to `b` is read as that range, cut
-- off at the end of the file, for all numbers with `a` at most `b` and in the file.
parse_range_header-decimal :
    (a b file_size : ℕ)
    → a ≤ b
    → a < file_size
    → parse_range_header (some (codes "bytes=" ++ (decimal a ++ b'-' ∷ decimal b))) file_size
      ≡ some (record { start = a; end = pos (min b (file_size - 1)) })
unfolding parse_range_header parse_spec
parse_range_header-decimal a b n h l =
    let da = decimal-Digits a in
    let db = decimal-Digits b in
    rw
      (
        after_prefix-append (codes "bytes=") (decimal a ++ b'-' ∷ decimal b),
        includes_char-append (decimal a) (decimal b) da (Digits-skip (decimal b) db),
        before_dash-Digits (decimal a) (decimal b) da,
        after_dash-Digits (decimal a) (decimal b) da,
        before_dash-end (decimal b) db,
        bounds-Digits n (decimal a) (decimal b) da db (decimal-length a) (decimal-length b),
        digits_value-decimal a,
        digits_value-decimal b,
      )
      (checked_pair n a b h l)
