-- ===== src/Files/RangeParser.antt =====
-- src/common/utils/range-parser.ts. A header is a list of code points.
pub mod Bounds
use file_system_spike.Base.{
  ℕ, zero, suc, ◌+◌, ◌-◌, ◌*◌, Bool, true, false, not, ◌&&◌, Option, none, some, List, [], ◌∷◌,
  ◌++◌, ltb, leb, ◌==◌, if◌then◌else◌,
}
use file_system_spike.Base.Int.{ℤ, pos, sub_ℕ, ltb_ℤ}
use file_system_spike.Base.Text.{codes, decimal, is_white}

pub record RangeInfo : Type 0 where
  pub start : ℕ
  pub end : ℤ

abbrev pub is_digit : ℕ → Bool
is_digit c = leb b'0' c && leb c b'9'

unfoldable pub digits_value : ℕ → List ℕ → ℕ
digits_value a [] = a
digits_value a (c ∷ s) =
    let rest = digits_value (a * 10 + (c - b'0')) s in if is_digit c then rest else a

skip_white : List ℕ → List ℕ
skip_white [] = []
skip_white (c ∷ s) = let rest = skip_white s in if is_white c then rest else c ∷ s

skip_plus : List ℕ → List ℕ
skip_plus [] = []
skip_plus (c ∷ s) = if c == b'+' then s else c ∷ s

parse_digits : List ℕ → Option ℕ
parse_digits [] = none
parse_digits (c ∷ s) = if is_digit c then some (digits_value 0 (c ∷ s)) else none

-- `parseInt(s, 10)`, where `none` is `NaN`. The text has no minus sign: it is cut at them.
unfoldable pub parse_int : List ℕ → Option ℕ
unfolding skip_white skip_plus parse_digits
parse_int s = parse_digits (skip_plus (skip_white s))

-- `startsWith` and the `slice` after it.
unfoldable pub after_prefix : List ℕ → List ℕ → Option (List ℕ)
after_prefix [] s = some s
after_prefix (c ∷ p) [] = none
after_prefix (c ∷ p) (d ∷ s) = let rest = after_prefix p s in if c == d then rest else none

unfoldable pub includes_char : ℕ → List ℕ → Bool
includes_char c [] = false
includes_char c (d ∷ s) = if d == c then true else includes_char c s

-- The first two pieces of `split('-')`.
unfoldable pub before_dash : List ℕ → List ℕ
before_dash [] = []
before_dash (c ∷ s) = if c == b'-' then [] else c ∷ before_dash s

unfoldable pub after_dash : List ℕ → Option (List ℕ)
unfolding before_dash
after_dash [] = none
after_dash (c ∷ s) = let rest = after_dash s in if c == b'-' then some (before_dash s) else rest

abbrev pub last_byte : ℕ → ℤ
last_byte file_size = sub_ℕ file_size 1

suffix_bounds : ℕ → Option ℕ → Option RangeInfo
suffix_bounds file_size none = none
suffix_bounds file_size (some zero) = none
suffix_bounds file_size (some (suc n)) =
    some (record { start = file_size - suc n; end = last_byte file_size })

open_bounds : ℕ → Option ℕ → Option RangeInfo
open_bounds file_size none = none
open_bounds file_size (some a) = some (record { start = a; end = last_byte file_size })

both_bounds : Option ℕ → Option ℕ → Option RangeInfo
both_bounds (some a) (some b) = some (record { start = a; end = pos b })
both_bounds _ _ = none

-- The branches on the two texts; `parseInt(undefined)` is `NaN`.
unfoldable pub bounds : ℕ → List ℕ → Option (List ℕ) → Option RangeInfo
unfolding suffix_bounds open_bounds both_bounds
bounds file_size [] none = none
bounds file_size [] (some []) = none
bounds file_size [] (some (c ∷ s)) = suffix_bounds file_size (parse_int (c ∷ s))
bounds file_size (c ∷ s) none = none
bounds file_size (c ∷ s) (some []) = open_bounds file_size (parse_int (c ∷ s))
bounds file_size (c ∷ s) (some (d ∷ t)) = both_bounds (parse_int (c ∷ s)) (parse_int (d ∷ t))

unfoldable pub checked : ℕ → Option RangeInfo → Option RangeInfo
checked file_size none = none
checked file_size (some r) =
    if ltb_ℤ r.end (pos r.start)
    then none
    else if leb file_size r.start
    then none
    else if not (ltb_ℤ r.end (pos file_size))
    then some (record r { end = last_byte file_size })
    else some r

parse_spec : ℕ → Option (List ℕ) → Option RangeInfo
parse_spec file_size none = none
parse_spec file_size (some spec) =
    if includes_char b',' spec
    then none
    else checked file_size (bounds file_size (before_dash spec) (after_dash spec))

unfoldable pub parse_range_header : Option (List ℕ) → ℕ → Option RangeInfo
unfolding parse_spec
parse_range_header none file_size = none
parse_range_header (some header) file_size =
    parse_spec file_size (after_prefix (codes "bytes=") header)

unfoldable pub is_range_request : Option (List ℕ) → Bool
is_range_request none = false
is_range_request (some header) = elim (after_prefix (codes "bytes=") header) [
  | none ↦ false
  | some s ↦ true
]
