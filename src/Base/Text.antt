-- ===== src/Base/Text.antt =====
-- Text as the list of its code points, and what JavaScript's `trim` takes for white space.
use Prim.Native.Nat.{Ordering, compare, ℕ, zero, suc, ◌+◌, ◌-◌, ◌/◌, ◌%◌, ◌≤◌}
use Prim.Native.Char.{Char, char, code, IsLt, IsScalar}
use Prim.Native.String.{String}
use mathlib.Core.Path.{◌≡◌, refl}
use mathlib.Core.Bool.{Bool, true, false, ◌&&◌, ◌||◌}
use mathlib.Core.Logic.{inl, inr}
use mathlib.Core.List.{List, [], ◌∷◌, ◌++◌}
use native.Mathlib.Omega.{arith}
use file_system_spike.Base.Tests.{ltb, leb, ◌==◌, if◌then◌else◌, Bool-cases}
use file_system_spike.Base.Lists.{length}

abbrev pub codes : String → List ℕ
codes String.[] = []
codes (String.◌∷◌ c s) = code c ∷ codes s

-- The white space and the line terminators of ECMAScript.
unfoldable pub is_white : ℕ → Bool
is_white c =
    (leb 9 c && leb c 13)
    || c == 32
    || c == 160
    || c == 5760
    || (leb 8192 c && leb c 8202)
    || c == 8232
    || c == 8233
    || c == 8239
    || c == 8287
    || c == 12288
    || c == 65279

-- `s.trim().length === 0`, which the empty text satisfies as well.
unfoldable pub is_blank : List ℕ → Bool
is_blank [] = true
is_blank (c ∷ s) = let rest = is_blank s in if is_white c then rest else false

-- `Number.prototype.toString` of a natural number; the fuel is the number and one more.
unfoldable pub digits_before : ℕ → ℕ → List ℕ → List ℕ
digits_before zero n acc = acc
digits_before (suc fuel) n acc =
    let rest = digits_before fuel (n / 10) ((48 + n % 10) ∷ acc) in
    if ltb n 10 then (48 + n) ∷ acc else rest

unfoldable pub decimal : ℕ → List ℕ
decimal n = digits_before (suc n) n []

-- `padStart` with zeros.
unfoldable pub zeros : ℕ → List ℕ
zeros zero = []
zeros (suc n) = 48 ∷ zeros n

unfoldable pub pad_start : ℕ → List ℕ → List ℕ
pad_start width s = zeros (width - length s) ++ s

-- Code points of digits.
abbrev pub Digits : List ℕ → Type 0
Digits [] = Unit {0}
Digits (c ∷ s) = (48 ≤ c) × (c ≤ 57) × Digits s

digits_before-Digits : (fuel n : ℕ) (acc : List ℕ) → Digits acc → Digits (digits_before fuel n acc)
unfolding digits_before
digits_before-Digits zero n acc d = d
digits_before-Digits (suc fuel) n acc d =
    let rest =
      digits_before-Digits fuel (n / 10) ((48 + n % 10) ∷ acc) (omega arith, omega arith, d) in
    elim (Bool-cases (ltb n 10)) [
      | inl small ↦ rw small (omega arith, ground arith, d)
      | inr big ↦ rw big rest
    ]

pub decimal-Digits : (n : ℕ) → Digits (decimal n)
unfolding decimal
decimal-Digits n = digits_before-Digits (suc n) n [] tt

pub Digits-append : (s t : List ℕ) → Digits s → Digits t → Digits (s ++ t)
Digits-append [] t d e = e
Digits-append (c ∷ s) t d e = (d.0, d.1, Digits-append s t d.2 e)

zeros-Digits : (n : ℕ) → Digits (zeros n)
unfolding zeros
zeros-Digits zero = tt
zeros-Digits (suc n) = (omega arith, omega arith, zeros-Digits n)

pub pad_start-Digits : (width : ℕ) (s : List ℕ) → Digits s → Digits (pad_start width s)
unfolding pad_start
pad_start-Digits width s d =
    Digits-append (zeros (width - length s)) s (zeros-Digits (width - length s)) d

-- `IsScalar`, by the three comparisons that it makes.
abbrev Between : Ordering → Ordering → Type 0
Between Ordering.lt p = IsLt p
Between Ordering.eq p = ⊥
Between Ordering.gt p = ⊥

abbrev Scalar : Ordering → Ordering → Ordering → Type 0
Scalar Ordering.lt o p = Unit
Scalar Ordering.eq o p = Between o p
Scalar Ordering.gt o p = Between o p

-- The texts of code points; a number that is no scalar value gives the replacement character.
abbrev pick_char : (n : ℕ) → (o p q : Ordering) → (Scalar o p q → IsScalar n) → Char
pick_char n Ordering.lt p q h = char n (h tt)
pick_char n Ordering.eq Ordering.lt Ordering.lt h = char n (h tt)
pick_char n Ordering.gt Ordering.lt Ordering.lt h = char n (h tt)
pick_char n _ _ _ h = char 65533 tt

unfoldable pub text_of : List ℕ → String
text_of [] = String.[]
text_of (n ∷ s) =
    String.◌∷◌ (pick_char n (compare n 55296) (compare 57343 n) (compare n 1114112) (λ h. h))
      (text_of s)

pick_char-Scalar :
    (n : ℕ) (o p q : Ordering) (h : Scalar o p q → IsScalar n) (s : Scalar o p q)
    → pick_char n o p q h ≡ char n (h s)
pick_char-Scalar n Ordering.lt p q h s = refl
pick_char-Scalar n Ordering.gt Ordering.lt Ordering.lt h s = refl
pick_char-Scalar n Ordering.gt Ordering.lt Ordering.eq h s = absurd s
pick_char-Scalar n Ordering.gt Ordering.lt Ordering.gt h s = absurd s
pick_char-Scalar n Ordering.gt Ordering.eq q h s = absurd s
pick_char-Scalar n Ordering.gt Ordering.gt q h s = absurd s
pick_char-Scalar n Ordering.eq Ordering.lt Ordering.lt h s = refl
pick_char-Scalar n Ordering.eq Ordering.lt Ordering.eq h s = absurd s
pick_char-Scalar n Ordering.eq Ordering.lt Ordering.gt h s = absurd s
pick_char-Scalar n Ordering.eq Ordering.eq q h s = absurd s
pick_char-Scalar n Ordering.eq Ordering.gt q h s = absurd s

-- A text is the text of its code points.
pub text_of-codes : (s : String) → text_of (codes s) ≡ s
unfolding text_of
text_of-codes String.[] = refl
text_of-codes (String.◌∷◌ (char n p) s) = rw (text_of-codes s) (
    rw (pick_char-Scalar n (compare n 55296) (compare 57343 n) (compare n 1114112) (λ h. h) p) refl)

-- `length` of a JavaScript text, which counts the code units of UTF-16.
unfoldable pub utf16_length : List ℕ → ℕ
utf16_length [] = 0
utf16_length (c ∷ s) = (if ltb c 65536 then 1 else 2) + utf16_length s
