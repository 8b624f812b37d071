-- ===== src/Base/Lists.antt =====
-- Lists measured by native numbers, and predicates on lists by recursion.
use Prim.Native.Nat.{ℕ, zero, suc, ◌+◌, ◌≤◌}
use mathlib.Core.Path.{◌≡◌, refl, ap}
use mathlib.Core.Bool.{Bool, true, false}
use mathlib.Core.Option.{Option, none, some}
use mathlib.Core.Logic.{◌≢◌, ◌⊎◌, inl, inr}
use mathlib.Core.List.{List, [], ◌∷◌, ◌++◌}
use native.Mathlib.Omega.{arith}

module _ {ℓ} {A : Type ℓ} where
  abbrev pub length : List A → ℕ
  length [] = 0
  length (x ∷ xs) = suc (length xs)

  pub length-append : (xs ys : List A) → length (xs ++ ys) ≡ length xs + length ys
  length-append [] ys = omega arith
  length-append (x ∷ xs) ys = omega (arith, length-append xs ys)

module _ {ℓ κ} {A : Type ℓ} (P : A → Type κ) where
  abbrev pub All : List A → Type κ
  All [] = Unit
  All (x ∷ xs) = P x × All xs

pub All-map {ℓ κ μ} :
    {A : Type ℓ} (P : A → Type κ) (Q : A → Type μ) (xs : List A)
    → ((x : A) → P x → Q x)
    → All P xs
    → All Q xs
All-map P Q [] f h = tt
All-map P Q (x ∷ xs) f h = (f x h.0, All-map P Q xs f h.1)

abbrev pub one_if : Bool → ℕ
one_if true = 1
one_if false = 0

module _ {ℓ} {A : Type ℓ} where
  abbrev pub get_elem? : List A → ℕ → Option A
  get_elem? [] i = none
  get_elem? (x ∷ xs) zero = some x
  get_elem? (x ∷ xs) (suc i) = get_elem? xs i

  -- A write out of bounds changes nothing.
  abbrev pub set : List A → ℕ → A → List A
  set [] i v = []
  set (x ∷ xs) zero v = v ∷ xs
  set (x ∷ xs) (suc i) v = x ∷ set xs i v

  -- The number of the elements that pass a test.
  unfoldable pub count : (A → Bool) → List A → ℕ
  count p [] = 0
  count p (x ∷ xs) = one_if (p x) + count p xs

  pub count-set :
      (p : A → Bool) (xs : List A) (i : ℕ) (x v : A)
      → get_elem? xs i ≡ some x
      → count p (set xs i v) + one_if (p x) ≡ count p xs + one_if (p v)
  unfolding count
  count-set p [] i x v h = ground arith
  count-set p (y ∷ xs) zero x v h = ground arith
  count-set p (y ∷ xs) (suc i) x v h = ground (arith, count-set p xs i x v)

  pub count-append_one :
      (p : A → Bool) (xs : List A) (x : A) → count p (xs ++ x ∷ []) ≡ count p xs + one_if (p x)
  unfolding count
  count-append_one p [] x = omega arith
  count-append_one p (y ∷ xs) x = omega (arith, count-append_one p xs x)

  pub get_elem?-set :
      (xs : List A) (i j : ℕ) (v y : A)
      → get_elem? (set xs i v) j ≡ some y
      → ((y ≡ v) × (i ≡ j)) ⊎ (get_elem? xs j ≡ some y)
  get_elem?-set [] i j v y h = inr h
  get_elem?-set (x ∷ xs) zero zero v y h = inl (ground arith, refl)
  get_elem?-set (x ∷ xs) zero (suc j) v y h = inr h
  get_elem?-set (x ∷ xs) (suc i) zero v y h = inr h
  get_elem?-set (x ∷ xs) (suc i) (suc j) v y h = ground (arith, get_elem?-set xs i j v y h)

  pub get_elem?-append :
      (xs : List A) (x y : A) (j : ℕ)
      → get_elem? (xs ++ x ∷ []) j ≡ some y
      → (y ≡ x) ⊎ (get_elem? xs j ≡ some y)
  get_elem?-append [] x y zero h = inl (ground arith)
  get_elem?-append [] x y (suc j) h = inr h
  get_elem?-append (z ∷ xs) x y zero h = inr h
  get_elem?-append (z ∷ xs) x y (suc j) h = get_elem?-append xs x y j h

  pub count-get :
      (p : A → Bool) (xs : List A) (i : ℕ) (x : A)
      → get_elem? xs i ≡ some x
      → p x ≡ true
      → 1 ≤ count p xs
  unfolding count
  count-get p [] i x h t = cc
  count-get p (y ∷ xs) zero x h t = ground arith
  count-get p (y ∷ xs) (suc i) x h t = ground (arith, count-get p xs i x h t)

  pub count-get_two :
      (p : A → Bool) (xs : List A) (i j : ℕ) (x y : A)
      → get_elem? xs i ≡ some x
      → get_elem? xs j ≡ some y
      → i ≢ j
      → p x ≡ true
      → p y ≡ true
      → 2 ≤ count p xs
  unfolding count
  count-get_two p [] i j x y h g n t s = cc
  count-get_two p (z ∷ xs) zero zero x y h g n t s = absurd (n refl)
  count-get_two p (z ∷ xs) zero (suc j) x y h g n t s = ground (arith, count-get p xs j y g s)
  count-get_two p (z ∷ xs) (suc i) zero x y h g n t s = ground (arith, count-get p xs i x h t)
  count-get_two p (z ∷ xs) (suc i) (suc j) x y h g n t s =
      ground (arith, count-get_two p xs i j x y h g (λ e. n (ap suc e)) t s)

  pub All-of_get {κ} :
      (P : A → Type κ) (xs : List A) → ((i : ℕ) (x : A) → get_elem? xs i ≡ some x → P x) → All P xs
  All-of_get P [] h = tt
  All-of_get P (x ∷ xs) h = (h 0 x refl, All-of_get P xs (λ i y e. h (suc i) y e))
