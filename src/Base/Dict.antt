-- ===== src/Base/Dict.antt =====
-- Maps with text keys, as association lists in insertion order, and lists of distinct texts.
use Prim.Native.Nat.{ℕ, zero, suc, ◌+◌, ◌≤◌}
use Prim.Native.String.{String}
use mathlib.Core.Path.{◌≡◌, refl, sym, ◌∙◌}
use mathlib.Core.Logic.{◌≢◌, ◌⊎◌, inl, inr}
use mathlib.Core.Bool.{Bool, true, false}
use mathlib.Core.Option.{Option, none, some}
use mathlib.Core.List.{List, [], ◌∷◌, ◌++◌}
use native.Mathlib.Omega.{arith}
use text.Mathlib.Text.{◌==◌ as str_eq}
use text.Mathlib.TextEquality.{eq_iff as str_eq_iff}
use file_system_spike.Base.Tests.{if◌then◌else◌, some_inj, Bool-cases}
use file_system_spike.Base.Lists.{length}

module _ {ℓ} {V : Type ℓ} where
  unfoldable pub lookup : String → List (String × V) → Option V
  lookup k [] = none
  lookup k ((j, v) ∷ m) = if str_eq j k then some v else lookup k m

  -- `Map.prototype.set`: an old key keeps its place, a new one goes to the end.
  unfoldable pub set : String → V → List (String × V) → List (String × V)
  set k v [] = (k, v) ∷ []
  set k v ((j, w) ∷ m) = if str_eq j k then (k, v) ∷ m else (j, w) ∷ set k v m

  -- `Map.prototype.delete`.
  unfoldable pub delete : String → List (String × V) → List (String × V)
  delete k [] = []
  delete k ((j, w) ∷ m) = if str_eq j k then delete k m else (j, w) ∷ delete k m

  pub lookup-set :
      (k j : String) (v : V) (m : List (String × V))
      → lookup j (set k v m) ≡ (if str_eq k j then some v else lookup j m)
  unfolding lookup set
  lookup-set k j v [] = refl
  lookup-set k j v ((i, w) ∷ m) =
      ground (arith, str_eq_iff k j, str_eq_iff i k, str_eq_iff i j, lookup-set k j v m)

  pub lookup-delete :
      (k j : String) (m : List (String × V))
      → lookup j (delete k m) ≡ (if str_eq k j then none else lookup j m)
  unfolding lookup delete
  lookup-delete k j [] = ground arith
  lookup-delete k j ((i, w) ∷ m) =
      ground (arith, str_eq_iff k j, str_eq_iff i k, str_eq_iff i j, lookup-delete k j m)

  pub lookup-set_own :
      (k j : String) (v : V) (m : List (String × V)) → k ≡ j → lookup j (set k v m) ≡ some v
  lookup-set_own k j v m e = ground (arith, lookup-set k j v m, str_eq_iff k j, e)

  -- A row after `set` is the new one or one that was there before.
  pub lookup_of_set :
      (k j : String) (v w : V) (m : List (String × V))
      → lookup j (set k v m) ≡ some w
      → ((k ≡ j) × (v ≡ w)) ⊎ ((k ≢ j) × (lookup j m ≡ some w))
  lookup_of_set k j v w m h =
      let row = sym (lookup-set k j v m) ∙ h in
      elim (Bool-cases (str_eq k j)) [
        | inl same ↦ inl ((str_eq_iff k j).0 same, some_inj (rw same at row))
        | inr apart ↦ inr (λ e. absurd (ground (arith, apart, str_eq_iff k j, e)), rw apart at row)
      ]

-- `includes`, and the `indexOf` and `splice` that take one occurrence out.
unfoldable pub has : List String → String → Bool
has [] k = false
has (x ∷ xs) k = if str_eq x k then true else has xs k

unfoldable pub remove : String → List String → List String
remove k [] = []
remove k (x ∷ xs) = if str_eq x k then xs else x ∷ remove k xs

-- `indexOf`, counted from 1, or 0 where the text is not there.
unfoldable pub position : String → List String → ℕ
position k [] = 0
position k (x ∷ xs) =
    let rest = position k xs in
    if str_eq x k then 1 else elim rest [ zero ↦ 0 | suc n ↦ suc (suc n) ]

abbrev pub Distinct : List String → Type 0
Distinct [] = Unit {0}
Distinct (x ∷ xs) = (has xs x ≡ false) × Distinct xs

pub has-append :
    (xs : List String) (a k : String)
    → has (xs ++ a ∷ []) k ≡ (if str_eq a k then true else has xs k)
unfolding has
has-append [] a k = refl
has-append (x ∷ xs) a k = ground (arith, has-append xs a k)

pub Distinct-append :
    (xs : List String) (a : String) → Distinct xs → has xs a ≡ false → Distinct (xs ++ a ∷ [])
unfolding has
Distinct-append [] a d h = (refl, tt)
Distinct-append (x ∷ xs) a d h =
    ground (arith, has-append xs a x, str_eq_iff a x, str_eq_iff x a, Distinct-append xs a)

pub has-remove :
    (xs : List String) (a k : String)
    → Distinct xs
    → has (remove a xs) k ≡ (if str_eq a k then false else has xs k)
unfolding has remove
has-remove [] a k d = ground arith
has-remove (x ∷ xs) a k d =
    ground (arith, str_eq_iff a k, str_eq_iff x a, str_eq_iff x k, has-remove xs a k)

pub Distinct-remove : (xs : List String) (a : String) → Distinct xs → Distinct (remove a xs)
unfolding remove
Distinct-remove [] a d = tt
Distinct-remove (x ∷ xs) a d = ground (arith, has-remove xs a x, Distinct-remove xs a)

pub length-remove :
    (xs : List String) (a : String)
    → (length (remove a xs) ≤ length xs) × (length xs ≤ length (remove a xs) + 1)
unfolding remove
length-remove [] a = (omega arith, omega arith)
length-remove (x ∷ xs) a = ground (arith, length-remove xs a)

-- The keys of an association list, each of which has one entry.
module _ {ℓ} {V : Type ℓ} where
  abbrev pub DistinctKeys : List (String × V) → Type ℓ
  DistinctKeys [] = Unit
  DistinctKeys ((k, v) ∷ m) = (lookup k m ≡ none) × DistinctKeys m

  pub DistinctKeys-set :
      (k : String) (v : V) (m : List (String × V)) → DistinctKeys m → DistinctKeys (set k v m)
  unfolding set lookup
  DistinctKeys-set k v [] h = (refl, tt)
  DistinctKeys-set k v ((j, w) ∷ m) h =
      ground (arith, str_eq_iff j k, str_eq_iff k j, lookup-set k j v m, DistinctKeys-set k v m h.1)
