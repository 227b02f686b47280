-- ===== src/Prelude/Lists.antt =====
-- Lists measured by native numbers, Boolean quantifiers and folds that run in tests.
use Prim.Native.Nat.{ℕ, suc, ◌+◌}
use mathlib.Core.Path.{◌≡◌, refl}
use mathlib.Core.Bool.{Bool, true, false, ◌&&◌, ◌||◌}
use mathlib.Core.List.{List, [], ◌∷◌, ◌++◌}
use native.Mathlib.Omega.{arith}
use finsport.Prelude.Tests.{◌==◌, if◌then◌else◌}

module _ {ℓ} {A : Type ℓ} where
  abbrev pub length : List A → ℕ
  length [] = 0
  length (x ∷ xs) = suc (length xs)

  -- `all(test(x) for x in xs)`
  abbrev pub all : (A → Bool) → List A → Bool
  all test [] = true
  all test (x ∷ xs) = test x && all test xs

  -- `any(test(x) for x in xs)`
  abbrev pub any : (A → Bool) → List A → Bool
  any test [] = false
  any test (x ∷ xs) = test x || any test xs

  -- `[x for x in xs if test(x)]`
  abbrev pub keep : (A → Bool) → List A → List A
  keep test [] = []
  keep test (x ∷ xs) = let rest = keep test xs in if test x then x ∷ rest else rest

  -- `sum(test(x) for x in xs)`
  abbrev pub count_if : (A → Bool) → List A → ℕ
  count_if test [] = 0
  count_if test (x ∷ xs) = (if test x then 1 else 0) + count_if test xs

  -- An item joins the first group when it has its key.
  abbrev pub join_group : (A → ℕ) → A → List (ℕ × List A) → List (ℕ × List A)
  join_group key x [] = (key x, x ∷ []) ∷ []
  join_group key x ((k, xs) ∷ rest) =
      if key x == k then (k, x ∷ xs) ∷ rest else (key x, x ∷ []) ∷ (k, xs) ∷ rest

  -- `itertools.groupby(xs, key=key)`: the runs of equal consecutive keys.
  abbrev pub groupby : (A → ℕ) → List A → List (ℕ × List A)
  groupby key [] = []
  groupby key (x ∷ xs) = join_group key x (groupby key xs)

  pub length-append : (xs ys : List A) → length (xs ++ ys) ≡ length xs + length ys
  length-append [] ys = omega arith
  length-append (x ∷ xs) ys = omega (arith, length-append xs ys)

  pub length-keep : (test : A → Bool) (xs : List A) → length (keep test xs) ≡ count_if test xs
  length-keep test [] = refl
  length-keep test (x ∷ xs) = ground (arith, length-keep test xs)

module _ {ℓ κ} {A : Type ℓ} where
  -- Every element satisfies the predicate; a conjunction that the tactics take apart.
  abbrev pub All : (A → Type κ) → List A → Type κ
  All P [] = Unit
  All P (x ∷ xs) = P x × All P xs

  pub All-append : (P : A → Type κ) (xs ys : List A) → All P xs → All P ys → All P (xs ++ ys)
  All-append P [] ys h k = k
  All-append P (x ∷ xs) ys h k = (h.0, All-append P xs ys h.1 k)

  pub All-weaken : {P Q : A → Type κ} (xs : List A) → ((x : A) → P x → Q x) → All P xs → All Q xs
  All-weaken [] f h = tt
  All-weaken (x ∷ xs) f h = (f x h.0, All-weaken xs f h.1)
