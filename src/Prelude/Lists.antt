-- ===== src/Prelude/Lists.antt =====
-- Lists with Boolean tests: the array methods that the source uses (`find`, `some`, `filter`,
-- `includes`, `length`), a predicate on all elements, and a stable insertion sort.
use Prim.Native.Nat.{ℕ, suc, ◌+◌, ◌≤◌}
use mathlib.Core.Path.{◌≡◌, refl}
use mathlib.Core.Bool.{Bool, true, false, ◌||◌}
use mathlib.Core.Option.{Option, none, some}
use mathlib.Core.List.{List, [], ◌∷◌, ◌++◌, map}
use native.Mathlib.Omega.{arith}
use ecommerce_orderflow.Prelude.Tests.{leb, if◌then◌else◌}

module _ {ℓ} {A : Type ℓ} where
  abbrev pub length : List A → ℕ
  length [] = 0
  length (x ∷ xs) = suc (length xs)

  -- `find` of an array: the first element that passes the test.
  abbrev pub find : (A → Bool) → List A → Option A
  find p [] = none
  find p (x ∷ xs) = if p x then some x else find p xs

  -- `some` of an array.
  abbrev pub any : (A → Bool) → List A → Bool
  any p [] = false
  any p (x ∷ xs) = p x || any p xs

  abbrev pub filter : (A → Bool) → List A → List A
  filter p [] = []
  filter p (x ∷ xs) = let rest = filter p xs in if p x then x ∷ rest else rest

  -- A predicate by recursion: it computes to tuples.
  abbrev pub All {κ} : (A → Type κ) → List A → Type κ
  All P [] = Unit
  All P (x ∷ xs) = P x × All P xs

  pub length-append : (xs ys : List A) → length (xs ++ ys) ≡ length xs + length ys
  length-append [] ys = omega arith
  length-append (x ∷ xs) ys = omega (arith, length-append xs ys)

  pub length-filter-le : (p : A → Bool) (xs : List A) → length (filter p xs) ≤ length xs
  length-filter-le p [] = omega arith
  length-filter-le p (x ∷ xs) = ground (arith, length-filter-le p xs)

  -- `order by`: insertion by a numeric key, stable.
  abbrev pub insert_by : (A → ℕ) → A → List A → List A
  insert_by key a [] = a ∷ []
  insert_by key a (x ∷ xs) =
      let rest = insert_by key a xs in if leb (key a) (key x) then a ∷ x ∷ xs else x ∷ rest

  abbrev pub sort_by : (A → ℕ) → List A → List A
  sort_by key [] = []
  sort_by key (x ∷ xs) = insert_by key x (sort_by key xs)

  abbrev pub sum_by : (A → ℕ) → List A → ℕ
  sum_by f [] = 0
  sum_by f (x ∷ xs) = f x + sum_by f xs

  pub sum_by-insert_by :
      (f key : A → ℕ) (a : A) (xs : List A) → sum_by f (insert_by key a xs) ≡ f a + sum_by f xs
  sum_by-insert_by f key a [] = refl
  sum_by-insert_by f key a (x ∷ xs) = ground (arith, sum_by-insert_by f key a xs)

  pub sum_by-sort_by : (f key : A → ℕ) (xs : List A) → sum_by f (sort_by key xs) ≡ sum_by f xs
  sum_by-sort_by f key [] = refl
  sum_by-sort_by f key (x ∷ xs) =
      omega (arith, sum_by-insert_by f key x (sort_by key xs), sum_by-sort_by f key xs)

  pub length-insert_by :
      (key : A → ℕ) (a : A) (xs : List A) → length (insert_by key a xs) ≡ suc (length xs)
  length-insert_by key a [] = refl
  length-insert_by key a (x ∷ xs) = ground (arith, length-insert_by key a xs)

  pub length-sort_by : (key : A → ℕ) (xs : List A) → length (sort_by key xs) ≡ length xs
  length-sort_by key [] = refl
  length-sort_by key (x ∷ xs) =
      omega (arith, length-insert_by key x (sort_by key xs), length-sort_by key xs)

  pub All-filter {κ} :
      (P : A → Type κ) (p : A → Bool) (xs : List A) → All P xs → All P (filter p xs)
  All-filter P p [] h = tt
  All-filter P p (x ∷ xs) h =
      elim (p x) as (λ b. All P (if b then x ∷ filter p xs else filter p xs)) [
        | true ↦ (h.0, All-filter P p xs h.1)
        | false ↦ All-filter P p xs h.1
      ]

  pub All-insert_by {κ} :
      (P : A → Type κ) (key : A → ℕ) (a : A) (xs : List A)
      → P a
      → All P xs
      → All P (insert_by key a xs)
  All-insert_by P key a [] pa h = (pa, tt)
  All-insert_by P key a (x ∷ xs) pa h =
      elim (leb (key a) (key x))
        as (λ b. All P (if b then a ∷ x ∷ xs else x ∷ insert_by key a xs)) [
          | true ↦ (pa, h)
          | false ↦ (h.0, All-insert_by P key a xs pa h.1)
        ]

  pub All-sort_by {κ} :
      (P : A → Type κ) (key : A → ℕ) (xs : List A) → All P xs → All P (sort_by key xs)
  All-sort_by P key [] h = tt
  All-sort_by P key (x ∷ xs) h =
      All-insert_by P key x (sort_by key xs) h.0 (All-sort_by P key xs h.1)

  pub All-map {κ μ} :
      (P : A → Type κ) (Q : A → Type μ) (f : (a : A) → P a → Q a) (xs : List A)
      → All P xs
      → All Q xs
  All-map P Q f [] h = tt
  All-map P Q f (x ∷ xs) h = (f x h.0, All-map P Q f xs h.1)

  -- An update of the elements that pass a test, which they still pass afterwards.
  pub find-map_if :
      (p : A → Bool) (f : A → A)
      → ((x : A) → p (f x) ≡ p x)
      → (xs : List A) (a : A) → find p xs ≡ some a
      → find p (map (λ x. if p x then f x else x) xs) ≡ some (f a)
  find-map_if p f h [] a e = cc
  find-map_if p f h (x ∷ xs) a e = ground (arith, h x, find-map_if p f h xs a, e)

  pub find-append :
      (p : A → Bool) (a : A) (xs : List A)
      → p a ≡ true
      → find p xs ≡ none
      → find p (xs ++ a ∷ []) ≡ some a
  find-append p a [] h e = ground (arith, h)
  find-append p a (x ∷ xs) h e = ground (arith, h, find-append p a xs h, e)
