-- ===== src/Base/Sorting.antt =====
-- The language's stable sort, as an insertion sort by a test `le`, and what its callers rely on.
use Prim.Native.Nat.{suc}
use mathlib.Core.Path.{◌≡◌, refl, ap, ◌∙◌, sym, subst}
use mathlib.Core.Bool.{Bool, true, false, ◌||◌}
use mathlib.Core.Logic.{◌⊎◌, inl, inr}
use mathlib.Core.List.{List, [], ◌∷◌}
use native.Mathlib.Omega.{arith}
use miry_data_collector.Base.Lists.{length, All, any, filter}
use miry_data_collector.Base.Tests.{Bool-cases}

module _ {ℓ} {A : Type ℓ} (le : A → A → Bool) where
  -- `x` goes before the first item that it may precede, so equal items keep their order.
  abbrev pub insert_by : A → List A → List A
  insert_by x [] = x ∷ []
  insert_by x (y ∷ ys) = elim (le x y) [ true ↦ x ∷ y ∷ ys | false ↦ y ∷ insert_by x ys ]

  -- `sorted(xs, key=...)`, for the order `le` of the keys
  abbrev pub sort_by : List A → List A
  sort_by [] = []
  sort_by (x ∷ xs) = insert_by x (sort_by xs)

  pub length-insert_by : (x : A) (xs : List A) → length (insert_by x xs) ≡ suc (length xs)
  length-insert_by x [] = refl
  length-insert_by x (y ∷ ys) = ground (arith, length-insert_by x ys)

  pub length-sort_by : (xs : List A) → length (sort_by xs) ≡ length xs
  length-sort_by [] = refl
  length-sort_by (x ∷ xs) = length-insert_by x (sort_by xs) ∙ ap suc (length-sort_by xs)

  -- No item may be followed by one that `le` puts strictly before it.
  abbrev pub IsSorted : List A → Type 0
  IsSorted [] = Unit
  IsSorted (x ∷ xs) = All (λ y. le x y ≡ true) xs × IsSorted xs

module _ {ℓ κ} {A : Type ℓ} (le : A → A → Bool) (P : A → Type κ) where
  pub All-insert_by : (x : A) (xs : List A) → P x → All P xs → All P (insert_by le x xs)
  All-insert_by x [] p h = (p, tt)
  All-insert_by x (y ∷ ys) p h = ground (arith, All-insert_by x ys p h.1)

  pub All-sort_by : (xs : List A) → All P xs → All P (sort_by le xs)
  All-sort_by [] h = tt
  All-sort_by (x ∷ xs) h = All-insert_by x (sort_by le xs) h.0 (All-sort_by xs h.1)

module _ {ℓ} {A : Type ℓ} (le : A → A → Bool)
    (total : (x y : A) → (le x y ≡ true) ⊎ (le y x ≡ true))
    (trans : (x y z : A) → le x y ≡ true → le y z ≡ true → le x z ≡ true) where
  insert_by-IsSorted : (x : A) (xs : List A) → IsSorted le xs → IsSorted le (insert_by le x xs)
  insert_by-IsSorted x [] h = (tt, tt)
  insert_by-IsSorted x (y ∷ ys) h = elim (Bool-cases (le x y)) [
    | inl first ↦ subst (IsSorted le) (sym (insert_first first)) ((first, below ys h.0 first), h)
    | inr later ↦ subst (IsSorted le) (sym (insert_later later)) (
      All-insert_by le (λ z. le y z ≡ true) x ys (elim (total x y) [ inl p ↦ cc | inr p ↦ p ]) h.0,
      insert_by-IsSorted x ys h.1,
    )
  ]
    where
      insert_first : le x y ≡ true → insert_by le x (y ∷ ys) ≡ x ∷ y ∷ ys
      insert_first e = ground arith

      insert_later : le x y ≡ false → insert_by le x (y ∷ ys) ≡ y ∷ insert_by le x ys
      insert_later e = ground arith

      below :
          (zs : List A) → All (λ z. le y z ≡ true) zs → le x y ≡ true → All (λ z. le x z ≡ true) zs
      below [] k p = tt
      below (z ∷ zs) k p = (trans x y z p k.0, below zs k.1 p)

  -- The sort sorts, for the order of any keys.
  pub sort_by-IsSorted : (xs : List A) → IsSorted le (sort_by le xs)
  sort_by-IsSorted [] = tt
  sort_by-IsSorted (x ∷ xs) = insert_by-IsSorted x (sort_by le xs) (sort_by-IsSorted xs)

module _ {ℓ} {A : Type ℓ} (le : A → A → Bool) (p : A → Bool) where
  any-insert_by : (x : A) (xs : List A) → any p (insert_by le x xs) ≡ (p x || any p xs)
  any-insert_by x [] = refl
  any-insert_by x (y ∷ ys) = ground (arith, any-insert_by x ys)

  -- The sort keeps the items.
  pub any-sort_by : (xs : List A) → any p (sort_by le xs) ≡ any p xs
  any-sort_by [] = refl
  any-sort_by (x ∷ xs) = ground (arith, any-insert_by x (sort_by le xs), any-sort_by xs)

module _ {ℓ} {A : Type ℓ} (le : A → A → Bool) where
  insert_by-first : (x : A) (xs : List A) → All (λ y. le x y ≡ true) xs → insert_by le x xs ≡ x ∷ xs
  insert_by-first x [] h = refl
  insert_by-first x (y ∷ ys) h = ground (arith, h.0)

  -- What is in order stays as it is.
  pub sort_by-of_sorted : (xs : List A) → IsSorted le xs → sort_by le xs ≡ xs
  sort_by-of_sorted [] h = refl
  sort_by-of_sorted (x ∷ xs) h =
      ap (insert_by le x) (sort_by-of_sorted xs h.1) ∙ insert_by-first x xs h.0

  -- What holds of a list with its head and without it holds whether or not the test keeps the head.
  filter-cases :
      (Q : List A → Type 0) (p : A → Bool) (x : A) (xs : List A)
      → Q (x ∷ filter p xs)
      → Q (filter p xs)
      → Q (filter p (x ∷ xs))
  filter-cases Q p x xs keep drop =
      elim (p x) as (λ b. Q (elim b [ true ↦ x ∷ filter p xs | false ↦ filter p xs ])) [
        | true ↦ keep
        | false ↦ drop
      ]

  All-filter : (P : A → Type 0) (p : A → Bool) (xs : List A) → All P xs → All P (filter p xs)
  All-filter P p [] h = tt
  All-filter P p (x ∷ xs) h =
      let rest = All-filter P p xs h.1 in filter-cases (All P) p x xs (h.0, rest) rest

  pub filter-IsSorted : (p : A → Bool) (xs : List A) → IsSorted le xs → IsSorted le (filter p xs)
  filter-IsSorted p [] h = tt
  filter-IsSorted p (x ∷ xs) h =
      let rest = filter-IsSorted p xs h.1 in
      filter-cases (IsSorted le) p x xs (All-filter (λ y. le x y ≡ true) p xs h.0, rest) rest
