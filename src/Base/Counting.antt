-- ===== src/Base/Counting.antt =====
-- How often a text is in a list, and what a list without repetitions is.
use Prim.Native.Nat.{ℕ, ◌+◌, ◌<◌}
use mathlib.Core.Path.{◌≡◌, refl, ◌∙◌}
use mathlib.Core.Bool.{Bool, true, false}
use mathlib.Core.List.{List, [], ◌∷◌, ◌++◌}
use native.Mathlib.Omega.{arith}
use miry_data_collector.Base.Tests.{if◌then◌else◌}
use miry_data_collector.Base.Lists.{any, filter}
use miry_data_collector.Base.Sorting.{insert_by, sort_by}
use miry_data_collector.Base.Text.{Text, text_eq, text_eq_iff}

abbrev pub count : Text → List Text → ℕ
count s [] = 0
count s (t ∷ ts) = (if text_eq s t then 1 else 0) + count s ts

abbrev pub sum : List ℕ → ℕ
sum [] = 0
sum (x ∷ xs) = x + sum xs

-- `[x for xs in xss for x in xs]`
abbrev pub flatten {ℓ} : {A : Type ℓ} → List (List A) → List A
flatten [] = []
flatten (xs ∷ xss) = xs ++ flatten xss

-- `set(values)`, as a list without repetitions
abbrev pub dedupe : List Text → List Text
dedupe [] = []
dedupe (s ∷ ss) = let rest = dedupe ss in if any (text_eq s) ss then rest else s ∷ rest

pub count-append : (s : Text) (xs ys : List Text) → count s (xs ++ ys) ≡ count s xs + count s ys
count-append s [] ys = omega arith
count-append s (x ∷ xs) ys = omega (arith, count-append s xs ys)

pub count-any : (s : Text) (xs : List Text) → any (text_eq s) xs ≡ false → count s xs ≡ 0
count-any s [] h = refl
count-any s (x ∷ xs) h = ground (arith, count-any s xs)

pub count-any-true : (s : Text) (xs : List Text) → any (text_eq s) xs ≡ true → 0 < count s xs
count-any-true s [] h = cc
count-any-true s (x ∷ xs) h = ground (arith, count-any-true s xs)

pub count-dedupe :
    (s : Text) (xs : List Text) → count s (dedupe xs) ≡ (if any (text_eq s) xs then 1 else 0)
count-dedupe s [] = refl
count-dedupe s (x ∷ xs) = ground (arith, count-dedupe s xs, text_eq_iff s x, text_eq_iff x s)

pub count-filter :
    (s : Text) (p : Text → Bool) (xs : List Text)
    → count s (filter p xs) ≡ (if p s then count s xs else 0)
count-filter s p [] = ground arith
count-filter s p (x ∷ xs) = ground (arith, count-filter s p xs, text_eq_iff s x)

module _ (le : Text → Text → Bool) (s : Text) where
  count-insert_by : (x : Text) (xs : List Text) → count s (insert_by le x xs) ≡ count s (x ∷ xs)
  count-insert_by x [] = refl
  count-insert_by x (y ∷ ys) = ground (arith, count-insert_by x ys)

  pub count-sort_by : (xs : List Text) → count s (sort_by le xs) ≡ count s xs
  count-sort_by [] = refl
  count-sort_by (x ∷ xs) = count-insert_by x (sort_by le xs) ∙ omega (arith, count-sort_by xs)
