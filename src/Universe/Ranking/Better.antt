-- ===== src/Universe/Ranking/Better.antt =====
-- How many values are better than one, src/miry/universe/ranking.py.
use miry_data_collector.Base.{
  ℕ, ◌+◌, ◌≡◌, ◌⊎◌, refl, ◌∙◌, Bool, true, false, List, [], ◌∷◌, ◌++◌, if◌then◌else◌, All, length,
  arith,
}
use miry_data_collector.Base.Sorting.{sort_by, insert_by}
use miry_data_collector.Base.Text.{Text, text_leb_total, text_leb_trans}
use miry_data_collector.Universe.Ranking.{Order, no_later, item_leb}

module _ (O : Order) (descending : Bool) where
  -- How many values come strictly before `v`.
  abbrev pub better : O.Decimal → List (Text × O.Decimal) → ℕ
  better v [] = 0
  better v (i ∷ items) = (if no_later O descending v i.1 then 0 else 1) + better v items

  pub no_later_total :
      (v w : O.Decimal) → (no_later O descending v w ≡ true) ⊎ (no_later O descending w v ≡ true)
  no_later_total v w = by_direction descending
    where
      by_direction : (d : Bool) → (no_later O d v w ≡ true) ⊎ (no_later O d w v ≡ true)
      by_direction true = O.total w v
      by_direction false = O.total v w

  pub no_later_trans :
      (u v w : O.Decimal)
      → no_later O descending u v ≡ true
      → no_later O descending v w ≡ true
      → no_later O descending u w ≡ true
  no_later_trans u v w = by_direction descending
    where
      by_direction :
          (d : Bool) → no_later O d u v ≡ true → no_later O d v w ≡ true → no_later O d u w ≡ true
      by_direction true h k = O.trans w v u k h
      by_direction false h k = O.trans u v w h k

  pub item_leb_total :
      (a b : Text × O.Decimal)
      → (item_leb O descending a b ≡ true) ⊎ (item_leb O descending b a ≡ true)
  item_leb_total a b = ground (arith, no_later_total a.1 b.1, text_leb_total a.0 b.0)

  pub item_leb_trans :
      (a b c : Text × O.Decimal)
      → item_leb O descending a b ≡ true
      → item_leb O descending b c ≡ true
      → item_leb O descending a c ≡ true
  item_leb_trans a b c h k = ground (
    arith,
    no_later_total a.1 b.1,
    no_later_total b.1 c.1,
    no_later_total a.1 c.1,
    no_later_trans a.1 b.1 c.1,
    no_later_trans c.1 a.1 b.1,
    no_later_trans b.1 c.1 a.1,
    no_later_trans c.1 b.1 a.1,
    text_leb_trans a.0 b.0 c.0,
  )

  pub better-append :
      (v : O.Decimal) (xs ys : List (Text × O.Decimal))
      → better v (xs ++ ys) ≡ better v xs + better v ys
  better-append v [] ys = omega arith
  better-append v (x ∷ xs) ys = omega (arith, better-append v xs ys)

  better-insert_by :
      (v : O.Decimal) (i : Text × O.Decimal) (xs : List (Text × O.Decimal))
      → better v (insert_by (item_leb O descending) i xs) ≡ better v (i ∷ xs)
  better-insert_by v i [] = refl
  better-insert_by v i (x ∷ xs) = ground (arith, better-insert_by v i xs)

  pub better-sort_by :
      (v : O.Decimal) (xs : List (Text × O.Decimal))
      → better v (sort_by (item_leb O descending) xs) ≡ better v xs
  better-sort_by v [] = refl
  better-sort_by v (x ∷ xs) =
      better-insert_by v x (sort_by (item_leb O descending) xs) ∙ omega (arith, better-sort_by v xs)

  -- Nothing in a sorted list is better than its first value.
  pub better-sorted :
      (i : Text × O.Decimal) (xs : List (Text × O.Decimal))
      → All (λ x. item_leb O descending i x ≡ true) xs
      → better i.1 (i ∷ xs) ≡ 0
  better-sorted i [] h = ground (arith, no_later_total i.1 i.1)
  better-sorted i (x ∷ xs) (p, rest) =
      ground (arith, p, better-sorted i xs rest, no_later_total i.1 x.1)

  pub all_better :
      (p v : O.Decimal) (xs : List (Text × O.Decimal))
      → All (λ x. no_later O descending x.1 p ≡ true) xs
      → no_later O descending v p ≡ false
      → better v xs ≡ length xs
  all_better p v [] h k = refl
  all_better p v (x ∷ xs) (q, rest) k =
      ground (arith, q, k, all_better p v xs rest, no_later_trans v x.1 p)

  pub same_better :
      (p v : O.Decimal) (xs : List (Text × O.Decimal))
      → no_later O descending v p ≡ true
      → no_later O descending p v ≡ true
      → better v xs ≡ better p xs
  same_better p v [] h k = refl
  same_better p v (x ∷ xs) h k =
      ground (arith, h, k, same_better p v xs, no_later_trans v p x.1, no_later_trans p v x.1)
