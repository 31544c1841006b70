-- ===== src/Universe/Ranking.antt =====
-- The ranks of a metric, src/miry/universe/ranking.py. The values of a metric are decimals, of which
-- the source uses the order; it is a parameter.
use miry_data_collector.Base.{
  ℕ, suc, max, Bool, true, false, not, ◌&&◌, ◌||◌, Option, none, some, List, [], ◌∷◌, if◌then◌else◌,
  ltb, ◌==◌, map, ◌≡◌, ◌⊎◌,
}
use miry_data_collector.Base.Sorting.{sort_by}
use miry_data_collector.Base.Text.{Text, text_leb}
use miry_data_collector.Base.Counting.{sum}
use miry_data_collector.Base.Dict.{Dict, lookup, insert}
pub mod Better
pub mod Competition
mod Examples

-- The order of the decimals.
pub record Order : Type 1 where
  pub Decimal : Type 0
  pub le : Decimal → Decimal → Bool
  pub total : (x y : Decimal) → (le x y ≡ true) ⊎ (le y x ≡ true)
  pub trans : (x y z : Decimal) → le x y ≡ true → le y z ≡ true → le x z ≡ true

module _ (O : Order) where
  -- Whether a value comes no later than another.
  abbrev pub no_later : Bool → O.Decimal → O.Decimal → Bool
  no_later descending v w = if descending then O.le w v else O.le v w

  -- The order of the keys, the value before the symbol.
  abbrev pub item_leb : Bool → Text × O.Decimal → Text × O.Decimal → Bool
  item_leb descending a b =
      not (no_later descending b.1 a.1) || (no_later descending a.1 b.1 && text_leb a.0 b.0)

  -- `previous is None or value != previous`
  abbrev pub is_new : Bool → Option O.Decimal → O.Decimal → Bool
  is_new descending none value = true
  is_new descending (some previous) value =
      not (no_later descending value previous && no_later descending previous value)

  -- The loop of `_metric_ranks`, with the position, the previous value and the rank.
  unfoldable pub number :
      Bool → ℕ → Option O.Decimal → ℕ → List (Text × O.Decimal) → List (Text × ℕ)
  number descending position previous rank [] = []
  number descending position previous rank ((symbol, value) ∷ items) =
      let new = number descending (suc position) (some value) position items in
      let same = number descending (suc position) previous rank items in
      if is_new descending previous value then (symbol, position) ∷ new else (symbol, rank) ∷ same

  -- `_metric_ranks`; the symbols of the values are distinct
  unfoldable pub metric_ranks : Bool → List (Text × O.Decimal) → List (Text × ℕ)
  metric_ranks descending values = number descending 1 none 0 (sort_by (item_leb descending) values)

-- The order of tuples of equal length.
abbrev pub tuple_leb : List ℕ → List ℕ → Bool
tuple_leb [] ys = true
tuple_leb (x ∷ xs) [] = false
tuple_leb (x ∷ xs) (y ∷ ys) = ltb x y || ((x == y) && tuple_leb xs ys)

abbrev pub tuple_eq : List ℕ → List ℕ → Bool
tuple_eq [] [] = true
tuple_eq (x ∷ xs) (y ∷ ys) = (x == y) && tuple_eq xs ys
tuple_eq _ _ = false

abbrev pub maximum_rank : List ℕ → ℕ
maximum_rank [] = 0
maximum_rank (x ∷ xs) = max x (maximum_rank xs)

-- The order of the keys of `_aggregate_key`.
abbrev pub aggregate_leb : List ℕ × Text → List ℕ × Text → Bool
aggregate_leb a b =
    ltb (maximum_rank a.0) (maximum_rank b.0)
    || ((maximum_rank a.0 == maximum_rank b.0)
        && (ltb (sum a.0) (sum b.0)
            || ((sum a.0 == sum b.0)
                && (if tuple_eq a.0 b.0 then text_leb a.1 b.1 else tuple_leb a.0 b.0))))

-- `ranks[symbol]`, for a symbol that has a rank
abbrev pub rank_or_zero : Option ℕ → ℕ
rank_or_zero none = 0
rank_or_zero (some rank) = rank

module _ (O : Order) {Row : Type 0} (symbol : Row → Text) where
  -- `{symbol(row): value(row) for row in rows}`
  abbrev pub values_of : (Row → O.Decimal) → List Row → Dict O.Decimal → Dict O.Decimal
  values_of value [] d = d
  values_of value (row ∷ rows) d = values_of value rows (insert (symbol row) (value row) d)

  abbrev pub tables_of : List ((Row → O.Decimal) × Bool) → List Row → List (Dict ℕ)
  tables_of [] rows = []
  tables_of ((value, descending) ∷ metrics) rows =
      metric_ranks O descending (values_of value rows []) ∷ tables_of metrics rows

  abbrev pub ranks_in : List (Dict ℕ) → Row → List ℕ
  ranks_in tables row = map (λ table. rank_or_zero (lookup (symbol row) table)) tables

  -- `rank_cross_section`
  unfoldable pub rank_cross_section : List Row → List ((Row → O.Decimal) × Bool) → List Row
  rank_cross_section rows metrics =
      let tables = tables_of metrics rows in
      sort_by (λ a b. aggregate_leb (ranks_in tables a, symbol a) (ranks_in tables b, symbol b))
        rows
