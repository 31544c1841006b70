-- ===== src/Pipeline/Quality/Extension.antt =====
-- The extension of an invalid interval to the next valid one, src/miry/pipeline/quality.py.
use miry_data_collector.Base.{
  ℕ, ◌≤◌, ◌<◌, ◌≡◌, refl, true, false, ◌&&◌, ◌⊎◌, inl, inr, List, [], ◌∷◌, arith, ltb, leb, All,
  Bool-cases,
}
use miry_data_collector.Base.Sorting.{sort_by, IsSorted, sort_by-IsSorted, any-sort_by}
use miry_data_collector.Pipeline.Quality.Durations.{
  Interval, interval_leb, is_inside, next_start, extended_end, extend_each,
  extend_invalid_until_valid,
}
use miry_data_collector.Pipeline.Quality.Coverage.{
  interval_leb_total, interval_leb_trans, Starts-of_sorted, not_inside_below,
}

-- Between the end and the next start there is no valid point, unless the end itself is one.
next_start-clear :
    (end hi t : ℕ) (valid : List Interval)
    → IsSorted interval_leb valid
    → is_inside end valid ≡ false
    → end ≤ t
    → t < next_start end hi valid
    → is_inside t valid ≡ false
unfolding next_start
next_start-clear end hi t [] sorted out h l = refl
next_start-clear end hi t (i ∷ valid) sorted out h l = ground (
  arith,
  next_start-clear end hi t valid sorted.1,
  not_inside_below i.0 t valid (Starts-of_sorted i valid sorted.0),
)

next_start-le : (end hi : ℕ) (valid : List Interval) → end ≤ hi → end ≤ next_start end hi valid
unfolding next_start
next_start-le end hi [] h = h
next_start-le end hi (i ∷ valid) h = ground (arith, next_start-le end hi valid h)

module _ (hi : ℕ) (valid : List Interval) where
  extended_end-le : (end : ℕ) → end ≤ hi → end ≤ extended_end hi valid end
  extended_end-le end h = ground (arith, next_start-le end hi valid h)

  extended_end-clear :
      (end t : ℕ)
      → IsSorted interval_leb valid
      → end ≤ t
      → t < extended_end hi valid end
      → is_inside t valid ≡ false
  extended_end-clear end t sorted h l = elim (Bool-cases (is_inside end valid)) [
    | inl inside ↦ absurd (at_inside inside)
    | inr out ↦ next_start-clear end hi t valid sorted out h (ground arith)
  ]
    where
      at_inside : is_inside end valid ≡ true → ⊥
      at_inside e = ground arith

  extend_each-keeps :
      (t : ℕ) (xs : List Interval)
      → All (λ i. i.1 ≤ hi) xs
      → is_inside t xs ≡ true
      → is_inside t (extend_each hi valid xs) ≡ true
  unfolding extend_each
  extend_each-keeps t (i ∷ xs) h e =
      ground (arith, extended_end-le i.1 h.0, extend_each-keeps t xs h.1)
  extend_each-keeps t [] h e = cc

  extend_each-adds :
      (t : ℕ) (xs : List Interval)
      → IsSorted interval_leb valid
      → is_inside t (extend_each hi valid xs) ≡ true
      → (is_inside t xs ≡ true) ⊎ (is_inside t valid ≡ false)
  unfolding extend_each
  extend_each-adds t [] sorted e = cc
  extend_each-adds t (i ∷ xs) sorted e =
      ground (arith, extended_end-clear i.1 t sorted, extend_each-adds t xs sorted)

-- The extension keeps every invalid point, where the invalid intervals end by the window's end.
pub extend_invalid_until_valid-keeps :
    (hi t : ℕ) (valid xs : List Interval)
    → All (λ i. i.1 ≤ hi) xs
    → is_inside t xs ≡ true
    → is_inside t (extend_invalid_until_valid hi valid xs) ≡ true
unfolding extend_invalid_until_valid
extend_invalid_until_valid-keeps hi t valid xs h =
    extend_each-keeps hi (sort_by interval_leb valid) t xs h

-- The extension adds only points that no valid interval covers: it cannot turn valid time into
-- conflicting time.
pub extend_invalid_until_valid-adds :
    (hi t : ℕ) (valid xs : List Interval)
    → is_inside t (extend_invalid_until_valid hi valid xs) ≡ true
    → (is_inside t xs ≡ true) ⊎ (is_inside t valid ≡ false)
unfolding extend_invalid_until_valid
extend_invalid_until_valid-adds hi t valid xs e =
    rw (← any-sort_by interval_leb (λ i. leb i.0 t && ltb t i.1) valid) (
      extend_each-adds hi (sort_by interval_leb valid) t xs
        (sort_by-IsSorted interval_leb interval_leb_total interval_leb_trans valid) e)
