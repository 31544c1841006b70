-- ===== src/Pipeline/Quality/Coverage.antt =====
-- Durations as counts of the points that intervals cover, src/miry/pipeline/quality.py.
use miry_data_collector.Base.{
  ℕ, ◌+◌, ◌-◌, ◌≤◌, ◌<◌, ◌≡◌, refl, max, ◌∙◌, sym, Bool, true, false, ◌&&◌, ◌||◌, none, some, List,
  [], ◌∷◌, arith, ltb, leb, All, Bool-cases, inl, inr, ◌⊎◌, ap,
}
use miry_data_collector.Base.Sorting.{IsSorted, sort_by-IsSorted, any-sort_by, All-sort_by}
use miry_data_collector.Pipeline.Quality.Durations.{
  Interval, interval_leb, is_inside, clip_all, sweep, union_duration,
}
use miry_data_collector.Pipeline.Quality.Points.{
  count, count-ext, count-or_and, count-none, count-range,
}

-- Intervals that are not empty and end at the bound or before it.
abbrev pub Fits : ℕ → List Interval → Type 0
Fits n = All (λ i. (i.0 < i.1) × (i.1 ≤ n))

abbrev pub Starts : ℕ → List Interval → Type 0
Starts a = All (λ i. a ≤ i.0)

pub not_inside_below : (a t : ℕ) (xs : List Interval) → Starts a xs → t < a → is_inside t xs ≡ false
not_inside_below a t [] h l = refl
not_inside_below a t (x ∷ xs) h l = ground (arith, not_inside_below a t xs h.1 l)

pub Starts-of_sorted :
    (x : Interval) (xs : List Interval) → All (λ y. interval_leb x y ≡ true) xs → Starts x.0 xs
Starts-of_sorted x [] h = tt
Starts-of_sorted x (y ∷ ys) h = (ground (arith, h.0), Starts-of_sorted x ys h.1)

pub interval_leb_total : (i j : Interval) → (interval_leb i j ≡ true) ⊎ (interval_leb j i ≡ true)
interval_leb_total i j = ground arith

pub interval_leb_trans :
    (i j k : Interval) → interval_leb i j ≡ true → interval_leb j k ≡ true → interval_leb i k ≡ true
interval_leb_trans i j k h l = ground arith

-- Two sets without a common point are counted one by one.
count-disjoint :
    (p q : ℕ → Bool) (n : ℕ)
    → ((t : ℕ) → t < n → (p t && q t) ≡ false)
    → count (λ t. p t || q t) n ≡ count p n + count q n
count-disjoint p q n h = omega (arith, count-or_and p q n, count-none (λ t. p t && q t) n h)

-- A run that is being extended, with the intervals that are still to come.
sweep_run :
    (total s e n : ℕ) (xs : List Interval)
    → s < e
    → e ≤ n
    → Fits n xs
    → IsSorted interval_leb xs
    → Starts s xs
    → sweep total (some (s, e)) xs ≡ total + count (λ t. (leb s t && ltb t e) || is_inside t xs) n
unfolding sweep
sweep_run total s e n [] l k fits sorted starts = ap (◌+◌ total) (
    sym (
      count-ext _ (λ t. leb s t && ltb t e) n (λ t h. ground arith)
      ∙ count-range s e n (omega arith) k))
sweep_run total s e n (i ∷ xs) l k fits sorted starts = elim (Bool-cases (leb i.0 e)) [
  | inl joins ↦ rw joins (
      sweep_run total s (max e i.1) n xs (omega arith) (omega arith) fits.1 sorted.1 starts.1
      ∙ ap (◌+◌ total) (count-ext _ _ n (λ t h. joined t joins)))
  | inr apart ↦ rw apart (
      sweep_run (total + (e - s)) i.0 i.1 n xs fits.0.0 fits.0.1 fits.1 sorted.1
        (Starts-of_sorted i xs sorted.0)
      ∙ omega (
        arith,
        count-range s e n (omega arith) k,
        count-disjoint (λ t. leb s t && ltb t e) (λ t. is_inside t (i ∷ xs)) n
            (λ t h. disjoint t apart),
      ))
]
  where
    joined :
        (t : ℕ)
        → leb i.0 e ≡ true
        → ((leb s t && ltb t (max e i.1)) || is_inside t xs)
          ≡ ((leb s t && ltb t e) || is_inside t (i ∷ xs))
    joined t joins = ground arith

    disjoint : (t : ℕ) → leb i.0 e ≡ false → ((leb s t && ltb t e) && is_inside t (i ∷ xs)) ≡ false
    disjoint t apart = ground (arith, not_inside_below i.0 t xs (Starts-of_sorted i xs sorted.0))

sweep_sorted :
    (n : ℕ) (xs : List Interval)
    → Fits n xs
    → IsSorted interval_leb xs
    → sweep 0 none xs ≡ count (λ t. is_inside t xs) n
unfolding sweep
sweep_sorted n [] fits sorted = sym (count-none _ n (λ t h. refl))
sweep_sorted n (i ∷ xs) fits sorted =
    sweep_run 0 i.0 i.1 n xs fits.0.0 fits.0.1 fits.1 sorted.1 (Starts-of_sorted i xs sorted.0)
    ∙ omega arith

module _ (lo hi : ℕ) where
  clip_all-Fits : (xs : List Interval) → Fits hi (clip_all lo hi xs)
  unfolding clip_all
  clip_all-Fits [] = tt
  clip_all-Fits (i ∷ xs) = ground (arith, clip_all-Fits xs)

  is_inside-clip_all :
      (t : ℕ) (xs : List Interval)
      → is_inside t (clip_all lo hi xs) ≡ ((leb lo t && ltb t hi) && is_inside t xs)
  unfolding clip_all
  is_inside-clip_all t [] = ground arith
  is_inside-clip_all t (i ∷ xs) = ground (arith, is_inside-clip_all t xs)

  -- The swept total is the number of points of the window that some interval covers, however the
  -- intervals overlap, repeat or stand in the list.
  pub union_duration-eq-count :
      (xs : List Interval)
      → union_duration lo hi xs ≡ count (λ t. (leb lo t && ltb t hi) && is_inside t xs) hi
  unfolding union_duration
  union_duration-eq-count xs =
      sweep_sorted hi _ (All-sort_by interval_leb _ (clip_all lo hi xs) (clip_all-Fits xs))
        (sort_by-IsSorted interval_leb interval_leb_total interval_leb_trans (clip_all lo hi xs))
      ∙ count-ext _ _ hi
          (λ t h. any-sort_by interval_leb _ (clip_all lo hi xs) ∙ is_inside-clip_all t xs)
