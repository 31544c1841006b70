-- ===== src/Pipeline/Quality/Verdict.antt =====
-- What an accepted coverage means, src/miry/pipeline/quality.py.
use miry_data_collector.Base.{
  ℕ, ◌-◌, ◌*◌, ◌≤◌, ◌<◌, ◌≡◌, ◌∙◌, sym, ◌↔◌, inl, inr, Bool, Bool-cases, true, false, not, ◌&&◌,
  ◌||◌, List, ◌++◌, arith, ltb, leb,
}
use miry_data_collector.Pipeline.Quality.Durations.{
  Interval, is_inside, union_duration, intersection_duration,
}
use miry_data_collector.Pipeline.Quality.Points.{
  count-ext, count-none, count-range, count_mono, count-eq-zero, count-eq-full,
}
use miry_data_collector.Pipeline.Quality.Coverage.{union_duration-eq-count}
use miry_data_collector.Pipeline.Quality.Intersection.{
  is_inside-append, intersection_duration-eq-count,
}
use miry_data_collector.Pipeline.Quality.Finalize.{coverage_of, is_rejected}

-- A point outside the window, or one that is valid or explicitly invalid, and not both.
abbrev pub is_classified : ℕ → ℕ → List Interval → List Interval → ℕ → Bool
is_classified lo hi valid invalid t =
    not (leb lo t && ltb t hi)
    || (is_inside t valid && not (is_inside t invalid))
    || (not (is_inside t valid) && is_inside t invalid)

-- Each point of the window is valid or explicitly invalid, and not both.
abbrev pub Classifies : ℕ → ℕ → List Interval → List Interval → Type 0
Classifies lo hi valid invalid = (t : ℕ) → is_classified lo hi valid invalid t ≡ true

module _ (lo hi : ℕ) (valid invalid : List Interval) (window : lo ≤ hi) where
  accounted-le : union_duration lo hi (valid ++ invalid) ≤ hi - lo
  accounted-le = rw (union_duration-eq-count lo hi (valid ++ invalid)) (
      omega (
        arith,
        count_mono (λ t. (leb lo t && ltb t hi) && is_inside t (valid ++ invalid))
            (λ t. leb lo t && ltb t hi) hi (λ t l e. ground arith),
        count-range lo hi hi window (omega arith),
      ))

  covered :
      (t : ℕ)
      → hi - lo ≤ union_duration lo hi (valid ++ invalid)
      → lo ≤ t
      → t < hi
      → (is_inside t valid || is_inside t invalid) ≡ true
  covered t full l h = ground (arith, is_inside-append t valid invalid, all_in)
    where
      all_in : ((leb lo t && ltb t hi) && is_inside t (valid ++ invalid)) ≡ true
      all_in =
          count-eq-full (λ t. (leb lo t && ltb t hi) && is_inside t (valid ++ invalid))
            (λ t. leb lo t && ltb t hi) hi t (λ t l e. ground arith)
            (omega (
              arith,
              count-range lo hi hi window (omega arith),
              union_duration-eq-count lo hi (valid ++ invalid),
            ))
            h (ground arith)

  unshared :
      (t : ℕ)
      → intersection_duration lo hi valid invalid ≡ 0
      → lo ≤ t
      → t < hi
      → (is_inside t valid && is_inside t invalid) ≡ false
  unshared t none_shared l h = ground (arith, out)
    where
      out : ((leb lo t && ltb t hi) && (is_inside t valid && is_inside t invalid)) ≡ false
      out =
          count-eq-zero (λ t. (leb lo t && ltb t hi) && (is_inside t valid && is_inside t invalid))
            hi t (sym (intersection_duration-eq-count lo hi valid invalid) ∙ none_shared) h

  accounted_full :
      Classifies lo hi valid invalid → union_duration lo hi (valid ++ invalid) ≡ hi - lo
  accounted_full c =
      union_duration-eq-count lo hi (valid ++ invalid)
      ∙ count-ext _ (λ t. leb lo t && ltb t hi) hi (λ t h. in_window t h)
      ∙ count-range lo hi hi window (omega arith)
    where
      in_window :
          (t : ℕ)
          → t < hi
          → ((leb lo t && ltb t hi) && is_inside t (valid ++ invalid)) ≡ (leb lo t && ltb t hi)
      in_window t h = ground (arith, is_inside-append t valid invalid, c t)

  unshared_none : Classifies lo hi valid invalid → intersection_duration lo hi valid invalid ≡ 0
  unshared_none c =
      intersection_duration-eq-count lo hi valid invalid ∙ count-none _ hi (λ t h. out t h)
    where
      out :
          (t : ℕ)
          → t < hi
          → ((leb lo t && ltb t hi) && (is_inside t valid && is_inside t invalid)) ≡ false
      out t h = ground (arith, c t)

  -- On a window that does not end before it begins, a symbol's coverage is accepted exactly when every nanosecond of the window is either valid or
  -- explicitly invalid, and not both, and at least 999 in a thousand are valid.
  pub is_rejected-coverage_of :
      (is_rejected (coverage_of lo hi valid invalid) ≡ false)
      ↔ (Classifies lo hi valid invalid × ((hi - lo) * 999 ≤ union_duration lo hi valid * 1000))
  unfolding is_rejected coverage_of
  is_rejected-coverage_of = (
    λ e. (λ t. exactly_one t (covered t (full e)) (unshared t (disjoint e)), enough e),
    λ c. accepted c,
  )
    where
      full :
          is_rejected (coverage_of lo hi valid invalid) ≡ false
          → hi - lo ≤ union_duration lo hi (valid ++ invalid)
      full e = ground arith

      disjoint :
          is_rejected (coverage_of lo hi valid invalid) ≡ false
          → intersection_duration lo hi valid invalid ≡ 0
      disjoint e = ground arith

      enough :
          is_rejected (coverage_of lo hi valid invalid) ≡ false
          → (hi - lo) * 999 ≤ union_duration lo hi valid * 1000
      enough e = ground arith

      exactly_one :
          (t : ℕ)
          → (lo ≤ t → t < hi → (is_inside t valid || is_inside t invalid) ≡ true)
          → (lo ≤ t → t < hi → (is_inside t valid && is_inside t invalid) ≡ false)
          → is_classified lo hi valid invalid t ≡ true
      exactly_one t a b = elim (Bool-cases (leb lo t && ltb t hi)) [
        | inl inner ↦
            ground (arith, a (ground arith) (ground arith), b (ground arith) (ground arith))
        | inr outer ↦ ground arith
      ]

      accepted :
          Classifies lo hi valid invalid × ((hi - lo) * 999 ≤ union_duration lo hi valid * 1000)
          → is_rejected (coverage_of lo hi valid invalid) ≡ false
      accepted c = ground (arith, accounted_full c.0, unshared_none c.0)
