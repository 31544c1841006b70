-- ===== src/Pipeline/Quality/Durations.antt =====
-- Durations of intervals, src/miry/pipeline/quality.py. Times are nanoseconds since the epoch.
use miry_data_collector.Base.{
  ℕ, ◌+◌, ◌-◌, max, min, Bool, true, false, ◌&&◌, ◌||◌, Option, none, some, List, [], ◌∷◌, ◌++◌,
  if◌then◌else◌, ltb, leb, ◌==◌, any,
}
use miry_data_collector.Base.Sorting.{sort_by}

abbrev pub Interval : Type 0
Interval = ℕ × ℕ

-- Tuples are ordered by their first parts, then by their second.
abbrev pub interval_leb : Interval → Interval → Bool
interval_leb (a, b) (c, d) = ltb a c || ((a == c) && leb b d)

-- `(max(start, window_start), min(end, window_end))`, where that is not empty
unfoldable pub clip_all : ℕ → ℕ → List Interval → List Interval
clip_all lo hi [] = []
clip_all lo hi ((start, end) ∷ rest) = elim (ltb (max start lo) (min end hi)) [
  | true ↦ (max start lo, min end hi) ∷ clip_all lo hi rest
  | false ↦ clip_all lo hi rest
]

-- The loop of `_union_duration`: the total so far, and the run that is being extended.
unfoldable pub sweep : ℕ → Option Interval → List Interval → ℕ
sweep total none [] = total
sweep total (some (start, end)) [] = total + (end - start)
sweep total none (i ∷ rest) = sweep total (some i) rest
sweep total (some (start, end)) (i ∷ rest) =
    let merged = sweep total (some (start, max end i.1)) rest in
    let separate = sweep (total + (end - start)) (some i) rest in
    if leb i.0 end then merged else separate

unfoldable pub union_duration : ℕ → ℕ → List Interval → ℕ
unfolding clip_all sweep
union_duration lo hi intervals = sweep 0 none (sort_by interval_leb (clip_all lo hi intervals))

-- The pairs with one interval of the left, for the inner loop of `_intersection_duration`.
unfoldable pub meet_one : Interval → List Interval → List Interval
meet_one (a, b) [] = []
meet_one (a, b) ((c, d) ∷ rest) = elim (ltb (max a c) (min b d)) [
  | true ↦ (max a c, min b d) ∷ meet_one (a, b) rest
  | false ↦ meet_one (a, b) rest
]

unfoldable pub meet_all : List Interval → List Interval → List Interval
unfolding meet_one
meet_all [] right = []
meet_all (i ∷ left) right = meet_one i right ++ meet_all left right

unfoldable pub intersection_duration : ℕ → ℕ → List Interval → List Interval → ℕ
unfolding meet_all union_duration
intersection_duration lo hi left right = union_duration lo hi (meet_all left right)

-- `any(valid_start <= end < valid_end for ...)`
abbrev pub is_inside : ℕ → List Interval → Bool
is_inside t = any (λ i. leb i.0 t && ltb t i.1)

-- `next((valid_start for ... if valid_start >= end), window_end)`
unfoldable pub next_start : ℕ → ℕ → List Interval → ℕ
next_start end hi [] = hi
next_start end hi (i ∷ rest) = if leb end i.0 then i.0 else next_start end hi rest

abbrev pub extended_end : ℕ → List Interval → ℕ → ℕ
extended_end hi valid end = if is_inside end valid then end else next_start end hi valid

-- `_extend_invalid_until_valid`, over the valid intervals in order
unfoldable pub extend_each : ℕ → List Interval → List Interval → List Interval
unfolding next_start
extend_each hi valid [] = []
extend_each hi valid ((start, end) ∷ rest) =
    (start, extended_end hi valid end) ∷ extend_each hi valid rest

unfoldable pub extend_invalid_until_valid : ℕ → List Interval → List Interval → List Interval
unfolding extend_each
extend_invalid_until_valid hi valid intervals =
    extend_each hi (sort_by interval_leb valid) intervals
