-- ===== src/Collector/Gaps/Story.antt =====
-- What the quality gate of a day reads of a gap that the journal has split at midnights,
-- src/miry/collector/gaps.py and src/miry/pipeline/quality.py.
use miry_data_collector.Base.{
  ℕ, zero, suc, ◌+◌, ◌*◌, ◌≤◌, ◌<◌, ◌≡◌, ◌⊎◌, max, min, refl, ap, ◌∙◌, inl, inr, true, false, some,
  List, [], ◌∷◌, ◌++◌, ltb, ◌==◌, filter, arith,
}
use miry_data_collector.Base.Text.{Text, text_eq_refl, text_leb_refl}
use miry_data_collector.Base.Sorting.{sort_by, insert_by}
use miry_data_collector.Contracts.Gap.{GapEvent, GapState}
use miry_data_collector.Contracts.Chunks.{day_length_ns}
use miry_data_collector.Collector.Gaps.{event_date, closing_at, continued_at}
use miry_data_collector.Collector.Gaps.Rolling.{pieces}
use miry_data_collector.Pipeline.Quality.Durations.{clip_all}
use miry_data_collector.Pipeline.Quality.Explicit.{
  Change, change_of, concerns, changes_for, change_leb, end_of, replay, explicit_invalid_intervals,
}

-- The events of a day: those whose gap files lie in it.
abbrev pub of_day : ℕ → List GapEvent → List GapEvent
of_day d events = filter (λ e. event_date e == d) events

-- The events of a gap from its opening to its closing, day by day.
abbrev pub story : ℕ → ℕ → GapEvent → GapEvent → List GapEvent
story zero day opened closing = opened ∷ closing ∷ []
story (suc n) day opened closing =
    opened
    ∷ closing_at opened (suc day * day_length_ns)
    ∷ story n (suc day) (continued_at opened (suc day * day_length_ns)) closing

pub pieces-story :
    (n day : ℕ) (opened closing : GapEvent)
    → opened ∷ (pieces n (suc day) opened ++ (closing ∷ [])) ≡ story n day opened closing
pieces-story zero day opened closing = refl
pieces-story (suc n) day opened closing =
    ap (λ es. opened ∷ closing_at opened (suc day * day_length_ns) ∷ es)
      (pieces-story n (suc day) (continued_at opened (suc day * day_length_ns)) closing)

-- An opening and a closing of one gap that concern the symbol.
pub record IsPair (symbol : Text) (opened closing : GapEvent) : Type 0 where
  pub opens : opened.state ≡ GapState.opened
  pub closes : closing.state ≡ GapState.closed
  pub same_gap : closing.gap_id ≡ opened.gap_id
  pub opened_concerns : concerns symbol opened ≡ true
  pub closing_concerns : concerns symbol closing ≡ true

module _ (symbol : Text) where
  -- The two events of one day and their times.
  pub record IsPiece (d start end : ℕ) (o c : GapEvent) : Type 0 where
    pub pair : IsPair symbol o c
    pub starts : (change_of o).effective_ns ≡ start
    pub ends : end_of (change_of c) ≡ end
    pub forward :
        (start < (change_of c).effective_ns)
        ⊎ ((start ≡ (change_of c).effective_ns) × (end ≡ d * day_length_ns + day_length_ns))

  replay-pair :
      (hi : ℕ) (o c : Change)
      → o.state ≡ GapState.opened
      → c.state ≡ GapState.closed
      → c.gap_id ≡ o.gap_id
      → replay hi [] (o ∷ c ∷ []) ≡ (o.effective_ns, end_of c) ∷ []
  unfolding replay
  replay-pair hi o c opens closes same = rw (opens, closes, same, text_eq_refl o.gap_id) refl

  replay-swapped :
      (hi : ℕ) (o c : Change)
      → o.state ≡ GapState.opened
      → c.state ≡ GapState.closed
      → replay hi [] (c ∷ o ∷ []) ≡ (o.effective_ns, hi) ∷ []
  unfolding replay
  replay-swapped hi o c opens closes = rw (opens, closes) refl

  clip_one :
      (lo hi start end : ℕ)
      → lo ≤ start
      → end ≤ hi
      → start < end
      → clip_all lo hi ((start, end) ∷ []) ≡ (start, end) ∷ []
  unfolding clip_all
  clip_one lo hi start end a b l = rw (clip_all, test, low, high) refl
    where
      low : max start lo ≡ start
      low = omega (arith, a)

      high : min end hi ≡ end
      high = omega (arith, b)

      test : ltb (max start lo) (min end hi) ≡ true
      test = ground (arith, a, b, l)

  changes-pair :
      (o c : GapEvent)
      → IsPair symbol o c
      → changes_for symbol (o ∷ c ∷ []) ≡ change_of o ∷ change_of c ∷ []
  unfolding changes_for
  changes-pair o c h = rw (changes_for, h.opened_concerns, h.closing_concerns) refl

  sort-pair :
      (o c : Change)
      → o.effective_ns < c.effective_ns
      → sort_by change_leb (o ∷ c ∷ []) ≡ o ∷ c ∷ []
  sort-pair o c l = rw (insert_by, before) refl
    where
      before : change_leb o c ≡ true
      before = ground (arith, l)

  -- At the same instant, the closing comes first.
  sort-swapped :
      (o c : Change)
      → o.effective_ns ≡ c.effective_ns
      → c.gap_id ≡ o.gap_id
      → o.state ≡ GapState.opened
      → c.state ≡ GapState.closed
      → sort_by change_leb (o ∷ c ∷ []) ≡ c ∷ o ∷ []
  sort-swapped o c e same opens closes = rw (insert_by, after_it) refl
    where
      after_it : change_leb o c ≡ false
      after_it =
          rw (opens, closes, same)
            (ground (arith, e, text_eq_refl o.gap_id, text_leb_refl o.gap_id))

  -- The gate reads one interval from the two events.
  pub piece-intervals :
      (d start end : ℕ) (o c : GapEvent)
      → IsPiece d start end o c
      → d * day_length_ns ≤ start
      → end ≤ d * day_length_ns + day_length_ns
      → start < end
      → explicit_invalid_intervals symbol
          (d * day_length_ns)
          (d * day_length_ns + day_length_ns)
          (some (o ∷ c ∷ []))
        ≡ (start, end) ∷ []
  unfolding explicit_invalid_intervals
  piece-intervals d start end o c h a b l =
      ap
        (λ cs.
          clip_all (d * day_length_ns) (d * day_length_ns + day_length_ns)
            (replay (d * day_length_ns + day_length_ns) [] (sort_by change_leb cs)))
        (changes-pair o c h.pair)
      ∙ ap (clip_all (d * day_length_ns) (d * day_length_ns + day_length_ns)) replayed
      ∙ clip_one (d * day_length_ns) (d * day_length_ns + day_length_ns) start end a b l
    where
      hi : ℕ
      hi = d * day_length_ns + day_length_ns

      replayed :
          replay hi [] (sort_by change_leb (change_of o ∷ change_of c ∷ [])) ≡ (start, end) ∷ []
      replayed = elim h.forward [
        | inl later ↦
            ap (replay hi [])
              (sort-pair (change_of o) (change_of c) (omega (arith, later, h.starts)))
            ∙ replay-pair hi (change_of o) (change_of c) h.pair.opens h.pair.closes h.pair.same_gap
            ∙ rw (h.starts, h.ends) refl
        | inr (same, whole) ↦
            ap (replay hi []) (
              sort-swapped (change_of o) (change_of c) (h.starts ∙ same) h.pair.same_gap
                h.pair.opens h.pair.closes)
            ∙ replay-swapped hi (change_of o) (change_of c) h.pair.opens h.pair.closes
            ∙ rw (h.starts, whole) refl
      ]
