-- ===== src/Collector/Gaps/Split.antt =====
-- The split of a gap at midnights loses nothing, src/miry/collector/gaps.py and
-- src/miry/pipeline/quality.py.
use miry_data_collector.Base.{
  ℕ, zero, suc, ◌+◌, ◌-◌, ◌*◌, ◌≤◌, ◌<◌, ◌≡◌, ◌⊎◌, max, min, refl, sym, ap, subst, ◌∙◌, inl, inr,
  Bool, true, false, Bool-cases, List, [], ◌∷◌, if◌then◌else◌, ◌==◌, filter, arith,
}
use miry_data_collector.Base.Text.{Text}
use miry_data_collector.Contracts.Gap.{GapEvent}
use miry_data_collector.Contracts.Chunks.{day_length_ns, date_of}
use miry_data_collector.Collector.Gaps.{event_date, closing_at, continued_at}
use miry_data_collector.Collector.Gaps.Rolling.{closing-date, continued-date}
use miry_data_collector.Pipeline.Quality.Explicit.{change_of, end_of}
use miry_data_collector.Collector.Gaps.Story.{of_day, story, IsPair, IsPiece}

filter-in :
    (d : ℕ) (e : GapEvent) (es : List GapEvent)
    → event_date e ≡ d
    → of_day d (e ∷ es) ≡ e ∷ of_day d es
filter-in d e es h = rw (filter, found) refl
  where
    found : (event_date e == d) ≡ true
    found = ground (arith, h)

filter-out :
    (d : ℕ) (e : GapEvent) (es : List GapEvent) (day : ℕ)
    → event_date e ≡ day
    → d < day ⊎ day < d
    → of_day d (e ∷ es) ≡ of_day d es
filter-out d e es day h o = rw (filter, missed) refl
  where
    missed : (event_date e == d) ≡ false
    missed = ground (arith, h, o)

-- The events behind the first midnight.
abbrev rest_of : ℕ → ℕ → GapEvent → GapEvent → List GapEvent
rest_of n day e c = story n (suc day) (continued_at e (suc day * day_length_ns)) c

story-later :
    (n day d : ℕ) (e c : GapEvent)
    → event_date e ≡ day
    → event_date c ≡ n + day
    → d < day
    → of_day d (story n day e c) ≡ []
story-later zero day d e c h k l =
    filter-out d e (c ∷ []) day h (inl l) ∙ filter-out d c [] day (omega (arith, k)) (inl l)
story-later (suc n) day d e c h k l =
    filter-out d e (closing_at e (suc day * day_length_ns) ∷ rest_of n day e c) day h (inl l)
    ∙ filter-out d (closing_at e (suc day * day_length_ns)) (rest_of n day e c) day
        (closing-date e day) (inl l)
    ∙ story-later n (suc day) d (continued_at e (suc day * day_length_ns)) c
        (continued-date e (suc day)) (omega (arith, k)) (omega (arith, l))

same_if : (b : Bool) (t : ℕ) → (if b then t else t) ≡ t
same_if true t = refl
same_if false t = refl

module _ (symbol : Text) where
  abbrev pub Pieces : ℕ → ℕ → ℕ → List GapEvent → Type 0
  Pieces d start end events =
      (o : GapEvent) × (c : GapEvent) × (events ≡ o ∷ c ∷ [])
      × IsPiece symbol d (max start (d * day_length_ns))
          (min end (d * day_length_ns + day_length_ns)) o c

  -- The first day of a gap that goes on.
  first-Pieces :
      (n day d start end : ℕ) (e c : GapEvent)
      → IsPair symbol e c
      → event_date e ≡ day
      → event_date c ≡ suc n + day
      → (change_of e).effective_ns ≡ start
      → date_of start ≡ day
      → date_of end ≡ suc n + day
      → d ≡ day
      → Pieces d start end (of_day d (story (suc n) day e c))
  first-Pieces n day d start end e c pair de dc se ds dend same = (
    e,
    closing_at e (suc day * day_length_ns),
    filter-in d e (closing_at e (suc day * day_length_ns) ∷ rest_of n day e c)
          (omega (arith, de, same))
        ∙ ap (λ es. e ∷ es)
            (filter-in d (closing_at e (suc day * day_length_ns)) (rest_of n day e c)
                (omega (arith, closing-date e day, same))
              ∙ ap (λ es. closing_at e (suc day * day_length_ns) ∷ es)
                  (story-later n (suc day) d (continued_at e (suc day * day_length_ns)) c
                    (continued-date e (suc day)) (omega (arith, dc)) (omega (arith, same)))),
    record {
      pair = record {
        opens = pair.opens;
        closes = refl;
        same_gap = refl;
        opened_concerns = pair.opened_concerns;
        closing_concerns = pair.opened_concerns;
      };
      starts = omega (arith, se, ds, same);
      ends = midnight;
      forward = by_order (max start (d * day_length_ns)) (omega (arith, ds, same));
    },
  )
    where
      midnight : suc day * day_length_ns - 1 + 1 ≡ min end (d * day_length_ns + day_length_ns)
      midnight = omega (arith, dend, same)

      by_order :
          (s : ℕ)
          → s ≤ suc day * day_length_ns - 1
          → (s < suc day * day_length_ns - 1)
            ⊎ ((s ≡ suc day * day_length_ns - 1)
                × (min end (d * day_length_ns + day_length_ns) ≡ d * day_length_ns + day_length_ns))
      by_order s h = ground (arith, h, dend, same)

  -- On the later days, the part of the gap is that of the gap from the midnight on.
  later-Pieces :
      (day d start end : ℕ) (events : List GapEvent)
      → date_of start ≡ day
      → day < d
      → Pieces d (suc day * day_length_ns) end events
      → Pieces d start end events
  later-Pieces day d start end events ds l (o, c, e, p) = (
    o,
    c,
    e,
    subst (λ s. IsPiece symbol d s (min end (d * day_length_ns + day_length_ns)) o c) whole p,
  )
    where
      whole : max (suc day * day_length_ns) (d * day_length_ns) ≡ max start (d * day_length_ns)
      whole = omega (arith, ds, l)

  pub story-Pieces :
      (n day d start end : ℕ) (e c : GapEvent)
      → IsPair symbol e c
      → event_date e ≡ day
      → event_date c ≡ n + day
      → (change_of e).effective_ns ≡ start
      → date_of start ≡ day
      → (change_of c).effective_ns ≡ end
      → end_of (change_of c) ≡ end
      → date_of end ≡ n + day
      → start < end
      → (n + day) * day_length_ns < end
      → day ≤ d
      → d ≤ n + day
      → Pieces d start end (of_day d (story n day e c))
  story-Pieces zero day d start end e c pair de dc se ds ee ende dend l z a b = (
    e,
    c,
    filter-in d e (c ∷ []) (omega (arith, de, a, b))
        ∙ ap (λ es. e ∷ es) (filter-in d c [] (omega (arith, dc, a, b))),
    record {
      pair = pair;
      starts = omega (arith, se, ds, a, b);
      ends = omega (arith, ende, dend, a, b);
      forward = inl (omega (arith, ee, l, ds, a, b));
    },
  )
  story-Pieces (suc n) day d start end e c pair de dc se ds ee ende dend l z a b =
      elim (Bool-cases (d == day)) [
        | inl same ↦ first-Pieces n day d start end e c pair de dc se ds dend (ground (arith, same))
        | inr other ↦
            later-Pieces day d start end (of_day d (story (suc n) day e c)) ds
              (ground (arith, other, a))
              (subst (Pieces d (suc day * day_length_ns) end)
                (sym (skipped (ground (arith, other, a))))
                (story-Pieces n (suc day) d (suc day * day_length_ns) end
                  (continued_at e (suc day * day_length_ns)) c
                  (record {
                    opens = refl;
                    closes = pair.closes;
                    same_gap = pair.same_gap;
                    opened_concerns = pair.opened_concerns;
                    closing_concerns = pair.closing_concerns;
                  })
                  (continued-date e (suc day)) (omega (arith, dc))
                  (same_if (suc day * day_length_ns == 0) (suc day * day_length_ns)) (omega arith)
                  ee ende (omega (arith, dend)) last (omega (arith, z)) (ground (arith, other, a))
                  (omega (arith, b))))
      ]
    where
      last : suc day * day_length_ns < end
      last = omega (arith, z)

      skipped : day < d → of_day d (story (suc n) day e c) ≡ of_day d (rest_of n day e c)
      skipped k =
          filter-out d e (closing_at e (suc day * day_length_ns) ∷ rest_of n day e c) day de (inr k)
          ∙ filter-out d (closing_at e (suc day * day_length_ns)) (rest_of n day e c) day
              (closing-date e day) (inr k)
