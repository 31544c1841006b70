-- ===== src/Pipeline/Quality/Explicit.antt =====
-- The explicitly invalid intervals of a symbol, src/miry/pipeline/quality.py. The lines of the gap
-- file are gap events, as the ledger of src/miry/pipeline/gaps.py writes them.
use miry_data_collector.Base.{
  ℕ, ◌+◌, Bool, true, false, not, ◌&&◌, ◌||◌, Option, none, some, List, [], ◌∷◌, ◌++◌,
  if◌then◌else◌, ltb, ◌==◌, any, map,
}
use miry_data_collector.Base.Sorting.{sort_by}
use miry_data_collector.Base.Text.{Text, text_eq, text_leb}
use miry_data_collector.Base.Dict.{Dict, lookup, insert, erase}
use miry_data_collector.Contracts.Gap.{GapEvent, GapState, is_opened, state_leb, is_depth}
use miry_data_collector.Pipeline.Quality.Durations.{Interval, clip_all}

-- The tuple that is sorted.
pub record Change : Type 0 where
  pub effective_ns : ℕ
  pub gap_id : Text
  pub state : GapState
  pub detail : Text

-- `int(event.get("affected_from_realtime_ns") or observed_ns)`: zero counts as absent
abbrev pub or_observed : Option ℕ → ℕ → ℕ
or_observed none observed = observed
or_observed (some affected) observed = if affected == 0 then observed else affected

abbrev pub change_of : GapEvent → Change
change_of e = record {
  effective_ns =
      if is_opened e.state
      then or_observed e.affected_from_realtime_ns e.observed_at_realtime_ns
      else e.observed_at_realtime_ns;
  gap_id = e.gap_id;
  state = e.state;
  detail = e.detail;
}

abbrev is_empty {ℓ} : {A : Type ℓ} → List A → Bool
is_empty [] = true
is_empty (_ ∷ _) = false

-- An event with no symbols, or no streams, concerns them all.
abbrev pub concerns : Text → GapEvent → Bool
concerns symbol e =
    (is_empty e.exchange_symbols || any (text_eq symbol) e.exchange_symbols)
    && (is_empty e.stream_types || any is_depth e.stream_types)

unfoldable pub changes_for : Text → List GapEvent → List Change
changes_for symbol [] = []
changes_for symbol (e ∷ es) = elim (concerns symbol e) [
  | true ↦ change_of e ∷ changes_for symbol es
  | false ↦ changes_for symbol es
]

-- Tuples by time, id, state and detail.
abbrev pub change_leb : Change → Change → Bool
change_leb a b =
    ltb a.effective_ns b.effective_ns
    || ((a.effective_ns == b.effective_ns)
        && (not (text_leb b.gap_id a.gap_id)
            || (text_eq a.gap_id b.gap_id
                && (not (state_leb b.state a.state)
                    || (state_leb a.state b.state && text_leb a.detail b.detail)))))

abbrev pub continues_text : Text
continues_text =
    b'g' ∷ b'a' ∷ b'p' ∷ b' ' ∷ b'c' ∷ b'o' ∷ b'n' ∷ b't' ∷ b'i' ∷ b'n' ∷ b'u' ∷ b'e' ∷ b's' ∷ b' '
    ∷ b'i' ∷ b'n' ∷ b't' ∷ b'o' ∷ b' ' ∷ b't' ∷ b'h' ∷ b'e' ∷ b' ' ∷ b'n' ∷ b'e' ∷ b'x' ∷ b't'
    ∷ b' ' ∷ b'U' ∷ b'T' ∷ b'C' ∷ b' ' ∷ b'd' ∷ b'a' ∷ b'y' ∷ []

-- The end of a gap; a gap that goes on at midnight closes one nanosecond before.
abbrev pub end_of : Change → ℕ
end_of c = c.effective_ns + (if text_eq c.detail continues_text then 1 else 0)

-- The interval that a change completes, and the open gaps behind it.
abbrev pub complete_from : Change → Option ℕ → List Interval
complete_from c none = []
complete_from c (some start) = (start, end_of c) ∷ []

abbrev pub completed : Change → GapState → Dict ℕ → List Interval
completed c GapState.opened open_gaps = []
completed c GapState.closed open_gaps = complete_from c (lookup c.gap_id open_gaps)

abbrev pub after : Change → GapState → Dict ℕ → Dict ℕ
after c GapState.opened open_gaps = insert c.gap_id c.effective_ns open_gaps
after c GapState.closed open_gaps = erase c.gap_id open_gaps

-- The loop over the sorted changes; what is still open at its end lasts to the window's end.
unfoldable pub replay : ℕ → Dict ℕ → List Change → List Interval
replay hi open_gaps [] = map (λ e. (e.1, hi)) open_gaps
replay hi open_gaps (c ∷ cs) =
    completed c c.state open_gaps ++ replay hi (after c c.state open_gaps) cs

-- `_explicit_invalid_intervals`; `none` is a gap file that does not exist.
unfoldable pub explicit_invalid_intervals : Text → ℕ → ℕ → Option (List GapEvent) → List Interval
unfolding changes_for replay clip_all
explicit_invalid_intervals symbol lo hi none = []
explicit_invalid_intervals symbol lo hi (some events) =
    clip_all lo hi (replay hi [] (sort_by change_leb (changes_for symbol events)))
