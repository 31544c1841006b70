-- ===== src/Pipeline/Quality/Examples.antt =====
-- A day of sixty symbols, and small intervals, src/miry/pipeline/quality.py.
use miry_data_collector.Base.{
  ℕ, zero, suc, ◌+◌, ◌-◌, ◌*◌, ◌≤◌, ◌≡◌, refl, ◌↔◌, ◌⊎◌, true, false, ◌&&◌, Option, none, some,
  List, [], ◌∷◌, ◌++◌, arith, ltb, leb, In,
}
use miry_data_collector.Base.Result.{ok, err}
use miry_data_collector.Base.Text.{Text}
use miry_data_collector.Contracts.Gap.{GapState}
use miry_data_collector.Pipeline.Quality.Durations.{
  Interval, is_inside, union_duration, intersection_duration, extend_invalid_until_valid, clip_all,
  sweep, meet_all, meet_one, extend_each, next_start,
}
use miry_data_collector.Pipeline.Quality.Points.{count}
use miry_data_collector.Pipeline.Quality.Explicit.{
  Change, replay, end_of, explicit_invalid_intervals,
}
use miry_data_collector.Pipeline.Quality.Finalize.{
  Fault, Inputs, DayFiles, ValidityRow, SymbolFiles, day_ns, finalize_day, examined, check_universe,
  visit, visit_all, invalid_of, coverage_of, is_rejected, validate_validity, validate_from,
}
use miry_data_collector.Pipeline.Quality.Coverage.{union_duration-eq-count}
use miry_data_collector.Pipeline.Quality.Intersection.{
  intersection_duration-eq-count, union_duration-append,
}
use miry_data_collector.Pipeline.Quality.Extension.{
  extend_invalid_until_valid-keeps, extend_invalid_until_valid-adds,
}
use miry_data_collector.Pipeline.Quality.Episodes.{replay-open_episode, replay-closed_episode}
use miry_data_collector.Pipeline.Quality.Verdict.{Classifies, is_rejected-coverage_of}
use miry_data_collector.Pipeline.Quality.Validity.{Ordered, validate_validity-Ordered}
use miry_data_collector.Pipeline.Quality.Gate.{
  IsPublished, finalize_day-IsPublished, finalize_day-err,
}

-- The symbols, each a text of one character.
abbrev names : ℕ → List Text
names zero = []
names (suc n) = (n ∷ []) ∷ names n

abbrev collector : Text
collector = b'c' ∷ []

abbrev whole_day : List (Option ValidityRow)
whole_day =
    some (record {
      schema_version = 1;
      connection_id = some collector;
      valid_from_ns = day_ns;
      valid_to_ns = day_ns + day_ns;
    })
    ∷ []

abbrev files_of : Text → SymbolFiles
files_of symbol = record {
  validity = some whole_day;
  checkpoint =
      some (some (record { collector_id = collector; utc_date = 1; exchange_symbol = symbol }));
}

abbrev day_with : (Text → SymbolFiles) → Inputs
day_with files = record {
  collector_id = collector;
  utc_date = 1;
  symbols = names 60;
  normalized = some (record {
    expected_symbols = some (names 60);
    collection_window_start_ns = none;
    collection_window_end_ns = none;
  });
  gap_file = none;
  files = files;
}

abbrev no_files : Text → SymbolFiles
no_files symbol = record { validity = none; checkpoint = none }

abbrev clean_disk : DayFiles
clean_disk = record { processed = none; quality_rejected = none }

accepted_day : (finalize_day (day_with files_of) clean_disk).0 ≡ ok tt
unfolding finalize_day examined check_universe visit visit_all invalid_of coverage_of is_rejected
    validate_validity validate_from extend_invalid_until_valid extend_each next_start
    explicit_invalid_intervals union_duration intersection_duration clip_all sweep meet_all meet_one
accepted_day = refl

finalize_day-IsPublished_example :
    IsPublished (day_with files_of) (finalize_day (day_with files_of) clean_disk).1
finalize_day-IsPublished_example =
    finalize_day-IsPublished (day_with files_of) clean_disk accepted_day

-- A day without the files of its symbols.
fault_of_no_files :
    (finalize_day (day_with no_files) clean_disk).0 ≡ err (Fault.outputs_missing (names 60))
unfolding finalize_day examined check_universe visit visit_all
fault_of_no_files = refl

finalize_day-err_example : (finalize_day (day_with no_files) clean_disk).1.processed ≡ none
finalize_day-err_example =
    finalize_day-err (day_with no_files) clean_disk (Fault.outputs_missing (names 60))
      fault_of_no_files

valid_rows : validate_validity 1 whole_day ≡ ok ((day_ns, day_ns + day_ns) ∷ [])
unfolding validate_validity validate_from
valid_rows = refl

validate_validity-Ordered_example :
    Ordered (1 * day_ns) (1 * day_ns + day_ns) ((day_ns, day_ns + day_ns) ∷ [])
validate_validity-Ordered_example = validate_validity-Ordered 1 whole_day _ valid_rows

abbrev left : List Interval
left = (2, 6) ∷ (4, 9) ∷ (1, 3) ∷ []

abbrev right : List Interval
right = (8, 12) ∷ (5, 6) ∷ []

union_duration-eq-count_example :
    union_duration 2 10 left ≡ count (λ t. (leb 2 t && ltb t 10) && is_inside t left) 10
union_duration-eq-count_example = union_duration-eq-count 2 10 left

intersection_duration-eq-count_example :
    intersection_duration 2 10 left right
    ≡ count (λ t. (leb 2 t && ltb t 10) && (is_inside t left && is_inside t right)) 10
intersection_duration-eq-count_example = intersection_duration-eq-count 2 10 left right

union_duration-append_example :
    union_duration 2 10 (left ++ right) + intersection_duration 2 10 left right
    ≡ union_duration 2 10 left + union_duration 2 10 right
union_duration-append_example = union_duration-append 2 10 left right

is_rejected-coverage_of_example :
    (is_rejected (coverage_of 2 10 ((2, 6) ∷ []) ((6, 10) ∷ [])) ≡ false) ↔ (
      Classifies 2 10 ((2, 6) ∷ []) ((6, 10) ∷ [])
      × ((10 - 2) * 999 ≤ union_duration 2 10 ((2, 6) ∷ []) * 1000))
is_rejected-coverage_of_example =
    is_rejected-coverage_of 2 10 ((2, 6) ∷ []) ((6, 10) ∷ []) (omega arith)

extend_invalid_until_valid-keeps_example :
    is_inside 5 (extend_invalid_until_valid 20 ((9, 20) ∷ []) ((4, 6) ∷ [])) ≡ true
extend_invalid_until_valid-keeps_example =
    extend_invalid_until_valid-keeps 20 5 ((9, 20) ∷ []) ((4, 6) ∷ []) (omega arith, tt) refl

inside_extension : is_inside 7 (extend_invalid_until_valid 20 ((9, 20) ∷ []) ((4, 6) ∷ [])) ≡ true
unfolding extend_invalid_until_valid extend_each next_start
inside_extension = refl

extend_invalid_until_valid-adds_example :
    (is_inside 7 ((4, 6) ∷ []) ≡ true) ⊎ (is_inside 7 ((9, 20) ∷ []) ≡ false)
extend_invalid_until_valid-adds_example =
    extend_invalid_until_valid-adds 20 7 ((9, 20) ∷ []) ((4, 6) ∷ []) inside_extension

abbrev gap_change : ℕ → ℕ → GapState → Change
gap_change at id state = record { effective_ns = at; gap_id = id ∷ []; state = state; detail = [] }

replay-open_episode_example :
    In
      (5, 20)
      (replay 20 [] (
        (gap_change 3 1 GapState.opened ∷ [])
        ++ (gap_change 5 2 GapState.opened ∷ (gap_change 7 1 GapState.closed ∷ []))))
replay-open_episode_example =
    replay-open_episode 20 [] (gap_change 3 1 GapState.opened ∷ [])
      (gap_change 7 1 GapState.closed ∷ []) (gap_change 5 2 GapState.opened) refl (refl, tt)

replay-closed_episode_example :
    In
      (3, end_of (gap_change 7 1 GapState.closed))
      (replay 20 [] (
        []
        ++ (gap_change 3 1 GapState.opened
            ∷ ((gap_change 5 2 GapState.opened ∷ []) ++ (gap_change 7 1 GapState.closed ∷ [])))))
replay-closed_episode_example =
    replay-closed_episode 20 [] [] (gap_change 5 2 GapState.opened ∷ []) []
      (gap_change 3 1 GapState.opened) (gap_change 7 1 GapState.closed) refl (refl, tt) refl refl
