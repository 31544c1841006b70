-- ===== src/Pipeline/Quality/Finalize.antt =====
-- `finalize_day`, src/miry/pipeline/quality.py. Dates are days since the epoch. What the JSON parser
-- makes of a line is an input: `none` is a line that it refuses or that lacks a field.
use miry_data_collector.Base.{
  ℕ, ◌+◌, ◌-◌, ◌*◌, Bool, true, false, not, ◌&&◌, ◌||◌, Option, none, some, List, [], ◌∷◌, ◌++◌,
  if◌then◌else◌, ltb, leb, ◌==◌, length,
}
use miry_data_collector.Base.Result.{Result, ok, err, ◌>>=◌, ◌>>◌, raise_if}
use miry_data_collector.Base.Sorting.{sort_by}
use miry_data_collector.Base.Counting.{dedupe}
use miry_data_collector.Base.Text.{Text, text_eq, text_leb}
use miry_data_collector.Contracts.Gap.{GapEvent}
use miry_data_collector.Pipeline.Quality.Durations.{
  Interval, union_duration, intersection_duration, extend_invalid_until_valid,
}
use miry_data_collector.Pipeline.Quality.Explicit.{explicit_invalid_intervals}

pub data Fault : Type 0 where
  not_normalized universe_invalid symbols_mismatch window_outside_day : Fault
  validity_row validity_order checkpoint_invalid checkpoint_identity : Fault
  outputs_missing : List Text → Fault
  coverage_rejected : List Text → Fault

pub record ValidityRow : Type 0 where
  pub schema_version : ℕ
  pub connection_id : Option Text
  pub valid_from_ns : ℕ
  pub valid_to_ns : ℕ

pub record CheckpointIdentity : Type 0 where
  pub collector_id : Text
  pub utc_date : ℕ
  pub exchange_symbol : Text

-- The two outputs of a symbol; the outer `none` is a file that does not exist.
pub record SymbolFiles : Type 0 where
  pub validity : Option (List (Option ValidityRow))
  pub checkpoint : Option (Option CheckpointIdentity)

abbrev pub day_ns : ℕ
day_ns = 86400 * 1000000000

-- `not isinstance(connection_id, str) or not connection_id`
abbrev pub is_unnamed : Option Text → Bool
is_unnamed none = true
is_unnamed (some []) = true
is_unnamed (some (_ ∷ _)) = false

abbrev pub starts_before : ℕ → Option ℕ → Bool
starts_before start none = false
starts_before start (some previous_end) = ltb start previous_end

abbrev pub is_disordered : ℕ → Option ℕ → ValidityRow → Bool
is_disordered date previous_end row =
    not (row.schema_version == 1)
    || (is_unnamed row.connection_id
        || (not (
              leb (date * day_ns) row.valid_from_ns
              && (ltb row.valid_from_ns row.valid_to_ns
                  && leb row.valid_to_ns (date * day_ns + day_ns)))
            || starts_before row.valid_from_ns previous_end))

-- The loop of `_validate_validity`, on the end of the interval before.
unfoldable pub validate_from :
    ℕ → Option ℕ → List (Option ValidityRow) → Result Fault (List Interval)
validate_from date previous_end [] = ok []
validate_from date previous_end (none ∷ rows) = err validity_row
validate_from date previous_end (some row ∷ rows) = do
  raise_if (is_disordered date previous_end row) validity_order
  rest ← validate_from date (some row.valid_to_ns) rows
  ok ((row.valid_from_ns, row.valid_to_ns) ∷ rest)

-- `_validate_validity`
unfoldable pub validate_validity : ℕ → List (Option ValidityRow) → Result Fault (List Interval)
unfolding validate_from
validate_validity date rows = validate_from date none rows

pub record Coverage : Type 0 where
  pub expected_ns : ℕ
  pub valid_ns : ℕ
  pub explicit_invalid_ns : ℕ
  pub conflicting_ns : ℕ
  pub unclassified_ns : ℕ

abbrev pub minimum_l2_valid_ratio_per_mille : ℕ
minimum_l2_valid_ratio_per_mille = 999

-- The accounted time is at most the expected time, so the subtraction is the source's.
unfoldable pub coverage_of : ℕ → ℕ → List Interval → List Interval → Coverage
coverage_of lo hi valid invalid = record {
  expected_ns = hi - lo;
  valid_ns = union_duration lo hi valid;
  explicit_invalid_ns = union_duration lo hi invalid;
  conflicting_ns = intersection_duration lo hi valid invalid;
  unclassified_ns = hi - lo - union_duration lo hi (valid ++ invalid);
}

-- Whether a symbol's coverage is below the contract.
unfoldable pub is_rejected : Coverage → Bool
is_rejected c =
    ltb (c.valid_ns * 1000) (c.expected_ns * minimum_l2_valid_ratio_per_mille)
    || (not (c.unclassified_ns == 0) || not (c.conflicting_ns == 0))

pub record Normalized : Type 0 where
  pub expected_symbols : Option (List Text)
  pub collection_window_start_ns : Option ℕ
  pub collection_window_end_ns : Option ℕ

pub record Inputs : Type 0 where
  pub collector_id : Text
  pub utc_date : ℕ
  pub symbols : List Text
  pub normalized : Option Normalized
  pub gap_file : Option (List GapEvent)
  pub files : Text → SymbolFiles

pub record Tally : Type 0 where
  pub missing : List Text
  pub coverage : List (Text × Coverage)
  pub rejected : List Text

abbrev pub is_other_checkpoint : Inputs → Text → CheckpointIdentity → Bool
is_other_checkpoint day symbol c =
    not (text_eq c.collector_id day.collector_id)
    || (not (c.utc_date == day.utc_date) || not (text_eq c.exchange_symbol symbol))

-- The invalid intervals that a symbol's coverage is computed from.
unfoldable pub invalid_of : Inputs → ℕ → ℕ → Text → List Interval → List Interval
invalid_of day lo hi symbol valid =
    extend_invalid_until_valid hi valid (explicit_invalid_intervals symbol lo hi day.gap_file)

abbrev pub classify : Text → Coverage → Tally → Tally
classify symbol c tally = record tally {
  coverage = tally.coverage ++ ((symbol, c) ∷ []);
  rejected = if is_rejected c then tally.rejected ++ (symbol ∷ []) else tally.rejected;
}

abbrev pub parsed : Option CheckpointIdentity → Result Fault CheckpointIdentity
parsed none = err checkpoint_invalid
parsed (some c) = ok c

-- One round of the loop over the symbols, on the contents of the symbol's two files.
unfoldable pub visit :
    Inputs
    → ℕ
    → ℕ
    → Text
    → Option (List (Option ValidityRow))
    → Option (Option CheckpointIdentity)
    → Tally
    → Result Fault Tally
visit day lo hi symbol (some rows) (some content) tally = do
  valid ← validate_validity day.utc_date rows
  checkpoint ← parsed content
  raise_if (is_other_checkpoint day symbol checkpoint) checkpoint_identity
  ok (classify symbol (coverage_of lo hi valid (invalid_of day lo hi symbol valid)) tally)
visit day lo hi symbol _ _ tally = ok (record tally { missing = tally.missing ++ (symbol ∷ []) })

unfoldable pub visit_all : Inputs → ℕ → ℕ → List Text → Tally → Result Fault Tally
visit_all day lo hi [] tally = ok tally
visit_all day lo hi (symbol ∷ rest) tally =
    visit day lo hi symbol (day.files symbol).validity (day.files symbol).checkpoint tally
    >>= λ next. visit_all day lo hi rest next

-- The quality marker, less the fields that it copies from the normalized day and the two ratios
-- that it prints.
pub record QualityMarker : Type 0 where
  pub symbols : List Text
  pub collection_window_start_ns : ℕ
  pub collection_window_end_ns : ℕ
  pub l2_coverage : List (Text × Coverage)
  pub rejected_symbols : List Text

-- The two files that a run may publish.
pub record DayFiles : Type 0 where
  pub processed : Option QualityMarker
  pub quality_rejected : Option QualityMarker

abbrev pub texts_eq : List Text → List Text → Bool
texts_eq [] [] = true
texts_eq (s ∷ ss) (t ∷ ts) = text_eq s t && texts_eq ss ts
texts_eq _ _ = false

abbrev pub or_default : Option ℕ → ℕ → ℕ
or_default none d = d
or_default (some v) d = v

-- The authoritative universe: sixty symbols, no two the same, and the requested ones.
unfoldable pub check_universe : List Text → Option (List Text) → Result Fault (Unit {0})
check_universe symbols none = err universe_invalid
check_universe symbols (some expected) = do
  raise_if (not (length expected == 60) || not (length (dedupe expected) == 60)) universe_invalid
  raise_if (not (texts_eq (sort_by text_leb symbols) (sort_by text_leb expected))) symbols_mismatch

abbrev pub window_is_outside : ℕ → ℕ → ℕ → Bool
window_is_outside date lo hi =
    not (leb (date * day_ns) lo && (ltb lo hi && leb hi (date * day_ns + day_ns)))

abbrev pub is_nonempty : List Text → Bool
is_nonempty [] = false
is_nonempty (_ ∷ _) = true

-- Everything above the publication: the window and the tally of all symbols.
unfoldable pub examined : Inputs → Normalized → ℕ → ℕ → Result Fault (Interval × Tally)
examined day normalized lo hi = do
  check_universe day.symbols normalized.expected_symbols
  raise_if (window_is_outside day.utc_date lo hi) window_outside_day
  tally ← visit_all day lo hi day.symbols (record { missing = []; coverage = []; rejected = [] })
  raise_if (is_nonempty tally.missing) (outputs_missing tally.missing)
  ok ((lo, hi), tally)

abbrev pub examine : Inputs → Option Normalized → Result Fault (Interval × Tally)
examine day none = err not_normalized
examine day (some normalized) =
    examined day normalized
      (or_default normalized.collection_window_start_ns (day.utc_date * day_ns))
      (or_default normalized.collection_window_end_ns (day.utc_date * day_ns + day_ns))

abbrev pub marker_of : Inputs → Interval → Tally → QualityMarker
marker_of day window tally = record {
  symbols = day.symbols;
  collection_window_start_ns = window.0;
  collection_window_end_ns = window.1;
  l2_coverage = tally.coverage;
  rejected_symbols = tally.rejected;
}

-- A rejected day is marked as such and raises; an accepted one is published, and an older
-- rejection goes.
abbrev pub publish :
    Inputs → DayFiles → Result Fault (Interval × Tally) → Result Fault (Unit {0}) × DayFiles
publish day disk (err fault) = (err fault, disk)
publish day disk (ok (window, tally)) =
    if is_nonempty tally.rejected
    then (
      err (coverage_rejected tally.rejected),
      record disk { quality_rejected = some (marker_of day window tally) },
    )
    else (ok tt, record { processed = some (marker_of day window tally); quality_rejected = none })

unfoldable pub finalize_day : Inputs → DayFiles → Result Fault (Unit {0}) × DayFiles
finalize_day day disk = publish day disk (examine day day.normalized)
