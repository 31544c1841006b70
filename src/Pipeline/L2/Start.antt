-- ===== src/Pipeline/L2/Start.antt =====
-- What a day's reconstruction starts from, src/miry/pipeline/l2.py. A marker file is `none` where it
-- does not exist; a date is the number of its day since the epoch.
use miry_data_collector.Base.{
  ℕ, ◌+◌, ◌*◌, Bool, true, false, not, ◌&&◌, ◌||◌, Option, none, some, List, ltb, leb, ◌==◌, any,
  is_some,
}
use miry_data_collector.Base.Result.{Result, ok, err, ◌>>◌, raise_if}
use miry_data_collector.Base.Text.{Text, text_eq}
use miry_data_collector.Pipeline.L2.Book.{is_valid}
use miry_data_collector.Pipeline.L2.Checkpoint.{
  DayFault, normalized_marker_missing, formal_start_invalid, previous_universe_invalid,
  checkpoint_invalid, checkpoint_identity, checkpoint_not_at_boundary, L2Checkpoint,
  anchor_is_invalid, state_is_invalid,
}

abbrev pub day_ns : ℕ
day_ns = 86400 * 1000000000

-- The value of `formal_start_realtime_ns` in the marker of the day.
pub data FormalStart : Type 0 where
  absent not_an_integer : FormalStart
  at : ℕ → FormalStart

-- The symbols of the marker of the day before; the outer `none` is not a list, an inner one no text.
abbrev pub ExpectedSymbols : Type 0
ExpectedSymbols = Option (List (Option Text))

pub record Markers : Type 0 where
  pub formal_start : Option FormalStart
  pub previous_symbols : Option ExpectedSymbols

abbrev pub is_other_than_text : Option Text → Bool
is_other_than_text t = not (is_some t)

abbrev pub is_symbol : Text → Option Text → Bool
is_symbol symbol none = false
is_symbol symbol (some t) = text_eq symbol t

abbrev pub was_not_expected : Text → Option ExpectedSymbols → Result DayFault Bool
was_not_expected symbol none = ok false
was_not_expected symbol (some none) = err previous_universe_invalid
was_not_expected symbol (some (some symbols)) = do
  raise_if (any is_other_than_text symbols) previous_universe_invalid
  ok (not (any (is_symbol symbol) symbols))

abbrev pub starts_at : ℕ → Text → Markers → Option FormalStart → Result DayFault Bool
starts_at date symbol m none = err normalized_marker_missing
starts_at date symbol m (some FormalStart.absent) = was_not_expected symbol m.previous_symbols
starts_at date symbol m (some FormalStart.not_an_integer) = err formal_start_invalid
starts_at date symbol m (some (FormalStart.at ns)) = do
  raise_if (not (leb (date * day_ns) ns && ltb ns (date * day_ns + day_ns))) formal_start_invalid
  ok true

-- `_can_start_without_previous_checkpoint`
unfoldable pub can_start_without_previous_checkpoint : ℕ → Text → Markers → Result DayFault Bool
can_start_without_previous_checkpoint date symbol m = starts_at date symbol m m.formal_start

-- What the validators of the two models refuse.
abbrev pub is_refused : L2Checkpoint → Bool
is_refused c = any anchor_is_invalid c.anchored_books || state_is_invalid c

abbrev pub is_other_checkpoint : Text → ℕ → Text → L2Checkpoint → Bool
is_other_checkpoint collector date symbol c =
    not (text_eq c.collector_id collector)
    || (not (c.utc_date + 1 == date) || not (text_eq c.exchange_symbol symbol))

abbrev pub is_at : ℕ → Option ℕ → Bool
is_at ns none = false
is_at ns (some through) = through == ns

-- `_load_previous_checkpoint`
unfoldable pub load_previous_checkpoint :
    Text → ℕ → Text → Option L2Checkpoint → Result DayFault (Option L2Checkpoint)
load_previous_checkpoint collector date symbol none = ok none
load_previous_checkpoint collector date symbol (some c) = do
  raise_if (is_refused c) checkpoint_invalid
  raise_if (is_other_checkpoint collector date symbol c) checkpoint_identity
  raise_if (is_valid c.state && not (is_at (date * day_ns) c.valid_through_ns))
      checkpoint_not_at_boundary
  ok (some c)
