-- ===== src/Collector/Gaps/Examples.antt =====
-- A gap over three days, at concrete inputs of src/miry/collector/gaps.py.
use miry_data_collector.Base.{◌+◌, ◌*◌, ◌≡◌, refl, true, false, none, some, [], ◌∷◌, arith}
use miry_data_collector.Base.Result.{ok}
use miry_data_collector.Contracts.Gap.{
  GapEvent, GapState, GapReason, validate_affected_from, accepts_gap,
}
use miry_data_collector.Contracts.Symbols.{TextMethods}
use miry_data_collector.Contracts.Chunks.{day_length_ns}
use miry_data_collector.Collector.DayIndex.{DayIndex}
use miry_data_collector.Collector.Gaps.{Printing, GapJournal, open_gap, close_gap}
use miry_data_collector.Collector.Gaps.Rolling.{IsFree}
use miry_data_collector.Collector.Gaps.Story.{IsPair, of_day}
use miry_data_collector.Collector.Gaps.Refinement.{close_gap-refines}
use miry_data_collector.Pipeline.Quality.Explicit.{explicit_invalid_intervals}

abbrev printing : Printing
printing = record {
  show = λ n. n ∷ [];
  isoformat = λ n. n ∷ [];
  sha256_of = λ e. [];
  size_of = λ e. 1;
}

abbrev empty_index : DayIndex
empty_index = record {
  collector_id = b'c' ∷ [];
  days = λ d. record { journal = none; ready = []; acked = []; sealed = none };
}

abbrev journal : GapJournal
journal = record {
  collector_id = b'c' ∷ [];
  data_contract_hash = [];
  universe_hash = [];
  index = empty_index;
  open_states = [];
  gap_files = [];
  writes = [];
}

journal-IsFree : IsFree 10 journal
journal-IsFree = record { unsealed = λ d k. refl; sound = refl }

abbrev opened : GapEvent
opened = record {
  gap_id = b'g' ∷ [];
  state = GapState.opened;
  reason = GapReason.connection_lost;
  collector_id = b'c' ∷ [];
  connection_id = none;
  exchange_symbols = [];
  stream_types = [];
  observed_at_realtime_ns = 10 * day_length_ns + 9;
  affected_from_realtime_ns = some (10 * day_length_ns + 5);
  detail = [];
}

abbrev closing : GapEvent
closing = record opened {
  state = GapState.closed;
  observed_at_realtime_ns = 12 * day_length_ns + 7;
  affected_from_realtime_ns = none;
}

-- The event as it is written, with an id of ten characters.
abbrev written : GapEvent
written = record opened {
  gap_id = b'g' ∷ b'a' ∷ b'p' ∷ b'_' ∷ b'0' ∷ b'0' ∷ b'0' ∷ b'0' ∷ b'0' ∷ b'1' ∷ [];
}

abbrev plain : TextMethods
plain = record { strip = λ s. s; normalize_nfc = λ s. s; upper = λ s. s; isalnum = λ s. true }

accepts_run : (accepts_gap plain written ≡ true) × (accepts_gap plain opened ≡ false)
unfolding accepts_gap validate_affected_from
accepts_run = (refl, refl)

accepted : validate_affected_from opened ≡ true
unfolding validate_affected_from
accepted = refl

pair : IsPair [] opened closing
pair = record {
  opens = refl;
  closes = refl;
  same_gap = refl;
  opened_concerns = refl;
  closing_concerns = refl;
}

-- The whole day between.
close_gap-refines_example :
    (j1 : GapJournal) × (j2 : GapJournal) × (open_gap printing 3 opened journal ≡ ok j1)
    × (close_gap printing 4 closing j1 ≡ ok j2)
    × (explicit_invalid_intervals []
          (11 * day_length_ns)
          (11 * day_length_ns + day_length_ns)
          (some (of_day 11 j2.gap_files))
        ≡ (11 * day_length_ns, 12 * day_length_ns) ∷ [])
close_gap-refines_example =
    close_gap-refines printing 3 4 [] opened closing journal 11 (10 * day_length_ns + 5)
      (12 * day_length_ns + 7) refl journal-IsFree accepted pair refl refl refl refl refl
      (omega arith) (omega arith) (omega arith) (omega arith)
