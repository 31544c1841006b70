-- ===== src/Collector/Gaps.antt =====
-- `GapJournal`, src/miry/collector/gaps.py. An instant is in nanoseconds, and a reading of the clock
-- and the new gap's id are arguments. The state keeps the state files of the open gaps by gap id, the
-- gap files in the order of writing, and the outcomes of the coming writes: a write that fails is an
-- OSError, and behind the end of the list all succeed. The state files' own writes succeed; the
-- checks of the symbols and lengths of a new event, and those of its manifest, are left out.
use miry_data_collector.Base.{
  ℕ, zero, suc, ◌+◌, ◌-◌, ◌*◌, ◌%◌, Bool, true, false, not, Option, none, some, List, [], ◌∷◌, ◌++◌,
  if◌then◌else◌, ◌==◌,
}
use miry_data_collector.Base.Result.{Result, ok, err, ◌>>=◌, ◌>>◌, raise_if}
use miry_data_collector.Base.Sorting.{sort_by}
use miry_data_collector.Base.Text.{Text, text_leb}
use miry_data_collector.Base.Dict.{Dict, lookup, insert, erase}
use miry_data_collector.Base.Keys.{keys}
use miry_data_collector.Contracts.Gap.{GapEvent, GapState, validate_affected_from}
use miry_data_collector.Contracts.Raw.{WriterGroup}
use miry_data_collector.Contracts.Chunks.{ChunkManifest, ContentType, day_length_ns, date_of}
use miry_data_collector.Collector.DayIndex.{DayIndex, IndexFault, is_sealed, record_generated}
use miry_data_collector.Pipeline.Quality.Explicit.{continues_text}
pub mod Rolling
pub mod Story
pub mod Split
pub mod Refinement
mod Examples

-- `str(int)`, `date.isoformat`, and the hash and size of the file of an event
pub record Printing : Type 0 where
  pub show : ℕ → Text
  pub isoformat : ℕ → Text
  pub sha256_of : GapEvent → Text
  pub size_of : GapEvent → ℕ

pub record GapJournal : Type 0 where
  pub collector_id : Text
  pub data_contract_hash : Text
  pub universe_hash : Text
  pub index : DayIndex
  pub open_states : Dict GapEvent
  pub gap_files : List GapEvent
  pub writes : List Bool

pub data JournalFault : Type 0 where
  index_fault : IndexFault → JournalFault
  event_refused boundary_not_midnight : JournalFault

abbrev pub lift : {A : Type 0} → Result IndexFault A → Result JournalFault A
lift (ok a) = ok a
lift (err e) = err (index_fault e)

abbrev pub effective_of : GapState → Option ℕ → ℕ → ℕ
effective_of GapState.opened (some affected) observed = affected
effective_of _ _ observed = observed

-- `_event_effective_ns`
abbrev pub event_effective_ns : GapEvent → ℕ
event_effective_ns e = effective_of e.state e.affected_from_realtime_ns e.observed_at_realtime_ns

-- `_event_date`
abbrev pub event_date : GapEvent → ℕ
event_date e = date_of (event_effective_ns e)

abbrev pub state_text : GapState → Text
state_text GapState.opened = b'o' ∷ b'p' ∷ b'e' ∷ b'n' ∷ []
state_text GapState.closed = b'c' ∷ b'l' ∷ b'o' ∷ b's' ∷ b'e' ∷ b'd' ∷ []

abbrev pub continued_text : Text
continued_text =
    b'g' ∷ b'a' ∷ b'p' ∷ b' ' ∷ b'c' ∷ b'o' ∷ b'n' ∷ b't' ∷ b'i' ∷ b'n' ∷ b'u' ∷ b'e' ∷ b'd' ∷ b' '
    ∷ b'f' ∷ b'r' ∷ b'o' ∷ b'm' ∷ b' ' ∷ b'a' ∷ b' ' ∷ b'p' ∷ b'r' ∷ b'e' ∷ b'v' ∷ b'i' ∷ b'o'
    ∷ b'u' ∷ b's' ∷ b' ' ∷ b'U' ∷ b'T' ∷ b'C' ∷ b' ' ∷ b'd' ∷ b'a' ∷ b'y' ∷ []

-- The events of `_roll_state_to` at the start of a day.
abbrev pub closing_at : GapEvent → ℕ → GapEvent
closing_at opened day_start = record opened {
  state = GapState.closed;
  observed_at_realtime_ns = day_start - 1;
  affected_from_realtime_ns = none;
  detail = continues_text;
}

abbrev pub continued_at : GapEvent → ℕ → GapEvent
continued_at opened day_start = record opened {
  state = GapState.opened;
  observed_at_realtime_ns = day_start;
  affected_from_realtime_ns = some day_start;
  detail = continued_text;
}

-- `opened.affected_from_realtime_ns or opened.observed_at_realtime_ns`: zero counts as absent
abbrev pub affected_or : Option ℕ → ℕ → ℕ
affected_or none observed = observed
affected_or (some affected) observed = if affected == 0 then observed else affected

abbrev pub opened_date : GapEvent → ℕ
opened_date e = date_of (affected_or e.affected_from_realtime_ns e.observed_at_realtime_ns)

-- The first write, the one behind `recover_io`, and the writes to come.
abbrev pub tries : List Bool → Bool × (Bool × List Bool)
tries [] = (true, (true, []))
tries (true ∷ rest) = (true, (true, rest))
tries (false ∷ []) = (false, (true, []))
tries (false ∷ second ∷ rest) = (false, (second, rest))

abbrev pub made : {A : Type 0} → Bool → A → Option A
made true a = some a
made false a = none

abbrev pub save_state : GapEvent → GapJournal → GapJournal
save_state e j = record j { open_states = insert e.gap_id e j.open_states }

abbrev pub remove_open_state : Text → GapJournal → GapJournal
remove_open_state gap_id j = record j { open_states = erase gap_id j.open_states }

module _ (P : Printing) where
  abbrev pub artifact_id : GapEvent → Text
  artifact_id e =
      e.gap_id ++ ((b'-' ∷ P.show e.observed_at_realtime_ns) ++ (b'-' ∷ state_text e.state))

  abbrev pub data_path : GapEvent → Text
  data_path e =
      (b'd' ∷ b'a' ∷ b't' ∷ b'e' ∷ b'=' ∷ P.isoformat (event_date e))
      ++ ((b'/'
            ∷ b'w'
            ∷ b'r'
            ∷ b'i'
            ∷ b't'
            ∷ b'e'
            ∷ b'r'
            ∷ b'='
            ∷ b'c'
            ∷ b'o'
            ∷ b'n'
            ∷ b't'
            ∷ b'r'
            ∷ b'o'
            ∷ b'l'
            ∷ b'/'
            ∷ artifact_id e)
          ++ (b'.' ∷ b'g' ∷ b'a' ∷ b'p' ∷ b'.' ∷ b'j' ∷ b's' ∷ b'o' ∷ b'n' ∷ []))

  -- The manifest that `_write` writes; the instant is that of writing.
  abbrev pub manifest_of : ℕ → GapEvent → GapJournal → ChunkManifest
  manifest_of now e j = record {
    ref = record {
      chunk_id = artifact_id e;
      data_path = data_path e;
      sha256 = P.sha256_of e;
      size_bytes = P.size_of e;
      content_type = ContentType.gap_json;
    };
    collector_id = j.collector_id;
    writer_group = WriterGroup.control;
    utc_date = event_date e;
    event_count = 1;
    min_app_receive_realtime_ns = event_effective_ns e;
    max_app_receive_realtime_ns = event_effective_ns e;
    data_contract_hash = j.data_contract_hash;
    universe_hash = j.universe_hash;
    created_at = now;
  }

  -- `_publish`
  unfoldable pub publish : ℕ → GapEvent → GapJournal → Result JournalFault GapJournal
  publish now e j =
      let manifest = manifest_of now e j in
      lift (
        record_generated (event_date e) (made (tries j.writes).0 manifest)
          (made (tries j.writes).1.0 manifest) j.index)
      >>= λ index. ok (record j {
        index = index;
        gap_files = j.gap_files ++ (e ∷ []);
        writes = (tries j.writes).1.1;
      })

  -- The end of the previous day, unless that day is sealed.
  abbrev pub publish_end : ℕ → ℕ → GapEvent → GapJournal → Result JournalFault GapJournal
  publish_end now day opened j =
      let published = publish now (closing_at opened (day * day_length_ns)) j in
      if is_sealed (day - 1) j.index then ok j else published

  -- The loop of `_roll_state_to` over the days from `day` on.
  unfoldable pub roll_days : ℕ → ℕ → ℕ → GapEvent → GapJournal → Result JournalFault GapJournal
  roll_days now zero day opened j = ok j
  roll_days now (suc n) day opened j =
      let next = continued_at opened (day * day_length_ns) in
      publish_end now day opened j >>= λ ended.
      publish now next ended >>= λ started. roll_days now n (suc day) next (save_state next started)

  -- `_roll_state_to`
  abbrev pub roll_state_to : ℕ → ℕ → GapEvent → GapJournal → Result JournalFault GapJournal
  roll_state_to now target opened j =
      roll_days now (target - opened_date opened) (suc (opened_date opened)) opened j

  -- `open`, with the event that it makes
  unfoldable pub open_gap : ℕ → GapEvent → GapJournal → Result JournalFault GapJournal
  open_gap now event j =
      raise_if (not (validate_affected_from event)) event_refused
      >> (publish now event j >>= λ published. ok (save_state event published))

  abbrev pub roll_known : ℕ → ℕ → Option GapEvent → GapJournal → Result JournalFault GapJournal
  roll_known now target none j = ok j
  roll_known now target (some opened) j = roll_state_to now target opened j

  -- `close`, with the event that it makes
  unfoldable pub close_gap : ℕ → GapEvent → GapJournal → Result JournalFault GapJournal
  close_gap now event j =
      roll_known now (date_of event.observed_at_realtime_ns) (lookup event.gap_id j.open_states) j
      >>= λ rolled.
          publish now event rolled >>= λ published. ok (remove_open_state event.gap_id published)

  abbrev pub roll_all : ℕ → ℕ → List Text → GapJournal → Result JournalFault GapJournal
  roll_all now target [] j = ok j
  roll_all now target (gap_id ∷ gap_ids) j =
      roll_known now target (lookup gap_id j.open_states) j >>= λ rolled.
      roll_all now target gap_ids rolled

  -- `rollover`
  unfoldable pub rollover : ℕ → ℕ → GapJournal → Result JournalFault GapJournal
  rollover now boundary j =
      raise_if (not (boundary % day_length_ns == 0)) boundary_not_midnight
      >> roll_all now (date_of boundary) (sort_by text_leb (keys j.open_states)) j
