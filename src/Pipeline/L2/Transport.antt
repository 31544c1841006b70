-- ===== src/Pipeline/L2/Transport.antt =====
-- Transport gaps in a day, src/miry/pipeline/l2.py: how they end and restore the authority.
use miry_data_collector.Base.{
  ℕ, Bool, not, ◌&&◌, ◌||◌, Option, none, some, List, [], ◌∷◌, ◌++◌, if◌then◌else◌, leb, ◌==◌, any,
  filter,
}
use miry_data_collector.Base.Sorting.{sort_by}
use miry_data_collector.Base.Text.{Text, text_eq, text_leb}
use miry_data_collector.Base.Dict.{Dict, lookup}
use miry_data_collector.Contracts.Gap.{GapEvent, GapState, is_opened, is_depth, state_leb}
use miry_data_collector.Pipeline.L2.Levels.{Decimals}
use miry_data_collector.Pipeline.L2.Book.{
  L2State, Reason, transport, StateChange, ConnectionBook, is_valid, invalidate,
}
use miry_data_collector.Pipeline.L2.Checkpoint.{is_empty}

pub data EndReason : Type 0 where
  transport_gap connection_switch utc_day_end : EndReason
  change : Reason → EndReason

pub record ValidInterval : Type 0 where
  pub valid_from_ns : ℕ
  pub valid_to_ns : ℕ
  pub connection_id : Text
  pub end_reason : EndReason

-- `_gap_effective_ns`
abbrev pub effective_or : GapState → Option ℕ → ℕ → ℕ
effective_or GapState.opened (some affected) observed = affected
effective_or _ _ observed = observed

abbrev pub gap_effective_ns : GapEvent → ℕ
gap_effective_ns e = effective_or e.state e.affected_from_realtime_ns e.observed_at_realtime_ns

abbrev pub gap_leb : GapEvent → GapEvent → Bool
gap_leb e f =
    if gap_effective_ns e == gap_effective_ns f
    then if text_eq e.gap_id f.gap_id then state_leb e.state f.state else text_leb e.gap_id f.gap_id
    else leb (gap_effective_ns e) (gap_effective_ns f)

-- Whether an event is about the depth stream of a symbol.
abbrev pub is_of : Text → GapEvent → Bool
is_of symbol e =
    (is_empty e.exchange_symbols || any (text_eq symbol) e.exchange_symbols)
    && (is_empty e.stream_types || any is_depth e.stream_types)

-- `_transport_gap_events`
unfoldable pub transport_gap_events : Text → List GapEvent → List GapEvent
transport_gap_events symbol events = sort_by gap_leb (filter (is_of symbol) events)

-- The interval that ends, where an authority and its start are held.
abbrev pub interval_of : Option Text → Option ℕ → ℕ → EndReason → List ValidInterval
interval_of (some connection) (some start) end_ns reason =
    record {
      valid_from_ns = start;
      valid_to_ns = end_ns;
      connection_id = connection;
      end_reason = reason;
    }
    ∷ []
interval_of _ _ end_ns reason = []

-- `set.add` and `set.discard`
abbrev pub add : Text → List Text → List Text
add gap gaps = if any (text_eq gap) gaps then gaps else gap ∷ gaps

abbrev pub discard : Text → List Text → List Text
discard gap gaps = filter (λ g. not (text_eq gap g)) gaps

module _ (D : Decimals) where
  pub record DayState : Type 0 where
    pub books : Dict (ConnectionBook D)
    pub changes : List StateChange
    pub intervals : List ValidInterval
    pub authority : Option Text
    pub valid_from : Option ℕ
    pub last_valid_connection : Option Text
    pub active_gaps : List Text

  abbrev pub empty_day : DayState
  empty_day = record {
    books = [];
    changes = [];
    intervals = [];
    authority = none;
    valid_from = none;
    last_valid_connection = none;
    active_gaps = [];
  }

  abbrev pub gapped_change : GapEvent → ConnectionBook D → StateChange
  gapped_change e b = record {
    connection_id = b.connection_id;
    at_ns = gap_effective_ns e;
    state = L2State.gapped;
    update_id = b.previous_update_id;
    reason = transport e.reason;
  }

  -- The changes that an opening gap reports.
  abbrev pub gapped_changes : GapEvent → Dict (ConnectionBook D) → List StateChange
  gapped_changes e [] = []
  gapped_changes e ((_, b) ∷ books) =
      let rest = gapped_changes e books in
      if is_valid b.state then gapped_change e b ∷ rest else rest

  abbrev pub invalidate_all : Dict (ConnectionBook D) → Dict (ConnectionBook D)
  invalidate_all [] = []
  invalidate_all ((k, b) ∷ books) = (k, invalidate D b) ∷ invalidate_all books

  unfoldable pub open_gap : GapEvent → DayState → DayState
  open_gap e s = record {
    books = invalidate_all s.books;
    changes = s.changes ++ gapped_changes e s.books;
    intervals =
        s.intervals ++ interval_of s.authority s.valid_from (gap_effective_ns e) transport_gap;
    authority = none;
    valid_from = none;
    last_valid_connection = none;
    active_gaps = add e.gap_id s.active_gaps;
  }

  -- Authority goes back to the last valid connection if its book is still valid.
  abbrev pub restore : ℕ → DayState → Option Text → Option (ConnectionBook D) → DayState
  restore at s (some last) (some b) =
      let s' = record s { authority = some last; valid_from = some at } in
      if is_valid b.state then s' else s
  restore at s _ _ = s

  abbrev pub book_of : Option Text → Dict (ConnectionBook D) → Option (ConnectionBook D)
  book_of none books = none
  book_of (some connection) books = lookup connection books

  unfoldable pub close_gap : GapEvent → DayState → DayState
  close_gap e s =
      let s' = record s { active_gaps = discard e.gap_id s.active_gaps } in
      if is_empty s'.active_gaps
      then restore e.observed_at_realtime_ns s' s.last_valid_connection
          (book_of s.last_valid_connection s.books)
      else s'

  -- `handle_gap`
  abbrev pub handle_gap : GapEvent → DayState → DayState
  handle_gap e s = if is_opened e.state then open_gap e s else close_gap e s

  -- The gaps that take effect at or before a row.
  unfoldable pub drain : ℕ → List GapEvent → DayState → List GapEvent × DayState
  drain at [] s = ([], s)
  drain at (e ∷ es) s =
      let rest = drain at es (handle_gap e s) in
      if leb (gap_effective_ns e) at then rest else (e ∷ es, s)

  unfoldable pub handle_all : List GapEvent → DayState → DayState
  handle_all [] s = s
  handle_all (e ∷ es) s = handle_all es (handle_gap e s)
