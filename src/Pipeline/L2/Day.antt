-- ===== src/Pipeline/L2/Day.antt =====
-- `L2DayReconstructor.run`, src/miry/pipeline/l2.py: the rows of a day and the transport gaps, in
-- the order in which they take effect. A row of the input is a diff or a snapshot.
use miry_data_collector.Base.{
  ℕ, ◌+◌, ◌*◌, Bool, not, Option, none, some, List, [], ◌∷◌, ◌++◌, if◌then◌else◌, ltb, is_some,
  filter,
}
use miry_data_collector.Base.Result.{Result, ok, err, ◌>>=◌, ◌>>◌, raise_if}
use miry_data_collector.Base.Text.{Text, text_eq}
use miry_data_collector.Base.Dict.{Dict, lookup, insert}
use miry_data_collector.Contracts.Gap.{GapEvent}
use miry_data_collector.Pipeline.L2.Levels.{Decimals}
use miry_data_collector.Pipeline.L2.Book.{
  DepthDiff, DepthSnapshot, StateChange, ConnectionBook, Outcome, is_valid, fresh, on_snapshot,
  on_diff,
}
use miry_data_collector.Pipeline.L2.Checkpoint.{
  DayFault, defect, previous_checkpoint_required, checkpoint_without_connection,
  repeated_connection, AnchoredBookCheckpoint, L2Checkpoint, is_empty, from_checkpoint,
  from_anchor_checkpoint, build_checkpoint,
}
use miry_data_collector.Pipeline.L2.Start.{
  day_ns, Markers, can_start_without_previous_checkpoint, load_previous_checkpoint,
}
use miry_data_collector.Pipeline.L2.Transport.{
  change, connection_switch, utc_day_end, ValidInterval, transport_gap_events, interval_of,
  DayState, empty_day, book_of, drain, handle_all,
}

pub data Row : Type 0 where
  diff_row : DepthDiff → Row
  snapshot_row : DepthSnapshot → Row

abbrev pub row_connection : Row → Text
row_connection (diff_row d) = d.connection_id
row_connection (snapshot_row s) = s.connection_id

abbrev pub row_received : Row → ℕ
row_received (diff_row d) = d.received_ns
row_received (snapshot_row s) = s.received_ns

module _ (D : Decimals) where
  abbrev pub respond : Row → ConnectionBook D → Outcome D
  respond (diff_row d) b = on_diff D d b
  respond (snapshot_row s) b = on_snapshot D s b

  -- `books.setdefault`
  abbrev pub book_or_fresh : Text → Option (ConnectionBook D) → ConnectionBook D
  book_or_fresh connection none = fresh D connection
  book_or_fresh connection (some b) = b

  -- A connection that became valid.
  abbrev pub switch : Text → StateChange → DayState D → DayState D
  switch connection c s =
      let s' = record s { last_valid_connection = some connection } in
      let switched = record s' {
        intervals = s.intervals ++ interval_of s.authority s.valid_from c.at_ns connection_switch;
        authority = some connection;
        valid_from = some c.at_ns;
      } in
      if is_empty s.active_gaps then switched else s'

  abbrev pub forget : Text → Option Text → Option Text
  forget connection none = none
  forget connection (some last) = if text_eq last connection then none else some last

  -- A connection that is no longer valid.
  abbrev pub lapse : Text → StateChange → DayState D → Option Text → Option ℕ → DayState D
  lapse connection c s (some authority) (some start) =
      let lapsed = record s {
        intervals =
            s.intervals ++ interval_of (some authority) (some start) c.at_ns (change c.reason);
        authority = none;
        valid_from = none;
        last_valid_connection = forget connection s.last_valid_connection;
      } in
      if text_eq authority connection then lapsed else s
  lapse connection c s _ _ = s

  unfoldable pub record_change : Text → Option StateChange → DayState D → DayState D
  record_change connection none s = s
  record_change connection (some c) s =
      let s' = record s { changes = s.changes ++ (c ∷ []) } in
      if is_valid c.state
      then switch connection c s'
      else lapse connection c s' s.authority s.valid_from

  abbrev pub after_row : Row → DayState D → Outcome D → Result DayFault (DayState D)
  after_row row s (err e) = err (defect e)
  after_row row s (ok (c, b)) = ok (
      record_change (row_connection row) c
        (record s { books = insert (row_connection row) b s.books }))

  unfoldable pub take_row : Row → DayState D → Result DayFault (DayState D)
  take_row row s =
      after_row row s
        (respond row (book_or_fresh (row_connection row) (lookup (row_connection row) s.books)))

  -- The loop over the rows, with the gaps that are left behind it.
  unfoldable pub take_rows :
      List Row → List GapEvent → DayState D → Result DayFault (List GapEvent × DayState D)
  take_rows [] events s = ok (events, s)
  take_rows (row ∷ rows) events s =
      let drained = drain D (row_received row) events s in
      take_row row drained.1 >>= (λ s'. take_rows rows drained.0 s')

  abbrev pub add_anchored :
      List AnchoredBookCheckpoint
      → Dict (ConnectionBook D)
      → Result DayFault (Dict (ConnectionBook D))
  add_anchored [] books = ok books
  add_anchored (c ∷ cs) books = elim (lookup c.connection_id books) [
    | some _ ↦ err repeated_connection
    | none ↦ add_anchored cs (insert c.connection_id (from_anchor_checkpoint D c) books)
  ]

  abbrev pub with_books : DayState D → Dict (ConnectionBook D) → DayState D
  with_books s books = record s { books = books }

  -- The day of a book that is the authority from the start.
  abbrev pub resumed : ℕ → ConnectionBook D → DayState D
  resumed day_start b = record (empty_day D) {
    books = (b.connection_id, b) ∷ [];
    authority = some b.connection_id;
    valid_from = some day_start;
    last_valid_connection = some b.connection_id;
  }

  abbrev pub resume : ℕ → L2Checkpoint → Result DayFault (DayState D)
  resume day_start c =
      raise_if (not (is_some c.connection_id)) checkpoint_without_connection
      >> (from_checkpoint D c >>= (λ b. ok (resumed day_start b)))

  unfoldable pub begin : ℕ → Bool → Option L2Checkpoint → Result DayFault (DayState D)
  begin day_start can_start none =
      if can_start then ok (empty_day D) else err previous_checkpoint_required
  begin day_start can_start (some c) =
      let started = if is_valid c.state then resume day_start c else ok (empty_day D) in
      started
      >>= (λ s. add_anchored c.anchored_books s.books >>= (λ books. ok (with_books s books)))

  pub record DayOutput : Type 0 where
    pub changes : List StateChange
    pub intervals : List ValidInterval
    pub checkpoint : L2Checkpoint

  abbrev pub final_intervals : ℕ → DayState D → List ValidInterval
  final_intervals day_end s =
      filter (λ i. ltb i.valid_from_ns i.valid_to_ns)
        (s.intervals ++ interval_of s.authority s.valid_from day_end utc_day_end)

  abbrev pub final_book : DayState D → Option (ConnectionBook D)
  final_book s = if is_empty s.active_gaps then book_of D s.authority s.books else none

  -- The end of `run`, behind the loops.
  unfoldable pub finish : Text → ℕ → Text → ℕ → DayState D → Result DayFault DayOutput
  finish collector date symbol day_end s =
      build_checkpoint D collector date symbol day_end (final_book s) s.books >>= (λ c.
        ok (record { changes = s.changes; intervals = final_intervals day_end s; checkpoint = c }))

  -- The state of `run` in front of `_build_checkpoint`.
  unfoldable pub reconstruct :
      ℕ → Bool → Option L2Checkpoint → List Row → List GapEvent → Result DayFault (DayState D)
  reconstruct day_start can_start checkpoint rows events =
      begin day_start can_start checkpoint
      >>= (λ s. take_rows rows events s >>= (λ r. ok (handle_all D r.0 r.1)))

  -- `run`
  unfoldable pub run_day :
      Text
      → ℕ
      → Text
      → Markers
      → Option L2Checkpoint
      → List Row
      → List GapEvent
      → Result DayFault DayOutput
  run_day collector date symbol markers stored rows events = do
    can_start ← can_start_without_previous_checkpoint date symbol markers
    checkpoint ← load_previous_checkpoint collector date symbol stored
    s ← reconstruct (date * day_ns) can_start checkpoint rows (transport_gap_events symbol events)
    finish collector date symbol (date * day_ns + day_ns) s
