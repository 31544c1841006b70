-- ===== src/Pipeline/L2/Book.antt =====
-- `ConnectionBook`, src/miry/pipeline/l2.py. A method returns the change that it reports and the new
-- book, or the assertion or index error that it raises.
use miry_data_collector.Base.{
  ℕ, ◌-◌, Bool, true, false, not, ◌&&◌, ◌||◌, Option, none, some, List, [], ◌∷◌, ◌++◌,
  if◌then◌else◌, ltb, leb, ◌==◌, any, map, drop, max,
}
use miry_data_collector.Base.Result.{Result, ok, err}
use miry_data_collector.Base.Sorting.{sort_by}
use miry_data_collector.Base.Text.{Text, text_eq}
use miry_data_collector.Contracts.Gap.{GapReason}
use miry_data_collector.Orderbook.Bridge.{
  BridgeStatus, UpdateSpan, BridgeResult, sequence_continues, locate_snapshot_bridge,
}
use miry_data_collector.Pipeline.L2.Levels.{Decimals, Levels, Side, apply_levels, book_side}

pub data L2State : Type 0 where
  unanchored valid gapped : L2State

pub data Reason : Type 0 where
  pu_discontinuity buffered_pu_discontinuity snapshot_bridge : Reason
  transport : GapReason → Reason

-- What would be raised where the code asserts, or indexes a list.
pub data Defect : Type 0 where
  previous_omitted bridge_index_omitted index_out_of_range : Defect

pub record DepthDiff : Type 0 where
  pub connection_id : Text
  pub receive_seq : ℕ
  pub received_ns : ℕ
  pub first_update_id : ℕ
  pub final_update_id : ℕ
  pub previous_final_update_id : ℕ
  pub payload_hash : Text
  pub bids : Levels
  pub asks : Levels

pub record DepthSnapshot : Type 0 where
  pub connection_id : Text
  pub receive_seq : ℕ
  pub received_ns : ℕ
  pub last_update_id : ℕ
  pub bids : Levels
  pub asks : Levels

pub record StateChange : Type 0 where
  pub connection_id : Text
  pub at_ns : ℕ
  pub state : L2State
  pub update_id : Option ℕ
  pub reason : Reason

abbrev pub Identity : Type 0
Identity = ℕ × ℕ × ℕ × Text

abbrev pub identity_eq : Identity → Identity → Bool
identity_eq (a, b, c, h) (d, e, f, k) = (a == d) && ((b == e) && ((c == f) && text_eq h k))

abbrev pub identity_of : DepthDiff → Identity
identity_of d = (d.first_update_id, d.final_update_id, d.previous_final_update_id, d.payload_hash)

abbrev pub is_valid : L2State → Bool
is_valid L2State.valid = true
is_valid _ = false

abbrev pub span_of : DepthDiff → UpdateSpan
span_of d = record {
  receive_seq = d.receive_seq;
  first_update_id = d.first_update_id;
  final_update_id = d.final_update_id;
  previous_final_update_id = d.previous_final_update_id;
}

abbrev pub diffs_out_of_order : List DepthDiff → Bool
diffs_out_of_order [] = false
diffs_out_of_order (d ∷ []) = false
diffs_out_of_order (d ∷ d' ∷ ds) = ltb d'.receive_seq d.receive_seq || diffs_out_of_order (d' ∷ ds)

-- The candidates of `_try_bridge`: sorted only where two neighbours are out of order.
unfoldable pub candidates_of : List DepthDiff → List DepthDiff
candidates_of ds =
    if diffs_out_of_order ds then sort_by (λ a b. leb a.receive_seq b.receive_seq) ds else ds

-- Whether an anchor is held that the diff does not reach across.
abbrev pub misses_anchor : Option ℕ → DepthDiff → Bool
misses_anchor none d = false
misses_anchor (some last) d = not (leb d.first_update_id last && leb last d.final_update_id)

module _ (D : Decimals) where
  pub record ConnectionBook : Type 0 where
    pub connection_id : Text
    pub state : L2State
    pub bids : Side D
    pub asks : Side D
    pub previous_update_id : Option ℕ
    pub pending : List DepthDiff
    pub seen_diffs : List Identity
    pub anchor_last_update_id : Option ℕ
    pub anchor_received_ns : Option ℕ

  abbrev pub Outcome : Type 0
  Outcome = Result Defect (Option StateChange × ConnectionBook)

  -- `ConnectionBook(connection_id)`
  abbrev pub fresh : Text → ConnectionBook
  fresh id = record {
    connection_id = id;
    state = L2State.unanchored;
    bids = [];
    asks = [];
    previous_update_id = none;
    pending = [];
    seen_diffs = [];
    anchor_last_update_id = none;
    anchor_received_ns = none;
  }

  -- `invalidate`
  abbrev pub invalidate : ConnectionBook → ConnectionBook
  invalidate b = record b {
    state = L2State.gapped;
    bids = [];
    asks = [];
    previous_update_id = none;
    pending = [];
    anchor_last_update_id = none;
    anchor_received_ns = none;
  }

  -- `_apply`
  abbrev pub apply : ConnectionBook → DepthDiff → ConnectionBook
  apply b d = record b {
    bids = apply_levels D b.bids d.bids;
    asks = apply_levels D b.asks d.asks;
    previous_update_id = some d.final_update_id;
  }

  -- A break in the sequence: the book is invalidated and keeps the diff that broke it.
  abbrev pub broken_by : ConnectionBook → DepthDiff → Reason → Option StateChange × ConnectionBook
  broken_by b d reason = (
    some (record {
      connection_id = b.connection_id;
      at_ns = d.received_ns;
      state = L2State.gapped;
      update_id = some d.final_update_id;
      reason = reason;
    }),
    record (invalidate b) { pending = d ∷ [] },
  )

  -- The end of `_try_bridge`, behind the loop.
  abbrev pub validated : ConnectionBook → ℕ → Option StateChange × ConnectionBook
  validated b at = (
    some (record {
      connection_id = b.connection_id;
      at_ns = at;
      state = L2State.valid;
      update_id = b.previous_update_id;
      reason = snapshot_bridge;
    }),
    record b {
      state = L2State.valid;
      pending = [];
      anchor_last_update_id = none;
      anchor_received_ns = none;
    },
  )

  -- The loop over the candidates behind the bridge, on the id that the book expects.
  unfoldable pub replay : ConnectionBook → Option ℕ → ℕ → List DepthDiff → Outcome
  replay b expected at [] = ok (validated b at)
  replay b none at (d ∷ ds) = err previous_omitted
  replay b (some expected) at (d ∷ ds) =
      let rest = replay (apply b d) (apply b d).previous_update_id at ds in
      if sequence_continues expected d.previous_final_update_id
      then rest
      else ok (broken_by b d buffered_pu_discontinuity)

  abbrev pub join : ConnectionBook → ℕ → List DepthDiff → Outcome
  join b received [] = err index_out_of_range
  join b received (bridge ∷ rest) =
      replay (apply b bridge) (apply b bridge).previous_update_id (max received bridge.received_ns)
        rest

  abbrev pub bridge_from : ConnectionBook → ℕ → ℕ → Option ℕ → List DepthDiff → Outcome
  bridge_from b received count none rest = err bridge_index_omitted
  bridge_from b received count (some index) rest = join b received (drop (index - count) rest)

  -- `_try_bridge` on the decision and the candidates that it leaves.
  abbrev pub resolve : ConnectionBook → ℕ → BridgeResult → BridgeStatus → List DepthDiff → Outcome
  resolve b received r BridgeStatus.waiting_for_events rest = ok (none, record b { pending = rest })
  resolve b received r BridgeStatus.stale_snapshot rest = ok (
    none,
    record b {
      bids = [];
      asks = [];
      previous_update_id = none;
      anchor_last_update_id = none;
      anchor_received_ns = none;
      pending = rest;
    },
  )
  resolve b received r _ rest = bridge_from b received r.discard_count r.bridge_index rest

  abbrev pub decide : ConnectionBook → Option ℕ → Option ℕ → Outcome
  decide b (some last) (some received) =
      let candidates = candidates_of b.pending in
      let decision = locate_snapshot_bridge last (map span_of candidates) in
      resolve b received decision decision.status (drop decision.discard_count candidates)
  decide b _ _ = ok (none, b)

  -- `_try_bridge`
  unfoldable pub try_bridge : ConnectionBook → Outcome
  try_bridge b = decide b b.anchor_last_update_id b.anchor_received_ns

  unfoldable pub on_snapshot : DepthSnapshot → ConnectionBook → Outcome
  on_snapshot s b = try_bridge (record b {
    bids = book_side D s.bids;
    asks = book_side D s.asks;
    previous_update_id = some s.last_update_id;
    anchor_last_update_id = some s.last_update_id;
    anchor_received_ns = some s.received_ns;
  })

  -- A diff on a book that is not valid.
  abbrev pub wait_with : ConnectionBook → DepthDiff → Outcome
  wait_with b d =
      let b' = record b { pending = b.pending ++ (d ∷ []) } in
      if misses_anchor b.anchor_last_update_id d then ok (none, b') else try_bridge b'

  -- A diff on a valid book.
  abbrev pub advance : ConnectionBook → DepthDiff → Option ℕ → Outcome
  advance b d none = err previous_omitted
  advance b d (some expected) =
      if sequence_continues expected d.previous_final_update_id
      then ok (none, apply b d)
      else ok (broken_by b d pu_discontinuity)

  abbrev pub accept : ConnectionBook → DepthDiff → L2State → Outcome
  accept b d L2State.valid = advance b d b.previous_update_id
  accept b d _ = wait_with b d

  unfoldable pub on_diff : DepthDiff → ConnectionBook → Outcome
  on_diff d b =
      if any (identity_eq (identity_of d)) b.seen_diffs
      then ok (none, b)
      else accept (record b { seen_diffs = identity_of d ∷ b.seen_diffs }) d b.state
