-- ===== src/Orderbook/Bridge.antt =====
-- Snapshot bridging, src/miry/orderbook/bridge.py. Update ids and sequence numbers are naturals:
-- they are only compared. A method returns its result and the new tracker.
pub mod Locate
pub mod Following
pub mod Outcomes
pub mod Calls
pub mod Ordering
pub mod Invariant
pub mod Soundness
mod Examples
use miry_data_collector.Base.{
  ℕ, suc, ◌+◌, ◌-◌, Bool, true, false, ◌&&◌, ◌||◌, Option, none, some, List, [], ◌∷◌, ◌++◌,
  if◌then◌else◌, ltb, leb, ◌==◌, length, get_elem?, drop, is_some,
}
use miry_data_collector.Base.Sorting.{sort_by}

pub data BridgeStatus : Type 0 where
  waiting_for_events stale_snapshot bridged contiguous sequence_gap : BridgeStatus

pub record UpdateSpan : Type 0 where
  pub receive_seq : ℕ
  pub first_update_id : ℕ
  pub final_update_id : ℕ
  pub previous_final_update_id : ℕ

pub record BridgeResult : Type 0 where
  pub status : BridgeStatus
  pub bridge_index : Option ℕ
  pub discard_count : ℕ
  pub expected_previous_update_id : Option ℕ
  pub received_previous_update_id : Option ℕ

-- `BridgeResult(status)` with the defaults of the dataclass
abbrev pub plain_result : BridgeStatus → BridgeResult
plain_result s = record {
  status = s;
  bridge_index = none;
  discard_count = 0;
  expected_previous_update_id = none;
  received_previous_update_id = none;
}

abbrev pub sequence_continues : ℕ → ℕ → Bool
sequence_continues expected received = received == expected

-- The index of the first span that ends at the snapshot or later, or the number of spans.
unfoldable pub discard_until : ℕ → List UpdateSpan → ℕ
discard_until last [] = 0
discard_until last (s ∷ ss) = if leb last s.final_update_id then 0 else suc (discard_until last ss)

abbrev pub waiting_at : ℕ → BridgeResult
waiting_at count = record (plain_result BridgeStatus.waiting_for_events) { discard_count = count }

abbrev pub stale_at : ℕ → BridgeResult
stale_at count = record (plain_result BridgeStatus.stale_snapshot) { discard_count = count }

abbrev pub bridged_at : ℕ → BridgeResult
bridged_at count = record (plain_result BridgeStatus.bridged) {
  bridge_index = some count;
  discard_count = count;
}

-- A break in the sequence: the id that was expected, and the one that came.
abbrev pub gap_between : ℕ → ℕ → BridgeResult
gap_between expected received = record (plain_result BridgeStatus.sequence_gap) {
  expected_previous_update_id = some expected;
  received_previous_update_id = some received;
}

-- The decision on the candidate `spans[discard_count]`. The index is in range below the test of
-- `locate_snapshot_bridge`, so the case `none` of the lookup is not reached.
abbrev judge : ℕ → ℕ → Option UpdateSpan → BridgeResult
judge last count none = waiting_at count
judge last count (some candidate) =
    if ltb last candidate.first_update_id then stale_at count else bridged_at count

unfoldable pub locate_snapshot_bridge : ℕ → List UpdateSpan → BridgeResult
unfolding discard_until
locate_snapshot_bridge last spans =
    let count = discard_until last spans in
    if count == length spans then waiting_at count else judge last count (get_elem? spans count)

pub record SnapshotBridgeTracker : Type 0 where
  pub maximum_buffered_events : ℕ
  pub pending : List UpdateSpan
  pub snapshot_last_update_id : Option ℕ
  pub previous_update_id : Option ℕ

-- The constructor raises ValueError (`none`) on a bound below one.
pub init : ℕ → Option SnapshotBridgeTracker
init maximum =
    if ltb maximum 1
    then none
    else some (record {
      maximum_buffered_events = maximum;
      pending = [];
      snapshot_last_update_id = none;
      previous_update_id = none;
    })

pub has_events : SnapshotBridgeTracker → Bool
has_events t = elim t.pending [ [] ↦ false | _ ∷ _ ↦ true ]

pub is_bridged : SnapshotBridgeTracker → Bool
is_bridged t = is_some t.previous_update_id

-- `any(previous.receive_seq > current.receive_seq for ... in zip(pending, pending[1:]))`
abbrev pub out_of_order : List UpdateSpan → Bool
out_of_order [] = false
out_of_order (s ∷ []) = false
out_of_order (s ∷ s' ∷ ss) = ltb s'.receive_seq s.receive_seq || out_of_order (s' ∷ ss)

abbrev pub by_receive_seq : UpdateSpan → UpdateSpan → Bool
by_receive_seq s s' = leb s.receive_seq s'.receive_seq

-- The buffer is sorted only where two neighbours are out of order.
unfoldable pub in_receive_order : List UpdateSpan → List UpdateSpan
in_receive_order spans =
    if ltb 1 (length spans) && out_of_order spans then sort_by by_receive_seq spans else spans

-- How the loop over `pending[1:]` ends: at the first break, or at the last final id.
pub data Walk : Type 0 where
  broken : (index expected received : ℕ) → Walk
  reached : (previous : ℕ) → Walk

unfoldable pub follow : ℕ → ℕ → List UpdateSpan → Walk
follow index previous [] = reached previous
follow index previous (s ∷ ss) =
    if sequence_continues previous s.previous_final_update_id
    then follow (suc index) s.final_update_id ss
    else broken index previous s.previous_final_update_id

abbrev settle : SnapshotBridgeTracker → Walk → BridgeResult × SnapshotBridgeTracker
settle t (broken index expected received) = (
  record (gap_between expected received) { bridge_index = some 0 },
  record t { pending = drop index t.pending; snapshot_last_update_id = none },
)
settle t (reached previous) = (
  record (plain_result BridgeStatus.bridged) { bridge_index = some 0 },
  record t { pending = []; snapshot_last_update_id = none; previous_update_id = some previous },
)

-- The part of `_evaluate_snapshot` below the early returns. A bridged decision leaves the bridge
-- at the head of the buffer, so the empty case is not reached.
abbrev extend : SnapshotBridgeTracker → List UpdateSpan → BridgeResult × SnapshotBridgeTracker
extend t [] = (plain_result BridgeStatus.waiting_for_events, t)
extend t (bridge ∷ rest) = settle t (follow 1 bridge.final_update_id rest)

abbrev act :
    BridgeResult → BridgeStatus → SnapshotBridgeTracker → BridgeResult × SnapshotBridgeTracker
act decision BridgeStatus.waiting_for_events t = (decision, t)
act decision BridgeStatus.stale_snapshot t = (decision, record t { snapshot_last_update_id = none })
act decision _ t = extend t t.pending

abbrev assess : SnapshotBridgeTracker → Option ℕ → BridgeResult × SnapshotBridgeTracker
assess t none = (plain_result BridgeStatus.waiting_for_events, t)
assess t (some last) =
    let ordered = in_receive_order t.pending in
    let decision = locate_snapshot_bridge last ordered in
    act decision decision.status (record t { pending = drop decision.discard_count ordered })

-- `_evaluate_snapshot`
pub evaluate_snapshot : SnapshotBridgeTracker → BridgeResult × SnapshotBridgeTracker
evaluate_snapshot t = assess t t.snapshot_last_update_id

pub on_snapshot : ℕ → SnapshotBridgeTracker → BridgeResult × SnapshotBridgeTracker
on_snapshot last t =
    evaluate_snapshot (record t { snapshot_last_update_id = some last; previous_update_id = none })

-- `append`, then drop what exceeds the bound from the front
pub buffer : UpdateSpan → SnapshotBridgeTracker → SnapshotBridgeTracker
buffer span t =
    let pending = t.pending ++ (span ∷ []) in
    record t {
      pending =
          if ltb t.maximum_buffered_events (length pending)
          then drop (length pending - t.maximum_buffered_events) pending
          else pending;
    }

-- The body of `on_diff`, on the final id that the tracker expects, if it is bridged.
abbrev receive :
    UpdateSpan → SnapshotBridgeTracker → Option ℕ → BridgeResult × SnapshotBridgeTracker
receive span t none = evaluate_snapshot (buffer span t)
receive span t (some expected) =
    if sequence_continues expected span.previous_final_update_id
    then (
      plain_result BridgeStatus.contiguous,
      record t { previous_update_id = some span.final_update_id },
    )
    else (
      gap_between expected span.previous_final_update_id,
      record t { pending = span ∷ []; snapshot_last_update_id = none; previous_update_id = none },
    )

pub on_diff : UpdateSpan → SnapshotBridgeTracker → BridgeResult × SnapshotBridgeTracker
on_diff span t = receive span t t.previous_update_id

pub invalidate : SnapshotBridgeTracker → SnapshotBridgeTracker
invalidate t = record t { pending = []; snapshot_last_update_id = none; previous_update_id = none }
