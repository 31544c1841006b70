-- ===== src/Orderbook/Bridge/Examples.antt =====
-- The tracker on a short run, src/miry/orderbook/bridge.py.
use miry_data_collector.Base.{ℕ, ◌≡◌, refl, none, some, List, [], ◌∷◌}
use miry_data_collector.Orderbook.Bridge.{
  UpdateSpan, SnapshotBridgeTracker, evaluate_snapshot, init, locate_snapshot_bridge,
  in_receive_order, discard_until, follow, on_snapshot, on_diff, buffer,
}
use miry_data_collector.Base.Sorting.{sort_by}
use miry_data_collector.Orderbook.Bridge.{by_receive_seq}
use miry_data_collector.Orderbook.Bridge.Locate.{Decision, locate-Decision}
use miry_data_collector.Orderbook.Bridge.Outcomes.{Outcome, evaluate_snapshot-Outcome}
use miry_data_collector.Orderbook.Bridge.Ordering.{in_receive_order-eq-sort_by}
use miry_data_collector.Orderbook.Bridge.Calls.{Call, snapshot, diff, run, step, history}
use miry_data_collector.Orderbook.Bridge.Invariant.{IsValid, init-IsValid, run-IsValid}
use miry_data_collector.Orderbook.Bridge.Soundness.{IsProven, run-IsProven}

abbrev span : ℕ → ℕ → ℕ → ℕ → UpdateSpan
span seq first final previous = record {
  receive_seq = seq;
  first_update_id = first;
  final_update_id = final;
  previous_final_update_id = previous;
}

abbrev spans : List UpdateSpan
spans = span 2 11 20 10 ∷ span 1 5 10 4 ∷ span 3 21 30 20 ∷ []

abbrev holding : SnapshotBridgeTracker
holding = record {
  maximum_buffered_events = 8;
  pending = spans;
  snapshot_last_update_id = some 15;
  previous_update_id = none;
}

abbrev new_tracker : SnapshotBridgeTracker
new_tracker = record {
  maximum_buffered_events = 8;
  pending = [];
  snapshot_last_update_id = none;
  previous_update_id = none;
}

abbrev calls : List Call
calls = diff (span 1 5 10 4) ∷ diff (span 2 11 20 10) ∷ snapshot 15 ∷ diff (span 3 21 30 20) ∷ []

init_eight : init 8 ≡ some new_tracker
unfolding init
init_eight = refl

bridged_at_thirty : (run calls new_tracker).previous_update_id ≡ some 30
unfolding run step on_snapshot on_diff buffer evaluate_snapshot in_receive_order
    locate_snapshot_bridge discard_until follow
bridged_at_thirty = refl

run-IsProven_example : IsProven (history [] calls) 30
run-IsProven_example = run-IsProven 8 calls new_tracker 30 init_eight bridged_at_thirty

evaluate_snapshot-Outcome_example : Outcome 15 holding (evaluate_snapshot holding)
evaluate_snapshot-Outcome_example = evaluate_snapshot-Outcome 15 holding refl

locate-Decision_example : Decision 15 spans (locate_snapshot_bridge 15 spans)
locate-Decision_example = locate-Decision 15 spans

tracker_run-IsValid_example : IsValid (run calls new_tracker)
tracker_run-IsValid_example = run-IsValid calls new_tracker (init-IsValid 8 init_eight)

in_receive_order-eq-sort_by_example : in_receive_order spans ≡ sort_by by_receive_seq spans
in_receive_order-eq-sort_by_example = in_receive_order-eq-sort_by spans
