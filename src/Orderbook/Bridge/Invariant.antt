-- ===== src/Orderbook/Bridge/Invariant.antt =====
-- The tracker's invariant, and the operations as a step relation, src/miry/orderbook/bridge.py.
use miry_data_collector.Base.{
  ℕ, ◌-◌, ◌≤◌, ◌≡◌, refl, ◌⊎◌, inl, inr, none, some, List, [], ◌∷◌, ◌++◌, arith, length,
  length-append, length-drop, Option-cases, ap,
}
use miry_data_collector.Base.Sorting.{length-sort_by}
use miry_data_collector.Orderbook.Bridge.{
  BridgeResult, UpdateSpan, SnapshotBridgeTracker, in_receive_order, by_receive_seq, init, buffer,
  receive, evaluate_snapshot, on_snapshot, on_diff, invalidate,
}
use miry_data_collector.Orderbook.Bridge.Calls.{Call, snapshot, diff, drop_all, step, run}
use miry_data_collector.Orderbook.Bridge.Outcomes.{
  Outcome, evaluate_snapshot-absent, evaluate_snapshot-Outcome,
}

-- The buffer keeps within its bound; a bridged tracker holds neither a buffer nor a snapshot; and
-- a snapshot that is still held waits for its first event, with the buffer empty.
pub record IsValid (t : SnapshotBridgeTracker) : Type 0 where
  pub positive : 1 ≤ t.maximum_buffered_events
  pub bounded : length t.pending ≤ t.maximum_buffered_events
  pub settled :
      (t.previous_update_id ≡ none) ⊎ ((t.pending ≡ []) × (t.snapshot_last_update_id ≡ none))
  pub awaiting : (t.snapshot_last_update_id ≡ none) ⊎ (t.pending ≡ [])

pub length-in_receive_order : (ss : List UpdateSpan) → length (in_receive_order ss) ≡ length ss
unfolding in_receive_order
length-in_receive_order ss = ground (arith, length-sort_by by_receive_seq ss)

module _ (t : SnapshotBridgeTracker) (positive : 1 ≤ t.maximum_buffered_events)
    (bounded : length t.pending ≤ t.maximum_buffered_events)
    (unbridged : t.previous_update_id ≡ none) where
  Outcome-IsValid :
      {last : ℕ} (r : BridgeResult × SnapshotBridgeTracker) → Outcome last t r → IsValid r.1
  Outcome-IsValid r (Outcome.waits _ e) = ground arith
  Outcome-IsValid r (Outcome.is_stale early rest c o _ _ _ e) =
      ground (arith, ap length o, length-append early (c ∷ rest), length-in_receive_order t.pending)
  Outcome-IsValid r (Outcome.is_bridged_to early rest c v o _ _ _ _ e) = ground arith
  Outcome-IsValid r (Outcome.breaks early pre post c s x o _ _ _ _ _ e) = ground (
    arith,
    ap length o,
    length-append early (c ∷ (pre ++ (s ∷ post))),
    length-append pre (s ∷ post),
    length-in_receive_order t.pending,
  )

  evaluate_snapshot-IsValid : IsValid (evaluate_snapshot t).1
  evaluate_snapshot-IsValid = elim (Option-cases t.snapshot_last_update_id) [
    | inl absent ↦ ground (arith, evaluate_snapshot-absent t absent)
    | inr (last, held) ↦ Outcome-IsValid _ (evaluate_snapshot-Outcome last t held)
  ]

-- The constructor's tracker is valid.
pub init-IsValid : (maximum : ℕ) {t : SnapshotBridgeTracker} → init maximum ≡ some t → IsValid t
unfolding init
init-IsValid maximum e = ground arith

pub on_snapshot-IsValid :
    (last : ℕ) (t : SnapshotBridgeTracker) → IsValid t → IsValid (on_snapshot last t).1
unfolding on_snapshot
on_snapshot-IsValid last t h = evaluate_snapshot-IsValid _ h.positive h.bounded refl

length-buffer-le :
    (s : UpdateSpan) (t : SnapshotBridgeTracker)
    → length (buffer s t).pending ≤ t.maximum_buffered_events
unfolding buffer
length-buffer-le s t = ground (
  arith,
  length-append t.pending (s ∷ []),
  length-drop (length (t.pending ++ (s ∷ [])) - t.maximum_buffered_events) (t.pending ++ (s ∷ [])),
)

pub on_diff-open :
    (s : UpdateSpan) (t : SnapshotBridgeTracker)
    → t.previous_update_id ≡ none
    → on_diff s t ≡ evaluate_snapshot (buffer s t)
unfolding on_diff
on_diff-open s t e = ap (receive s t) e

pub on_diff-bridged :
    (s : UpdateSpan) (t : SnapshotBridgeTracker) {u : ℕ}
    → t.previous_update_id ≡ some u
    → on_diff s t ≡ receive s t (some u)
unfolding on_diff
on_diff-bridged s t e = ap (receive s t) e

buffer-IsValid :
    (s : UpdateSpan) (t : SnapshotBridgeTracker)
    → IsValid t
    → t.previous_update_id ≡ none
    → IsValid (evaluate_snapshot (buffer s t)).1
unfolding buffer
buffer-IsValid s t h e = evaluate_snapshot-IsValid (buffer s t) h.positive (length-buffer-le s t) e

pub on_diff-IsValid :
    (s : UpdateSpan) (t : SnapshotBridgeTracker) → IsValid t → IsValid (on_diff s t).1
on_diff-IsValid s t h = elim (Option-cases t.previous_update_id) [
  | inl absent ↦ rw (on_diff-open s t absent) (buffer-IsValid s t h absent)
  | inr (u, bridged) ↦ rw (on_diff-bridged s t bridged) (ground arith)
]

pub invalidate-IsValid : (t : SnapshotBridgeTracker) → IsValid t → IsValid (invalidate t)
unfolding invalidate
invalidate-IsValid t h = ground arith

-- No sequence of calls breaks the tracker's invariant.
pub run-IsValid :
    (calls : List Call) (t : SnapshotBridgeTracker) → IsValid t → IsValid (run calls t)
unfolding run step
run-IsValid [] t h = h
run-IsValid (snapshot last ∷ calls) t h = run-IsValid calls _ (on_snapshot-IsValid last t h)
run-IsValid (diff s ∷ calls) t h = run-IsValid calls _ (on_diff-IsValid s t h)
run-IsValid (drop_all ∷ calls) t h = run-IsValid calls _ (invalidate-IsValid t h)
