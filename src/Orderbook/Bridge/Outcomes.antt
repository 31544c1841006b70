-- ===== src/Orderbook/Bridge/Outcomes.antt =====
-- The four ends of `_evaluate_snapshot`, src/miry/orderbook/bridge.py.
use miry_data_collector.Base.{
  ℕ, suc, ◌+◌, ◌≤◌, ◌<◌, ◌≡◌, ◌≢◌, none, some, List, [], ◌∷◌, ◌++◌, arith, length, drop, All, ◌∙◌,
  ap, inl, inr, Bool-cases, ltb,
}
use miry_data_collector.Orderbook.Bridge.{
  BridgeStatus, UpdateSpan, BridgeResult, plain_result, waiting_at, stale_at, bridged_at,
  gap_between, in_receive_order, SnapshotBridgeTracker, act, assess, evaluate_snapshot,
  locate_snapshot_bridge,
}
use miry_data_collector.Orderbook.Bridge.Locate.{
  IsEarly, split-IsEarly, locate-early, locate-late, locate-overlap, drop-length_append,
  drop-length,
}
use miry_data_collector.Orderbook.Bridge.Following.{
  Linked, Links, links, follow-Linked, follow-break,
}

-- What the evaluation of a snapshot may return, and the tracker that it leaves behind.
pub data Outcome (last : ℕ) (t : SnapshotBridgeTracker) (r : BridgeResult × SnapshotBridgeTracker)
    : Type 0 where
  waits :
      All (IsEarly last) (in_receive_order t.pending)
      → r ≡ (waiting_at (length (in_receive_order t.pending)), record t { pending = [] })
      → Outcome last t r
  is_stale :
      (early rest : List UpdateSpan) (c : UpdateSpan)
      → in_receive_order t.pending ≡ early ++ (c ∷ rest)
      → All (IsEarly last) early
      → last ≤ c.final_update_id
      → last < c.first_update_id
      → r
        ≡ (stale_at (length early), record t { pending = c ∷ rest; snapshot_last_update_id = none })
      → Outcome last t r
  is_bridged_to :
      (early rest : List UpdateSpan) (c : UpdateSpan) (v : ℕ)
      → in_receive_order t.pending ≡ early ++ (c ∷ rest)
      → All (IsEarly last) early
      → last ≤ c.final_update_id
      → c.first_update_id ≤ last
      → Linked c.final_update_id rest v
      → r ≡ (
        record (plain_result BridgeStatus.bridged) { bridge_index = some 0 },
        record t { pending = []; snapshot_last_update_id = none; previous_update_id = some v },
      )
      → Outcome last t r
  breaks :
      (early pre post : List UpdateSpan) (c s : UpdateSpan) (e : ℕ)
      → in_receive_order t.pending ≡ early ++ (c ∷ (pre ++ (s ∷ post)))
      → All (IsEarly last) early
      → last ≤ c.final_update_id
      → c.first_update_id ≤ last
      → Linked c.final_update_id pre e
      → s.previous_final_update_id ≢ e
      → r ≡ (
        record (gap_between e s.previous_final_update_id) { bridge_index = some 0 },
        record t { pending = s ∷ post; snapshot_last_update_id = none },
      )
      → Outcome last t r

pub evaluate_snapshot-absent :
    (t : SnapshotBridgeTracker)
    → t.snapshot_last_update_id ≡ none
    → evaluate_snapshot t ≡ (plain_result BridgeStatus.waiting_for_events, t)
unfolding evaluate_snapshot
evaluate_snapshot-absent t absent = ap (assess t) absent

one-add : (n : ℕ) → 1 + n ≡ suc n
one-add n = omega arith

module _ (last : ℕ) (t : SnapshotBridgeTracker) (held : t.snapshot_last_update_id ≡ some last) where
  opened :
      (r : BridgeResult)
      → locate_snapshot_bridge last (in_receive_order t.pending) ≡ r
      → evaluate_snapshot t
        ≡ act r r.status (record t { pending = drop r.discard_count (in_receive_order t.pending) })
  unfolding evaluate_snapshot
  opened r q = ap (assess t) held ∙ rw q

  module _ (early rest : List UpdateSpan) (c : UpdateSpan)
      (e : in_receive_order t.pending ≡ early ++ (c ∷ rest)) (h : All (IsEarly last) early)
      (l : last ≤ c.final_update_id) where
    remaining : drop (length early) (in_receive_order t.pending) ≡ c ∷ rest
    remaining = rw e (drop-length_append early (c ∷ rest))

    overlapped :
        c.first_update_id ≤ last
        → (l : Links c.final_update_id rest) → Outcome last t (evaluate_snapshot t)
    overlapped f (Links.whole v k) = Outcome.is_bridged_to early rest c v e h l f k (
        opened (bridged_at (length early)) (rw e (locate-overlap last early rest c h l f))
        ∙ rw (remaining, follow-Linked 1 c.final_update_id v rest k))
    overlapped f (Links.split pre post s x p k n) =
        Outcome.breaks early pre post c s x (rw p at e) h l f k n (
          opened (bridged_at (length early)) (rw e (locate-overlap last early rest c h l f))
          ∙ rw (remaining, p, follow-break 1 c.final_update_id x pre post s k n, one-add)
              (rw (drop-length_append pre (s ∷ post))))

  -- A snapshot that is held is decided in one of four ways, each with the result that is returned
  -- and the whole tracker that is left: nothing in the buffer reaches it; the buffer begins after
  -- it; the buffer is linked from the overlapping span to its end, and the tracker is bridged there;
  -- or the links break, and the buffer is kept from the break on.
  pub evaluate_snapshot-Outcome : Outcome last t (evaluate_snapshot t)
  evaluate_snapshot-Outcome = elim (split-IsEarly last (in_receive_order t.pending)) [
    | inl h ↦ Outcome.waits h (
        opened (waiting_at (length (in_receive_order t.pending))) (locate-early last _ h)
        ∙ rw (drop-length (in_receive_order t.pending)))
    | inr (early, rest, c, e, h, l) ↦ elim (Bool-cases (ltb last c.first_update_id)) [
      | inl late ↦ Outcome.is_stale early rest c e h l (ground arith) (
          opened (stale_at (length early)) (rw e (locate-late last early rest c h l (ground arith)))
          ∙ rw (remaining early rest c e h l))
      | inr in_time ↦ overlapped early rest c e h l (ground arith) (links c.final_update_id rest)
    ]
  ]
