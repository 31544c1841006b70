-- ===== src/Orderbook/Bridge/Calls.antt =====
-- The methods of the tracker as calls, and any sequence of them, src/miry/orderbook/bridge.py.
use miry_data_collector.Base.{ℕ, List, [], ◌∷◌}
use miry_data_collector.Orderbook.Bridge.{
  UpdateSpan, SnapshotBridgeTracker, on_snapshot, on_diff, invalidate,
}

-- The calls of the tracker's methods.
pub data Call : Type 0 where
  snapshot : ℕ → Call
  diff : UpdateSpan → Call
  drop_all : Call

unfoldable pub step : Call → SnapshotBridgeTracker → SnapshotBridgeTracker
step (snapshot last) t = (on_snapshot last t).1
step (diff s) t = (on_diff s t).1
step drop_all t = invalidate t

unfoldable pub run : List Call → SnapshotBridgeTracker → SnapshotBridgeTracker
run [] t = t
run (c ∷ cs) t = run cs (step c t)

-- The calls made so far, the latest first.
abbrev pub history : List Call → List Call → List Call
history past [] = past
history past (c ∷ cs) = history (c ∷ past) cs
