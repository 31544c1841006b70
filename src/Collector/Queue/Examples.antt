-- ===== src/Collector/Queue/Examples.antt =====
-- A put, a get and a release, src/miry/collector/queue.py.
use miry_data_collector.Base.{ℕ, ◌≡◌, refl, subst, none, some, [], ◌∷◌, arith}
use miry_data_collector.Base.Result.{ok}
use miry_data_collector.Contracts.Gap.{StreamType}
use miry_data_collector.Contracts.Raw.{WriterGroup, RawEvent}
use miry_data_collector.Collector.Queue.{
  PerGroup, Queues, queued, each, init, put, get_nowait, release,
}
use miry_data_collector.Collector.Queue.Accounting.{Reaches, Balances, IsWithin}
use miry_data_collector.Collector.Queue.Budget.{Reaches-IsWithin, release-Reaches}

abbrev event : RawEvent
event = record { stream_type = StreamType.trade; payload_bytes = 1 ∷ 2 ∷ [] }

abbrev empty : Queues
empty = init 1000 800 500

abbrev filled : Queues
filled = record empty {
  used_bytes = 258;
  used_bytes_by_group = record { of_depth = 0; of_trades = 258; of_metadata = 0 };
  high_water_bytes = 258;
  interval_high_water_bytes = 258;
  last_event = record { of_depth = none; of_trades = some 7; of_metadata = none };
  queues = record { of_depth = []; of_trades = queued event 258 ∷ []; of_metadata = [] };
}

fills : (put event 7 empty).1 ≡ filled
unfolding put
fills = refl

abbrev drained : Queues
drained = record filled { queues = each [] }

abbrev released : Queues
released = record drained {
  used_bytes = 158;
  used_bytes_by_group = record { of_depth = 0; of_trades = 158; of_metadata = 0 };
}

releases : release WriterGroup.trades_market 100 drained ≡ ok released
unfolding release
releases = refl

abbrev reported : Queues
reported = record released { interval_high_water_bytes = 158 }

drains : get_nowait WriterGroup.trades_market filled ≡ ok (queued event 258, drained)
unfolding get_nowait
drains = refl

abbrev in_hand : PerGroup ℕ
in_hand = record { of_depth = 0; of_trades = 158; of_metadata = 0 }

-- An event is put in and taken out, a part of it is released, and the health report is written.
reached : Reaches 1000 800 500 reported in_hand
reached = Reaches.takes (
    Reaches.releases WriterGroup.trades_market 100
      (Reaches.gets WriterGroup.trades_market (queued event 258)
        (subst (λ q. Reaches 1000 800 500 q (each 0)) fills (Reaches.puts event 7 Reaches.starts))
        drains)
      (omega arith) releases)

Reaches-IsWithin_example : Balances reported in_hand × IsWithin 1000 800 500 reported
Reaches-IsWithin_example = Reaches-IsWithin 1000 800 500 (omega arith) reported in_hand reached

release-Reaches_example : (q : Queues) × (release WriterGroup.trades_market 100 reported ≡ ok q)
release-Reaches_example =
    release-Reaches 1000 800 500 (omega arith) reported in_hand WriterGroup.trades_market 100
      reached refl (omega arith)
