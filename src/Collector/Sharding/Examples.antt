-- ===== src/Collector/Sharding/Examples.antt =====
-- Runs of the sharding of src/miry/collector/sharding.py at concrete inputs.
use miry_data_collector.Base.{ℕ, ◌≡◌, ◌↔◌, ◌⊎◌, min, refl, here, length, arith, none, List, [], ◌∷◌}
use miry_data_collector.Base.Result.{ok}
use miry_data_collector.Base.Text.{Text}
use miry_data_collector.Base.Dict.{Dict}
use miry_data_collector.Base.Keys.{IsDict}
use miry_data_collector.Collector.Sharding.{
  TrafficSharder, Swap, message_rate, improve, improve_balance, apply, best_swap, choose,
}
use miry_data_collector.Collector.Sharding.Methods.{
  assign, place, restore, shards, rebalance, balance_of, sorted_shards,
}
use miry_data_collector.Collector.Sharding.Settling.{IsSettled, improve_balance-IsSettled}
use miry_data_collector.Collector.Sharding.Swaps.{Improves}
use miry_data_collector.Collector.Sharding.Partition.{IsPartition, AreAssigned, shards-IsPartition}
use miry_data_collector.Collector.Sharding.Rebalancing.{rebalance-ok_iff, rebalance-IsPartition}
use miry_data_collector.Collector.Sharding.Stability.{IsThere, shards-IsThere}

abbrev first : Text
first = 65 ∷ []

abbrev second : Text
second = 66 ∷ []

abbrev third : Text
third = 67 ∷ []

abbrev fourth : Text
fourth = 68 ∷ []

abbrev symbols : List Text
symbols = first ∷ second ∷ third ∷ fourth ∷ []

abbrev rates : Dict ℕ
rates = (first, 9) ∷ (second, 8) ∷ (third, 2) ∷ (fourth, 1) ∷ []

abbrev fresh : TrafficSharder
fresh = record { shard_limit = 2; message_rates = rates; assignments = [] }

abbrev uneven : List (List Text)
uneven = (first ∷ second ∷ []) ∷ (third ∷ fourth ∷ []) ∷ []

abbrev assigned : TrafficSharder
assigned = record fresh { assignments = (first, 1) ∷ [] }

abbrev evened : List (List Text) × TrafficSharder
evened = (
  (second ∷ third ∷ []) ∷ (first ∷ fourth ∷ []) ∷ [],
  record fresh { assignments = (second, 0) ∷ (third, 0) ∷ (fourth, 1) ∷ (first, 1) ∷ [] },
)

shards_run :
    shards assigned symbols
    ≡ ok (
      (second ∷ third ∷ []) ∷ (first ∷ fourth ∷ []) ∷ [],
      record fresh { assignments = (first, 1) ∷ (second, 0) ∷ (third, 0) ∷ (fourth, 1) ∷ [] },
    )
unfolding shards assign place restore
shards_run = refl

rebalance_run : rebalance fresh symbols uneven ≡ ok evened
unfolding rebalance improve_balance improve best_swap choose
rebalance_run = refl

no_repeats : IsDict {V = ℕ} []
no_repeats s = omega arith

improve_balance-IsSettled_example :
    (improve (message_rate rates) 20 none (balance_of (message_rate rates) uneven)
      ≡ improve_balance (message_rate rates) none (balance_of (message_rate rates) uneven))
    × IsSettled
        (message_rate rates)
        (improve_balance (message_rate rates) none (balance_of (message_rate rates) uneven))
improve_balance-IsSettled_example =
    improve_balance-IsSettled (message_rate rates) 20 none (balance_of (message_rate rates) uneven)
      (omega arith)

shards-IsPartition_example :
    (r : List (List Text) × TrafficSharder) × (shards fresh symbols ≡ ok r)
    × IsPartition symbols r.0
    × (length r.0 ≡ min 2 4)
    × IsDict r.1.assignments
    × AreAssigned fresh symbols r
shards-IsPartition_example = shards-IsPartition fresh symbols (omega arith) no_repeats

shards-IsThere_example : IsThere evened.0 (first, 1)
shards-IsThere_example =
    shards-IsThere assigned symbols first 1
      (
        evened.0,
        record fresh { assignments = (first, 1) ∷ (second, 0) ∷ (third, 0) ∷ (fourth, 1) ∷ [] },
      )
      shards_run (here refl) refl

rebalance-ok_iff_example :
    ((r : List (List Text) × TrafficSharder) × (rebalance fresh symbols uneven ≡ ok r))
    ↔ ((length uneven ≡ 2) × IsPartition symbols uneven)
rebalance-ok_iff_example = rebalance-ok_iff fresh symbols uneven

rebalance-IsPartition_example :
    IsPartition symbols evened.0
    × (length evened.0 ≡ length uneven)
    × ((evened.0 ≡ sorted_shards uneven)
        ⊎ ((c : Swap) × Improves (message_rate rates) (balance_of (message_rate rates) uneven) c
            × (evened.0
                ≡ sorted_shards
                    (apply
                      (message_rate rates)
                      (balance_of (message_rate rates) uneven)
                      c).shards)))
rebalance-IsPartition_example = rebalance-IsPartition fresh symbols uneven evened rebalance_run
