-- ===== src/Collector/Sharding/Rebalancing.antt =====
-- `TrafficSharder.rebalance`, src/miry/collector/sharding.py.
use miry_data_collector.Base.{
  ℕ, zero, suc, ◌≡◌, ◌↔◌, ◌⊎◌, refl, sym, ap, ◌∙◌, inl, inr, Bool, not, ◌||◌, Bool-cases,
  Option-cases, some, true, false, List, length, if◌then◌else◌, ◌==◌, arith,
}
use miry_data_collector.Base.Text.{Text}
use miry_data_collector.Base.Result.{Result, ok, raise_if, raise_if-eq-ok, ◌>>◌, ok-injective}
use miry_data_collector.Base.Counting.{count, flatten, dedupe, count-dedupe}
use miry_data_collector.Collector.Sharding.{
  ShardFault, not_a_partition, shard_count_mismatch, TrafficSharder, Balance, Swap, spread,
  message_rate, best_swap, apply, improve, improve_balance,
}
use miry_data_collector.Collector.Sharding.Keeping.{improve_balance-IsKept, IsKept, IsKept-refl}
use miry_data_collector.Collector.Sharding.Swaps.{Improves, best_swap-Improves}
use miry_data_collector.Collector.Sharding.CurrentShards.{is_partition→counts, counts→is_partition}
use miry_data_collector.Collector.Sharding.Partition.{IsPartition, count-sorted, length-sorted}
use miry_data_collector.Collector.Sharding.Methods.{
  balance_of, is_even, same_set, rebalanced, shard_count_of, rebalance, sorted_shards, noted,
  is_no_partition, is_wrong_count,
}

rebalanced-IsKept :
    (t : TrafficSharder) (n : ℕ) (current : List (List Text))
    → IsKept
        (message_rate t.message_rates)
        (balance_of (message_rate t.message_rates) current)
        (rebalanced t n current)
rebalanced-IsKept t n current =
    by_test (is_even n (balance_of (message_rate t.message_rates) current))
  where
    by_test :
        (b : Bool)
        → IsKept
            (message_rate t.message_rates)
            (balance_of (message_rate t.message_rates) current)
            (if b
              then balance_of (message_rate t.message_rates) current
              else improve_balance
                  (message_rate t.message_rates)
                  (some 1)
                  (balance_of (message_rate t.message_rates) current))
    by_test true = IsKept-refl _ (balance_of (message_rate t.message_rates) current)
    by_test false =
        improve_balance-IsKept _ (some 1) (balance_of (message_rate t.message_rates) current)

-- A single round makes one exchange at most.
improve_balance-once :
    (rate : Text → ℕ) (b : Balance)
    → (improve_balance rate (some 1) b ≡ b)
      ⊎ ((c : Swap) × (best_swap rate b ≡ some c)
          × (improve_balance rate (some 1) b ≡ apply rate b c))
unfolding improve_balance improve
improve_balance-once rate b = elim (Option-cases (best_swap rate b)) [
  | inl n ↦ inl (rw (improve, n) refl)
  | inr (c, e) ↦ inr (c, e, rw (improve, e) (once c (spread b.loads)))
]
  where
    once : (c : Swap) (fuel : ℕ) → improve rate fuel (some 0) (apply rate b c) ≡ apply rate b c
    once c zero = refl
    once c (suc fuel) = refl

rebalanced-once :
    (t : TrafficSharder) (n : ℕ) (current : List (List Text))
    → (rebalanced t n current ≡ balance_of (message_rate t.message_rates) current)
      ⊎ ((c : Swap) × Improves
            (message_rate t.message_rates)
            (balance_of (message_rate t.message_rates) current)
            c
          × (rebalanced t n current
              ≡ apply
                  (message_rate t.message_rates)
                  (balance_of (message_rate t.message_rates) current)
                  c))
rebalanced-once t n current =
    elim (Bool-cases (is_even n (balance_of (message_rate t.message_rates) current))) [
      | inl e ↦ inl (rw e refl)
      | inr e ↦
          elim (improve_balance-once (message_rate t.message_rates)
            (balance_of (message_rate t.message_rates) current)) [
              | inl same ↦ inl (rw e same)
              | inr (c, f, g) ↦ inr (c, best_swap-Improves _ _ c f, rw e g)
            ]
    ]

abbrev guarded :
    TrafficSharder
    → List Text
    → List (List Text)
    → Result ShardFault (List (List Text) × TrafficSharder)
guarded t instruments current =
    raise_if (is_no_partition instruments current) not_a_partition
    >> ok (noted t (rebalanced t (shard_count_of t instruments) current))

-- `rebalance` returns exactly when there are as many current shards as the limit and the
-- instruments ask for, and every instrument is in exactly one of them, once.
pub rebalance-ok_iff :
    (t : TrafficSharder) (instruments : List Text) (current : List (List Text))
    → ((r : List (List Text) × TrafficSharder) × (rebalance t instruments current ≡ ok r))
      ↔ ((length current ≡ shard_count_of t instruments) × IsPartition instruments current)
unfolding rebalance
rebalance-ok_iff t instruments current = (only, return)
  where
    only :
        (r : List (List Text) × TrafficSharder) × (rebalance t instruments current ≡ ok r)
        → (length current ≡ shard_count_of t instruments) × IsPartition instruments current
    only (r, e) =
        let (count_test, rest) =
          raise_if-eq-ok (is_wrong_count t instruments current) shard_count_mismatch
            (guarded t instruments current) e in
        let (set_test, _) =
          raise_if-eq-ok (is_no_partition instruments current) not_a_partition
            (ok (noted t (rebalanced t (shard_count_of t instruments) current))) rest in
        (
          ground (arith, count_test),
          λ s.
              is_partition→counts instruments (flatten current) (ap not set_test) s
              ∙ count-dedupe s instruments,
        )

    return :
        (length current ≡ shard_count_of t instruments) × IsPartition instruments current
        → (r : List (List Text) × TrafficSharder) × (rebalance t instruments current ≡ ok r)
    return (n, p) = (
      noted t (rebalanced t (shard_count_of t instruments) current),
      rw (count_test, set_test) refl,
    )
      where
        count_test : not (length current == shard_count_of t instruments) ≡ false
        count_test = ground (arith, n)

        set_test :
            (not (length (flatten current) == length (dedupe instruments))
              || not (same_set (flatten current) (dedupe instruments)))
            ≡ false
        set_test = not_true _ (
            counts→is_partition instruments (flatten current)
              (λ s. p s ∙ sym (count-dedupe s instruments)))
          where
            not_true : (b : Bool) → not b ≡ true → b ≡ false
            not_true true e = cc
            not_true false e = refl

-- What `rebalance` returns is a partition of the same symbols again, with as many shards, and it is
-- the current shards, sorted, or they after one exchange of two symbols that makes the spread of the
-- loads smaller.
pub rebalance-IsPartition :
    (t : TrafficSharder) (instruments : List Text) (current : List (List Text))
    (r : List (List Text) × TrafficSharder)
    → rebalance t instruments current ≡ ok r
    → IsPartition instruments r.0
      × (length r.0 ≡ length current)
      × ((r.0 ≡ sorted_shards current)
          ⊎ ((c : Swap) × Improves
                (message_rate t.message_rates)
                (balance_of (message_rate t.message_rates) current)
                c
              × (r.0
                  ≡ sorted_shards
                      (apply
                        (message_rate t.message_rates)
                        (balance_of (message_rate t.message_rates) current)
                        c).shards)))
unfolding rebalance
rebalance-IsPartition t instruments current r e =
    let (n, p) = (rebalance-ok_iff t instruments current).0 (r, e) in
    let b = rebalanced t (shard_count_of t instruments) current in
    let (_, rest) =
      raise_if-eq-ok (is_wrong_count t instruments current) shard_count_mismatch
        (guarded t instruments current) e in
    let (_, last) =
      raise_if-eq-ok (is_no_partition instruments current) not_a_partition (ok (noted t b)) rest in
    let shown = ap (λ (q : List (List Text) × TrafficSharder). q.0) (sym (ok-injective last)) in
    let kept = rebalanced-IsKept t (shard_count_of t instruments) current in
    (
      (λ s.
          ap (λ xss. count s (flatten xss)) shown ∙ count-sorted s b.shards ∙ kept.counts s ∙ p s),
      ap length shown ∙ length-sorted b.shards ∙ kept.shard_count,
      elim (rebalanced-once t (shard_count_of t instruments) current) [
        | inl same ↦ inl (shown ∙ ap (λ b. sorted_shards b.shards) same)
        | inr (c, i, f) ↦ inr (c, i, shown ∙ ap (λ b. sorted_shards b.shards) f)
      ],
    )
