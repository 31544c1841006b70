-- ===== src/Collector/Sharding/Methods.antt =====
-- The methods of `TrafficSharder`, src/miry/collector/sharding.py. The comparison with
-- `REBALANCE_TRIGGER_RATIO`, 1.25, is written with whole numbers; the source's product is exact for
-- a total below 2 ^ 50.
use miry_data_collector.Base.{
  ℕ, zero, suc, ◌+◌, ◌-◌, ◌*◌, ◌/◌, min, Bool, true, false, not, ◌&&◌, ◌||◌, Option, none, some,
  List, [], ◌∷◌, ◌++◌, if◌then◌else◌, ltb, leb, ◌==◌, any, all, filter, map, length,
}
use miry_data_collector.Base.Result.{Result, ok, err, ◌>>=◌, ◌>>◌, raise_if}
use miry_data_collector.Base.Sorting.{sort_by}
use miry_data_collector.Base.Text.{Text, text_eq, text_leb}
use miry_data_collector.Base.Dict.{Dict, insert}
use miry_data_collector.Base.Keys.{keys, entry_leb}
use miry_data_collector.Base.Counting.{flatten, sum, dedupe}
use miry_data_collector.Collector.Sharding.{
  ShardFault, no_shard_available, shard_count_mismatch, not_a_partition, shard_count_not_positive,
  TrafficSharder, Balance, get_or, set_at, range, maximum, message_rate, improve_balance,
}

-- `[x] * n`
abbrev pub replicate : {A : Type 0} → ℕ → A → List A
replicate zero x = []
replicate (suc n) x = x ∷ replicate n x

-- `TrafficSharder(count, message_rates)`
unfoldable pub new_sharder : ℕ → Dict ℕ → Result ShardFault TrafficSharder
new_sharder count message_rates =
    raise_if (ltb count 1) shard_count_not_positive
    >> ok (record { shard_limit = count; message_rates = message_rates; assignments = [] })

-- `min(self._count, len(instruments))`
abbrev pub shard_count_of : TrafficSharder → List Text → ℕ
shard_count_of t instruments = min t.shard_limit (length instruments)

-- `symbol in symbols`
abbrev pub is_in : List Text → Text → Bool
is_in symbols symbol = any (text_eq symbol) symbols

abbrev pub max_symbols_of : ℕ → ℕ → ℕ
max_symbols_of active shard_count = (active + shard_count - 1) / shard_count + 1

abbrev pub still_valid : List Text → ℕ → Text × ℕ → Bool
still_valid active shard_count e = is_in active e.0 && ltb e.1 shard_count

-- `{symbol: shard for shard, symbols in enumerate(shards) for symbol in symbols}`
abbrev pub note_all : ℕ → List Text → Dict ℕ → Dict ℕ
note_all shard [] d = d
note_all shard (s ∷ ss) d = note_all shard ss (insert s shard d)

abbrev pub note_shards : ℕ → List (List Text) → Dict ℕ → Dict ℕ
note_shards shard [] d = d
note_shards shard (ss ∷ shards) d = note_shards (suc shard) shards (note_all shard ss d)

abbrev pub assignments_of : List (List Text) → Dict ℕ
assignments_of shards = note_shards 0 shards []

-- The lists that the loops of `shards` fill, and the assignments.
pub record Placement : Type 0 where
  pub balance : Balance
  pub placed : Dict ℕ

abbrev pub sorted_shards : List (List Text) → List (List Text)
sorted_shards shards = map (sort_by text_leb) shards

abbrev pub load_leb : List ℕ → ℕ → ℕ → Bool
load_leb loads i j =
    ltb (get_or 0 i loads) (get_or 0 j loads) || ((get_or 0 i loads == get_or 0 j loads) && leb i j)

-- `min(available, key=lambda index: (loads[index], index))`
abbrev pub least : List ℕ → List ℕ → Option ℕ
least loads [] = none
least loads (i ∷ is) = elim (least loads is) [
  | none ↦ some i
  | some j ↦ if load_leb loads i j then some i else some j
]

abbrev pub available_for : ℕ → Balance → List ℕ
available_for max_symbols b =
    filter (λ i. ltb (length (get_or [] i b.shards)) max_symbols) (range 0 (length b.shards))

module _ (rate : Text → ℕ) where
  -- `shards[shard].append(symbol)` and `loads[shard] += self._message_rate(symbol)`
  abbrev pub put : Text → ℕ → Balance → Balance
  put symbol shard b = record {
    shards = set_at shard (get_or [] shard b.shards ++ (symbol ∷ [])) b.shards;
    loads = set_at shard (get_or 0 shard b.loads + rate symbol) b.loads;
  }

  -- The loop over the assignments that are still valid.
  unfoldable pub restore : Dict ℕ → Balance → Balance
  restore [] b = b
  restore ((symbol, shard) ∷ d) b = restore d (put symbol shard b)

  abbrev pub rate_leb : Text → Text → Bool
  rate_leb s t = ltb (rate t) (rate s) || ((rate s == rate t) && text_leb s t)

  abbrev pub put_in : Text → ℕ → Placement → Placement
  put_in symbol shard p = record {
    balance = put symbol shard p.balance;
    placed = insert symbol shard p.placed;
  }

  -- The loop over the symbols without an assignment.
  unfoldable pub place : ℕ → List Text → Placement → Result ShardFault Placement
  place max_symbols [] p = ok p
  place max_symbols (symbol ∷ symbols) p =
      elim (least p.balance.loads (available_for max_symbols p.balance)) [
        | none ↦ err no_shard_available
        | some shard ↦ place max_symbols symbols (put_in symbol shard p)
      ]

  abbrev pub unassigned_of : List Text → Dict ℕ → List Text
  unassigned_of active assignments =
      sort_by rate_leb (filter (λ s. not (is_in (keys assignments) s)) active)

  abbrev pub empty_balance : ℕ → Balance
  empty_balance n = record { shards = replicate n []; loads = replicate n 0 }

  abbrev pub started : ℕ → Dict ℕ → Placement
  started shard_count kept = record {
    balance = restore (sort_by entry_leb kept) (empty_balance shard_count);
    placed = kept;
  }

  -- The two loops of `shards`.
  unfoldable pub assign : List Text → ℕ → Dict ℕ → Result ShardFault Placement
  assign active shard_count kept =
      place (max_symbols_of (length active) shard_count) (unassigned_of active kept)
        (started shard_count kept)

-- The end of `shards`: a first assignment is balanced and noted again.
abbrev pub settle : TrafficSharder → Placement → List (List Text) × TrafficSharder
settle t p = elim t.assignments [
  | [] ↦
      let b = improve_balance (message_rate t.message_rates) none p.balance in
      (sorted_shards b.shards, record t { assignments = assignments_of b.shards })
  | _ ∷ _ ↦ (sorted_shards p.balance.shards, record t { assignments = p.placed })
]

-- `shards`
unfoldable pub shards :
    TrafficSharder → List Text → Result ShardFault (List (List Text) × TrafficSharder)
shards t instruments =
    let shard_count = shard_count_of t instruments in
    let active = dedupe instruments in
    elim (shard_count == 0) [
      | true ↦ ok ([], t)
      | false ↦
          assign (message_rate t.message_rates) active shard_count
            (filter (still_valid active shard_count) t.assignments)
          >>= λ p. ok (settle t p)
    ]

-- `current_shards` and their loads, as lists
abbrev pub balance_of : (Text → ℕ) → List (List Text) → Balance
balance_of rate current = record {
  shards = current;
  loads = map (λ shard. sum (map rate shard)) current;
}

abbrev pub is_even : ℕ → Balance → Bool
is_even shard_count b =
    ltb shard_count 2 || leb (maximum b.loads * shard_count * 4) (sum b.loads * 5)

-- `set(flattened) != active`, negated
abbrev pub same_set : List Text → List Text → Bool
same_set flattened active = all (is_in active) flattened && all (is_in flattened) active

abbrev pub rebalanced : TrafficSharder → ℕ → List (List Text) → Balance
rebalanced t shard_count current =
    let b = balance_of (message_rate t.message_rates) current in
    let improved = improve_balance (message_rate t.message_rates) (some 1) b in
    if is_even shard_count b then b else improved

-- The two tests of `rebalance`.
abbrev pub is_wrong_count : TrafficSharder → List Text → List (List Text) → Bool
is_wrong_count t instruments current = not (length current == shard_count_of t instruments)

abbrev pub is_no_partition : List Text → List (List Text) → Bool
is_no_partition instruments current =
    not (length (flatten current) == length (dedupe instruments))
    || not (same_set (flatten current) (dedupe instruments))

abbrev pub noted : TrafficSharder → Balance → List (List Text) × TrafficSharder
noted t b = (sorted_shards b.shards, record t { assignments = assignments_of b.shards })

-- `rebalance`
unfoldable pub rebalance :
    TrafficSharder
    → List Text
    → List (List Text)
    → Result ShardFault (List (List Text) × TrafficSharder)
rebalance t instruments current =
    raise_if (is_wrong_count t instruments current) shard_count_mismatch
    >> (raise_if (is_no_partition instruments current) not_a_partition
        >> ok (noted t (rebalanced t (shard_count_of t instruments) current)))
