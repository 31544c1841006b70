-- ===== src/Collector/Sharding.antt =====
-- `TrafficSharder`, src/miry/collector/sharding.py. Sets are lists without repetitions. An index is
-- always in range where the source indexes a list; out of range, the accessors have a default.
use miry_data_collector.Base.{
  ℕ, zero, suc, ◌+◌, ◌-◌, ◌/◌, max, min, Bool, true, false, Option, none, some, List, [], ◌∷◌, ◌++◌,
  if◌then◌else◌, ltb, leb, ◌==◌, map, length,
}
use miry_data_collector.Base.Sorting.{sort_by}
use miry_data_collector.Base.Text.{Text, text_eq}
use miry_data_collector.Base.Dict.{Dict, lookup}
pub mod Swaps
pub mod Exchanges
pub mod Settling
pub mod Keeping
pub mod Methods
pub mod Placing
pub mod Assigning
pub mod Stability
pub mod Noting
pub mod Partition
pub mod CurrentShards
pub mod Rebalancing
mod Examples

pub data ShardFault : Type 0 where
  shard_count_not_positive no_shard_available shard_count_mismatch not_a_partition : ShardFault

pub record TrafficSharder : Type 0 where
  pub shard_limit : ℕ
  pub message_rates : Dict ℕ
  pub assignments : Dict ℕ

-- The two lists that `_improve_balance` works on.
pub record Balance : Type 0 where
  pub shards : List (List Text)
  pub loads : List ℕ

pub record Swap : Type 0 where
  pub left : ℕ
  pub right : ℕ
  pub left_symbol : Text
  pub right_symbol : Text
  pub next_left : ℕ
  pub next_right : ℕ

module _ {A : Type 0} where
  abbrev pub get_or : A → ℕ → List A → A
  get_or d i [] = d
  get_or d zero (x ∷ xs) = x
  get_or d (suc i) (x ∷ xs) = get_or d i xs

  -- `xs[i] = x`
  abbrev pub set_at : ℕ → A → List A → List A
  set_at i a [] = []
  set_at zero a (x ∷ xs) = a ∷ xs
  set_at (suc i) a (x ∷ xs) = x ∷ set_at i a xs

-- `range(i, i + n)`
abbrev pub range : ℕ → ℕ → List ℕ
range i zero = []
range i (suc n) = i ∷ range (suc i) n

-- `xs.remove(s)`: the first one goes
abbrev pub remove : Text → List Text → List Text
remove s [] = []
remove s (t ∷ ts) = let rest = remove s ts in if text_eq t s then ts else t ∷ rest

abbrev pub maximum : List ℕ → ℕ
maximum [] = 0
maximum (x ∷ xs) = max x (maximum xs)

abbrev pub minimum : List ℕ → ℕ
minimum [] = 0
minimum (x ∷ []) = x
minimum (x ∷ y ∷ ys) = min x (minimum (y ∷ ys))

abbrev pub spread : List ℕ → ℕ
spread loads = maximum loads - minimum loads

-- `_message_rate`: the middle rate for a symbol without its own
abbrev pub middle_rate : Dict ℕ → ℕ
middle_rate [] = 1
middle_rate (e ∷ rates) =
    let ordered = sort_by leb (map (λ x. x.1) (e ∷ rates)) in get_or 0 (length ordered / 2) ordered

abbrev pub rate_or : Dict ℕ → Option ℕ → ℕ
rate_or rates (some rate) = rate
rate_or rates none = middle_rate rates

abbrev pub message_rate : Dict ℕ → Text → ℕ
message_rate rates symbol = rate_or rates (lookup symbol rates)

abbrev pub spend : Option ℕ → Option ℕ
spend none = none
spend (some n) = some (n - 1)

-- Whether the swaps that are allowed are used up.
abbrev pub is_spent : Option ℕ → Bool
is_spent none = false
is_spent (some n) = n == 0

module _ (rate : Text → ℕ) where
  -- The rounds of the loop nest of `_improve_balance`, in its order.
  abbrev pub swap_of : Balance → ℕ → ℕ → Text → Text → Swap
  swap_of b left right l r = record {
    left = left;
    right = right;
    left_symbol = l;
    right_symbol = r;
    next_left = get_or 0 left b.loads + rate r - rate l;
    next_right = get_or 0 right b.loads + rate l - rate r;
  }

  abbrev pub swaps_for : Balance → ℕ → ℕ → List Text → List Text → List Swap
  swaps_for b left right [] rs = []
  swaps_for b left right (l ∷ ls) rs =
      map (swap_of b left right l) rs ++ swaps_for b left right ls rs

  abbrev pub swaps_with : Balance → ℕ → List ℕ → List Swap
  swaps_with b left [] = []
  swaps_with b left (right ∷ rights) =
      swaps_for b left right (get_or [] left b.shards) (get_or [] right b.shards)
      ++ swaps_with b left rights

  abbrev pub swaps_from : Balance → List ℕ → List Swap
  swaps_from b [] = []
  swaps_from b (left ∷ lefts) =
      swaps_with b left (range (suc left) (length b.shards - suc left)) ++ swaps_from b lefts

  abbrev pub all_swaps : Balance → List Swap
  all_swaps b = swaps_from b (range 0 (length b.shards))

  abbrev pub loads_after : Balance → Swap → List ℕ
  loads_after b c = set_at c.right c.next_right (set_at c.left c.next_left b.loads)

  -- The running best of the loop nest.
  unfoldable pub choose : Balance → ℕ → Option Swap → List Swap → Option Swap
  choose b best_spread best [] = best
  choose b best_spread best (c ∷ cs) =
      let better = choose b (spread (loads_after b c)) (some c) cs in
      let same = choose b best_spread best cs in
      if ltb (spread (loads_after b c)) best_spread then better else same

  unfoldable pub best_swap : Balance → Option Swap
  best_swap b = choose b (spread b.loads) none (all_swaps b)

  abbrev pub apply : Balance → Swap → Balance
  apply b c = record {
    shards =
        set_at c.right (remove c.right_symbol (get_or [] c.right b.shards) ++ (c.left_symbol ∷ []))
          (set_at c.left (remove c.left_symbol (get_or [] c.left b.shards) ++ (c.right_symbol ∷ []))
            b.shards);
    loads = loads_after b c;
  }

  -- The loop of `_improve_balance`; its second argument is the number of swaps still allowed.
  unfoldable pub improve : ℕ → Option ℕ → Balance → Balance
  improve zero allowed b = b
  improve (suc fuel) allowed b = elim (is_spent allowed) [
    | true ↦ b
    | false ↦ elim (best_swap b) [ none ↦ b | some c ↦ improve fuel (spend allowed) (apply b c) ]
  ]

  -- `_improve_balance`: each round makes the spread smaller, so these rounds are enough
  unfoldable pub improve_balance : Option ℕ → Balance → Balance
  improve_balance allowed b = improve (suc (spread b.loads)) allowed b
