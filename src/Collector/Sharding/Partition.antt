-- ===== src/Collector/Sharding/Partition.antt =====
-- `TrafficSharder.shards` gives every instrument one shard, src/miry/collector/sharding.py.
use miry_data_collector.Base.{
  ℕ, suc, ◌≤◌, ◌<◌, ◌≡◌, min, refl, sym, ap, ◌∙◌, none, true, false, List, [], ◌∷◌, length,
  if◌then◌else◌, ◌==◌, All, arith,
}
use miry_data_collector.Base.Text.{Text, text_leb}
use miry_data_collector.Base.Dict.{Dict, insert}
use miry_data_collector.Base.Result.{ok}
use miry_data_collector.Base.Sorting.{sort_by}
use miry_data_collector.Base.Counting.{
  count, flatten, dedupe, count-append, count-dedupe, count-sort_by,
}
use miry_data_collector.Base.Keys.{keys, IsDict, insert-IsDict}
use miry_data_collector.Collector.Sharding.{TrafficSharder, message_rate, improve_balance}
use miry_data_collector.Collector.Sharding.Keeping.{improve_balance-IsKept}
use miry_data_collector.Collector.Sharding.Methods.{
  Placement, is_in, settle, sorted_shards, note_all, note_shards, assignments_of, shard_count_of,
  shards,
}
use miry_data_collector.Collector.Sharding.Assigning.{assign-Adds}
use miry_data_collector.Collector.Sharding.Stability.{IsThere}
use miry_data_collector.Collector.Sharding.Noting.{assign-AreNoted, settle-AreNoted}

pub count-sorted :
    (s : Text) (xss : List (List Text))
    → count s (flatten (sorted_shards xss)) ≡ count s (flatten xss)
count-sorted s [] = refl
count-sorted s (xs ∷ xss) = omega (
  arith,
  count-append s (sort_by text_leb xs) (flatten (sorted_shards xss)),
  count-append s xs (flatten xss),
  count-sort_by text_leb s xs,
  count-sorted s xss,
)

pub length-sorted : (xss : List (List Text)) → length (sorted_shards xss) ≡ length xss
length-sorted [] = refl
length-sorted (xs ∷ xss) = ap suc (length-sorted xss)

note_all-IsDict : (i : ℕ) (xs : List Text) (d : Dict ℕ) → IsDict d → IsDict (note_all i xs d)
note_all-IsDict i [] d h = h
note_all-IsDict i (x ∷ xs) d h = note_all-IsDict i xs (insert x i d) (insert-IsDict x i d h)

note_shards-IsDict :
    (i : ℕ) (xss : List (List Text)) (d : Dict ℕ) → IsDict d → IsDict (note_shards i xss d)
note_shards-IsDict i [] d h = h
note_shards-IsDict i (xs ∷ xss) d h =
    note_shards-IsDict (suc i) xss (note_all i xs d) (note_all-IsDict i xs d h)

pub assignments_of-IsDict : (xss : List (List Text)) → IsDict (assignments_of xss)
assignments_of-IsDict xss = note_shards-IsDict 0 xss [] (λ s. omega arith)

-- Every instrument is in exactly one shard, once, and nothing else is in one.
abbrev pub IsPartition : List Text → List (List Text) → Type 0
IsPartition instruments xss =
    (s : Text) → count s (flatten xss) ≡ (if is_in instruments s then 1 else 0)

settle-IsPartition :
    (t : TrafficSharder) (p : Placement) (s : Text)
    → (count s (flatten (settle t p).0) ≡ count s (flatten p.balance.shards))
      × (length (settle t p).0 ≡ length p.balance.shards)
settle-IsPartition t p s = by_assignments t.assignments refl
  where
    by_assignments :
        (d : Dict ℕ)
        → d ≡ t.assignments
        → (count s (flatten (settle t p).0) ≡ count s (flatten p.balance.shards))
          × (length (settle t p).0 ≡ length p.balance.shards)
    by_assignments [] e =
        let k = improve_balance-IsKept (message_rate t.message_rates) none p.balance in
        let after = (improve_balance (message_rate t.message_rates) none p.balance).shards in
        rw (settle, sym e) (count-sorted s after ∙ k.counts s, length-sorted after ∙ k.shard_count)
    by_assignments (f ∷ d) e =
        rw (settle, sym e) (count-sorted s p.balance.shards, length-sorted p.balance.shards)

settle-IsDict :
    (t : TrafficSharder) (p : Placement) → IsDict p.placed → IsDict (settle t p).1.assignments
settle-IsDict t p h = by_assignments t.assignments refl
  where
    by_assignments : (d : Dict ℕ) → d ≡ t.assignments → IsDict (settle t p).1.assignments
    by_assignments [] e =
        rw (settle, sym e)
          (assignments_of-IsDict
            (improve_balance (message_rate t.message_rates) none p.balance).shards)
    by_assignments (f ∷ d) e = rw (settle, sym e) h

-- The new assignments have one entry for each instrument, with the shard that it is in, and no
-- other; without instruments they stay as they are.
abbrev pub AreAssigned : TrafficSharder → List Text → List (List Text) × TrafficSharder → Type 0
AreAssigned t [] r = r.1.assignments ≡ t.assignments
AreAssigned t (x ∷ xs) r =
    ((s : Text) → count s (keys r.1.assignments) ≡ (if is_in (x ∷ xs) s then 1 else 0))
    × All (IsThere r.0) r.1.assignments

-- `shards` never raises. It returns as many shards as the limit allows, and no more than there are
-- instruments; every instrument is in exactly one of them, once, and no other symbol is in one. The
-- new assignments have exactly one entry for each instrument, with the index of the shard that it is
-- in, and no other entry; without instruments they stay as they are. Conditions: the limit is
-- positive, and no symbol has two of the old assignments.
pub shards-IsPartition :
    (t : TrafficSharder) (instruments : List Text)
    → 0 < t.shard_limit
    → IsDict t.assignments
    → (r : List (List Text) × TrafficSharder) × (shards t instruments ≡ ok r)
      × IsPartition instruments r.0
      × (length r.0 ≡ min t.shard_limit (length instruments))
      × IsDict r.1.assignments
      × AreAssigned t instruments r
unfolding shards
shards-IsPartition t [] l h =
    ((([], t)), rw (shards, none_left) refl, (λ s. refl), omega arith, h, refl)
  where
    none_left : (min t.shard_limit 0 == 0) ≡ true
    none_left = ground arith
shards-IsPartition t (x ∷ xs) l h =
    let (q, e, counts, n, d) =
      assign-Adds (message_rate t.message_rates) (dedupe (x ∷ xs)) (shard_count_of t (x ∷ xs))
        t.assignments h distinct (omega (arith, l)) in
    let settled = settle-AreNoted (dedupe (x ∷ xs)) distinct t q counts (
      assign-AreNoted (dedupe (x ∷ xs)) distinct (message_rate t.message_rates)
        (shard_count_of t (x ∷ xs)) t.assignments q h e) in
    (
      settle t q,
      rw (shards, some_left, e) refl,
      (λ s. (settle-IsPartition t q s).0 ∙ counts s ∙ count-dedupe s (x ∷ xs)),
      (settle-IsPartition t q []).1 ∙ n,
      settle-IsDict t q d,
      ((λ s. settled.entries s ∙ count-dedupe s (x ∷ xs)), settled.places),
    )
  where
    some_left : (min t.shard_limit (suc (length xs)) == 0) ≡ false
    some_left = ground (arith, l)

    distinct : (s : Text) → count s (dedupe (x ∷ xs)) ≤ 1
    distinct s = ground (arith, count-dedupe s (x ∷ xs))
