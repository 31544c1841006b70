-- ===== src/Collector/Sharding/Noting.antt =====
-- The assignments that `TrafficSharder.shards` notes, src/miry/collector/sharding.py.
use miry_data_collector.Base.{
  ℕ, suc, ◌+◌, ◌<◌, ◌≤◌, ◌≡◌, max, refl, sym, ap, subst, ◌∙◌, inl, inr, Bool, Bool-cases,
  Option-cases, ◌||◌, none, List, [], ◌∷◌, ◌++◌, any, filter, if◌then◌else◌, length, All, arith,
}
use miry_data_collector.Base.Text.{Text, text_eq, text_eq_refl}
use miry_data_collector.Base.Dict.{Dict, insert, All-insert}
use miry_data_collector.Base.Result.{ok, ok-injective}
use miry_data_collector.Base.Sorting.{sort_by}
use miry_data_collector.Base.Counting.{count, flatten, count-any, count-any-true}
use miry_data_collector.Base.Keys.{keys, entry_leb, IsDict, count-insert}
use miry_data_collector.Collector.Sharding.{TrafficSharder, get_or, message_rate, improve_balance}
use miry_data_collector.Collector.Sharding.Keeping.{improve_balance-IsKept}
use miry_data_collector.Collector.Sharding.Placing.{least-lt}
use miry_data_collector.Collector.Sharding.Assigning.{All-in_range, count-split}
use miry_data_collector.Collector.Sharding.Methods.{
  Placement, is_in, least, available_for, put, put_in, place, assign, started, empty_balance,
  max_symbols_of, unassigned_of, still_valid, note_all, note_shards, assignments_of, sorted_shards,
  settle,
}
use miry_data_collector.Collector.Sharding.Stability.{
  IsThere, put-IsThere, put_self-IsThere, sorted-IsThere, restore-All, All-of_sort_by,
}

All-map :
    {A : Type 0} (P Q : A → Type 0) (xs : List A) → ((x : A) → P x → Q x) → All P xs → All Q xs
All-map P Q [] f h = tt
All-map P Q (x ∷ xs) f (p, rest) = (f x p, All-map P Q xs f rest)

any-append :
    {A : Type 0} (p : A → Bool) (xs ys : List A) → any p (xs ++ ys) ≡ (any p xs || any p ys)
any-append p [] ys = refl
any-append p (x ∷ xs) ys = ground (arith, any-append p xs ys)

-- One entry for a symbol of the list, or the entries that there were.
abbrev noted_count : List Text → Text → ℕ → ℕ
noted_count symbols s before = if is_in symbols s then max 1 before else before

count-note_all :
    (s : Text) (i : ℕ) (xs : List Text) (d : Dict ℕ)
    → count s (keys (note_all i xs d)) ≡ noted_count xs s (count s (keys d))
count-note_all s i [] d = refl
count-note_all s i (x ∷ xs) d =
    ground (arith, count-note_all s i xs (insert x i d), count-insert s x i d)

count-note_shards :
    (s : Text) (i : ℕ) (xss : List (List Text)) (d : Dict ℕ)
    → count s (keys (note_shards i xss d)) ≡ noted_count (flatten xss) s (count s (keys d))
count-note_shards s i [] d = refl
count-note_shards s i (xs ∷ xss) d = ground (
  arith,
  count-note_shards s (suc i) xss (note_all i xs d),
  count-note_all s i xs d,
  any-append (text_eq s) xs (flatten xss),
)

module _ (P : Text × ℕ → Type 0) where
  All-note_all :
      (i : ℕ) (xs : List Text) (d : Dict ℕ)
      → All (λ x. P (x, i)) xs
      → All P d
      → All P (note_all i xs d)
  All-note_all i [] d h k = k
  All-note_all i (x ∷ xs) d (p, rest) k =
      All-note_all i xs (insert x i d) rest
        (All-insert P x i d (λ y e. subst (λ z. P (z, i)) (sym e) p) k)

members :
    (xs ys : List Text) → ((s : Text) → count s xs ≤ count s ys) → All (λ x. 0 < count x ys) xs
members [] ys h = tt
members (x ∷ xs) ys h =
    (ground (arith, h x, text_eq_refl x), members xs ys (λ s. omega (arith, h s)))

All-note_shards :
    (full : List (List Text)) (i : ℕ) (xss : List (List Text)) (d : Dict ℕ)
    → ((j : ℕ) → get_or [] (i + j) full ≡ get_or [] j xss)
    → All (IsThere full) d
    → All (IsThere full) (note_shards i xss d)
All-note_shards full i [] d e h = h
All-note_shards full i (xs ∷ xss) d e h =
    All-note_shards full (suc i) xss (note_all i xs d)
      (λ j. moved (suc i + j) (i + suc j) (omega arith) ∙ e (suc j))
      (All-note_all (IsThere full) i xs d
        (subst (λ ys. All (λ x. 0 < count x ys) xs) (sym (e 0) ∙ moved (i + 0) i (omega arith))
          (members xs xs (λ s. omega arith)))
        h)
  where
    moved : (m n : ℕ) → m ≡ n → get_or [] m full ≡ get_or [] n full
    moved m n same = ap (λ k. get_or [] k full) same

module _ (rate : Text → ℕ) where
  count-place :
      (m : ℕ) (symbols : List Text) (p q : Placement) (s : Text)
      → place rate m symbols p ≡ ok q
      → count s (keys q.placed) ≡ noted_count symbols s (count s (keys p.placed))
  unfolding place
  count-place m [] p q s e = ap (λ r. count s (keys r.placed)) (sym (ok-injective e))
  count-place m (x ∷ symbols) p q s e =
      elim (Option-cases (least p.balance.loads (available_for m p.balance))) [
        | inl n ↦ cc
        | inr (i, g) ↦ ground (
          arith,
          count-place m symbols (put_in rate x i p) q s (sym (rw (place, g) refl) ∙ e),
          count-insert s x i p.placed,
        )
      ]

  All-place :
      (m : ℕ) (symbols : List Text) (p q : Placement)
      → place rate m symbols p ≡ ok q
      → All (IsThere p.balance.shards) p.placed
      → All (IsThere q.balance.shards) q.placed
  unfolding place
  All-place m [] p q e h = subst (λ r. All (IsThere r.balance.shards) r.placed) (ok-injective e) h
  All-place m (x ∷ symbols) p q e h =
      elim (Option-cases (least p.balance.loads (available_for m p.balance))) [
        | inl n ↦ cc
        | inr (i, g) ↦
            let after = (put rate x i p.balance).shards in
            All-place m symbols (put_in rate x i p) q (sym (rw (place, g) refl) ∙ e) (
              All-insert (IsThere after) x i p.placed
                (λ y same.
                  subst (λ z. IsThere after (z, i)) (sym same)
                    (put_self-IsThere rate x i p.balance (least-lt rate m p.balance i g)))
                (All-map (IsThere p.balance.shards) (IsThere after) p.placed
                  (λ f. put-IsThere rate f x i p.balance) h))
      ]

-- The assignments have one entry for each symbol of `active`, with the shard that it is in.
pub record AreNoted (active : List Text) (xss : List (List Text)) (d : Dict ℕ) : Type 0 where
  pub entries : (s : Text) → count s (keys d) ≡ count s active
  pub places : All (IsThere xss) d

module _ (active : List Text) (distinct : (s : Text) → count s active ≤ 1) where
  pub assign-AreNoted :
      (rate : Text → ℕ) (k : ℕ) (d : Dict ℕ) (q : Placement)
      → IsDict d
      → assign rate active k (filter (still_valid active k) d) ≡ ok q
      → AreNoted active q.balance.shards q.placed
  unfolding assign
  assign-AreNoted rate k d q h e =
      let kept = filter (still_valid active k) d in
      let start = (started rate k kept).balance.shards in
      record {
        entries = λ s. once kept s (count-split rate active k d h distinct s) (
            count-place rate (max_symbols_of (length active) k) (unassigned_of rate active kept)
              (started rate k kept) q s e);
        places =
            All-place rate (max_symbols_of (length active) k) (unassigned_of rate active kept)
              (started rate k kept) q e
              (All-of_sort_by (IsThere start) kept (
                restore-All rate (sort_by entry_leb kept) (empty_balance rate k)
                  (All-in_range rate active k d)));
      }
    where
      once :
          (kept : Dict ℕ) (s : Text)
          → count s (keys kept) + count s (unassigned_of rate active kept) ≡ count s active
          → count s (keys q.placed)
            ≡ noted_count (unassigned_of rate active kept) s (count s (keys kept))
          → count s (keys q.placed) ≡ count s active
      once kept s split placed = elim (Bool-cases (is_in (unassigned_of rate active kept) s)) [
        | inl new ↦
            ground (arith, distinct s, count-any-true s (unassigned_of rate active kept) new)
        | inr old ↦ ground (arith, count-any s (unassigned_of rate active kept) old)
      ]

  assignments_of-AreNoted :
      (xss : List (List Text))
      → ((s : Text) → count s (flatten xss) ≡ count s active)
      → AreNoted active (sorted_shards xss) (assignments_of xss)
  assignments_of-AreNoted xss h = record {
    entries = λ s. elim (Bool-cases (is_in (flatten xss) s)) [
      | inl new ↦
          ground (
            arith,
            count-note_shards s 0 xss [],
            h s,
            distinct s,
            count-any-true s (flatten xss) new,
          )
      | inr old ↦ ground (arith, count-note_shards s 0 xss [], h s, count-any s (flatten xss) old)
    ];
    places =
        All-map (IsThere xss) (IsThere (sorted_shards xss)) (assignments_of xss)
          (λ e. sorted-IsThere (message_rate []) e xss)
          (All-note_shards xss 0 xss [] (λ j. ap (λ k. get_or [] k xss) (from_zero j)) tt);
  }
    where
      from_zero : (j : ℕ) → 0 + j ≡ j
      from_zero j = omega arith

  pub settle-AreNoted :
      (t : TrafficSharder) (p : Placement)
      → ((s : Text) → count s (flatten p.balance.shards) ≡ count s active)
      → AreNoted active p.balance.shards p.placed
      → AreNoted active (settle t p).0 (settle t p).1.assignments
  settle-AreNoted t p counts h = by_assignments t.assignments refl
    where
      by_assignments :
          (d : Dict ℕ)
          → d ≡ t.assignments
          → AreNoted active (settle t p).0 (settle t p).1.assignments
      by_assignments [] e =
          let k = improve_balance-IsKept (message_rate t.message_rates) none p.balance in
          rw (settle, sym e)
            (assignments_of-AreNoted
              (improve_balance (message_rate t.message_rates) none p.balance).shards
              (λ s. k.counts s ∙ counts s))
      by_assignments (f ∷ d) e =
          rw (settle, sym e)
            (record {
              entries = h.entries;
              places =
                  All-map (IsThere p.balance.shards) (IsThere (sorted_shards p.balance.shards))
                    p.placed (λ g. sorted-IsThere (message_rate []) g p.balance.shards) h.places;
            })
