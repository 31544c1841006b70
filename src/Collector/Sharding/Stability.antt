-- ===== src/Collector/Sharding/Stability.antt =====
-- `TrafficSharder.shards` leaves the assigned symbols where they are, src/miry/collector/sharding.py.
use miry_data_collector.Base.{
  ℕ, zero, suc, ◌<◌, ◌≡◌, ◌≢◌, ◌⊎◌, refl, sym, ap, subst, ◌∙◌, inl, inr, Bool, Bool-cases,
  Option-cases, true, false, List, [], ◌∷◌, ◌++◌, length, ◌==◌, filter, All, here, there, In, arith,
}
use miry_data_collector.Base.Text.{Text, text_eq_refl, text_leb}
use miry_data_collector.Base.Dict.{Dict}
use miry_data_collector.Base.Result.{ok, >>=-eq-ok, ok-injective}
use miry_data_collector.Base.Sorting.{sort_by, insert_by}
use miry_data_collector.Base.Counting.{count, dedupe, count-append, count-sort_by}
use miry_data_collector.Base.Keys.{entry_leb}
use miry_data_collector.Collector.Sharding.{TrafficSharder, Balance, get_or, set_at, message_rate}
use miry_data_collector.Collector.Sharding.Keeping.{length-set_at}
use miry_data_collector.Collector.Sharding.Assigning.{All-in_range}
use miry_data_collector.Collector.Sharding.Methods.{
  Placement, place, put, put_in, least, available_for, restore, still_valid, assign, started,
  settle, sorted_shards, max_symbols_of, unassigned_of, empty_balance, shard_count_of, shards,
}

get_or-cases :
    {A : Type 0} (d x : A) (i j : ℕ) (xs : List A)
    → ((i ≡ j) × (get_or d i (set_at j x xs) ≡ x)) ⊎ (get_or d i (set_at j x xs) ≡ get_or d i xs)
get_or-cases d x i j [] = inr refl
get_or-cases d x zero zero (y ∷ ys) = inl (refl, refl)
get_or-cases d x zero (suc j) (y ∷ ys) = inr refl
get_or-cases d x (suc i) zero (y ∷ ys) = inr refl
get_or-cases d x (suc i) (suc j) (y ∷ ys) = elim (get_or-cases d x i j ys) [
  | inl (e, f) ↦ inl (ap suc e, f)
  | inr f ↦ inr f
]

get_or-set_at_same :
    {A : Type 0} (d x : A) (i : ℕ) (xs : List A) → i < length xs → get_or d i (set_at i x xs) ≡ x
get_or-set_at_same d x i [] h = absurd (omega (arith, h))
get_or-set_at_same d x zero (y ∷ ys) h = refl
get_or-set_at_same d x (suc i) (y ∷ ys) h = get_or-set_at_same d x i ys (omega (arith, h))

-- The pair's symbol is in the pair's shard.
abbrev pub IsThere : List (List Text) → Text × ℕ → Type 0
IsThere xss e = 0 < count e.0 (get_or [] e.1 xss)

module _ (rate : Text → ℕ) (e : Text × ℕ) where
  pub put-IsThere :
      (s : Text) (i : ℕ) (b : Balance) → IsThere b.shards e → IsThere (put rate s i b).shards e
  put-IsThere s i b h = elim (get_or-cases [] (get_or [] i b.shards ++ (s ∷ [])) e.1 i b.shards) [
    | inl (same, f) ↦ omega (
      arith,
      h,
      ap (count e.0) f,
      count-append e.0 (get_or [] i b.shards) (s ∷ []),
      ap (λ j. count e.0 (get_or [] j b.shards)) same,
    )
    | inr f ↦ omega (arith, h, ap (count e.0) f)
  ]

  restore-IsThere :
      (d : Dict ℕ) (b : Balance) → IsThere b.shards e → IsThere (restore rate d b).shards e
  unfolding restore
  restore-IsThere [] b h = h
  restore-IsThere ((s, i) ∷ d) b h = restore-IsThere d (put rate s i b) (put-IsThere s i b h)

  place-IsThere :
      (m : ℕ) (symbols : List Text) (p q : Placement)
      → place rate m symbols p ≡ ok q
      → IsThere p.balance.shards e
      → IsThere q.balance.shards e
  unfolding place
  place-IsThere m [] p q f h = subst (λ r. IsThere r.balance.shards e) (ok-injective f) h
  place-IsThere m (s ∷ symbols) p q f h =
      elim (Option-cases (least p.balance.loads (available_for m p.balance))) [
        | inl n ↦ cc
        | inr (i, g) ↦
            place-IsThere m symbols (put_in rate s i p) q (sym (rw (place, g) refl) ∙ f)
              (put-IsThere s i p.balance h)
      ]

  pub sorted-IsThere : (xss : List (List Text)) → IsThere xss e → IsThere (sorted_shards xss) e
  sorted-IsThere xss h = by_index e.1 xss h
    where
      by_index :
          (i : ℕ) (yss : List (List Text))
          → 0 < count e.0 (get_or [] i yss)
          → 0 < count e.0 (get_or [] i (sorted_shards yss))
      by_index i [] h = h
      by_index zero (ys ∷ yss) h = omega (arith, h, count-sort_by text_leb e.0 ys)
      by_index (suc i) (ys ∷ yss) h = by_index i yss h

  settle-IsThere :
      (t : TrafficSharder) (p : Placement)
      → t.assignments ≢ []
      → IsThere p.balance.shards e
      → IsThere (settle t p).0 e
  settle-IsThere t p n h = by_assignments t.assignments refl
    where
      by_assignments : (d : Dict ℕ) → d ≡ t.assignments → IsThere (settle t p).0 e
      by_assignments [] f = absurd (n (sym f))
      by_assignments (g ∷ d) f = rw (settle, sym f) (sorted-IsThere p.balance.shards h)

module _ (rate : Text → ℕ) where
  pub put_self-IsThere :
      (s : Text) (i : ℕ) (b : Balance)
      → i < length b.shards
      → IsThere (put rate s i b).shards (s, i)
  put_self-IsThere s i b h = omega (
    arith,
    ap (count s) (get_or-set_at_same [] (get_or [] i b.shards ++ (s ∷ [])) i b.shards h),
    count-append s (get_or [] i b.shards) (s ∷ []),
    one,
  )
    where
      one : count s (s ∷ []) ≡ 1
      one = ground (arith, text_eq_refl s)

  pub restore-All :
      (d : Dict ℕ) (b : Balance)
      → All (λ e. e.1 < length b.shards) d
      → All (IsThere (restore rate d b).shards) d
  unfolding restore
  restore-All [] b h = tt
  restore-All ((s, i) ∷ d) b (p, rest) = (
    restore-IsThere rate (s, i) d (put rate s i b) (put_self-IsThere s i b p),
    restore-All d (put rate s i b)
        (subst (λ n. All (λ e. e.1 < n) d) (sym (length-set_at i _ b.shards)) rest),
  )

module _ (P : Text × ℕ → Type 0) where
  All-of_insert_by : (e : Text × ℕ) (d : Dict ℕ) → All P (insert_by entry_leb e d) → P e × All P d
  All-of_insert_by e [] h = h
  All-of_insert_by e (f ∷ d) h = elim (Bool-cases (entry_leb e f)) [
    | inl before ↦ subst (All P) (stopped before) h
    | inr after ↦
        let (p, rest) = subst (All P) (moved after) h in
        let (q, all) = All-of_insert_by e d rest in (q, (p, all))
  ]
    where
      stopped : entry_leb e f ≡ true → ◌≡◌ {A = Dict ℕ} (insert_by entry_leb e (f ∷ d)) (e ∷ f ∷ d)
      stopped before = rw (insert_by, before) refl

      moved :
          entry_leb e f ≡ false
          → ◌≡◌ {A = Dict ℕ} (insert_by entry_leb e (f ∷ d)) (f ∷ insert_by entry_leb e d)
      moved after = rw (insert_by, after) refl

  pub All-of_sort_by : (d : Dict ℕ) → All P (sort_by entry_leb d) → All P d
  All-of_sort_by [] h = tt
  All-of_sort_by (e ∷ d) h =
      let (p, rest) = All-of_insert_by e (sort_by entry_leb d) h in (p, All-of_sort_by d rest)

  first_here :
      (f : Text × ℕ → Bool) (d : Dict ℕ) (g : Text × ℕ)
      → f g ≡ true
      → filter f (g ∷ d) ≡ g ∷ filter f d
  first_here f d g w = rw (filter, w) refl

  All-filter_In :
      (f : Text × ℕ → Bool) (d : Dict ℕ) (e : Text × ℕ)
      → All P (filter f d)
      → In e d
      → f e ≡ true
      → P e
  All-filter_In f [] e h i v = elim i [ ]
  All-filter_In f (g ∷ d) e h (here same) v =
      subst P same (subst (All P) (first_here f d g (ap f same ∙ v)) h).0
  All-filter_In f (g ∷ d) e h (there i) v = elim (Bool-cases (f g)) [
    | inl w ↦ All-filter_In f d e (subst (All P) (first_here f d g w) h).1 i v
    | inr w ↦ All-filter_In f d e (subst (All P) (skipped w) h) i v
  ]
    where
      skipped : f g ≡ false → filter f (g ∷ d) ≡ filter f d
      skipped w = rw (filter, w) refl

-- A symbol that has an assignment stays in its shard: when `shards` returns, the symbol is an
-- instrument and its shard is below the number of shards, the symbol is in the shard of that index.
pub shards-IsThere :
    (t : TrafficSharder) (instruments : List Text) (symbol : Text) (shard : ℕ)
    (r : List (List Text) × TrafficSharder)
    → shards t instruments ≡ ok r
    → In (symbol, shard) t.assignments
    → still_valid (dedupe instruments) (shard_count_of t instruments) (symbol, shard) ≡ true
    → IsThere r.0 (symbol, shard)
unfolding shards assign
shards-IsThere t instruments symbol shard r e found v =
    let rate = message_rate t.message_rates in
    let active = dedupe instruments in
    let k = shard_count_of t instruments in
    let kept = filter (still_valid active k) t.assignments in
    let (q, f, g) =
      >>=-eq-ok (assign rate active k kept) (λ p. ok (settle t p))
        (sym (rw (shards, some_left) refl) ∙ e) in
    subst (λ p. IsThere p.0 (symbol, shard)) (ok-injective g)
      (settle-IsThere rate (symbol, shard) t q (λ n. not_empty t.assignments n found)
        (place-IsThere rate (symbol, shard) (max_symbols_of (length active) k)
          (unassigned_of rate active kept) (started rate k kept) q f
          (All-filter_In (IsThere (started rate k kept).balance.shards) (still_valid active k)
            t.assignments (symbol, shard)
            (All-of_sort_by (IsThere (started rate k kept).balance.shards) kept (
              restore-All rate (sort_by entry_leb kept) (empty_balance rate k)
                (All-in_range rate active k t.assignments)))
            found v)))
  where
    some_left : (shard_count_of t instruments == 0) ≡ false
    some_left = ground (arith, v)

    not_empty : (d : Dict ℕ) → d ≡ [] → In (symbol, shard) d → ⊥
    not_empty [] n i = elim i [ ]
    not_empty (g ∷ d) n i = cc
