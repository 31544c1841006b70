-- ===== src/Collector/Sharding/Assigning.antt =====
-- `TrafficSharder.shards` keeps the valid assignments and places the other symbols, src/miry/collector/sharding.py.
use miry_data_collector.Base.{
  ℕ, zero, suc, ◌+◌, ◌*◌, ◌≤◌, ◌<◌, ◌≡◌, refl, sym, ap, subst, ◌∙◌, inl, inr, Bool, not, Bool-cases,
  true, false, List, [], ◌∷◌, ◌++◌, length, length-append, if◌then◌else◌, filter, All, arith,
}
use miry_data_collector.Base.Text.{Text, text_eq_iff}
use miry_data_collector.Base.Dict.{Dict}
use miry_data_collector.Base.Result.{ok}
use miry_data_collector.Base.Sorting.{sort_by, All-sort_by}
use miry_data_collector.Base.Counting.{
  count, flatten, count-append, count-any, count-any-true, count-filter, count-sort_by,
}
use miry_data_collector.Base.Keys.{keys, entry_leb, IsDict, keys-sort_by}
use miry_data_collector.Collector.Sharding.Placing.{
  sizes, length-count_le, max_symbols-lt, Adds, restore-Adds, place-Adds,
}
use miry_data_collector.Collector.Sharding.Methods.{
  Placement, replicate, empty_balance, is_in, still_valid, max_symbols_of, unassigned_of, rate_leb,
  assign, started,
}

module _ (active : List Text) (k : ℕ) where
  valid-keys :
      (s : Text) (d : Dict ℕ)
      → count s (keys (filter (still_valid active k) d))
        ≤ (if is_in active s then count s (keys d) else 0)
  valid-keys s [] = omega arith
  valid-keys s (e ∷ d) = ground (arith, text_eq_iff s e.0, valid-keys s d)

  All-valid : (d : Dict ℕ) → All (λ e. e.1 < k) (filter (still_valid active k) d)
  All-valid [] = tt
  All-valid (e ∷ d) = elim (Bool-cases (still_valid active k e)) [
    | inl v ↦ rw (filter, v) (ground arith, All-valid d)
    | inr v ↦ rw (filter, v) (All-valid d)
  ]

  valid-IsDict : (d : Dict ℕ) → IsDict d → IsDict (filter (still_valid active k) d)
  valid-IsDict d h s = ground (arith, valid-keys s d, h s)

module _ (rate : Text → ℕ) where
  count-unassigned :
      (active : List Text) (d : Dict ℕ) (s : Text)
      → count s (unassigned_of rate active d) ≡ (if is_in (keys d) s then 0 else count s active)
  count-unassigned active d s =
      count-sort_by (rate_leb rate) s (filter (λ s. not (is_in (keys d) s)) active)
      ∙ count-filter s (λ s. not (is_in (keys d) s)) active
      ∙ flip (is_in (keys d) s)
    where
      flip : (b : Bool) → (if not b then count s active else 0) ≡ (if b then 0 else count s active)
      flip true = refl
      flip false = refl

  -- What is kept and what is without an assignment make up the active symbols.
  pub count-split :
      (active : List Text) (k : ℕ) (d : Dict ℕ)
      → IsDict d
      → ((s : Text) → count s active ≤ 1)
      → (s : Text)
      → count s (keys (filter (still_valid active k) d))
          + count s (unassigned_of rate active (filter (still_valid active k) d))
        ≡ count s active
  count-split active k d h distinct s =
      elim (Bool-cases (is_in (keys (filter (still_valid active k) d)) s)) [
        | inl kept ↦ elim (Bool-cases (is_in active s)) [
          | inl there ↦ ground (
            arith,
            valid-keys active k s d,
            h s,
            count-unassigned active (filter (still_valid active k) d) s,
            distinct s,
            count-any-true s active there,
            count-any-true s (keys (filter (still_valid active k) d)) kept,
          )
          | inr gone ↦ ground (
            arith,
            valid-keys active k s d,
            count-any-true s (keys (filter (still_valid active k) d)) kept,
          )
        ]
        | inr new ↦ ground (
          arith,
          count-unassigned active (filter (still_valid active k) d) s,
          count-any s (keys (filter (still_valid active k) d)) new,
        )
      ]

sizes-empty : (n : ℕ) → sizes (replicate n []) ≡ 0
sizes-empty zero = refl
sizes-empty (suc n) = omega (arith, sizes-empty n)

count-empty : (s : Text) (n : ℕ) → count s (flatten (replicate n [])) ≡ 0
count-empty s zero = refl
count-empty s (suc n) = count-empty s n

length-replicate : {A : Type 0} (n : ℕ) (x : A) → length (replicate n x) ≡ n
length-replicate zero x = refl
length-replicate (suc n) x = ap suc (length-replicate n x)

pub All-in_range :
    (rate : Text → ℕ) (active : List Text) (k : ℕ) (d : Dict ℕ)
    → All
        (λ e. e.1 < length (empty_balance rate k).shards)
        (sort_by entry_leb (filter (still_valid active k) d))
All-in_range rate active k d =
    subst (λ n. All (λ e. e.1 < n) (sort_by entry_leb (filter (still_valid active k) d)))
      (sym (length-replicate k []))
      (All-sort_by entry_leb (λ e. e.1 < k) (filter (still_valid active k) d)
        (All-valid active k d))

module _ (rate : Text → ℕ) (active : List Text) (k : ℕ) (d : Dict ℕ) (dict : IsDict d)
    (distinct : (s : Text) → count s active ≤ 1) where
  abbrev kept : Dict ℕ
  kept = filter (still_valid active k) d

  -- The valid assignments and the other active symbols are no more than the active symbols.
  fits :
      length (keys (sort_by entry_leb kept)) + length (unassigned_of rate active kept)
      ≤ length active
  fits = omega (
    arith,
    length-append (keys (sort_by entry_leb kept)) (unassigned_of rate active kept),
    length-count_le (keys (sort_by entry_leb kept) ++ unassigned_of rate active kept) active fewer,
  )
    where
      fewer :
          (s : Text)
          → count s (keys (sort_by entry_leb kept) ++ unassigned_of rate active kept)
            ≤ count s active
      fewer s = omega (
        arith,
        count-append s (keys (sort_by entry_leb kept)) (unassigned_of rate active kept),
        keys-sort_by s kept,
        count-split rate active k d dict distinct s,
      )

  restored-Adds :
      Adds rate (keys (sort_by entry_leb kept)) (empty_balance rate k) (started rate k kept).balance
  restored-Adds =
      restore-Adds rate (sort_by entry_leb kept) (empty_balance rate k)
        (All-in_range rate active k d)

  started_count : length (started rate k kept).balance.shards ≡ k
  started_count = restored-Adds.shard_count ∙ length-replicate k []

  pub assign-Adds :
      0 < k
      → (q : Placement) × (assign rate active k (filter (still_valid active k) d) ≡ ok q)
        × ((s : Text) → count s (flatten q.balance.shards) ≡ count s active)
        × (length q.balance.shards ≡ k)
        × IsDict q.placed
  unfolding assign
  assign-Adds h =
      let (q, e, added, keeps) =
        place-Adds rate (max_symbols_of (length active) k) (unassigned_of rate active kept)
          (started rate k kept)
          (subst
            (λ n.
              length (unassigned_of rate active kept) + sizes (started rate k kept).balance.shards
              ≤ n * max_symbols_of (length active) k)
            (sym started_count)
            (omega (
              arith,
              restored-Adds.sized,
              sizes-empty k,
              fits,
              max_symbols-lt (length active) k h,
            ))) in
      (
        q,
        e,
        (λ s. omega (
          arith,
          added.counts s,
          restored-Adds.counts s,
          keys-sort_by s kept,
          count-empty s k,
          count-split rate active k d dict distinct s,
        )),
        added.shard_count ∙ started_count,
        keeps (valid-IsDict active k d dict),
      )
