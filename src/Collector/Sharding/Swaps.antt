-- ===== src/Collector/Sharding/Swaps.antt =====
-- The swap that `_improve_balance` picks, src/miry/collector/sharding.py.
use miry_data_collector.Base.{
  ℕ, zero, suc, ◌+◌, ◌-◌, ◌≤◌, ◌<◌, ◌≡◌, refl, subst, inl, inr, Option, none, some, List, [], ◌∷◌,
  ltb, map, length, arith, All, All-append, Bool-cases,
}
use miry_data_collector.Base.Text.{Text, text_eq_refl}
use miry_data_collector.Base.Counting.{count}
use miry_data_collector.Collector.Sharding.{
  Balance, Swap, get_or, range, spread, swap_of, swaps_for, swaps_with, swaps_from, all_swaps,
  loads_after, choose, best_swap,
}

All-range : (i n : ℕ) → All (λ j. (i ≤ j) × (j < i + n)) (range i n)
All-range i zero = tt
All-range i (suc n) =
    ((omega arith, omega arith), All-weaken (range (suc i) n) (All-range (suc i) n))
  where
    All-weaken :
        (js : List ℕ)
        → All (λ j. (suc i ≤ j) × (j < suc i + n)) js
        → All (λ j. (i ≤ j) × (j < i + suc n)) js
    All-weaken [] h = tt
    All-weaken (j ∷ js) (p, rest) = ((omega (arith, p.0), omega (arith, p.1)), All-weaken js rest)

-- The items of a list are in it.
members : (xs : List Text) → All (λ x. 0 < count x xs) xs
members [] = tt
members (x ∷ xs) = (ground (arith, text_eq_refl x), later xs (members xs))
  where
    later : (ys : List Text) → All (λ y. 0 < count y xs) ys → All (λ y. 0 < count y (x ∷ xs)) ys
    later [] h = tt
    later (y ∷ ys) (p, rest) = (omega (arith, p), later ys rest)

module _ (rate : Text → ℕ) (b : Balance) where
  -- Two symbols in two shards, and the loads that exchanging them gives.
  pub record IsSwap (c : Swap) : Type 0 where
    pub ordered : c.left < c.right
    pub in_range : c.right < length b.shards
    pub left_there : 0 < count c.left_symbol (get_or [] c.left b.shards)
    pub right_there : 0 < count c.right_symbol (get_or [] c.right b.shards)
    pub left_load : c.next_left ≡ get_or 0 c.left b.loads + rate c.right_symbol - rate c.left_symbol
    pub right_load :
        c.next_right ≡ get_or 0 c.right b.loads + rate c.left_symbol - rate c.right_symbol

  module _ (left right : ℕ) (o : left < right) (i : right < length b.shards) where
    map-IsSwap :
        (l : Text)
        → 0 < count l (get_or [] left b.shards)
        → (rs : List Text) → All (λ r. 0 < count r (get_or [] right b.shards)) rs
        → All IsSwap (map (swap_of rate b left right l) rs)
    map-IsSwap l p [] h = tt
    map-IsSwap l p (r ∷ rs) (q, rest) = (
      record {
        ordered = o;
        in_range = i;
        left_there = p;
        right_there = q;
        left_load = refl;
        right_load = refl;
      },
      map-IsSwap l p rs rest,
    )

    swaps_for-IsSwap :
        (ls rs : List Text)
        → All (λ l. 0 < count l (get_or [] left b.shards)) ls
        → All (λ r. 0 < count r (get_or [] right b.shards)) rs
        → All IsSwap (swaps_for rate b left right ls rs)
    swaps_for-IsSwap [] rs h k = tt
    swaps_for-IsSwap (l ∷ ls) rs (p, rest) k =
        All-append IsSwap _ _ (map-IsSwap l p rs k) (swaps_for-IsSwap ls rs rest k)

  swaps_with-IsSwap :
      (left : ℕ) (rights : List ℕ)
      → All (λ r. (suc left ≤ r) × (r < length b.shards)) rights
      → All IsSwap (swaps_with rate b left rights)
  swaps_with-IsSwap left [] h = tt
  swaps_with-IsSwap left (right ∷ rights) ((o, i), rest) =
      All-append IsSwap _ _
        (swaps_for-IsSwap left right o i _ _ (members (get_or [] left b.shards))
          (members (get_or [] right b.shards)))
        (swaps_with-IsSwap left rights rest)

  swaps_from-IsSwap : (lefts : List ℕ) → All IsSwap (swaps_from rate b lefts)
  swaps_from-IsSwap [] = tt
  swaps_from-IsSwap (left ∷ lefts) =
      All-append IsSwap _ _
        (swaps_with-IsSwap left _ (bounded _ (All-range (suc left) (length b.shards - suc left))))
        (swaps_from-IsSwap lefts)
    where
      bounded :
          (js : List ℕ)
          → All (λ j. (suc left ≤ j) × (j < suc left + (length b.shards - suc left))) js
          → All (λ j. (suc left ≤ j) × (j < length b.shards)) js
      bounded [] h = tt
      bounded (j ∷ js) (p, rest) = ((p.0, omega (arith, p.0, p.1)), bounded js rest)

  -- A swap that improves the balance.
  abbrev pub Improves : Swap → Type 0
  Improves c = IsSwap c × (spread (loads_after rate b c) < spread b.loads)

  choose-Improves :
      (best_spread : ℕ) (best : Option Swap) (cs : List Swap) (c : Swap)
      → best_spread ≤ spread b.loads
      → ((d : Swap) → best ≡ some d → Improves d)
      → All IsSwap cs
      → choose rate b best_spread best cs ≡ some c
      → Improves c
  unfolding choose
  choose-Improves best_spread best [] c l h k e = h c e
  choose-Improves best_spread best (d ∷ ds) c l h (p, rest) e =
      elim (Bool-cases (ltb (spread (loads_after rate b d)) best_spread)) [
        | inl better ↦
            choose-Improves (spread (loads_after rate b d)) (some d) ds c (ground arith)
              (λ x same. improved x same (ground arith)) rest (ground arith)
        | inr worse ↦ choose-Improves best_spread best ds c l h rest (ground arith)
      ]
    where
      improved :
          (x : Swap)
          → ◌≡◌ {A = Option Swap} (some d) (some x)
          → spread (loads_after rate b d) < spread b.loads
          → Improves x
      improved x same lt = subst Improves (some_eq same) (p, lt)
        where
          some_eq : ◌≡◌ {A = Option Swap} (some d) (some x) → d ≡ x
          some_eq e = cc

  pub best_swap-Improves : (c : Swap) → best_swap rate b ≡ some c → Improves c
  unfolding best_swap
  best_swap-Improves c e =
      choose-Improves (spread b.loads) none (all_swaps rate b) c (omega arith) (λ d x. cc)
        (swaps_from-IsSwap _) e
