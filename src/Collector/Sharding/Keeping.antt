-- ===== src/Collector/Sharding/Keeping.antt =====
-- What a swap of `_improve_balance` leaves as it was, src/miry/collector/sharding.py.
use miry_data_collector.Base.{
  ℕ, zero, suc, ◌+◌, ◌≤◌, ◌<◌, ◌≡◌, refl, sym, ap, subst, ◌∙◌, inl, inr, Bool-cases, Option-cases,
  Option, some, List, [], ◌∷◌, ◌++◌, map, length, if◌then◌else◌, arith,
}
use miry_data_collector.Base.Text.{Text, text_eq, text_eq_iff}
use miry_data_collector.Base.Counting.{count, flatten, sum, count-append}
use miry_data_collector.Collector.Sharding.{
  Balance, Swap, get_or, set_at, remove, spread, best_swap, apply, spend, is_spent, improve,
  improve_balance,
}
use miry_data_collector.Collector.Sharding.Swaps.{IsSwap, best_swap-Improves}

module _ {A : Type 0} (d : A) where
  pub get_or-set_at :
      (i j : ℕ) (x : A) (xs : List A) → i < j → get_or d j (set_at i x xs) ≡ get_or d j xs
  get_or-set_at i j x [] h = refl
  get_or-set_at i zero x (y ∷ ys) h = absurd (omega (arith, h))
  get_or-set_at zero (suc j) x (y ∷ ys) h = refl
  get_or-set_at (suc i) (suc j) x (y ∷ ys) h = get_or-set_at i j x ys (omega (arith, h))

  -- Writing one place changes a sum over the places by what it changes there.
  pub sum-set_at :
      (f : A → ℕ) (i : ℕ) (x : A) (xs : List A)
      → i < length xs
      → sum (map f (set_at i x xs)) + f (get_or d i xs) ≡ sum (map f xs) + f x
  sum-set_at f i x [] h = omega (arith, h)
  sum-set_at f zero x (y ∷ ys) h = omega arith
  sum-set_at f (suc i) x (y ∷ ys) h = omega (arith, sum-set_at f i x ys (omega (arith, h)))

pub length-set_at : {A : Type 0} (i : ℕ) (x : A) (xs : List A) → length (set_at i x xs) ≡ length xs
length-set_at i x [] = refl
length-set_at zero x (y ∷ ys) = refl
length-set_at (suc i) x (y ∷ ys) = ap suc (length-set_at i x ys)

pub map-set_at :
    {A B : Type 0} (f : A → B) (i : ℕ) (x : A) (xs : List A)
    → map f (set_at i x xs) ≡ set_at i (f x) (map f xs)
map-set_at f i x [] = refl
map-set_at f zero x (y ∷ ys) = refl
map-set_at f (suc i) x (y ∷ ys) = ap (λ ys. f y ∷ ys) (map-set_at f i x ys)

pub count-flatten :
    (s : Text) (xss : List (List Text)) → count s (flatten xss) ≡ sum (map (count s) xss)
count-flatten s [] = refl
count-flatten s (xs ∷ xss) = omega (arith, count-append s xs (flatten xss), count-flatten s xss)

pub count-remove :
    (s t : Text) (xs : List Text)
    → 0 < count t xs
    → count s (remove t xs) + (if text_eq s t then 1 else 0) ≡ count s xs
count-remove s t [] h = omega (arith, h)
count-remove s t (x ∷ xs) h = elim (Bool-cases (text_eq x t)) [
  | inl same ↦ ground (arith, text_eq_iff x t)
  | inr other ↦ ground (arith, text_eq_iff x t, text_eq_iff t x, count-remove s t xs)
]

module _ (rate : Text → ℕ) where
  -- The load of a shard is the sum of its rates.
  abbrev pub load : List Text → ℕ
  load xs = sum (map rate xs)

  abbrev pub HasLoads : Balance → Type 0
  HasLoads b = b.loads ≡ map load b.shards

  pub load-append : (xs ys : List Text) → load (xs ++ ys) ≡ load xs + load ys
  load-append [] ys = omega arith
  load-append (x ∷ xs) ys = omega (arith, load-append xs ys)

  load-remove : (t : Text) (xs : List Text) → 0 < count t xs → load (remove t xs) + rate t ≡ load xs
  load-remove t [] h = omega (arith, h)
  load-remove t (x ∷ xs) h = elim (Bool-cases (text_eq x t)) [
    | inl same ↦ ground (arith, text_eq_iff x t)
    | inr other ↦ ground (arith, text_eq_iff x t, text_eq_iff t x, load-remove t xs)
  ]

  get_or-loads :
      (i : ℕ) (xss : List (List Text)) → get_or 0 i (map load xss) ≡ load (get_or [] i xss)
  get_or-loads i [] = refl
  get_or-loads zero (xs ∷ xss) = refl
  get_or-loads (suc i) (xs ∷ xss) = get_or-loads i xss

  module _ (b : Balance) (c : Swap) (h : IsSwap rate b c) where
    count_left :
        (s : Text)
        → count s (remove c.left_symbol (get_or [] c.left b.shards) ++ (c.right_symbol ∷ []))
            + (if text_eq s c.left_symbol then 1 else 0)
          ≡ count s (get_or [] c.left b.shards) + (if text_eq s c.right_symbol then 1 else 0)
    count_left s = omega (
      arith,
      count-append s (remove c.left_symbol (get_or [] c.left b.shards)) (c.right_symbol ∷ []),
      count-remove s c.left_symbol (get_or [] c.left b.shards) h.left_there,
    )

    count_right :
        (s : Text)
        → count s (remove c.right_symbol (get_or [] c.right b.shards) ++ (c.left_symbol ∷ []))
            + (if text_eq s c.right_symbol then 1 else 0)
          ≡ count s (get_or [] c.right b.shards) + (if text_eq s c.left_symbol then 1 else 0)
    count_right s = omega (
      arith,
      count-append s (remove c.right_symbol (get_or [] c.right b.shards)) (c.left_symbol ∷ []),
      count-remove s c.right_symbol (get_or [] c.right b.shards) h.right_there,
    )

    -- Writing two places changes a sum by what it changes at both.
    sum-set_at_twice :
        (f : List Text → ℕ) (xs ys : List Text)
        → sum (map f (set_at c.right ys (set_at c.left xs b.shards)))
            + (f (get_or [] c.left b.shards) + f (get_or [] c.right b.shards))
          ≡ sum (map f b.shards) + (f xs + f ys)
    sum-set_at_twice f xs ys = omega (
      arith,
      sum-set_at [] f c.left xs b.shards (omega (arith, h.ordered, h.in_range)),
      sum-set_at [] f c.right ys (set_at c.left xs b.shards)
          (subst (λ n. c.right < n) (sym (length-set_at c.left xs b.shards)) h.in_range),
      ap f (get_or-set_at [] c.left c.right xs b.shards h.ordered),
    )

    count-apply :
        (s : Text) → count s (flatten (apply rate b c).shards) ≡ count s (flatten b.shards)
    count-apply s = omega (
      arith,
      count-flatten s (apply rate b c).shards,
      count-flatten s b.shards,
      count_left s,
      count_right s,
      sum-set_at_twice (count s)
          (remove c.left_symbol (get_or [] c.left b.shards) ++ (c.right_symbol ∷ []))
          (remove c.right_symbol (get_or [] c.right b.shards) ++ (c.left_symbol ∷ [])),
    )

    load_left :
        HasLoads b
        → load (remove c.left_symbol (get_or [] c.left b.shards) ++ (c.right_symbol ∷ []))
          ≡ c.next_left
    load_left g = omega (
      arith,
      h.left_load,
      load-append (remove c.left_symbol (get_or [] c.left b.shards)) (c.right_symbol ∷ []),
      load-remove c.left_symbol (get_or [] c.left b.shards) h.left_there,
      ap (get_or 0 c.left) g,
      get_or-loads c.left b.shards,
    )

    load_right :
        HasLoads b
        → load (remove c.right_symbol (get_or [] c.right b.shards) ++ (c.left_symbol ∷ []))
          ≡ c.next_right
    load_right g = omega (
      arith,
      h.right_load,
      load-append (remove c.right_symbol (get_or [] c.right b.shards)) (c.left_symbol ∷ []),
      load-remove c.right_symbol (get_or [] c.right b.shards) h.right_there,
      ap (get_or 0 c.right) g,
      get_or-loads c.right b.shards,
    )

    apply-HasLoads : HasLoads b → HasLoads (apply rate b c)
    apply-HasLoads g = sym (
        map-set_at load c.right _ (set_at c.left _ b.shards)
        ∙ rw (
          map-set_at load c.left
              (remove c.left_symbol (get_or [] c.left b.shards) ++ (c.right_symbol ∷ [])) b.shards,
          load_left g,
          load_right g,
          sym g,
        ))

  -- What the loop keeps: where a symbol is, up to a move, the loads' meaning, and the number of shards.
  pub record IsKept (b b' : Balance) : Type 0 where
    pub counts : (s : Text) → count s (flatten b'.shards) ≡ count s (flatten b.shards)
    pub has_loads : HasLoads b → HasLoads b'
    pub shard_count : length b'.shards ≡ length b.shards
    pub narrower : spread b'.loads ≤ spread b.loads

  pub IsKept-refl : (b : Balance) → IsKept b b
  IsKept-refl b = record {
    counts = λ s. refl;
    has_loads = λ g. g;
    shard_count = refl;
    narrower = omega arith;
  }

  IsKept-trans : (b b' b'' : Balance) → IsKept b b' → IsKept b' b'' → IsKept b b''
  IsKept-trans b b' b'' h k = record {
    counts = λ s. k.counts s ∙ h.counts s;
    has_loads = λ g. k.has_loads (h.has_loads g);
    shard_count = k.shard_count ∙ h.shard_count;
    narrower = omega (arith, h.narrower, k.narrower);
  }

  apply-IsKept : (b : Balance) (c : Swap) → best_swap rate b ≡ some c → IsKept b (apply rate b c)
  apply-IsKept b c e =
      let i = best_swap-Improves rate b c e in
      record {
        counts = count-apply b c i.0;
        has_loads = apply-HasLoads b c i.0;
        shard_count = length-set_at c.right _ _ ∙ length-set_at c.left _ b.shards;
        narrower = omega (arith, i.1);
      }

  improve-IsKept :
      (fuel : ℕ) (allowed : Option ℕ) (b : Balance) → IsKept b (improve rate fuel allowed b)
  unfolding improve
  improve-IsKept zero allowed b = IsKept-refl b
  improve-IsKept (suc fuel) allowed b = elim (Bool-cases (is_spent allowed)) [
    | inl e ↦ rw (improve, e) (IsKept-refl b)
    | inr e ↦ elim (Option-cases (best_swap rate b)) [
      | inl n ↦ rw (improve, e, n) (IsKept-refl b)
      | inr (c, f) ↦
          rw (improve, e, f)
            (IsKept-trans b _ _ (apply-IsKept b c f)
              (improve-IsKept fuel (spend allowed) (apply rate b c)))
    ]
  ]

  pub improve_balance-IsKept :
      (allowed : Option ℕ) (b : Balance) → IsKept b (improve_balance rate allowed b)
  unfolding improve_balance
  improve_balance-IsKept allowed b = improve-IsKept (suc (spread b.loads)) allowed b
