-- ===== src/Collector/Sharding/Placing.antt =====
-- The loops of `TrafficSharder.shards` find a place for every symbol, src/miry/collector/sharding.py.
use native.Mathlib.Nat.{lt-mul-div-succ}
use miry_data_collector.Base.{
  ℕ, zero, suc, ◌+◌, ◌-◌, ◌*◌, ◌≤◌, ◌<◌, ◌≡◌, refl, sym, subst, ◌∙◌, inl, inr, Bool, Bool-cases,
  Option-cases, none, some, false, List, [], ◌∷◌, ◌++◌, map, length, length-append, if◌then◌else◌,
  ltb, filter, All, arith,
}
use miry_data_collector.Base.Text.{Text, text_eq, text_eq_iff, text_eq_refl}
use miry_data_collector.Base.Dict.{Dict}
use miry_data_collector.Base.Result.{ok}
use miry_data_collector.Base.Keys.{keys, IsDict, insert-IsDict}
use miry_data_collector.Base.Counting.{count, flatten, sum, count-append}
use miry_data_collector.Collector.Sharding.{Balance, get_or, range, remove}
use miry_data_collector.Collector.Sharding.Keeping.{
  sum-set_at, length-set_at, count-flatten, count-remove,
}
use miry_data_collector.Collector.Sharding.Methods.{
  Placement, place, put, least, load_leb, restore, put_in, available_for, max_symbols_of,
}

abbrev pub sizes : List (List Text) → ℕ
sizes xss = sum (map length xss)

length-remove :
    (s : Text) (xs : List Text) → 0 < count s xs → suc (length (remove s xs)) ≡ length xs
length-remove s [] h = absurd (omega (arith, h))
length-remove s (x ∷ xs) h = elim (Bool-cases (text_eq x s)) [
  | inl same ↦ ground arith
  | inr other ↦ ground (arith, text_eq_iff x s, text_eq_iff s x, length-remove s xs)
]

-- A list that has each text at most as often as another is not longer.
pub length-count_le :
    (xs ys : List Text) → ((s : Text) → count s xs ≤ count s ys) → length xs ≤ length ys
length-count_le [] ys h = omega arith
length-count_le (x ∷ xs) ys h =
    omega (arith, length-remove x ys there, length-count_le xs (remove x ys) fewer)
  where
    there : 0 < count x ys
    there = ground (arith, h x, text_eq_refl x)

    fewer : (s : Text) → count s xs ≤ count s (remove x ys)
    fewer s = omega (arith, h s, count-remove s x ys there)

module _ (loads : List ℕ) where
  least-All : (P : ℕ → Type 0) (is : List ℕ) (i : ℕ) → All P is → least loads is ≡ some i → P i
  least-All P [] i h e = cc
  least-All P (j ∷ js) i (p, rest) e = elim (Option-cases (least loads js)) [
    | inl n ↦ subst P (ground arith) p
    | inr (k, f) ↦ elim (Bool-cases (load_leb loads j k)) [
      | inl before ↦ subst P (ground arith) p
      | inr after ↦ least-All P js i rest (ground arith)
    ]
  ]

  least-none : (is : List ℕ) → least loads is ≡ none → is ≡ []
  least-none [] e = refl
  least-none (j ∷ js) e = elim (Option-cases (least loads js)) [
    | inl n ↦ cc
    | inr (k, f) ↦ elim (Bool-cases (load_leb loads j k)) [
      | inl before ↦ ground arith
      | inr after ↦ ground arith
    ]
  ]

All-filter : (P : ℕ → Type 0) (p : ℕ → Bool) (is : List ℕ) → All P is → All P (filter p is)
All-filter P p [] h = tt
All-filter P p (i ∷ is) (q, rest) = elim (Bool-cases (p i)) [
  | inl e ↦ rw (filter, e) (q, All-filter P p is rest)
  | inr e ↦ rw (filter, e) (All-filter P p is rest)
]

filter-empty : (p : ℕ → Bool) (is : List ℕ) → filter p is ≡ [] → All (λ i. p i ≡ false) is
filter-empty p [] h = tt
filter-empty p (i ∷ is) h = elim (Bool-cases (p i)) [
  | inl e ↦ ground arith
  | inr e ↦ (e, filter-empty p is (ground arith))
]

All-shift : (P : ℕ → Type 0) (i n : ℕ) → All P (range (suc i) n) → All (λ j. P (suc j)) (range i n)
All-shift P i zero h = tt
All-shift P i (suc n) (p, rest) = (p, All-shift P (suc i) n rest)

range-below : (i n m : ℕ) → i + n ≤ m → All (λ j. j < m) (range i n)
range-below i zero m h = tt
range-below i (suc n) m h = (omega (arith, h), range-below (suc i) n m (omega (arith, h)))

-- Shards that are all full hold many symbols.
full-le :
    (m : ℕ) (xss : List (List Text))
    → All (λ i. ltb (length (get_or [] i xss)) m ≡ false) (range 0 (length xss))
    → length xss * m ≤ sizes xss
full-le m [] h = omega arith
full-le m (xs ∷ xss) (p, rest) = ground (arith, p, full-le m xss (All-shift _ 0 (length xss) rest))

pub max_symbols-lt : (active k : ℕ) → 0 < k → active < k * max_symbols_of active k
max_symbols-lt active k h = omega (arith, lt-mul-div-succ (active + k - 1) h)

module _ (rate : Text → ℕ) where
  sizes-put :
      (s : Text) (i : ℕ) (b : Balance)
      → i < length b.shards
      → sizes (put rate s i b).shards ≡ suc (sizes b.shards)
  sizes-put s i b h = omega (
    arith,
    sum-set_at [] length i (get_or [] i b.shards ++ (s ∷ [])) b.shards h,
    length-append (get_or [] i b.shards) (s ∷ []),
  )

  pub count-put :
      (t s : Text) (i : ℕ) (b : Balance)
      → i < length b.shards
      → count t (flatten (put rate s i b).shards)
        ≡ (if text_eq t s then 1 else 0) + count t (flatten b.shards)
  count-put t s i b h = omega (
    arith,
    count-flatten t (put rate s i b).shards,
    count-flatten t b.shards,
    sum-set_at [] (count t) i (get_or [] i b.shards ++ (s ∷ [])) b.shards h,
    count-append t (get_or [] i b.shards) (s ∷ []),
  )

  -- What placing symbols on a balance gives: the symbols and what was there.
  pub record Adds (symbols : List Text) (b b' : Balance) : Type 0 where
    pub counts :
        (t : Text) → count t (flatten b'.shards) ≡ count t symbols + count t (flatten b.shards)
    pub sized : sizes b'.shards ≡ length symbols + sizes b.shards
    pub shard_count : length b'.shards ≡ length b.shards

  put-Adds :
      (s : Text) (i : ℕ) (b : Balance) → i < length b.shards → Adds (s ∷ []) b (put rate s i b)
  put-Adds s i b h = record {
    counts = λ t. omega (arith, count-put t s i b h);
    sized = omega (arith, sizes-put s i b h);
    shard_count = length-set_at i _ b.shards;
  }

  Adds-cons :
      (s : Text) (symbols : List Text) (b b' b'' : Balance)
      → Adds (s ∷ []) b b'
      → Adds symbols b' b''
      → Adds (s ∷ symbols) b b''
  Adds-cons s symbols b b' b'' h k = record {
    counts = λ t. omega (arith, h.counts t, k.counts t);
    sized = omega (arith, h.sized, k.sized);
    shard_count = k.shard_count ∙ h.shard_count;
  }

  Adds-nil : (b : Balance) → Adds [] b b
  Adds-nil b = record { counts = λ t. omega arith; sized = omega arith; shard_count = refl }

  pub restore-Adds :
      (d : Dict ℕ) (b : Balance)
      → All (λ e. e.1 < length b.shards) d
      → Adds (keys d) b (restore rate d b)
  unfolding restore
  restore-Adds [] b h = Adds-nil b
  restore-Adds ((s, i) ∷ d) b (p, rest) =
      Adds-cons s (keys d) b (put rate s i b) _ (put-Adds s i b p) (
        restore-Adds d (put rate s i b)
          (subst (λ n. All (λ e. e.1 < n) d) (sym (length-set_at i _ b.shards)) rest))

  pub least-lt :
      (m : ℕ) (b : Balance) (i : ℕ)
      → least b.loads (available_for m b) ≡ some i
      → i < length b.shards
  least-lt m b i e =
      least-All b.loads (λ j. j < length b.shards) (available_for m b) i
        (All-filter (λ j. j < length b.shards) _ (range 0 (length b.shards))
          (range-below 0 (length b.shards) (length b.shards) (omega arith)))
        e

  -- A shard with room is found while the shards are not all full.
  least-found :
      (m : ℕ) (b : Balance)
      → sizes b.shards < length b.shards * m
      → (i : ℕ) × (least b.loads (available_for m b) ≡ some i) × (i < length b.shards)
  least-found m b h = elim (Option-cases (least b.loads (available_for m b))) [
    | inl n ↦ absurd (
        omega (
          arith,
          h,
          full-le m b.shards (
              filter-empty _ (range 0 (length b.shards))
                (least-none b.loads (available_for m b) n)),
        ))
    | inr (i, e) ↦ (i, e, least-lt m b i e)
  ]

  pub place-Adds :
      (m : ℕ) (symbols : List Text) (p : Placement)
      → length symbols + sizes p.balance.shards ≤ length p.balance.shards * m
      → (q : Placement) × (place rate m symbols p ≡ ok q)
        × Adds symbols p.balance q.balance
        × (IsDict p.placed → IsDict q.placed)
  unfolding place
  place-Adds m [] p h = (p, refl, Adds-nil p.balance, λ d. d)
  place-Adds m (s ∷ symbols) p h =
      let (i, e, l) = least-found m p.balance (omega (arith, h)) in
      let added = put-Adds s i p.balance l in
      let q = put_in rate s i p in
      let (r, f, g, d) = place-Adds m symbols q (
        subst (λ n. length symbols + sizes (put rate s i p.balance).shards ≤ n * m)
          (sym added.shard_count) (omega (arith, h, added.sized))) in
      (
        r,
        rw (place, e) f,
        Adds-cons s symbols p.balance q.balance r.balance added g,
        λ k. d (insert-IsDict s i p.placed k),
      )
