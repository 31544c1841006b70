-- ===== src/Collector/Sharding/CurrentShards.antt =====
-- The tests of the current shards in `TrafficSharder.rebalance`, src/miry/collector/sharding.py.
use miry_data_collector.Base.{
  ◌≤◌, ◌<◌, ◌≡◌, refl, inl, inr, Bool, not, ◌||◌, Bool-cases, true, List, [], ◌∷◌, length, ◌==◌,
  all, arith,
}
use miry_data_collector.Base.Text.{Text, text_eq_iff, text_eq_refl}
use miry_data_collector.Base.Counting.{count, dedupe, count-any, count-any-true, count-dedupe}
use miry_data_collector.Collector.Sharding.Placing.{length-count_le}
use miry_data_collector.Collector.Sharding.Methods.{same_set, is_in}

all-any :
    (p : Text → Bool) (xs : List Text) (s : Text) → all p xs ≡ true → is_in xs s ≡ true → p s ≡ true
all-any p [] s h e = cc
all-any p (x ∷ xs) s h e = ground (arith, text_eq_iff s x, all-any p xs s)

any-all :
    (p : Text → Bool) (xs : List Text)
    → ((s : Text) → is_in xs s ≡ true → p s ≡ true)
    → all p xs ≡ true
any-all p [] h = refl
any-all p (x ∷ xs) h = ground (arith, h x, text_eq_refl x, any-all p xs later)
  where
    later : (s : Text) → is_in xs s ≡ true → p s ≡ true
    later s e = h s (ground (arith, e))

is_in-count : (xs : List Text) (s : Text) → 0 < count s xs → is_in xs s ≡ true
is_in-count xs s h = elim (Bool-cases (is_in xs s)) [
  | inl e ↦ e
  | inr e ↦ absurd (omega (arith, h, count-any s xs e))
]

-- The source's test of the current shards.
abbrev pub is_partition : List Text → List Text → Bool
is_partition active flattened =
    not (not (length flattened == length active) || not (same_set flattened active))

module _ (instruments flattened : List Text) where
  abbrev pub active : List Text
  active = dedupe instruments

  pub is_partition→counts :
      is_partition active flattened ≡ true → (s : Text) → count s flattened ≡ count s active
  is_partition→counts h s = ground (arith, no_less s, no_more s)
    where
      there : (u : Text) → is_in active u ≡ true → is_in flattened u ≡ true
      there u e = ground (arith, all-any (is_in flattened) active u)

      back : (u : Text) → is_in flattened u ≡ true → is_in active u ≡ true
      back u e = ground (arith, all-any (is_in active) flattened u)

      no_less : (u : Text) → count u active ≤ count u flattened
      no_less u = elim (Bool-cases (is_in active u)) [
        | inl e ↦ ground (arith, count-dedupe u instruments, count-any-true u flattened (there u e))
        | inr e ↦ omega (arith, count-any u active e)
      ]

      no_more : (u : Text) → ¬ (count u active < count u flattened)
      no_more u l = absurd (ground (arith, length-count_le (u ∷ active) flattened more))
        where
          more : (v : Text) → count v (u ∷ active) ≤ count v flattened
          more v = ground (arith, l, no_less v, text_eq_iff v u)

  pub counts→is_partition :
      ((s : Text) → count s flattened ≡ count s active) → is_partition active flattened ≡ true
  counts→is_partition h = ground (arith, same_length, there, back)
    where
      there : all (is_in active) flattened ≡ true
      there =
          any-all (is_in active) flattened
            (λ s e. is_in-count active s (omega (arith, h s, count-any-true s flattened e)))

      back : all (is_in flattened) active ≡ true
      back =
          any-all (is_in flattened) active
            (λ s e. is_in-count flattened s (omega (arith, h s, count-any-true s active e)))

      same_length : length flattened ≡ length active
      same_length = omega (
        arith,
        length-count_le flattened active (λ s. omega (arith, h s)),
        length-count_le active flattened (λ s. omega (arith, h s)),
      )
