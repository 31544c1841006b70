-- ===== src/Collector/Sharding/Exchanges.antt =====
-- The loop nest of `_improve_balance` tries every exchange, src/miry/collector/sharding.py.
use miry_data_collector.Base.{
  ℕ, zero, suc, ◌+◌, ◌-◌, ◌<◌, ◌≤◌, ◌≡◌, ◌⊎◌, refl, sym, ap, subst, List, [], ◌∷◌, ◌++◌, map,
  length, any, All, inl, inr, true, Bool-cases, arith,
}
use miry_data_collector.Base.Text.{Text, text_eq, text_eq_iff}
use miry_data_collector.Collector.Sharding.{
  Balance, Swap, all_swaps, swap_of, swaps_for, swaps_with, swaps_from, get_or, range,
}

module _ {A : Type 0} (P : A → Type 0) where
  All-left : (xs ys : List A) → All P (xs ++ ys) → All P xs
  All-left [] ys h = tt
  All-left (x ∷ xs) ys (p, rest) = (p, All-left xs ys rest)

  All-right : (xs ys : List A) → All P (xs ++ ys) → All P ys
  All-right [] ys h = h
  All-right (x ∷ xs) ys (p, rest) = All-right xs ys rest

  All-symbol :
      (f : Text → A) (s : Text) (xs : List Text)
      → any (text_eq s) xs ≡ true
      → All P (map f xs)
      → P (f s)
  All-symbol f s [] e h = cc
  All-symbol f s (x ∷ xs) e (p, rest) = elim (Bool-cases (text_eq s x)) [
    | inl same ↦ subst (λ t. P (f t)) (sym ((text_eq_iff s x).0 same)) p
    | inr other ↦ All-symbol f s xs (ground arith) rest
  ]

here_or_past : (i j : ℕ) → i ≤ j → (i ≡ j) ⊎ (suc i ≤ j)
here_or_past zero zero h = inl refl
here_or_past zero (suc j) h = inr (omega arith)
here_or_past (suc i) zero h = absurd (omega (arith, h))
here_or_past (suc i) (suc j) h = elim (here_or_past i j (omega (arith, h))) [
  | inl e ↦ inl (ap suc e)
  | inr l ↦ inr (omega (arith, l))
]

-- What holds of all swaps that the loop nest tries holds of every exchange of two symbols of two
-- shards.
module _ (rate : Text → ℕ) (P : Swap → Type 0) (b : Balance) (left right : ℕ) (l r : Text) where
  All-swaps_for :
      (ls rs : List Text)
      → any (text_eq l) ls ≡ true
      → any (text_eq r) rs ≡ true
      → All P (swaps_for rate b left right ls rs)
      → P (swap_of rate b left right l r)
  All-swaps_for [] rs e f h = cc
  All-swaps_for (x ∷ xs) rs e f h = elim (Bool-cases (text_eq l x)) [
    | inl same ↦
        subst (λ t. P (swap_of rate b left right t r)) (sym ((text_eq_iff l x).0 same))
          (All-symbol P (swap_of rate b left right x) r rs f (All-left P _ _ h))
    | inr other ↦
        All-swaps_for xs rs (ground arith) f
          (All-right P (map (swap_of rate b left right x) rs) _ h)
  ]

  All-swaps_with :
      (i n : ℕ)
      → i ≤ right
      → right < i + n
      → All P (swaps_with rate b left (range i n))
      → All P (swaps_for rate b left right (get_or [] left b.shards) (get_or [] right b.shards))
  All-swaps_with i zero p q h = absurd (omega (arith, p, q))
  All-swaps_with i (suc n) p q h = elim (here_or_past i right p) [
    | inl same ↦
        subst
          (λ j. All P (swaps_for rate b left j (get_or [] left b.shards) (get_or [] j b.shards)))
          same (All-left P _ _ h)
    | inr past ↦
        All-swaps_with (suc i) n past (omega (arith, q)) (
          All-right P (swaps_for rate b left i (get_or [] left b.shards) (get_or [] i b.shards)) _
            h)
  ]

  All-swaps_from :
      (i n : ℕ)
      → i ≤ left
      → left < i + n
      → All P (swaps_from rate b (range i n))
      → All P (swaps_with rate b left (range (suc left) (length b.shards - suc left)))
  All-swaps_from i zero p q h = absurd (omega (arith, p, q))
  All-swaps_from i (suc n) p q h = elim (here_or_past i left p) [
    | inl same ↦
        subst (λ j. All P (swaps_with rate b j (range (suc j) (length b.shards - suc j)))) same
          (All-left P _ _ h)
    | inr past ↦
        All-swaps_from (suc i) n past (omega (arith, q))
          (All-right P (swaps_with rate b i (range (suc i) (length b.shards - suc i))) _ h)
  ]

  pub All-all_swaps :
      left < right
      → any (text_eq l) (get_or [] left b.shards) ≡ true
      → any (text_eq r) (get_or [] right b.shards) ≡ true
      → All P (all_swaps rate b)
      → P (swap_of rate b left right l r)
  All-all_swaps p e f h =
      let q = in_range right b.shards f in
      All-swaps_for (get_or [] left b.shards) (get_or [] right b.shards) e f (
        All-swaps_with (suc left) (length b.shards - suc left) p (omega (arith, p, q))
          (All-swaps_from 0 (length b.shards) (omega arith) (omega (arith, p, q)) h))
    where
      in_range :
          (i : ℕ) (xss : List (List Text))
          → any (text_eq r) (get_or [] i xss) ≡ true
          → i < length xss
      in_range i [] g = cc
      in_range zero (xs ∷ xss) g = omega arith
      in_range (suc i) (xs ∷ xss) g = omega (arith, in_range i xss g)
