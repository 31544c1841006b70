-- ===== src/Collector/Sharding/Settling.antt =====
-- The loop of `_improve_balance` ends, src/miry/collector/sharding.py.
use miry_data_collector.Base.{
  ℕ, zero, suc, ◌+◌, ◌-◌, ◌<◌, ◌≤◌, ◌≡◌, ◌≢◌, List, [], ◌∷◌, any, All, ltb, inl, inr, Bool, ◌&&◌,
  if◌then◌else◌, Bool-cases, Option-cases, Option, none, some, arith,
}
use miry_data_collector.Base.Text.{Text, text_eq}
use miry_data_collector.Collector.Sharding.{
  Balance, Swap, spread, best_swap, apply, spend, is_spent, improve, improve_balance, choose,
  loads_after, all_swaps, get_or, set_at,
}
use miry_data_collector.Collector.Sharding.Exchanges.{All-all_swaps}
use miry_data_collector.Collector.Sharding.Swaps.{best_swap-Improves}

module _ (rate : Text → ℕ) where
  apply-lt :
      (b : Balance) (c : Swap)
      → best_swap rate b ≡ some c
      → spread (apply rate b c).loads < spread b.loads
  apply-lt b c e = (best_swap-Improves rate b c e).1

  -- Any two numbers of rounds above the spread give the same.
  pub improve-fuel :
      (fuel fuel' : ℕ) (allowed : Option ℕ) (b : Balance)
      → spread b.loads < fuel
      → spread b.loads < fuel'
      → improve rate fuel allowed b ≡ improve rate fuel' allowed b
  unfolding improve
  improve-fuel zero fuel' allowed b h k = absurd (omega (arith, h))
  improve-fuel (suc fuel) zero allowed b h k = absurd (omega (arith, k))
  improve-fuel (suc fuel) (suc fuel') allowed b h k = elim (Bool-cases (is_spent allowed)) [
    | inl e ↦ rw (improve, e)
    | inr e ↦ elim (Option-cases (best_swap rate b)) [
      | inl n ↦ rw (improve, e, n)
      | inr (c, f) ↦ rw (
        improve,
        e,
        f,
        improve-fuel fuel fuel' (spend allowed) (apply rate b c) (omega (arith, apply-lt b c f, h))
            (omega (arith, apply-lt b c f, k)),
      )
    ]
  ]

  -- Without a limit on the swaps, no swap is left that improves.
  pub improve-none :
      (fuel : ℕ) (b : Balance)
      → spread b.loads < fuel
      → best_swap rate (improve rate fuel none b) ≡ none
  unfolding improve
  improve-none zero b h = absurd (omega (arith, h))
  improve-none (suc fuel) b h = elim (Option-cases (best_swap rate b)) [
    | inl n ↦ rw (improve, n) n
    | inr (c, f) ↦
        rw (improve, f) (improve-none fuel (apply rate b c) (omega (arith, apply-lt b c f, h)))
  ]

  choose-some :
      (b : Balance) (best_spread : ℕ) (c : Swap) (cs : List Swap)
      → choose rate b best_spread (some c) cs ≢ none
  unfolding choose
  choose-some b best_spread c [] e = cc
  choose-some b best_spread c (d ∷ ds) e =
      elim (Bool-cases (ltb (spread (loads_after rate b d)) best_spread)) [
        | inl better ↦ choose-some b (spread (loads_after rate b d)) d ds (ground arith)
        | inr worse ↦ choose-some b best_spread c ds (ground arith)
      ]

  -- Whether `l` is in the shard `left` and `r` in a later shard, `right`.
  abbrev pub can_exchange : Balance → (left right : ℕ) → (l r : Text) → Bool
  can_exchange b left right l r =
      ltb left right
      && (any (text_eq l) (get_or [] left b.shards) && any (text_eq r) (get_or [] right b.shards))

  -- The loads when the two symbols have changed places.
  abbrev pub exchanged_loads : Balance → (left right : ℕ) → (l r : Text) → List ℕ
  exchanged_loads b left right l r =
      set_at right (get_or 0 right b.loads + rate l - rate r)
        (set_at left (get_or 0 left b.loads + rate r - rate l) b.loads)

  -- No exchange of two symbols of two shards makes the spread smaller.
  abbrev pub IsSettled : Balance → Type 0
  IsSettled b =
      (left right : ℕ) (l r : Text)
      → spread b.loads ≤ (
          if can_exchange b left right l r
          then spread (exchanged_loads b left right l r)
          else spread b.loads)

  abbrev IsNoBetter : Balance → ℕ → Swap → Type 0
  IsNoBetter b best_spread c = best_spread ≤ spread (loads_after rate b c)

  choose-none :
      (b : Balance) (best_spread : ℕ) (cs : List Swap)
      → choose rate b best_spread none cs ≡ none
      → All (IsNoBetter b best_spread) cs
  unfolding choose
  choose-none b best_spread [] e = tt
  choose-none b best_spread (d ∷ ds) e =
      elim (Bool-cases (ltb (spread (loads_after rate b d)) best_spread)) [
        | inl better ↦ absurd (choose-some b (spread (loads_after rate b d)) d ds (ground arith))
        | inr worse ↦ (ground arith, choose-none b best_spread ds (ground arith))
      ]

  best_swap-none : (b : Balance) → best_swap rate b ≡ none → IsSettled b
  unfolding best_swap
  best_swap-none b e left right l r = elim (Bool-cases (can_exchange b left right l r)) [
    | inr unable ↦ rw unable (omega arith)
    | inl able ↦ rw able (
        All-all_swaps rate (IsNoBetter b (spread b.loads)) b left right l r (ground arith)
          (ground arith) (ground arith) (choose-none b (spread b.loads) (all_swaps rate b) e))
  ]

  -- The loop of `_improve_balance` ends: any number of rounds above the spread of the loads gives
  -- what it gives, and without a limit on the swaps it stops where exchanging a symbol of one shard
  -- for a symbol of a later shard, whichever they are, does not make the spread smaller.
  pub improve_balance-IsSettled :
      (fuel : ℕ) (allowed : Option ℕ) (b : Balance)
      → spread b.loads < fuel
      → (improve rate fuel allowed b ≡ improve_balance rate allowed b)
        × IsSettled (improve_balance rate none b)
  unfolding improve_balance
  improve_balance-IsSettled fuel allowed b h = (
    improve-fuel fuel (suc (spread b.loads)) allowed b h (omega arith),
    best_swap-none _ (improve-none (suc (spread b.loads)) b (omega arith)),
  )
