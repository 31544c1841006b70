-- ===== src/Orderbook/Bridge/Locate.antt =====
-- What `locate_snapshot_bridge` decides, src/miry/orderbook/bridge.py.
use miry_data_collector.Base.{
  ℕ, ◌≤◌, ◌<◌, ◌≡◌, refl, ◌⊎◌, inl, inr, some, List, [], ◌∷◌, ◌++◌, arith, ltb, leb, Bool-cases,
  length, get_elem?, drop, length-append, All, ap,
}
use miry_data_collector.Orderbook.Bridge.{
  UpdateSpan, BridgeResult, waiting_at, stale_at, bridged_at, discard_until, locate_snapshot_bridge,
}

-- The spans that end before the snapshot, and are of no use to it.
abbrev pub IsEarly : ℕ → UpdateSpan → Type 0
IsEarly last s = s.final_update_id < last

-- The official rule, without indices: skip the early spans, and look at the first that is left.
pub data Decision (last : ℕ) (spans : List UpdateSpan) (r : BridgeResult) : Type 0 where
  all_early : All (IsEarly last) spans → r ≡ waiting_at (length spans) → Decision last spans r
  starts_late :
      (early rest : List UpdateSpan) (c : UpdateSpan)
      → spans ≡ early ++ (c ∷ rest)
      → All (IsEarly last) early
      → last ≤ c.final_update_id
      → last < c.first_update_id
      → r ≡ stale_at (length early)
      → Decision last spans r
  overlaps :
      (early rest : List UpdateSpan) (c : UpdateSpan)
      → spans ≡ early ++ (c ∷ rest)
      → All (IsEarly last) early
      → last ≤ c.final_update_id
      → c.first_update_id ≤ last
      → r ≡ bridged_at (length early)
      → Decision last spans r

module _ {ℓ} {A : Type ℓ} where
  pub get_elem?-length_append :
      (xs ys : List A) (x : A) → get_elem? (xs ++ (x ∷ ys)) (length xs) ≡ some x
  get_elem?-length_append [] ys x = refl
  get_elem?-length_append (_ ∷ xs) ys x = get_elem?-length_append xs ys x

  pub drop-length_append : (xs ys : List A) → drop (length xs) (xs ++ ys) ≡ ys
  drop-length_append [] ys = refl
  drop-length_append (_ ∷ xs) ys = drop-length_append xs ys

  pub drop-length : (xs : List A) → drop (length xs) xs ≡ []
  drop-length [] = refl
  drop-length (_ ∷ xs) = drop-length xs

module _ (last : ℕ) where
  discard_until-early :
      (spans : List UpdateSpan) → All (IsEarly last) spans → discard_until last spans ≡ length spans
  unfolding discard_until
  discard_until-early [] h = refl
  discard_until-early (s ∷ ss) h = ground (arith, discard_until-early ss h.1)

  discard_until-append :
      (early rest : List UpdateSpan) (c : UpdateSpan)
      → All (IsEarly last) early
      → last ≤ c.final_update_id
      → discard_until last (early ++ (c ∷ rest)) ≡ length early
  unfolding discard_until
  discard_until-append [] rest c h e = ground arith
  discard_until-append (s ∷ ss) rest c h e = ground (arith, discard_until-append ss rest c h.1 e)

  -- Every buffer is early throughout, or has a first span that is not.
  pub split-IsEarly :
      (spans : List UpdateSpan)
      → All (IsEarly last) spans
        ⊎ ((early : List UpdateSpan) × (rest : List UpdateSpan) × (c : UpdateSpan) × (spans
              ≡ early ++ (c ∷ rest))
            × All (IsEarly last) early
            × (last ≤ c.final_update_id))
  split-IsEarly [] = inl tt
  split-IsEarly (s ∷ ss) = elim (Bool-cases (leb last s.final_update_id)) [
    | inl late ↦ inr ([], ss, s, refl, tt, ground arith)
    | inr early ↦ elim (split-IsEarly ss) [
      | inl h ↦ inl (ground arith, h)
      | inr (pre, rest, c, e, h, l) ↦ inr (s ∷ pre, rest, c, ap (◌∷◌ s) e, (ground arith, h), l)
    ]
  ]

  pub locate-early :
      (spans : List UpdateSpan)
      → All (IsEarly last) spans
      → locate_snapshot_bridge last spans ≡ waiting_at (length spans)
  unfolding locate_snapshot_bridge
  locate-early spans h = ground (arith, discard_until-early spans h)

  module _ (early rest : List UpdateSpan) (c : UpdateSpan) (h : All (IsEarly last) early)
      (l : last ≤ c.final_update_id) where
    pub locate-late :
        last < c.first_update_id
        → locate_snapshot_bridge last (early ++ (c ∷ rest)) ≡ stale_at (length early)
    unfolding locate_snapshot_bridge
    locate-late f = ground (
      arith,
      discard_until-append early rest c h l,
      length-append early (c ∷ rest),
      get_elem?-length_append early rest c,
    )

    pub locate-overlap :
        c.first_update_id ≤ last
        → locate_snapshot_bridge last (early ++ (c ∷ rest)) ≡ bridged_at (length early)
    unfolding locate_snapshot_bridge
    locate-overlap f = ground (
      arith,
      discard_until-append early rest c h l,
      length-append early (c ∷ rest),
      get_elem?-length_append early rest c,
    )

  -- The result of `locate_snapshot_bridge` is the decision of the official first-event rule: the
  -- spans that end before the snapshot are counted as discarded, and the first other span, if there
  -- is one, makes the snapshot stale if it begins after the snapshot's id and bridges it if not.
  pub locate-Decision :
      (spans : List UpdateSpan) → Decision last spans (locate_snapshot_bridge last spans)
  locate-Decision spans = elim (split-IsEarly spans) [
    | inl h ↦ Decision.all_early h (locate-early spans h)
    | inr (early, rest, c, e, h, l) ↦ elim (Bool-cases (ltb last c.first_update_id)) [
      | inl late ↦
          Decision.starts_late early rest c e h l (ground arith)
            (rw e (locate-late early rest c h l (ground arith)))
      | inr in_time ↦
          Decision.overlaps early rest c e h l (ground arith)
            (rw e (locate-overlap early rest c h l (ground arith)))
    ]
  ]
