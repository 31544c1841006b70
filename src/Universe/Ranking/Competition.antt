-- ===== src/Universe/Ranking/Competition.antt =====
-- A rank is one more than the number of better values, src/miry/universe/ranking.py.
use miry_data_collector.Base.{
  ℕ, suc, ◌≡◌, refl, sym, ap, ap₂, subst, ◌∙◌, inl, inr, Bool, true, Bool-cases, Option, none, some,
  List, [], ◌∷◌, ◌++◌, append_assoc, All, map, length, length-append, arith,
}
use miry_data_collector.Base.Sorting.{sort_by, IsSorted, sort_by-IsSorted}
use miry_data_collector.Base.Text.{Text}
use miry_data_collector.Universe.Ranking.{Order, no_later, item_leb, is_new, number, metric_ranks}
use miry_data_collector.Universe.Ranking.Better.{
  better, no_later_total, no_later_trans, item_leb_total, item_leb_trans, better-append,
  better-sort_by, better-sorted, all_better, same_better,
}

module _ (O : Order) (descending : Bool) where
  abbrev ranked : List (Text × O.Decimal) → List (Text × O.Decimal) → List (Text × ℕ)
  ranked all items = map (λ i. (i.0, suc (better O descending i.1 all))) items

  -- The state of the loop behind the items `done`.
  abbrev IsCounted : List (Text × O.Decimal) → Option O.Decimal → ℕ → Type 0
  IsCounted done none rank = done ≡ []
  IsCounted done (some p) rank =
      (rank ≡ suc (better O descending p done)) × All (λ x. no_later O descending x.1 p ≡ true) done

  -- The previous value comes no later than the items to come.
  abbrev Precedes : Option O.Decimal → List (Text × O.Decimal) → Type 0
  Precedes none items = Unit
  Precedes (some p) items = All (λ x. no_later O descending p x.1 ≡ true) items

  item-no_later :
      (i x : Text × O.Decimal)
      → item_leb O descending i x ≡ true
      → no_later O descending i.1 x.1 ≡ true
  item-no_later i x h = ground (arith, h, no_later_total O descending i.1 x.1)

  follow :
      (i : Text × O.Decimal) (xs : List (Text × O.Decimal))
      → All (λ x. item_leb O descending i x ≡ true) xs
      → All (λ x. no_later O descending i.1 x.1 ≡ true) xs
  follow i [] h = tt
  follow i (x ∷ xs) (p, rest) = (item-no_later i x p, follow i xs rest)

  All-snoc :
      (P : Text × O.Decimal → Type 0) (xs : List (Text × O.Decimal)) (x : Text × O.Decimal)
      → All P xs
      → P x
      → All P (xs ++ (x ∷ []))
  All-snoc P [] x h p = (p, tt)
  All-snoc P (y ∷ ys) x (q, rest) p = (q, All-snoc P ys x rest p)

  raise_to :
      (p v : O.Decimal) (xs : List (Text × O.Decimal))
      → no_later O descending p v ≡ true
      → All (λ x. no_later O descending x.1 p ≡ true) xs
      → All (λ x. no_later O descending x.1 v ≡ true) xs
  raise_to p v [] h k = tt
  raise_to p v (x ∷ xs) h (q, rest) =
      (no_later_trans O descending x.1 p v q h, raise_to p v xs h rest)

  no_later_refl : (v : O.Decimal) → no_later O descending v v ≡ true
  no_later_refl v = ground (arith, no_later_total O descending v v)

  -- A new value starts a new count.
  new-IsCounted :
      (previous : Option O.Decimal) (rank : ℕ) (done : List (Text × O.Decimal))
      (i : Text × O.Decimal)
      → IsCounted done previous rank
      → Precedes previous (i ∷ [])
      → is_new O descending previous i.1 ≡ true
      → (better O descending i.1 done ≡ length done)
        × IsCounted (done ++ (i ∷ [])) (some i.1) (suc (length done))
  new-IsCounted none rank done i h k new =
      subst
        (λ d.
          (better O descending i.1 d ≡ length d)
          × IsCounted (d ++ (i ∷ [])) (some i.1) (suc (length d)))
        (sym h) (refl, (ground (arith, no_later_refl i.1), (no_later_refl i.1, tt)))
  new-IsCounted (some p) rank done i (h, below) (k, _) new =
      let far = all_better O descending p i.1 done below (ground (arith, new, k)) in
      (
        far,
        (
          omega (arith, far, better-append O descending i.1 done (i ∷ []), one_more),
          All-snoc (λ x. no_later O descending x.1 i.1 ≡ true) done i (raise_to p i.1 done k below)
              (no_later_refl i.1),
        ),
      )
    where
      one_more : better O descending i.1 (i ∷ []) ≡ 0
      one_more = ground (arith, no_later_refl i.1)

  own-better :
      (done items : List (Text × O.Decimal)) (i : Text × O.Decimal)
      → All (λ x. item_leb O descending i x ≡ true) items
      → better O descending i.1 (done ++ (i ∷ items)) ≡ better O descending i.1 done
  own-better done items i first = omega (
    arith,
    better-append O descending i.1 done (i ∷ items),
    better-sorted O descending i items first,
  )

  -- One round of the loop, from what the rest of the loop gives.
  ranked-cons :
      (done items : List (Text × O.Decimal)) (i : Text × O.Decimal) (previous : Option O.Decimal)
      (rank : ℕ)
      → All (λ x. item_leb O descending i x ≡ true) items
      → number O descending (suc (length (done ++ (i ∷ [])))) previous rank items
        ≡ ranked ((done ++ (i ∷ [])) ++ items) items
      → (r : ℕ) → r ≡ suc (better O descending i.1 done)
      → ◌≡◌ {A = List (Text × ℕ)}
          ((i.0, r) ∷ number O descending (suc (suc (length done))) previous rank items)
          (ranked (done ++ (i ∷ items)) (i ∷ items))
  ranked-cons done items i previous rank first ih r e =
      ap₂ (λ t es. (i.0, t) ∷ es) (e ∙ ap suc (sym (own-better done items i first)))
        (ap (λ n. number O descending n previous rank items)
            (omega (arith, length-append done (i ∷ [])))
          ∙ ih
          ∙ ap (λ d. ranked d items) (append_assoc done (i ∷ []) items))

  number-eq :
      (items done : List (Text × O.Decimal)) (previous : Option O.Decimal) (rank : ℕ)
      → IsSorted (item_leb O descending) items
      → Precedes previous items
      → IsCounted done previous rank
      → number O descending (suc (length done)) previous rank items ≡ ranked (done ++ items) items
  unfolding number
  number-eq [] done previous rank s k h = refl
  number-eq (i ∷ items) done none rank (first, s) k h =
      let (far, counted) = new-IsCounted none rank done i h tt refl in
      ranked-cons done items i (some i.1) (suc (length done)) first
        (number-eq items (done ++ (i ∷ [])) (some i.1) (suc (length done)) s (follow i items first)
          counted)
        (suc (length done)) (ap suc (sym far))
  number-eq (i ∷ items) done (some p) rank (first, s) (k, rest) h =
      elim (Bool-cases (is_new O descending (some p) i.1)) [
        | inl new ↦
            let (far, counted) = new-IsCounted (some p) rank done i h (k, tt) new in
            rw (number, new)
              (ranked-cons done items i (some i.1) (suc (length done)) first
                (number-eq items (done ++ (i ∷ [])) (some i.1) (suc (length done)) s
                  (follow i items first) counted)
                (suc (length done)) (ap suc (sym far)))
        | inr same ↦
            let level = same_better O descending p i.1 done (ground (arith, same, k)) k in
            rw (number, same)
              (ranked-cons done items i (some p) rank first
                (number-eq items (done ++ (i ∷ [])) (some p) rank s rest (
                  omega (arith, h.0, better-append O descending p done (i ∷ []), no_more k),
                  All-snoc (λ x. no_later O descending x.1 p ≡ true) done i h.1
                      (ground (arith, same, k)),
                ))
                rank (omega (arith, h.0, level)))
      ]
    where
      no_more : no_later O descending p i.1 ≡ true → better O descending p (i ∷ []) ≡ 0
      no_more e = ground (arith, e)

  -- The rank of every symbol is one more than the number of strictly better O descending values, so that equal
  -- values share the best rank of their group.
  pub metric_ranks-eq :
      (values : List (Text × O.Decimal))
      → metric_ranks O descending values
        ≡ map
            (λ i. (i.0, suc (better O descending i.1 values)))
            (sort_by (item_leb O descending) values)
  unfolding metric_ranks
  metric_ranks-eq values =
      number-eq (sort_by (item_leb O descending) values) [] none 0
        (sort_by-IsSorted (item_leb O descending) (item_leb_total O descending)
          (item_leb_trans O descending) values)
        tt refl
      ∙ same_counts (sort_by (item_leb O descending) values)
    where
      same_counts :
          (items : List (Text × O.Decimal))
          → ranked (sort_by (item_leb O descending) values) items ≡ ranked values items
      same_counts [] = refl
      same_counts (i ∷ items) =
          ap₂ (λ n es. (i.0, suc n) ∷ es) (better-sort_by O descending i.1 values)
            (same_counts items)
