-- ===== src/Pipeline/Quality/Episodes.antt =====
-- The episodes of a gap among the invalid intervals, src/miry/pipeline/quality.py.
use miry_data_collector.Base.{
  ℕ, ◌≡◌, refl, ◌∙◌, ap, false, some, List, [], ◌∷◌, ◌++◌, arith, All, here, there, In, subst, sym,
}
use miry_data_collector.Base.Text.{Text, text_eq}
use miry_data_collector.Base.Dict.{
  Dict, lookup, lookup-insert, lookup-insert_self, lookup-erase_ne, In-map_of_lookup,
}
use miry_data_collector.Contracts.Gap.{GapState}
use miry_data_collector.Pipeline.Quality.Explicit.{
  Change, complete_from, end_of, completed, after, replay,
}

-- No change of the list is about the gap.
abbrev pub Untouched : Text → List Change → Type 0
Untouched g = All (λ c. text_eq c.gap_id g ≡ false)

module _ {ℓ} {A : Type ℓ} where
  pub In-append_left : (x : A) (xs ys : List A) → In x xs → In x (xs ++ ys)
  In-append_left x [] ys i = elim i [ ]
  In-append_left x (_ ∷ xs) ys (here e) = here e
  In-append_left x (_ ∷ xs) ys (there i) = there (In-append_left x xs ys i)

  pub In-append_right : (x : A) (xs ys : List A) → In x ys → In x (xs ++ ys)
  In-append_right x [] ys i = i
  In-append_right x (_ ∷ xs) ys i = there (In-append_right x xs ys i)

lookup-after :
    (g : Text) (c : Change) (s : GapState) (d : Dict ℕ)
    → text_eq c.gap_id g ≡ false
    → lookup g (after c s d) ≡ lookup g d
lookup-after g c GapState.opened d h = ground (arith, lookup-insert c.gap_id g c.effective_ns d)
lookup-after g c GapState.closed d h = lookup-erase_ne c.gap_id g d h

module _ (hi : ℕ) (g : Text) (start : ℕ) where
  -- A gap that no later change touches stays open to the end of the window.
  replay-open :
      (d : Dict ℕ) (cs : List Change)
      → lookup g d ≡ some start
      → Untouched g cs
      → In (start, hi) (replay hi d cs)
  unfolding replay
  replay-open d [] e h = In-map_of_lookup (λ s. (s, hi)) g start d e
  replay-open d (c ∷ cs) e h =
      In-append_right _ (completed c c.state d) _
        (replay-open (after c c.state d) cs (lookup-after g c c.state d h.0 ∙ e) h.1)

  replay-close :
      (d : Dict ℕ) (mid post : List Change) (c : Change)
      → lookup g d ≡ some start
      → Untouched g mid
      → c.gap_id ≡ g
      → c.state ≡ GapState.closed
      → In (start, end_of c) (replay hi d (mid ++ (c ∷ post)))
  unfolding replay
  replay-close d [] post c e h same shut =
      In-append_left _ (completed c c.state d) _
        (subst (λ s. In (start, end_of c) (completed c s d)) (sym shut) closing)
    where
      closing : In (start, end_of c) (completed c GapState.closed d)
      closing =
          subst (λ o. In (start, end_of c) (complete_from c o))
            (sym (ap (λ k. lookup k d) same ∙ e)) (here refl)
  replay-close d (x ∷ mid) post c e h same shut = In-append_right _ (completed x x.state d) _ (
      replay-close (after x x.state d) mid post c (lookup-after g x x.state d h.0 ∙ e) h.1 same
        shut)

module _ (hi : ℕ) where
  opened_now :
      (d : Dict ℕ) (o : Change)
      → o.state ≡ GapState.opened
      → lookup o.gap_id (after o o.state d) ≡ some o.effective_ns
  opened_now d o begun =
      subst (λ s. lookup o.gap_id (after o s d) ≡ some o.effective_ns) (sym begun)
        (lookup-insert_self o.gap_id o.effective_ns d)

  -- An opening that no later change of its gap follows is among the intervals, from its effective
  -- time to the window's end, whatever came before it.
  pub replay-open_episode :
      (d : Dict ℕ) (pre post : List Change) (o : Change)
      → o.state ≡ GapState.opened
      → Untouched o.gap_id post
      → In (o.effective_ns, hi) (replay hi d (pre ++ (o ∷ post)))
  unfolding replay
  replay-open_episode d [] post o begun h =
      In-append_right _ (completed o o.state d) _
        (replay-open hi o.gap_id o.effective_ns _ post (opened_now d o begun) h)
  replay-open_episode d (x ∷ pre) post o begun h =
      In-append_right _ (completed x x.state d) _
        (replay-open_episode (after x x.state d) pre post o begun h)

  -- An opening, and the first later change of its gap, a closing: the interval from the opening's
  -- effective time to the end that the closing sets is among the intervals, whatever came before.
  pub replay-closed_episode :
      (d : Dict ℕ) (pre mid post : List Change) (o c : Change)
      → o.state ≡ GapState.opened
      → Untouched o.gap_id mid
      → c.gap_id ≡ o.gap_id
      → c.state ≡ GapState.closed
      → In (o.effective_ns, end_of c) (replay hi d (pre ++ (o ∷ (mid ++ (c ∷ post)))))
  unfolding replay
  replay-closed_episode d [] mid post o c begun h same shut =
      In-append_right _ (completed o o.state d) _
        (replay-close hi o.gap_id o.effective_ns _ mid post c (opened_now d o begun) h same shut)
  replay-closed_episode d (x ∷ pre) mid post o c begun h same shut =
      In-append_right _ (completed x x.state d) _
        (replay-closed_episode (after x x.state d) pre mid post o c begun h same shut)
