-- ===== src/Pipeline/L2/Ending.antt =====
-- The checkpoint that a day leaves to the next, src/miry/pipeline/l2.py.
use miry_data_collector.Base.{
  ℕ, ◌≡◌, refl, ◌∙◌, subst, sym, ap, inl, inr, Bool, true, false, none, some, List, ◌&&◌, not,
  if◌then◌else◌, arith, Bool-cases, Option-cases, is_some,
}
use miry_data_collector.Base.Result.{ok, >>=-eq-ok, ok-injective, raise_if-eq-ok}
use miry_data_collector.Base.Text.{Text}
use miry_data_collector.Base.Dict.{lookup, All-lookup}
use miry_data_collector.Pipeline.L2.Levels.{Decimals, checkpoint_levels}
use miry_data_collector.Pipeline.L2.Book.{L2State, ConnectionBook}
use miry_data_collector.Pipeline.L2.Checkpoint.{
  checkpoint_invalid, state_is_invalid, validated, AnchoredBookCheckpoint, L2Checkpoint, is_empty,
  anchored_books, is_carried, checkpoint_with, valid_checkpoint, build_checkpoint,
}
use miry_data_collector.Pipeline.L2.Transport.{DayState}
use miry_data_collector.Pipeline.L2.Day.{DayOutput, final_book, finish}
use miry_data_collector.Pipeline.L2.Authority.{Filed, IsConsistent}

module _ (D : Decimals) where
  -- Whether both sides of a book have a level.
  abbrev pub has_sides : ConnectionBook D → Bool
  has_sides b = not (is_empty b.bids) && not (is_empty b.asks)

  -- What the checkpoint of a day hands over.
  pub data Handover (s : DayState D) (day_end : ℕ) (x : L2Checkpoint) : Type 0 where
    carries :
        (c : Text) (b : ConnectionBook D)
        → s.authority ≡ some c
        → lookup c s.books ≡ some b
        → has_sides b ≡ true
        → x.state ≡ L2State.valid
        → x.connection_id ≡ some b.connection_id
        → x.previous_update_id ≡ b.previous_update_id
        → x.valid_through_ns ≡ some day_end
        → x.bids ≡ checkpoint_levels D b.bids
        → x.asks ≡ checkpoint_levels D b.asks
        → Handover s day_end x
    one_sided :
        (c : Text) (b : ConnectionBook D)
        → s.authority ≡ some c
        → lookup c s.books ≡ some b
        → has_sides b ≡ false
        → x.state ≡ L2State.unanchored
        → Handover s day_end x
    unowned : s.authority ≡ none → x.state ≡ L2State.unanchored → Handover s day_end x

  final_book-none : (s : DayState D) → s.authority ≡ none → final_book D s ≡ none
  final_book-none s e = elim (Bool-cases (is_empty s.active_gaps)) [
    | inl empty ↦ rw (empty, e) refl
    | inr active ↦ rw active refl
  ]

  final_book-some :
      (s : DayState D) (c : Text) (b : ConnectionBook D)
      → IsConsistent D s
      → s.authority ≡ some c
      → lookup c s.books ≡ some b
      → final_book D s ≡ some b
  final_book-some s c b h e found = elim (Bool-cases (is_empty s.active_gaps)) [
    | inl empty ↦ rw (empty, e) found
    | inr active ↦ absurd (clash active)
  ]
    where
      clash : is_empty s.active_gaps ≡ false → ⊥
      clash active = ground (arith, h.gapless active)

  module _ (collector : Text) (date : ℕ) (symbol : Text) (day_end : ℕ) (s : DayState D) where
    built :
        (x : L2Checkpoint)
        → build_checkpoint D collector date symbol day_end (final_book D s) s.books ≡ ok x
        → (anchored : List AnchoredBookCheckpoint) × (checkpoint_with D collector date symbol
              day_end
              (final_book D s)
              anchored
            ≡ x)
    unfolding build_checkpoint
    built x e =
        let of = λ (a : List AnchoredBookCheckpoint).
          checkpoint_with D collector date symbol day_end (final_book D s) a in
        let (anchored, _, e1) = >>=-eq-ok (anchored_books D s.books) (λ a. validated (of a)) e in
        let (_, e2) =
          raise_if-eq-ok (state_is_invalid (of anchored)) checkpoint_invalid (ok (of anchored))
            e1 in
        (anchored, ok-injective e2)

    handed :
        (x : L2Checkpoint) (anchored : List AnchoredBookCheckpoint) (c : Text)
        (b : ConnectionBook D)
        → s.authority ≡ some c
        → lookup c s.books ≡ some b
        → b.state ≡ L2State.valid
        → is_some b.previous_update_id ≡ true
        → checkpoint_with D collector date symbol day_end (some b) anchored ≡ x
        → Handover s day_end x
    handed x anchored c b a found v known e = elim (Bool-cases (has_sides b)) [
      | inl sides ↦
          subst (Handover s day_end) (full sides)
            (Handover.carries c b a found sides refl refl refl refl refl refl)
      | inr sides ↦ Handover.one_sided c b a found sides (ap (λ y. y.state) (sym e) ∙ empty sides)
    ]
      where
        full : has_sides b ≡ true → valid_checkpoint D collector date symbol day_end b anchored ≡ x
        full sides =
            ap
              (λ t.
                if t
                then valid_checkpoint D collector date symbol day_end b anchored
                else checkpoint_with D collector date symbol day_end none anchored)
              (sym carried)
            ∙ e
          where
            carried : is_carried D b ≡ true
            carried = rw v ground arith

        empty :
            has_sides b ≡ false
            → (checkpoint_with D collector date symbol day_end (some b) anchored).state
              ≡ L2State.unanchored
        empty sides = ground arith

    -- From a consistent state, where the end of the day raises nothing, the checkpoint carries a book exactly where there is an authority
    -- whose book has a level on both sides, and then it is that book at the end of the day.
    pub finish-Handover :
        (out : DayOutput D)
        → IsConsistent D s
        → finish D collector date symbol day_end s ≡ ok out
        → Handover s day_end out.checkpoint
    unfolding finish
    finish-Handover out h e =
        let (x, made, e1) = >>=-eq-ok _ _ e in
        let (anchored, with) = built x made in
        subst (Handover s day_end) (ap (λ o. o.checkpoint) (ok-injective e1))
          (of_authority x anchored with)
      where
        of_authority :
            (x : L2Checkpoint) (anchored : List AnchoredBookCheckpoint)
            → checkpoint_with D collector date symbol day_end (final_book D s) anchored ≡ x
            → Handover s day_end x
        of_authority x anchored with = elim (Option-cases s.authority) [
          | inl absent ↦ Handover.unowned absent (
              ap (λ y. y.state) (sym with)
              ∙ ap (λ f. (checkpoint_with D collector date symbol day_end f anchored).state)
                  (final_book-none s absent))
          | inr (c, a) ↦
              let (b, found, v) = h.current c a in
              handed x anchored c b a found v
                ((All-lookup (Filed D) c b s.books h.filed found).0.knows v)
                (ap (λ f. checkpoint_with D collector date symbol day_end f anchored)
                    (sym (final_book-some s c b h a found))
                  ∙ with)
        ]
