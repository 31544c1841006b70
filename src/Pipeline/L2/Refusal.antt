-- ===== src/Pipeline/L2/Refusal.antt =====
-- Snapshots on valid books, and the checkpoints that are refused for them, src/miry/pipeline/l2.py.
use miry_data_collector.Base.{
  ℕ, ◌≡◌, refl, ◌∙◌, subst, sym, ◌⊎◌, inl, inr, true, Option, none, some, List, [], ◌∷◌, ◌++◌, ◌&&◌,
  not, arith, Bool-cases, is_some, All, In, here, there,
}
use miry_data_collector.Base.Result.{Result, ok, err}
use miry_data_collector.Base.Text.{Text}
use miry_data_collector.Base.Dict.{Dict}
use miry_data_collector.Pipeline.L2.Levels.{Decimals, book_side}
use miry_data_collector.Pipeline.L2.Book.{
  L2State, DepthDiff, DepthSnapshot, Outcome, ConnectionBook, candidates_of, on_snapshot,
}
use miry_data_collector.Pipeline.L2.Safety.{IsValid, middle-ne-nil, candidates-empty}
use miry_data_collector.Pipeline.L2.Bridging.{BridgeOutcome, try_bridge-BridgeOutcome}
use miry_data_collector.Pipeline.L2.Checkpoint.{
  DayFault, anchored_book_invalid, AnchoredBookCheckpoint, anchor_checkpoint, anchored_books,
  is_anchored, with_anchor, anchor_of, anchored_with, build_checkpoint, anchor_is_invalid,
  anchored_checkpoint, is_empty,
}
use miry_data_collector.Pipeline.L2.Transport.{DayState}
use miry_data_collector.Pipeline.L2.Day.{finish}
use miry_data_collector.Pipeline.L2.Authority.{Filed, IsConsistent}

module _ (D : Decimals) where
  -- The book with a snapshot's levels, anchored at it.
  abbrev pub anchored_at : DepthSnapshot → ConnectionBook D → ConnectionBook D
  anchored_at s b = record b {
    bids = book_side D s.bids;
    asks = book_side D s.asks;
    previous_update_id = some s.last_update_id;
    anchor_last_update_id = some s.last_update_id;
    anchor_received_ns = some s.received_ns;
  }

  anchor_of_with :
      (b : ConnectionBook D) (u l r : Option ℕ)
      (P : Result DayFault AnchoredBookCheckpoint → Type 0)
      → is_some u ≡ true
      → is_some l ≡ true
      → is_some r ≡ true
      → ((u l r : ℕ) → P (anchored_with D b u l r))
      → P (anchor_of D b u l r)
  anchor_of_with b (some u) (some l) (some r) P p q t f = f u l r
  anchor_of_with b none l r P p q t f = cc
  anchor_of_with b (some u) none r P p q t f = cc
  anchor_of_with b (some u) (some l) none P p q t f = cc

  anchored_with-cases :
      (b : ConnectionBook D) (u l r : ℕ)
      → ((c : AnchoredBookCheckpoint) × (anchored_with D b u l r ≡ ok c))
        ⊎ (anchored_with D b u l r ≡ err anchored_book_invalid)
  anchored_with-cases b u l r =
      elim (Bool-cases (anchor_is_invalid (anchored_checkpoint D b u l r))) [
        | inl bad ↦ inr (rw bad refl)
        | inr good ↦ inl (anchored_checkpoint D b u l r, rw good refl)
      ]

  module _ (b : ConnectionBook D) (h : IsValid D b) (e : is_anchored D b ≡ true) where
    held : is_some b.anchor_last_update_id ≡ true
    held = ground arith

    dated_too : is_some b.anchor_received_ns ≡ true
    dated_too = ground arith

    anchor_checkpoint-cases :
        ((c : AnchoredBookCheckpoint) × (anchor_checkpoint D b ≡ ok c))
        ⊎ (anchor_checkpoint D b ≡ err anchored_book_invalid)
    unfolding anchor_checkpoint
    anchor_checkpoint-cases =
        anchor_of_with b _ _ _
          (λ r. ((c : AnchoredBookCheckpoint) × (r ≡ ok c)) ⊎ (r ≡ err anchored_book_invalid))
          (h.anchored held) held dated_too (anchored_with-cases b)

    anchor_checkpoint-valid :
        b.state ≡ L2State.valid → anchor_checkpoint D b ≡ err anchored_book_invalid
    unfolding anchor_checkpoint
    anchor_checkpoint-valid v =
        anchor_of_with b _ _ _ (λ r. r ≡ err anchored_book_invalid) (h.anchored held) held dated_too
          (λ u l r. rw v refl)

  with_anchor-err :
      (b : ConnectionBook D) (rest : Result DayFault (List AnchoredBookCheckpoint))
      → anchor_checkpoint D b ≡ err anchored_book_invalid
      → with_anchor D b rest ≡ err anchored_book_invalid
  with_anchor-err b rest e = rw e refl

  with_anchor-rest :
      (b : ConnectionBook D) (c : AnchoredBookCheckpoint)
      → anchor_checkpoint D b ≡ ok c
      → with_anchor D b (err anchored_book_invalid) ≡ err anchored_book_invalid
  with_anchor-rest b c e = rw e refl

  anchored_books-err :
      (k : Text) (b : ConnectionBook D) (books : Dict (ConnectionBook D))
      → In (k, b) books
      → All (Filed D) books
      → is_anchored D b ≡ true
      → b.state ≡ L2State.valid
      → anchored_books D books ≡ err anchored_book_invalid
  unfolding anchored_books
  anchored_books-err k b [] found h e v = elim found [ ]
  anchored_books-err k b ((j, a) ∷ books) (here same) ((h, _), rest) e v = rw head_anchored (
      with_anchor-err a (anchored_books D books)
        (anchor_checkpoint-valid a h head_anchored head_valid))
    where
      head_anchored : is_anchored D a ≡ true
      head_anchored = subst (λ x. is_anchored D x.1 ≡ true) (sym same) e

      head_valid : a.state ≡ L2State.valid
      head_valid = subst (λ x. x.1.state ≡ L2State.valid) (sym same) v
  anchored_books-err k b ((j, a) ∷ books) (there found) ((h, _), rest) e v =
      let ih = anchored_books-err k b books found rest e v in
      elim (Bool-cases (is_anchored D a)) [
        | inr plain ↦ rw plain ih
        | inl held_too ↦
            rw (held_too, ih)
              (elim (anchor_checkpoint-cases a h held_too) [
                | inl (c, made) ↦ with_anchor-rest a c made
                | inr refused ↦ with_anchor-err a (err anchored_book_invalid) refused
              ])
      ]

  -- A day whose state is consistent and holds a book that is valid and anchored, with levels on both sides, fails
  -- behind its loops: the validator of the anchored checkpoint refuses that book.
  pub finish-err :
      (collector : Text) (date : ℕ) (symbol : Text) (day_end : ℕ) (s : DayState D) (k : Text)
      (b : ConnectionBook D)
      → IsConsistent D s
      → In (k, b) s.books
      → is_anchored D b ≡ true
      → b.state ≡ L2State.valid
      → finish D collector date symbol day_end s ≡ err anchored_book_invalid
  unfolding finish build_checkpoint
  finish-err collector date symbol day_end s k b h found e v =
      rw (anchored_books-err k b s.books found h.filed e v) refl

  waits_on :
      (b : ConnectionBook D) (last received : ℕ) (ds : List DepthDiff)
      → ds ≡ []
      → (r : Outcome D) → BridgeOutcome D b last received ds r
      → r ≡ ok (none, record b { pending = [] })
  waits_on b last received ds p r (BridgeOutcome.waits _ e) = e
  waits_on b last received ds p r (BridgeOutcome.is_stale old rest c o _ _ _ e) =
      absurd (middle-ne-nil old c rest (sym o ∙ p))
  waits_on b last received ds p r (BridgeOutcome.becomes_valid old rest c v o _ _ _ _ e) =
      absurd (middle-ne-nil old c rest (sym o ∙ p))
  waits_on b last received ds p r (BridgeOutcome.breaks old pre post c d x o _ _ _ _ _ e) =
      absurd (middle-ne-nil old c (pre ++ (d ∷ post)) (sym o ∙ p))

  -- A snapshot on a well-formed valid book reports nothing and leaves it valid, with the snapshot's levels and
  -- id in place of the book's own and an anchor that no diff has bridged; the book
  -- counts as anchored at the day's end if the snapshot has a level on both sides.
  pub on_snapshot-valid :
      (s : DepthSnapshot) (b : ConnectionBook D)
      → IsValid D b
      → b.state ≡ L2State.valid
      → (on_snapshot D s b ≡ ok (none, record (anchored_at s b) { pending = [] }))
        × (is_anchored D (anchored_at s b)
            ≡ (not (is_empty (book_side D s.bids)) && not (is_empty (book_side D s.asks))))
  unfolding on_snapshot
  on_snapshot-valid s b h v = (
    waits_on (anchored_at s b) s.last_update_id s.received_ns (candidates_of b.pending)
        (candidates-empty D b.pending (h.settled v)) _
        (try_bridge-BridgeOutcome D (anchored_at s b) s.last_update_id s.received_ns refl refl),
    refl,
  )
