-- ===== src/Pipeline/L2/Checkpoint.antt =====
-- Checkpoints of the order book, src/miry/pipeline/l2.py. A model's validator that refuses is an
-- error of the construction. Payload hashes are kept as they are: hex and back is the identity.
use miry_data_collector.Base.{
  ℕ, Bool, true, false, not, ◌&&◌, ◌||◌, Option, none, some, List, [], ◌∷◌, if◌then◌else◌, leb,
  is_some, filter,
}
use miry_data_collector.Base.Result.{Result, ok, err, ◌>>=◌, ◌>>◌, raise_if}
use miry_data_collector.Base.Text.{Text}
use miry_data_collector.Base.Dict.{Dict}
use miry_data_collector.Pipeline.L2.Levels.{Decimals, Levels, book_side, checkpoint_levels}
use miry_data_collector.Pipeline.L2.Book.{L2State, DepthDiff, is_valid, ConnectionBook, Defect}

pub data DayFault : Type 0 where
  previous_checkpoint_required checkpoint_without_connection repeated_connection : DayFault
  not_restorable anchor_missing anchored_book_invalid checkpoint_invalid : DayFault
  normalized_marker_missing formal_start_invalid previous_universe_invalid : DayFault
  checkpoint_identity checkpoint_not_at_boundary : DayFault
  defect : Defect → DayFault

pub record AnchoredBookCheckpoint : Type 0 where
  pub connection_id : Text
  pub state : L2State
  pub previous_update_id : ℕ
  pub anchor_last_update_id : ℕ
  pub anchor_received_ns : ℕ
  pub bids : Levels
  pub asks : Levels
  pub pending : List DepthDiff

pub record L2Checkpoint : Type 0 where
  pub collector_id : Text
  pub utc_date : ℕ
  pub exchange_symbol : Text
  pub state : L2State
  pub connection_id : Option Text
  pub previous_update_id : Option ℕ
  pub valid_through_ns : Option ℕ
  pub bids : Levels
  pub asks : Levels
  pub anchored_books : List AnchoredBookCheckpoint

abbrev pub is_empty {ℓ} : {A : Type ℓ} → List A → Bool
is_empty [] = true
is_empty (_ ∷ _) = false

-- `validate_anchor`
abbrev pub anchor_is_invalid : AnchoredBookCheckpoint → Bool
anchor_is_invalid c = is_valid c.state || (is_empty c.bids || is_empty c.asks)

-- `validate_state`
abbrev pub state_is_invalid : L2Checkpoint → Bool
state_is_invalid c =
    if is_valid c.state
    then not (is_some c.connection_id)
      || (not (is_some c.previous_update_id)
          || (not (is_some c.valid_through_ns) || (is_empty c.bids || is_empty c.asks)))
    else is_some c.connection_id
      || (is_some c.previous_update_id
          || (is_some c.valid_through_ns || (not (is_empty c.bids) || not (is_empty c.asks))))

abbrev pub validated : L2Checkpoint → Result DayFault L2Checkpoint
validated c = do raise_if (state_is_invalid c) checkpoint_invalid; ok c

module _ (D : Decimals) where
  abbrev pub restored_book : L2Checkpoint → Text → ConnectionBook D
  restored_book c id = record {
    connection_id = id;
    state = L2State.valid;
    bids = book_side D c.bids;
    asks = book_side D c.asks;
    previous_update_id = c.previous_update_id;
    pending = [];
    seen_diffs = [];
    anchor_last_update_id = none;
    anchor_received_ns = none;
  }

  abbrev pub restored : L2Checkpoint → Option Text → Result DayFault (ConnectionBook D)
  restored c none = err not_restorable
  restored c (some id) = ok (restored_book c id)

  -- `from_checkpoint`
  unfoldable pub from_checkpoint : L2Checkpoint → Result DayFault (ConnectionBook D)
  from_checkpoint c = if is_valid c.state then restored c c.connection_id else err not_restorable

  -- `from_anchor_checkpoint`
  unfoldable pub from_anchor_checkpoint : AnchoredBookCheckpoint → ConnectionBook D
  from_anchor_checkpoint c = record {
    connection_id = c.connection_id;
    state = c.state;
    bids = book_side D c.bids;
    asks = book_side D c.asks;
    previous_update_id = some c.previous_update_id;
    pending = c.pending;
    seen_diffs = [];
    anchor_last_update_id = some c.anchor_last_update_id;
    anchor_received_ns = some c.anchor_received_ns;
  }

  abbrev pub anchored_checkpoint : ConnectionBook D → ℕ → ℕ → ℕ → AnchoredBookCheckpoint
  anchored_checkpoint b previous last received = record {
    connection_id = b.connection_id;
    state = b.state;
    previous_update_id = previous;
    anchor_last_update_id = last;
    anchor_received_ns = received;
    bids = checkpoint_levels D b.bids;
    asks = checkpoint_levels D b.asks;
    pending = filter (λ d. leb last d.final_update_id) b.pending;
  }

  -- The anchored checkpoint of a book with these ids, or the validator's refusal.
  abbrev pub anchored_with : ConnectionBook D → ℕ → ℕ → ℕ → Result DayFault AnchoredBookCheckpoint
  anchored_with b previous last received = do
    raise_if (anchor_is_invalid (anchored_checkpoint b previous last received))
        anchored_book_invalid
    ok (anchored_checkpoint b previous last received)

  abbrev pub anchor_of :
      ConnectionBook D → Option ℕ → Option ℕ → Option ℕ → Result DayFault AnchoredBookCheckpoint
  anchor_of b (some previous) (some last) (some received) = anchored_with b previous last received
  anchor_of b _ _ _ = err anchor_missing

  -- `_anchor_checkpoint`
  unfoldable pub anchor_checkpoint : ConnectionBook D → Result DayFault AnchoredBookCheckpoint
  anchor_checkpoint b =
      anchor_of b b.previous_update_id b.anchor_last_update_id b.anchor_received_ns

  -- The filter of `_build_checkpoint` on the books.
  abbrev pub is_anchored : ConnectionBook D → Bool
  is_anchored b =
      is_some b.anchor_last_update_id
      && (is_some b.anchor_received_ns && (not (is_empty b.bids) && not (is_empty b.asks)))

  abbrev pub with_anchor :
      ConnectionBook D
      → Result DayFault (List AnchoredBookCheckpoint)
      → Result DayFault (List AnchoredBookCheckpoint)
  with_anchor b rest = do c ← anchor_checkpoint b; cs ← rest; ok (c ∷ cs)

  unfoldable pub anchored_books :
      Dict (ConnectionBook D) → Result DayFault (List AnchoredBookCheckpoint)
  anchored_books [] = ok []
  anchored_books ((_, b) ∷ books) =
      let rest = anchored_books books in if is_anchored b then with_anchor b rest else rest

  -- Whether a book can be carried into the next day as the authoritative one.
  abbrev pub is_carried : ConnectionBook D → Bool
  is_carried b =
      is_valid b.state
      && (is_some b.previous_update_id && (not (is_empty b.bids) && not (is_empty b.asks)))

  abbrev pub unanchored_checkpoint : Text → ℕ → Text → List AnchoredBookCheckpoint → L2Checkpoint
  unanchored_checkpoint collector date symbol anchored = record {
    collector_id = collector;
    utc_date = date;
    exchange_symbol = symbol;
    state = L2State.unanchored;
    connection_id = none;
    previous_update_id = none;
    valid_through_ns = none;
    bids = [];
    asks = [];
    anchored_books = anchored;
  }

  abbrev pub valid_checkpoint :
      Text → ℕ → Text → ℕ → ConnectionBook D → List AnchoredBookCheckpoint → L2Checkpoint
  valid_checkpoint collector date symbol day_end b anchored = record {
    collector_id = collector;
    utc_date = date;
    exchange_symbol = symbol;
    state = L2State.valid;
    connection_id = some b.connection_id;
    previous_update_id = b.previous_update_id;
    valid_through_ns = some day_end;
    bids = checkpoint_levels D b.bids;
    asks = checkpoint_levels D b.asks;
    anchored_books = anchored;
  }

  abbrev pub checkpoint_with :
      Text → ℕ → Text → ℕ → Option (ConnectionBook D) → List AnchoredBookCheckpoint → L2Checkpoint
  checkpoint_with collector date symbol day_end none anchored =
      unanchored_checkpoint collector date symbol anchored
  checkpoint_with collector date symbol day_end (some b) anchored =
      if is_carried b
      then valid_checkpoint collector date symbol day_end b anchored
      else unanchored_checkpoint collector date symbol anchored

  -- `_build_checkpoint`
  unfoldable pub build_checkpoint :
      Text
      → ℕ
      → Text
      → ℕ
      → Option (ConnectionBook D)
      → Dict (ConnectionBook D)
      → Result DayFault L2Checkpoint
  build_checkpoint collector date symbol day_end final books =
      anchored_books books
      >>= (λ anchored. validated (checkpoint_with collector date symbol day_end final anchored))
