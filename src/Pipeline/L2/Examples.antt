-- ===== src/Pipeline/L2/Examples.antt =====
-- Small books and days, src/miry/pipeline/l2.py, with prices as the texts that print them.
use miry_data_collector.Base.{
  arith, ◌∙◌, ℕ, ◌≡◌, refl, none, some, List, [], ◌∷◌, here, true, not, ◌&&◌, subst,
}
use miry_data_collector.Base.Result.{ok, err}
use miry_data_collector.Base.Text.{Text, text_eq, text_eq_iff, text_leb}
use miry_data_collector.Base.Dict.{lookup}
use miry_data_collector.Contracts.Gap.{GapEvent}
use miry_data_collector.Pipeline.L2.Levels.{
  Decimals, Levels, quantity, apply_levels, latest, quantity-apply_levels, book_side,
  checkpoint_levels,
}
use miry_data_collector.Pipeline.L2.Book.{
  L2State, DepthDiff, DepthSnapshot, ConnectionBook, candidates_of, fresh, try_bridge, on_snapshot,
  on_diff, identity_of,
}
use miry_data_collector.Pipeline.L2.Bridging.{BridgeOutcome, try_bridge-BridgeOutcome}
use miry_data_collector.Pipeline.L2.Safety.{IsValid, fresh-IsValid}
use miry_data_collector.Pipeline.L2.Receipts.{TakesIn, on_diff-TakesIn, on_diff-on_diff}
use miry_data_collector.Pipeline.L2.Checkpoint.{
  anchored_book_invalid, valid_checkpoint, is_anchored, is_empty, build_checkpoint, anchored_books,
}
use miry_data_collector.Pipeline.L2.Transport.{DayState, empty_day, utc_day_end}
use miry_data_collector.Pipeline.L2.Day.{
  Row, diff_row, snapshot_row, DayOutput, take_rows, begin, reconstruct, resumed, finish,
}
use miry_data_collector.Pipeline.L2.Authority.{IsConsistent, without_authority}
use miry_data_collector.Pipeline.L2.Rows.{take_rows-IsConsistent}
use miry_data_collector.Pipeline.L2.Beginning.{reconstruct-IsConsistent}
use miry_data_collector.Pipeline.L2.Ending.{Handover, finish-Handover}
use miry_data_collector.Pipeline.L2.Refusal.{anchored_at, finish-err, on_snapshot-valid}

text_eq_sym : (s t : Text) → text_eq s t ≡ text_eq t s
text_eq_sym s t = ground (arith, text_eq_iff s t, text_eq_iff t s)

text_eq_trans : (s t u : Text) → text_eq s t ≡ true → text_eq t u ≡ true → text_eq s u ≡ true
text_eq_trans s t u e f = (text_eq_iff s u).1 ((text_eq_iff s t).0 e ∙ (text_eq_iff t u).0 f)

abbrev texts : Decimals
texts = record {
  Price = Text;
  price = λ t. t;
  price_eq = text_eq;
  price_eq_sym = text_eq_sym;
  price_eq_trans = text_eq_trans;
  price_leb = text_leb;
  text_of = λ t. t;
  price-text_of = λ p. refl;
}

abbrev line : Text
line = b'l' ∷ []

abbrev bids : Levels
bids = (b'9' ∷ [], b'1' ∷ []) ∷ []

abbrev asks : Levels
asks = (b'9' ∷ b'9' ∷ [], b'2' ∷ []) ∷ []

abbrev diff_at : ℕ → ℕ → ℕ → ℕ → DepthDiff
diff_at seq first final previous = record {
  connection_id = line;
  receive_seq = seq;
  received_ns = seq;
  first_update_id = first;
  final_update_id = final;
  previous_final_update_id = previous;
  payload_hash = seq ∷ [];
  bids = bids;
  asks = asks;
}

abbrev first_diff : DepthDiff
first_diff = diff_at 1 11 20 10

abbrev fetched : DepthSnapshot
fetched = record {
  connection_id = line;
  receive_seq = 2;
  received_ns = 2;
  last_update_id = 15;
  bids = bids;
  asks = asks;
}

abbrev waiting_book : ConnectionBook texts
waiting_book = record (fresh texts line) {
  previous_update_id = some 15;
  pending = first_diff ∷ diff_at 3 21 30 20 ∷ [];
  anchor_last_update_id = some 15;
  anchor_received_ns = some 2;
}

abbrev valid_book : ConnectionBook texts
valid_book = record {
  connection_id = line;
  state = L2State.valid;
  bids = (b'9' ∷ [], b'1' ∷ []) ∷ [];
  asks = (b'9' ∷ b'9' ∷ [], b'2' ∷ []) ∷ [];
  previous_update_id = some 20;
  pending = [];
  seen_diffs = [];
  anchor_last_update_id = none;
  anchor_received_ns = none;
}

valid_book-IsValid : IsValid texts valid_book
valid_book-IsValid = record {
  knows = λ _. refl;
  settled = λ _. refl;
  dated = refl;
  anchored = λ e. cc;
}

quantity-apply_levels_example :
    quantity texts (b'9' ∷ []) (apply_levels texts [] bids) ≡ latest texts (b'9' ∷ []) bids none
quantity-apply_levels_example = quantity-apply_levels texts (b'9' ∷ []) [] bids

try_bridge-BridgeOutcome_example :
    BridgeOutcome texts waiting_book 15 2
      (candidates_of waiting_book.pending)
      (try_bridge texts waiting_book)
try_bridge-BridgeOutcome_example = try_bridge-BridgeOutcome texts waiting_book 15 2 refl refl

on_diff-TakesIn_example : TakesIn texts (fresh texts line) first_diff
on_diff-TakesIn_example =
    on_diff-TakesIn texts first_diff (fresh texts line) (fresh-IsValid texts line)

abbrev holding_book : ConnectionBook texts
holding_book = record (fresh texts line) {
  pending = first_diff ∷ [];
  seen_diffs = identity_of first_diff ∷ [];
}

first_delivery : on_diff texts first_diff (fresh texts line) ≡ ok (none, holding_book)
unfolding on_diff try_bridge
first_delivery = refl

on_diff-on_diff_example : on_diff texts first_diff holding_book ≡ ok (none, holding_book)
on_diff-on_diff_example =
    on_diff-on_diff texts first_diff (fresh texts line) none holding_book (fresh-IsValid texts line)
      first_delivery

on_snapshot-valid_example :
    (on_snapshot texts fetched valid_book
      ≡ ok (none, record (anchored_at texts fetched valid_book) { pending = [] }))
    × (is_anchored texts (anchored_at texts fetched valid_book)
        ≡ (not (is_empty (book_side texts bids)) && not (is_empty (book_side texts asks))))
on_snapshot-valid_example = on_snapshot-valid texts fetched valid_book valid_book-IsValid refl

abbrev rows : List Row
rows = diff_row first_diff ∷ snapshot_row fetched ∷ diff_row (diff_at 3 21 30 20) ∷ []

empty_day-IsConsistent : IsConsistent texts (empty_day texts)
empty_day-IsConsistent = without_authority texts [] none [] tt

take_rows-IsConsistent_example :
    (es : List GapEvent) × (s : DayState texts) × (take_rows texts rows [] (empty_day texts)
      ≡ ok (es, s))
    × IsConsistent texts s
take_rows-IsConsistent_example =
    take_rows-IsConsistent texts rows [] (empty_day texts) empty_day-IsConsistent

begins_empty : begin texts 0 true none ≡ ok (empty_day texts)
unfolding begin
begins_empty = refl

reconstruct-IsConsistent_example :
    (s : DayState texts) × (reconstruct texts 0 true none rows [] ≡ ok s) × IsConsistent texts s
reconstruct-IsConsistent_example =
    reconstruct-IsConsistent texts 0 true none rows [] (empty_day texts) (λ c e. cc) begins_empty

valid_day-IsConsistent : IsConsistent texts (resumed texts 0 valid_book)
valid_day-IsConsistent = record {
  filed = ((valid_book-IsValid, refl), tt);
  paired = refl;
  gapless = λ e. cc;
  current = λ c e. (valid_book, found c e, refl);
  latest = λ c e. e;
}
  where
    found : (c : Text) → some line ≡ some c → lookup c ((line, valid_book) ∷ []) ≡ some valid_book
    found c e = subst (λ k. lookup k ((line, valid_book) ∷ []) ≡ some valid_book) (same e) refl
      where
        same : some line ≡ some c → line ≡ c
        same e = cc

abbrev symbol : Text
symbol = b's' ∷ []

abbrev day_output : DayOutput texts
day_output = record {
  changes = [];
  intervals =
      record { valid_from_ns = 0; valid_to_ns = 99; connection_id = line; end_reason = utc_day_end }
      ∷ [];
  checkpoint = valid_checkpoint texts line 0 symbol 99 valid_book [];
}

finishes : finish texts line 0 symbol 99 (resumed texts 0 valid_book) ≡ ok day_output
unfolding finish build_checkpoint anchored_books checkpoint_levels
finishes = refl

finish-Handover_example : Handover texts (resumed texts 0 valid_book) 99 day_output.checkpoint
finish-Handover_example =
    finish-Handover texts line 0 symbol 99 (resumed texts 0 valid_book) day_output
      valid_day-IsConsistent finishes

-- The valid book of a day, once a further snapshot has arrived on its connection.
abbrev anchored_book : ConnectionBook texts
anchored_book = record valid_book {
  previous_update_id = some 15;
  anchor_last_update_id = some 15;
  anchor_received_ns = some 2;
}

abbrev anchored_day : DayState texts
anchored_day = record (empty_day texts) { books = (line, anchored_book) ∷ [] }

anchored_day-IsConsistent : IsConsistent texts anchored_day
anchored_day-IsConsistent = without_authority texts ((line, anchored_book) ∷ []) none [] (
  (record { knows = λ _. refl; settled = λ _. refl; dated = refl; anchored = λ _. refl }, refl),
  tt,
)

finish-err_example : finish texts line 0 symbol 99 anchored_day ≡ err anchored_book_invalid
finish-err_example =
    finish-err texts line 0 symbol 99 anchored_day line anchored_book anchored_day-IsConsistent
      (here refl) refl refl
