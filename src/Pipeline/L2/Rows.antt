-- ===== src/Pipeline/L2/Rows.antt =====
-- The rows of a day, src/miry/pipeline/l2.py, from a consistent state.
use miry_data_collector.Base.{◌≡◌, refl, ◌∙◌, subst, sym, ap, Option, none, some, List, [], ◌∷◌}
use miry_data_collector.Base.Result.{ok, ◌>>=◌}
use miry_data_collector.Base.Dict.{lookup, All-lookup, All-insert}
use miry_data_collector.Contracts.Gap.{GapEvent}
use miry_data_collector.Pipeline.L2.Levels.{Decimals}
use miry_data_collector.Pipeline.L2.Book.{L2State, ConnectionBook}
use miry_data_collector.Pipeline.L2.Safety.{IsValid, fresh-IsValid}
use miry_data_collector.Pipeline.L2.Transport.{DayState, drain}
use miry_data_collector.Pipeline.L2.Day.{
  Row, row_connection, row_received, book_or_fresh, after_row, take_row, take_rows,
}
use miry_data_collector.Pipeline.L2.Authority.{Filed, IsConsistent, drain-IsConsistent}
use miry_data_collector.Pipeline.L2.Succession.{respond-Responds, record_change-IsConsistent}

module _ (D : Decimals) where
  -- The book that a row meets.
  abbrev met_book : Row → DayState D → ConnectionBook D
  met_book row s = book_or_fresh D (row_connection row) (lookup (row_connection row) s.books)

  met-IsValid :
      (row : Row) (s : DayState D) (found : Option (ConnectionBook D))
      → lookup (row_connection row) s.books ≡ found
      → IsConsistent D s
      → let b = book_or_fresh D (row_connection row) found in
        IsValid D b × (row_connection row ≡ b.connection_id)
  met-IsValid row s none e h = (fresh-IsValid D (row_connection row), refl)
  met-IsValid row s (some b) e h = All-lookup (Filed D) (row_connection row) b s.books h.filed e

  met-valid :
      (row : Row) (s : DayState D)
      → IsConsistent D s
      → s.authority ≡ some (row_connection row)
      → (met_book row s).state ≡ L2State.valid
  met-valid row s h e =
      let (b, found, valid) = h.current (row_connection row) e in
      subst (λ o. (book_or_fresh D (row_connection row) o).state ≡ L2State.valid) (sym found) valid

  take_row-IsConsistent :
      (row : Row) (s : DayState D)
      → IsConsistent D s
      → (s' : DayState D) × (take_row D row s ≡ ok s') × IsConsistent D s'
  unfolding take_row
  take_row-IsConsistent row s h =
      let (valid, id) = met-IsValid row s _ refl h in
      let r = respond-Responds D row (met_book row s) valid in
      (
        _,
        ap (after_row D row s) r.returned,
        record_change-IsConsistent D (row_connection row) r.change (met_book row s) r.book s h
            (All-insert (Filed D) (row_connection row) r.book s.books
              (λ j e. (r.kept, e ∙ (id ∙ sym r.same_id))) h.filed)
            (met-valid row s h) r.reported r.silent,
      )

  -- From a consistent state, the rows of a day, in any order and with any gaps between them, raise
  -- neither an assertion nor an index error, and leave a consistent state.
  pub take_rows-IsConsistent :
      (rows : List Row) (events : List GapEvent) (s : DayState D)
      → IsConsistent D s
      → (es : List GapEvent) × (s' : DayState D) × (take_rows D rows events s ≡ ok (es, s'))
        × IsConsistent D s'
  unfolding take_rows
  take_rows-IsConsistent [] events s h = (events, s, refl, h)
  take_rows-IsConsistent (row ∷ rows) events s h =
      let drained = drain D (row_received row) events s in
      let (s1, taken, h1) =
        take_row-IsConsistent row drained.1 (drain-IsConsistent D (row_received row) events s h) in
      let (es, s2, rest, h2) = take_rows-IsConsistent rows drained.0 s1 h1 in
      (es, s2, ap (λ r. r >>= (λ x. take_rows D rows drained.0 x)) taken ∙ rest, h2)
