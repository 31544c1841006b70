-- ===== src/Pipeline/L2/Succession.antt =====
-- A change in the day's state, src/miry/pipeline/l2.py: it keeps the authority consistent.
use miry_data_collector.Base.{
  ℕ, ◌≡◌, refl, ◌∙◌, subst, sym, ap, inl, inr, false, Option, none, some, [], ◌∷◌, ◌++◌, arith,
  Bool-cases, is_some, All,
}
use miry_data_collector.Base.Result.{ok}
use miry_data_collector.Base.Text.{Text, text_eq, text_eq_iff}
use miry_data_collector.Base.Dict.{Dict, insert, lookup-insert, lookup-insert_self}
use miry_data_collector.Pipeline.L2.Levels.{Decimals}
use miry_data_collector.Pipeline.L2.Book.{L2State, StateChange, ConnectionBook, is_valid}
use miry_data_collector.Pipeline.L2.Safety.{IsValid, Reports, on_snapshot-Returns}
use miry_data_collector.Pipeline.L2.Receipts.{on_diff-TakesIn}
use miry_data_collector.Pipeline.L2.Checkpoint.{is_empty}
use miry_data_collector.Pipeline.L2.Transport.{DayState}
use miry_data_collector.Pipeline.L2.Day.{
  Row, diff_row, snapshot_row, respond, switch, lapse, record_change,
}
use miry_data_collector.Pipeline.L2.Authority.{
  is_valid-eq, Filed, HasValid, Consistent, IsConsistent, if-IsConsistent, without_authority,
}

module _ (D : Decimals) where
  -- A row's method on a well-formed book.
  pub record Responds (row : Row) (b : ConnectionBook D) : Type 0 where
    pub change : Option StateChange
    pub book : ConnectionBook D
    pub returned : respond D row b ≡ ok (change, book)
    pub kept : IsValid D book
    pub same_id : book.connection_id ≡ b.connection_id
    pub reported : Reports D change book
    pub silent : change ≡ none → book.state ≡ b.state

  pub respond-Responds : (row : Row) (b : ConnectionBook D) → IsValid D b → Responds row b
  respond-Responds (diff_row d) b h =
      let r = on_diff-TakesIn D d b h in
      record {
        change = r.change;
        book = r.book;
        returned = r.returned;
        kept = r.kept;
        same_id = r.same_id;
        reported = r.reported;
        silent = r.silent;
      }
  respond-Responds (snapshot_row s) b h =
      let r = on_snapshot-Returns D s b h in
      record {
        change = r.change;
        book = r.book;
        returned = r.returned;
        kept = r.kept;
        same_id = r.same_id;
        reported = r.reported;
        silent = r.silent;
      }

  -- A connection's valid book stays so if the new book is another's, or is valid.
  pub HasValid-insert :
      (c id : Text) (b : ConnectionBook D) (books : Dict (ConnectionBook D))
      → HasValid D c books
      → (id ≡ c → b.state ≡ L2State.valid)
      → HasValid D c (insert id b books)
  HasValid-insert c id b books (old, found, valid) h = elim (Bool-cases (text_eq id c)) [
    | inl same ↦ (b, lookup-insert id c b books ∙ rw same refl, h ((text_eq_iff id c).0 same))
    | inr other ↦ (old, lookup-insert id c b books ∙ rw other found, valid)
  ]

  -- The state with a new book of a connection.
  abbrev with_book : Text → ConnectionBook D → DayState D → DayState D
  with_book id b s = record s { books = insert id b s.books }

  inserted-IsConsistent :
      (id : Text) (b : ConnectionBook D) (s : DayState D)
      → IsConsistent D s
      → All (Filed D) (insert id b s.books)
      → (s.authority ≡ some id → b.state ≡ L2State.valid)
      → IsConsistent D (with_book id b s)
  inserted-IsConsistent id b s h filed valid = record {
    filed = filed;
    paired = h.paired;
    gapless = h.gapless;
    current = λ c e.
        HasValid-insert c id b s.books (h.current c e) (λ same. valid (e ∙ ap some (sym same)));
    latest = h.latest;
  }

  switch-IsConsistent :
      (id : Text) (c : StateChange) (b : ConnectionBook D) (s : DayState D)
      → IsConsistent D s
      → All (Filed D) (insert id b s.books)
      → b.state ≡ L2State.valid
      → IsConsistent D (switch D id c (with_book id b s))
  switch-IsConsistent id c b s h filed valid =
      if-IsConsistent D (is_empty s.active_gaps) _ _
        (λ empty. record {
          filed = filed;
          paired = refl;
          gapless = λ e. cc;
          current = λ k e. HasValid-insert_self k (some_eq k e);
          latest = λ k e. e;
        })
        (λ active.
          subst
            (λ a.
              is_some a ≡ is_some s.valid_from
              → Consistent D (insert id b s.books) a s.valid_from (some id) s.active_gaps)
            (sym (h.gapless active))
            (λ p. record {
              filed = filed;
              paired = p;
              gapless = λ _. refl;
              current = λ k e. cc;
              latest = λ k e. cc;
            })
            h.paired)
    where
      some_eq : (k : Text) → ◌≡◌ {A = Option Text} (some id) (some k) → id ≡ k
      some_eq k e = cc

      HasValid-insert_self : (k : Text) → id ≡ k → HasValid D k (insert id b s.books)
      HasValid-insert_self k e =
          subst (λ j. HasValid D j (insert id b s.books)) e
            (b, lookup-insert_self id b s.books, valid)

  lapse-IsConsistent :
      (id : Text) (c : StateChange) (b : ConnectionBook D) (s : DayState D) (a : Option Text)
      (from : Option ℕ)
      → s.authority ≡ a
      → s.valid_from ≡ from
      → IsConsistent D s
      → All (Filed D) (insert id b s.books)
      → IsConsistent D (lapse D id c (with_book id b s) a from)
  lapse-IsConsistent id c b s none from p q h filed =
      inserted-IsConsistent id b s h filed (λ e. absurd (clash e))
    where
      clash : s.authority ≡ some id → ⊥
      clash e = cc
  lapse-IsConsistent id c b s (some a) none p q h filed = absurd clash
    where
      clash : ⊥
      clash = ground (arith, h.paired)
  lapse-IsConsistent id c b s (some a) (some from) p q h filed =
      if-IsConsistent D (text_eq a id) _ _ (λ _. without_authority D _ _ _ filed)
        (λ other. inserted-IsConsistent id b s h filed (λ e. absurd (clash other e)))
    where
      clash : text_eq a id ≡ false → s.authority ≡ some id → ⊥
      clash other e = ground (arith, text_eq_iff a id)

  -- The books of a state do not enter what a change records.
  pub record_change-IsConsistent :
      (id : Text) (c : Option StateChange) (old b : ConnectionBook D) (s : DayState D)
      → IsConsistent D s
      → All (Filed D) (insert id b s.books)
      → (s.authority ≡ some id → old.state ≡ L2State.valid)
      → Reports D c b
      → (c ≡ none → b.state ≡ old.state)
      → IsConsistent D (record_change D id c (with_book id b s))
  unfolding record_change
  record_change-IsConsistent id none old b s h filed was r silent =
      inserted-IsConsistent id b s h filed (λ e. silent refl ∙ was e)
  record_change-IsConsistent id (some c) old b s h filed was (now, _) silent =
      if-IsConsistent D (is_valid c.state) _ _
        (λ v. switch-IsConsistent id c b s' h' filed (sym now ∙ is_valid-eq c.state v))
        (λ _. lapse-IsConsistent id c b s' s.authority s.valid_from refl refl h' filed)
    where
      s' : DayState D
      s' = record s { changes = s.changes ++ (c ∷ []) }

      h' : IsConsistent D s'
      h' = h
