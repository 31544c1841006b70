-- ===== src/Pipeline/L2/Beginning.antt =====
-- The start of a day from the checkpoint of the day before, src/miry/pipeline/l2.py.
use miry_data_collector.Base.{
  ℕ, ◌≡◌, refl, ◌∙◌, subst, sym, ap, inl, inr, Bool, true, false, Option, none, some, List, [], ◌∷◌,
  arith, Bool-cases, Option-cases, All, any, if◌then◌else◌,
}
use miry_data_collector.Base.Result.{ok, ◌>>=◌, >>=-eq-ok, ok-injective}
use miry_data_collector.Base.Text.{Text}
use miry_data_collector.Base.Dict.{Dict, lookup, insert, All-insert, lookup-insert_self}
use miry_data_collector.Contracts.Gap.{GapEvent}
use miry_data_collector.Pipeline.L2.Levels.{Decimals}
use miry_data_collector.Pipeline.L2.Book.{L2State, ConnectionBook, is_valid}
use miry_data_collector.Pipeline.L2.Safety.{IsValid}
use miry_data_collector.Pipeline.L2.Checkpoint.{
  AnchoredBookCheckpoint, L2Checkpoint, anchor_is_invalid, state_is_invalid, from_checkpoint,
  from_anchor_checkpoint, restored_book,
}
use miry_data_collector.Pipeline.L2.Start.{is_refused}
use miry_data_collector.Pipeline.L2.Transport.{DayState, empty_day, handle_all}
use miry_data_collector.Pipeline.L2.Day.{
  Row, add_anchored, resume, resumed, with_books, begin, reconstruct, take_rows,
}
use miry_data_collector.Pipeline.L2.Authority.{
  Filed, HasValid, IsConsistent, without_authority, handle_all-IsConsistent,
}
use miry_data_collector.Pipeline.L2.Succession.{HasValid-insert}
use miry_data_collector.Pipeline.L2.Rows.{take_rows-IsConsistent}

not-valid : (s : L2State) → is_valid s ≡ false → s ≡ L2State.valid → ⊥
not-valid L2State.valid e h = cc
not-valid L2State.unanchored e h = cc
not-valid L2State.gapped e h = cc

module _ (D : Decimals) where
  from_anchor_checkpoint-IsValid :
      (c : AnchoredBookCheckpoint)
      → anchor_is_invalid c ≡ false
      → Filed D (c.connection_id, from_anchor_checkpoint D c)
  unfolding from_anchor_checkpoint
  from_anchor_checkpoint-IsValid c e = (
    record {
      knows = λ _. refl;
      settled = λ v. absurd (not-valid c.state (ground arith) v);
      dated = refl;
      anchored = λ _. refl;
    },
    refl,
  )

  -- Filing the anchored books leaves the books that were there.
  add_anchored-Filed :
      (cs : List AnchoredBookCheckpoint) (books books' : Dict (ConnectionBook D))
      → any anchor_is_invalid cs ≡ false
      → All (Filed D) books
      → add_anchored D cs books ≡ ok books'
      → All (Filed D) books' × ((k : Text) → HasValid D k books → HasValid D k books')
  add_anchored-Filed [] books books' p h e =
      subst (λ x. All (Filed D) x × ((k : Text) → HasValid D k books → HasValid D k x))
        (ok-injective e) (h, λ k v. v)
  add_anchored-Filed (c ∷ cs) books books' p h e =
      elim (Option-cases (lookup c.connection_id books)) [
        | inr (b, found) ↦ absurd (repeated b found)
        | inl absent ↦
            let (filed, kept) =
              add_anchored-Filed cs (insert c.connection_id (from_anchor_checkpoint D c) books)
                books' (ground arith)
                (All-insert (Filed D) c.connection_id (from_anchor_checkpoint D c) books
                  (λ j same.
                    subst (λ x. Filed D (x, from_anchor_checkpoint D c)) (sym same)
                      (from_anchor_checkpoint-IsValid c (ground arith)))
                  h)
                (added absent) in
            (
              filed,
              λ k v. kept k (
                  HasValid-insert D k c.connection_id _ books v
                    (λ same. absurd (clash absent k v same))),
            )
      ]
    where
      added :
          lookup c.connection_id books ≡ none
          → add_anchored D cs (insert c.connection_id (from_anchor_checkpoint D c) books)
            ≡ ok books'
      added absent = cc

      repeated : (b : ConnectionBook D) → lookup c.connection_id books ≡ some b → ⊥
      repeated b found = cc

      clash :
          lookup c.connection_id books ≡ none
          → (k : Text) → HasValid D k books
          → c.connection_id ≡ k
          → ⊥
      clash absent k (b, found, _) same = cc

  restored-IsConsistent :
      (day_start : ℕ) (c : L2Checkpoint) (s : DayState D)
      → state_is_invalid c ≡ false
      → is_valid c.state ≡ true
      → resume D day_start c ≡ ok s
      → IsConsistent D s
  unfolding from_checkpoint
  restored-IsConsistent day_start c s p v e = elim (Option-cases c.connection_id) [
    | inl absent ↦ absurd (no_connection absent)
    | inr (id, known) ↦ subst (IsConsistent D) (starts id known) (record {
      filed = ((restored-IsValid id, refl), tt);
      paired = refl;
      gapless = λ x. cc;
      current = λ k same. current_of id k same;
      latest = λ k same. same;
    })
  ]
    where
      no_connection : c.connection_id ≡ none → ⊥
      no_connection absent = ground arith

      book : Text → ConnectionBook D
      book id = restored_book D c id

      starts : (id : Text) → c.connection_id ≡ some id → resumed D day_start (book id) ≡ s
      starts id known = cc

      restored-IsValid : (id : Text) → IsValid D (book id)
      restored-IsValid id = record {
        knows = λ _. ground arith;
        settled = λ _. refl;
        dated = refl;
        anchored = λ x. cc;
      }

      current_of :
          (id k : Text)
          → ◌≡◌ {A = Option Text} (some id) (some k)
          → HasValid D k ((id, book id) ∷ [])
      current_of id k same =
          subst (λ x. HasValid D x ((id, book id) ∷ [])) (cc)
            (book id, lookup-insert_self id (book id) [], refl)

  begin-IsConsistent :
      (day_start : ℕ) (can_start : Bool) (checkpoint : Option L2Checkpoint) (s : DayState D)
      → ((c : L2Checkpoint) → checkpoint ≡ some c → is_refused c ≡ false)
      → begin D day_start can_start checkpoint ≡ ok s
      → IsConsistent D s
  unfolding begin
  begin-IsConsistent day_start true none s p e =
      subst (IsConsistent D) (ok-injective e) (without_authority D [] none [] tt)
  begin-IsConsistent day_start false none s p e = cc
  begin-IsConsistent day_start can_start (some c) s p e =
      let (s0, started, e1) = >>=-eq-ok _ _ e in
      let (books, added, e2) = >>=-eq-ok _ _ e1 in
      subst (IsConsistent D) (ok-injective e2)
        (with_books-IsConsistent s0 books (started_at s0 started) added)
    where
      refused : is_refused c ≡ false
      refused = p c refl

      started_at :
          (s0 : DayState D)
          → (if is_valid c.state then resume D day_start c else ok (empty_day D)) ≡ ok s0
          → IsConsistent D s0
      started_at s0 started = elim (Bool-cases (is_valid c.state)) [
        | inl v ↦ restored-IsConsistent day_start c s0 (ground (arith, refused)) v (ground arith)
        | inr v ↦ subst (IsConsistent D) (fresh_start v) (without_authority D [] none [] tt)
      ]
        where
          fresh_start : is_valid c.state ≡ false → empty_day D ≡ s0
          fresh_start v = ground arith

      with_books-IsConsistent :
          (s0 : DayState D) (books : Dict (ConnectionBook D))
          → IsConsistent D s0
          → add_anchored D c.anchored_books s0.books ≡ ok books
          → IsConsistent D (with_books D s0 books)
      with_books-IsConsistent s0 books h added =
          let (filed, kept) =
            add_anchored-Filed c.anchored_books s0.books books (ground (arith, refused)) h.filed
              added in
          record {
            filed = filed;
            paired = h.paired;
            gapless = h.gapless;
            current = λ k same. kept k (h.current k same);
            latest = h.latest;
          }

  -- The day's loops raise nothing once the day has begun, on a checkpoint that its validators
  -- accept, and the state that they leave is consistent.
  pub reconstruct-IsConsistent :
      (day_start : ℕ) (can_start : Bool) (checkpoint : Option L2Checkpoint) (rows : List Row)
      (events : List GapEvent) (s : DayState D)
      → ((c : L2Checkpoint) → checkpoint ≡ some c → is_refused c ≡ false)
      → begin D day_start can_start checkpoint ≡ ok s
      → (s' : DayState D) × (reconstruct D day_start can_start checkpoint rows events ≡ ok s')
        × IsConsistent D s'
  unfolding reconstruct
  reconstruct-IsConsistent day_start can_start checkpoint rows events s p e =
      let (es, s1, ran, h) =
        take_rows-IsConsistent D rows events s
          (begin-IsConsistent day_start can_start checkpoint s p e) in
      (
        handle_all D es s1,
        ap (λ r. r >>= (λ x. take_rows D rows events x >>= (λ y. ok (handle_all D y.0 y.1)))) e
            ∙ ap (λ r. r >>= (λ y. ok (handle_all D y.0 y.1))) ran,
        handle_all-IsConsistent D es s1 h,
      )
