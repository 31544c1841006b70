-- ===== src/Pipeline/L2/Authority.antt =====
-- The authority over a day, src/miry/pipeline/l2.py: what `run` keeps between rows and gaps.
use miry_data_collector.Base.{
  ℕ, ◌≡◌, refl, ◌∙◌, subst, inl, inr, Bool, true, false, Option, none, some, List, [], ◌∷◌,
  if◌then◌else◌, Bool-cases, is_some, leb, All,
}
use miry_data_collector.Base.Text.{Text}
use miry_data_collector.Base.Dict.{Dict, lookup}
use miry_data_collector.Contracts.Gap.{GapEvent, is_opened}
use miry_data_collector.Pipeline.L2.Levels.{Decimals}
use miry_data_collector.Pipeline.L2.Book.{L2State, ConnectionBook, is_valid}
use miry_data_collector.Pipeline.L2.Safety.{IsValid, invalidate-IsValid}
use miry_data_collector.Pipeline.L2.Checkpoint.{is_empty}
use miry_data_collector.Pipeline.L2.Transport.{
  DayState, discard, invalidate_all, open_gap, close_gap, restore, book_of, handle_gap, drain,
  handle_all, gap_effective_ns,
}

pub is_valid-eq : (s : L2State) → is_valid s ≡ true → s ≡ L2State.valid
is_valid-eq L2State.valid e = refl
is_valid-eq L2State.unanchored e = cc
is_valid-eq L2State.gapped e = cc

is_empty-discard :
    (gap : Text) (gaps : List Text) → is_empty (discard gap gaps) ≡ false → is_empty gaps ≡ false
is_empty-discard gap [] e = e
is_empty-discard gap (_ ∷ _) e = refl

module _ (D : Decimals) where
  -- A book that is well formed and filed under its own connection.
  abbrev pub Filed : Text × ConnectionBook D → Type 0
  Filed e = IsValid D e.1 × (e.0 ≡ e.1.connection_id)

  abbrev pub HasValid : Text → Dict (ConnectionBook D) → Type 0
  HasValid c books = (b : ConnectionBook D) × (lookup c books ≡ some b) × (b.state ≡ L2State.valid)

  -- What a day keeps: an authority has a start, is the last connection that became valid and has a
  -- valid book; no gap is active while there is one.
  pub record Consistent (books : Dict (ConnectionBook D)) (authority : Option Text)
      (valid_from : Option ℕ) (last : Option Text) (gaps : List Text) : Type 0 where
    pub filed : All Filed books
    pub paired : is_some authority ≡ is_some valid_from
    pub gapless : is_empty gaps ≡ false → authority ≡ none
    pub current : (c : Text) → authority ≡ some c → HasValid c books
    pub latest : (c : Text) → authority ≡ some c → last ≡ some c

  abbrev pub IsConsistent : DayState D → Type 0
  IsConsistent s = Consistent s.books s.authority s.valid_from s.last_valid_connection s.active_gaps

  pub if-IsConsistent :
      (b : Bool) (s t : DayState D)
      → (b ≡ true → IsConsistent s)
      → (b ≡ false → IsConsistent t)
      → IsConsistent (if b then s else t)
  if-IsConsistent true s t f g = f refl
  if-IsConsistent false s t f g = g refl

  pub without_authority :
      (books : Dict (ConnectionBook D)) (last : Option Text) (gaps : List Text)
      → All Filed books
      → Consistent books none none last gaps
  without_authority books last gaps h = record {
    filed = h;
    paired = refl;
    gapless = λ _. refl;
    current = λ c e. cc;
    latest = λ c e. cc;
  }

  invalidate_all-Filed :
      (books : Dict (ConnectionBook D)) → All Filed books → All Filed (invalidate_all D books)
  invalidate_all-Filed [] h = tt
  invalidate_all-Filed ((k, b) ∷ books) (p, rest) =
      ((invalidate-IsValid D b, p.1), invalidate_all-Filed books rest)

  open_gap-IsConsistent :
      (e : GapEvent) (s : DayState D) → IsConsistent s → IsConsistent (open_gap D e s)
  unfolding open_gap
  open_gap-IsConsistent e s h = without_authority _ _ _ (invalidate_all-Filed s.books h.filed)

  restore-IsConsistent :
      (at : ℕ) (s : DayState D) (last : Option Text) (b : Option (ConnectionBook D))
      → is_empty s.active_gaps ≡ true
      → s.last_valid_connection ≡ last
      → book_of D last s.books ≡ b
      → IsConsistent s
      → IsConsistent (restore D at s last b)
  restore-IsConsistent at s none none empty p q h = h
  restore-IsConsistent at s none (some b) empty p q h = h
  restore-IsConsistent at s (some last) none empty p q h = h
  restore-IsConsistent at s (some last) (some b) empty p q h =
      if-IsConsistent (is_valid b.state) _ s
        (λ v. record {
          filed = h.filed;
          paired = refl;
          gapless = λ e. cc;
          current = λ c e.
              (b, subst (λ x. lookup x s.books ≡ some b) (some_eq c e) q, is_valid-eq b.state v);
          latest = λ c e. p ∙ e;
        })
        (λ _. h)
    where
      some_eq : (c : Text) → ◌≡◌ {A = Option Text} (some last) (some c) → last ≡ c
      some_eq c e = cc

  close_gap-IsConsistent :
      (e : GapEvent) (s : DayState D) → IsConsistent s → IsConsistent (close_gap D e s)
  unfolding close_gap
  close_gap-IsConsistent e s h =
      if-IsConsistent (is_empty (discard e.gap_id s.active_gaps)) _ _
        (λ empty. restore-IsConsistent _ _ _ _ empty refl refl kept) (λ _. kept)
    where
      kept : IsConsistent (record s { active_gaps = discard e.gap_id s.active_gaps })
      kept = record {
        filed = h.filed;
        paired = h.paired;
        gapless = λ x. h.gapless (is_empty-discard e.gap_id s.active_gaps x);
        current = h.current;
        latest = h.latest;
      }

  pub handle_gap-IsConsistent :
      (e : GapEvent) (s : DayState D) → IsConsistent s → IsConsistent (handle_gap D e s)
  handle_gap-IsConsistent e s h =
      if-IsConsistent (is_opened e.state) _ _ (λ _. open_gap-IsConsistent e s h)
        (λ _. close_gap-IsConsistent e s h)

  pub handle_all-IsConsistent :
      (es : List GapEvent) (s : DayState D) → IsConsistent s → IsConsistent (handle_all D es s)
  unfolding handle_all
  handle_all-IsConsistent [] s h = h
  handle_all-IsConsistent (e ∷ es) s h =
      handle_all-IsConsistent es _ (handle_gap-IsConsistent e s h)

  pub drain-IsConsistent :
      (at : ℕ) (es : List GapEvent) (s : DayState D)
      → IsConsistent s
      → IsConsistent (drain D at es s).1
  unfolding drain
  drain-IsConsistent at [] s h = h
  drain-IsConsistent at (e ∷ es) s h = elim (Bool-cases (leb (gap_effective_ns e) at)) [
    | inl due ↦ rw due (drain-IsConsistent at es _ (handle_gap-IsConsistent e s h))
    | inr later ↦ rw later h
  ]
