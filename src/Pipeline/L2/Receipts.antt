-- ===== src/Pipeline/L2/Receipts.antt =====
-- Diffs on a connection's book, src/miry/pipeline/l2.py.
use miry_data_collector.Base.{
  ℕ, ◌≡◌, refl, ◌∙◌, subst, sym, ap, inl, inr, true, Option, none, some, [], ◌∷◌, ◌++◌, arith, any,
  Bool-cases, Option-cases, ◌==◌,
}
use miry_data_collector.Base.Result.{ok, ok-injective}
use miry_data_collector.Base.Text.{text_eq_refl}
use miry_data_collector.Pipeline.L2.Levels.{Decimals}
use miry_data_collector.Pipeline.L2.Safety.{IsValid, Returns, Reports, try_bridge-Returns}
use miry_data_collector.Pipeline.L2.Book.{
  L2State, DepthDiff, StateChange, ConnectionBook, apply, broken_by, on_diff, identity_eq,
  identity_of, accept, advance, wait_with, misses_anchor, pu_discontinuity,
}

module _ (D : Decimals) where
  wait_with-Returns :
      (b : ConnectionBook D) (d : DepthDiff)
      → (b.state ≡ L2State.valid → ⊥)
      → IsValid D b
      → Returns D b (wait_with D b d)
  wait_with-Returns b d invalid h = elim (Bool-cases (misses_anchor b.anchor_last_update_id d)) [
    | inl missed ↦ record {
      change = none;
      book = record b { pending = b.pending ++ (d ∷ []) };
      returned = rw missed;
      kept = longer;
      same_id = refl;
      same_seen = refl;
      reported = tt;
      silent = λ _. refl;
    }
    | inr reached ↦
        let r = try_bridge-Returns D (record b { pending = b.pending ++ (d ∷ []) }) longer in
        record {
          change = r.change;
          book = r.book;
          returned = rw reached r.returned;
          kept = r.kept;
          same_id = r.same_id;
          same_seen = r.same_seen;
          reported = r.reported;
          silent = r.silent;
        }
  ]
    where
      longer : IsValid D (record b { pending = b.pending ++ (d ∷ []) })
      longer = record {
        knows = h.knows;
        settled = λ v. absurd (invalid v);
        dated = h.dated;
        anchored = h.anchored;
      }

  accept-Returns :
      (b : ConnectionBook D) (d : DepthDiff) (s : L2State)
      → b.state ≡ s
      → IsValid D b
      → Returns D b (accept D b d s)
  accept-Returns b d L2State.valid e h = elim (Option-cases b.previous_update_id) [
    | inl absent ↦ absurd (unknown absent)
    | inr (u, known) ↦ subst (λ o. Returns D b (advance D b d o)) (sym known) (advanced u)
  ]
    where
      unknown : b.previous_update_id ≡ none → ⊥
      unknown absent = ground (arith, h.knows e)

      advanced : (u : ℕ) → Returns D b (advance D b d (some u))
      advanced u = elim (Bool-cases (d.previous_final_update_id == u)) [
        | inl same ↦ record {
          change = none;
          book = apply D b d;
          returned = rw same;
          kept = record {
            knows = λ _. refl;
            settled = h.settled;
            dated = h.dated;
            anchored = λ _. refl;
          };
          same_id = refl;
          same_seen = refl;
          reported = tt;
          silent = λ _. refl;
        }
        | inr other ↦ record {
          change = (broken_by D b d pu_discontinuity).0;
          book = (broken_by D b d pu_discontinuity).1;
          returned = rw other;
          kept = record { knows = λ v. cc; settled = λ v. cc; dated = refl; anchored = λ x. cc };
          same_id = refl;
          same_seen = refl;
          reported = (refl, refl);
          silent = λ x. cc;
        }
      ]
  accept-Returns b d L2State.unanchored e h = wait_with-Returns b d (λ v. cc) h
  accept-Returns b d L2State.gapped e h = wait_with-Returns b d (λ v. cc) h

  identity_eq_refl : (d : DepthDiff) → identity_eq (identity_of d) (identity_of d) ≡ true
  identity_eq_refl d = ground (arith, text_eq_refl d.payload_hash)

  -- A diff that is taken in: the method returns, and knows the diff from now on.
  pub record TakesIn (b : ConnectionBook D) (d : DepthDiff) : Type 0 where
    pub change : Option StateChange
    pub book : ConnectionBook D
    pub returned : on_diff D d b ≡ ok (change, book)
    pub kept : IsValid D book
    pub same_id : book.connection_id ≡ b.connection_id
    pub reported : Reports D change book
    pub silent : change ≡ none → book.state ≡ b.state
    pub known : any (identity_eq (identity_of d)) book.seen_diffs ≡ true

  -- A diff, on any book that is well formed, returns without an assertion error and leaves a
  -- well-formed book of the same connection; a change that it reports names the new state, and
  -- where it reports none the state is the old one.
  pub on_diff-TakesIn : (d : DepthDiff) (b : ConnectionBook D) → IsValid D b → TakesIn b d
  unfolding on_diff
  on_diff-TakesIn d b h = elim (Bool-cases (any (identity_eq (identity_of d)) b.seen_diffs)) [
    | inl old ↦ record {
      change = none;
      book = b;
      returned = rw old;
      kept = h;
      same_id = refl;
      reported = tt;
      silent = λ _. refl;
      known = old;
    }
    | inr new ↦ record {
      change = taken.change;
      book = taken.book;
      returned = rw new taken.returned;
      kept = taken.kept;
      same_id = taken.same_id;
      reported = taken.reported;
      silent = taken.silent;
      known = rw taken.same_seen (ground (arith, identity_eq_refl d));
    }
  ]
    where
      seen_now : ConnectionBook D
      seen_now = record b { seen_diffs = identity_of d ∷ b.seen_diffs }

      taken : Returns D seen_now (accept D seen_now d b.state)
      taken =
          accept-Returns seen_now d b.state refl (record {
            knows = h.knows;
            settled = h.settled;
            dated = h.dated;
            anchored = h.anchored;
          })

  -- A diff that is delivered again, right behind its first delivery to a well-formed book, changes
  -- nothing and reports nothing.
  pub on_diff-on_diff :
      (d : DepthDiff) (b : ConnectionBook D) (c : Option StateChange) (b' : ConnectionBook D)
      → IsValid D b
      → on_diff D d b ≡ ok (c, b')
      → on_diff D d b' ≡ ok (none, b')
  unfolding on_diff
  on_diff-on_diff d b c b' h e = rw known_now
    where
      known_now : any (identity_eq (identity_of d)) b'.seen_diffs ≡ true
      known_now =
          let t = on_diff-TakesIn d b h in
          subst (λ x. any (identity_eq (identity_of d)) x.seen_diffs ≡ true)
            (ap (λ x. x.1) (ok-injective (sym t.returned ∙ e))) t.known
