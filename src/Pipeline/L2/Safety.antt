-- ===== src/Pipeline/L2/Safety.antt =====
-- The invariant of a connection's book, src/miry/pipeline/l2.py.
use miry_data_collector.Base.{
  ℕ, ◌≡◌, refl, ◌∙◌, sym, ap, inl, inr, true, Option, none, some, List, [], ◌∷◌, ◌++◌, arith,
  Option-cases, is_some,
}
use miry_data_collector.Base.Result.{ok}
use miry_data_collector.Base.Text.{Text}
use miry_data_collector.Pipeline.L2.Levels.{Decimals}
use miry_data_collector.Pipeline.L2.Bridging.{BridgeOutcome, apply_all, try_bridge-BridgeOutcome}
use miry_data_collector.Pipeline.L2.Book.{
  L2State, DepthDiff, DepthSnapshot, StateChange, candidates_of, ConnectionBook, Outcome, apply,
  decide, try_bridge, on_snapshot, fresh, invalidate,
}

pub middle-ne-nil {ℓ} : {A : Type ℓ} (xs : List A) (x : A) (ys : List A) → (xs ++ (x ∷ ys)) ≡ [] → ⊥
middle-ne-nil [] x ys e = cc
middle-ne-nil (_ ∷ xs) x ys e = cc

module _ (D : Decimals) where
  -- A valid book knows its last id and holds nothing back; an anchor comes with its time and an id.
  pub record IsValid (b : ConnectionBook D) : Type 0 where
    pub knows : b.state ≡ L2State.valid → is_some b.previous_update_id ≡ true
    pub settled : b.state ≡ L2State.valid → b.pending ≡ []
    pub dated : is_some b.anchor_received_ns ≡ is_some b.anchor_last_update_id
    pub anchored : is_some b.anchor_last_update_id ≡ true → is_some b.previous_update_id ≡ true

  -- What a change says of the book that it leaves.
  abbrev pub Reports : Option StateChange → ConnectionBook D → Type 0
  Reports none b = Unit
  Reports (some c) b = (c.state ≡ b.state) × (c.connection_id ≡ b.connection_id)

  -- A method that returns, with the identity of the book kept.
  pub record Returns (b : ConnectionBook D) (r : Outcome D) : Type 0 where
    pub change : Option StateChange
    pub book : ConnectionBook D
    pub returned : r ≡ ok (change, book)
    pub kept : IsValid book
    pub same_id : book.connection_id ≡ b.connection_id
    pub same_seen : book.seen_diffs ≡ b.seen_diffs
    pub reported : Reports change book
    pub silent : change ≡ none → book.state ≡ b.state

  apply_all_fields :
      (b : ConnectionBook D) (c : DepthDiff) (ds : List DepthDiff)
      → let x = apply_all D b (c ∷ ds) in
        (x.connection_id ≡ b.connection_id)
        × (x.seen_diffs ≡ b.seen_diffs)
        × (is_some x.previous_update_id ≡ true)
  apply_all_fields b c [] = (refl, refl, refl)
  apply_all_fields b c (d ∷ ds) = apply_all_fields (apply D b c) d ds

  candidates-nil : candidates_of [] ≡ []
  unfolding candidates_of
  candidates-nil = refl

  module _ (b : ConnectionBook D) (last received : ℕ) (ds : List DepthDiff) where
    outcome-Returns :
        (b.state ≡ L2State.valid → ds ≡ [])
        → is_some b.previous_update_id ≡ true
        → b.anchor_last_update_id ≡ some last
        → b.anchor_received_ns ≡ some received
        → (r : Outcome D) → BridgeOutcome D b last received ds r
        → Returns b r
    outcome-Returns empty p q t r (BridgeOutcome.waits _ e) = record {
      change = none;
      book = record b { pending = [] };
      returned = e;
      kept = record {
        knows = λ _. p;
        settled = λ _. refl;
        dated = rw (q, t) refl;
        anchored = λ _. p;
      };
      same_id = refl;
      same_seen = refl;
      reported = tt;
      silent = λ _. refl;
    }
    outcome-Returns empty p q t r (BridgeOutcome.is_stale old rest c o _ _ _ e) = record {
      change = none;
      book = _;
      returned = e;
      kept = record {
        knows = λ v. absurd (middle-ne-nil old c rest (sym o ∙ empty v));
        settled = λ v. absurd (middle-ne-nil old c rest (sym o ∙ empty v));
        dated = refl;
        anchored = λ x. cc;
      };
      same_id = refl;
      same_seen = refl;
      reported = tt;
      silent = λ _. refl;
    }
    outcome-Returns empty p q t r (BridgeOutcome.becomes_valid old rest c v o _ _ _ _ e) =
        let (i, s, k) = apply_all_fields b c rest in
        record {
          change = _;
          book = _;
          returned = e;
          kept = record { knows = λ _. k; settled = λ v. refl; dated = refl; anchored = λ x. cc };
          same_id = i;
          same_seen = s;
          reported = (refl, refl);
          silent = λ x. cc;
        }
    outcome-Returns empty p q t r (BridgeOutcome.breaks old pre post c d x o _ _ _ _ _ e) =
        let (i, s, k) = apply_all_fields b c pre in
        record {
          change = _;
          book = _;
          returned = e;
          kept = record { knows = λ v. cc; settled = λ v. cc; dated = refl; anchored = λ x. cc };
          same_id = i;
          same_seen = s;
          reported = (refl, refl);
          silent = λ x. cc;
        }

  pub candidates-empty : (ds : List DepthDiff) → ds ≡ [] → candidates_of ds ≡ []
  candidates-empty ds e = rw e candidates-nil

  unanchored_book :
      (b : ConnectionBook D) → b.anchor_last_update_id ≡ none → try_bridge D b ≡ ok (none, b)
  unfolding try_bridge
  unanchored_book b e = ap (λ l. decide D b l b.anchor_received_ns) e

  -- A book that may hold diffs, but not if it is valid.
  pub try_bridge-Returns : (b : ConnectionBook D) → IsValid b → Returns b (try_bridge D b)
  try_bridge-Returns b h = elim (Option-cases b.anchor_last_update_id) [
    | inl absent ↦ record {
      change = none;
      book = b;
      returned = unanchored_book b absent;
      kept = h;
      same_id = refl;
      same_seen = refl;
      reported = tt;
      silent = λ _. refl;
    }
    | inr (last, held) ↦ elim (Option-cases b.anchor_received_ns) [
      | inl undated ↦ absurd (paired last held undated)
      | inr (received, at) ↦
          outcome-Returns b last received (candidates_of b.pending)
            (λ v. candidates-empty b.pending (h.settled v)) (h.anchored (rw held refl)) held at _
            (try_bridge-BridgeOutcome D b last received held at)
    ]
  ]
    where
      paired : (last : ℕ) → b.anchor_last_update_id ≡ some last → b.anchor_received_ns ≡ none → ⊥
      paired last held undated = ground (arith, h.dated)

  -- A snapshot, on any book that is well formed, returns without an error and leaves a well-formed
  -- book of the same connection; a change that it reports names the new state.
  pub on_snapshot-Returns :
      (s : DepthSnapshot) (b : ConnectionBook D) → IsValid b → Returns b (on_snapshot D s b)
  unfolding on_snapshot
  on_snapshot-Returns s b h =
      let r =
        try_bridge-Returns _
          (record { knows = λ _. refl; settled = h.settled; dated = refl; anchored = λ _. refl }) in
      record {
        change = r.change;
        book = r.book;
        returned = r.returned;
        kept = r.kept;
        same_id = r.same_id;
        same_seen = r.same_seen;
        reported = r.reported;
        silent = r.silent;
      }

  pub fresh-IsValid : (id : Text) → IsValid (fresh D id)
  fresh-IsValid id = record {
    knows = λ v. cc;
    settled = λ v. refl;
    dated = refl;
    anchored = λ x. cc;
  }

  pub invalidate-IsValid : (b : ConnectionBook D) → IsValid (invalidate D b)
  invalidate-IsValid b = record {
    knows = λ v. cc;
    settled = λ v. cc;
    dated = refl;
    anchored = λ x. cc;
  }
