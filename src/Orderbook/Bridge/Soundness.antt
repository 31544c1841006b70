-- ===== src/Orderbook/Bridge/Soundness.antt =====
-- A bridged tracker against the history of its calls, src/miry/orderbook/bridge.py.
use miry_data_collector.Base.{
  ℕ, ◌≤◌, ◌≡◌, refl, inl, inr, Option, none, some, List, [], ◌∷◌, ◌++◌, arith, length, All,
  All-append, All-drop, here, there, In, Bool-cases, Option-cases, ==_iff, subst, ◌∙◌, ltb, ◌==◌,
}
use miry_data_collector.Base.Sorting.{All-sort_by}
use miry_data_collector.Orderbook.Bridge.{
  BridgeResult, UpdateSpan, SnapshotBridgeTracker, in_receive_order, by_receive_seq, init, buffer,
  evaluate_snapshot, on_snapshot, on_diff, invalidate,
}
use miry_data_collector.Orderbook.Bridge.Calls.{Call, snapshot, diff, drop_all, step, run, history}
use miry_data_collector.Orderbook.Bridge.Following.{Linked, Linked-append_one}
use miry_data_collector.Orderbook.Bridge.Outcomes.{
  Outcome, evaluate_snapshot-absent, evaluate_snapshot-Outcome,
}
use miry_data_collector.Orderbook.Bridge.Invariant.{on_diff-open, on_diff-bridged}

-- An unbroken line of received spans from a received snapshot up to the final id `v`.
pub record IsProven (calls : List Call) (v : ℕ) : Type 0 where
  pub last : ℕ
  pub bridge : UpdateSpan
  pub rest : List UpdateSpan
  pub fetched : In (snapshot last) calls
  pub received : All (λ s. In (diff s) calls) (bridge ∷ rest)
  pub begins : bridge.first_update_id ≤ last
  pub ends : last ≤ bridge.final_update_id
  pub linked : Linked bridge.final_update_id rest v

abbrev OnSome {ℓ} : {A : Type 0} → (A → Type ℓ) → Option A → Type ℓ
OnSome P none = Unit
OnSome P (some x) = P x

-- What the tracker holds was received, and what it claims is proven.
record IsSound (calls : List Call) (t : SnapshotBridgeTracker) : Type 0 where
  buffered : All (λ s. In (diff s) calls) t.pending
  held : OnSome (λ last. In (snapshot last) calls) t.snapshot_last_update_id
  claimed : OnSome (IsProven calls) t.previous_update_id

module _ {A : Type 0} (P Q : A → Type 0) (f : (x : A) → P x → Q x) where
  All-map : (xs : List A) → All P xs → All Q xs
  All-map [] h = tt
  All-map (x ∷ xs) h = (f x h.0, All-map xs h.1)

  OnSome-map : (o : Option A) → OnSome P o → OnSome Q o
  OnSome-map none h = tt
  OnSome-map (some x) h = f x h

previous-buffer :
    (s : UpdateSpan) (t : SnapshotBridgeTracker)
    → (buffer s t).previous_update_id ≡ t.previous_update_id
unfolding buffer
previous-buffer s t = refl

module _ (c : Call) (calls : List Call) where
  IsProven-later : (v : ℕ) → IsProven calls v → IsProven (c ∷ calls) v
  IsProven-later v p = record {
    last = p.last;
    bridge = p.bridge;
    rest = p.rest;
    fetched = there p.fetched;
    received = All-map _ _ (λ s i. there i) (p.bridge ∷ p.rest) p.received;
    begins = p.begins;
    ends = p.ends;
    linked = p.linked;
  }

  IsSound-later : (t : SnapshotBridgeTracker) → IsSound calls t → IsSound (c ∷ calls) t
  IsSound-later t h = record {
    buffered = All-map _ _ (λ s i. there i) t.pending h.buffered;
    held = OnSome-map _ _ (λ l i. there i) t.snapshot_last_update_id h.held;
    claimed = OnSome-map _ _ IsProven-later t.previous_update_id h.claimed;
  }

All-split {ℓ} :
    {A : Type 0} (P : A → Type ℓ) (xs ys : List A) → All P (xs ++ ys) → All P xs × All P ys
All-split P [] ys h = (tt, h)
All-split P (x ∷ xs) ys h = let (a, b) = All-split P xs ys h.1 in ((h.0, a), b)

module _ (calls : List Call) where
  module _ (last : ℕ) (t : SnapshotBridgeTracker) (fetched : In (snapshot last) calls)
      (ordered : All (λ s. In (diff s) calls) (in_receive_order t.pending))
      (unbridged : t.previous_update_id ≡ none) where
    Outcome-IsSound :
        (r : BridgeResult × SnapshotBridgeTracker)
        → Outcome last t r
        → t.snapshot_last_update_id ≡ some last
        → IsSound calls r.1
    Outcome-IsSound r (Outcome.waits _ e) s =
        rw e (record { buffered = tt; held = rw s fetched; claimed = rw unbridged tt })
    Outcome-IsSound r (Outcome.is_stale early rest c o _ _ _ e) s = rw e (record {
      buffered = (All-split _ early (c ∷ rest) (rw o at ordered)).1;
      held = tt;
      claimed = rw unbridged tt;
    })
    Outcome-IsSound r (Outcome.is_bridged_to early rest c v o _ l f k e) s = rw e (record {
      buffered = tt;
      held = tt;
      claimed = record {
        last = last;
        bridge = c;
        rest = rest;
        fetched = fetched;
        received = (All-split _ early (c ∷ rest) (rw o at ordered)).1;
        begins = f;
        ends = l;
        linked = k;
      };
    })
    Outcome-IsSound r (Outcome.breaks early pre post c x n o _ _ _ _ _ e) s = rw e (record {
      buffered =
          (All-split _ (c ∷ pre) (x ∷ post)
            (All-split _ early (c ∷ (pre ++ (x ∷ post))) (rw o at ordered)).1).1;
      held = tt;
      claimed = rw unbridged tt;
    })

  All-in_receive_order :
      (ss : List UpdateSpan)
      → All (λ s. In (diff s) calls) ss
      → All (λ s. In (diff s) calls) (in_receive_order ss)
  unfolding in_receive_order
  All-in_receive_order ss h = ground (arith, All-sort_by by_receive_seq _ ss h)

  evaluate_snapshot-IsSound :
      (t : SnapshotBridgeTracker)
      → IsSound calls t
      → t.previous_update_id ≡ none
      → IsSound calls (evaluate_snapshot t).1
  evaluate_snapshot-IsSound t h e = elim (Option-cases t.snapshot_last_update_id) [
    | inl absent ↦ rw (evaluate_snapshot-absent t absent) h
    | inr (last, held) ↦
        Outcome-IsSound last t (subst (OnSome _) held h.held)
          (All-in_receive_order t.pending h.buffered) e _ (evaluate_snapshot-Outcome last t held)
          held
  ]

  buffer-IsSound :
      (s : UpdateSpan) (t : SnapshotBridgeTracker)
      → In (diff s) calls
      → IsSound calls t
      → IsSound calls (buffer s t)
  unfolding buffer
  buffer-IsSound s t i h =
      let p = All-append (λ x. In (diff x) calls) t.pending (s ∷ []) h.buffered (i, tt) in
      record {
        buffered =
            elim (Bool-cases (ltb t.maximum_buffered_events (length (t.pending ++ (s ∷ []))))) [
              | inl over ↦ rw over (All-drop _ _ _ p)
              | inr within ↦ rw within p
            ];
        held = h.held;
        claimed = h.claimed;
      }

  IsProven-extend :
      (s : UpdateSpan) (u : ℕ)
      → In (diff s) calls
      → IsProven calls u
      → s.previous_final_update_id ≡ u
      → IsProven calls s.final_update_id
  IsProven-extend s u i p e = record {
    last = p.last;
    bridge = p.bridge;
    rest = p.rest ++ (s ∷ []);
    fetched = p.fetched;
    received = (p.received.0, All-append _ p.rest (s ∷ []) p.received.1 (i, tt));
    begins = p.begins;
    ends = p.ends;
    linked = Linked-append_one p.bridge.final_update_id u p.rest s p.linked e;
  }

  on_diff-IsSound :
      (s : UpdateSpan) (t : SnapshotBridgeTracker)
      → In (diff s) calls
      → IsSound calls t
      → IsSound calls (on_diff s t).1
  on_diff-IsSound s t i h = elim (Option-cases t.previous_update_id) [
    | inl absent ↦ rw (on_diff-open s t absent) (opened absent)
    | inr (u, bridged) ↦
        rw (on_diff-bridged s t bridged) (elim (Bool-cases (s.previous_final_update_id == u)) [
          | inl same ↦ rw same (record {
            buffered = h.buffered;
            held = h.held;
            claimed =
                IsProven-extend s u i (subst (OnSome _) bridged h.claimed) ((==_iff _ _).0 same);
          })
          | inr other ↦ rw other (record { buffered = (i, tt); held = tt; claimed = tt })
        ])
  ]
    where
      opened : t.previous_update_id ≡ none → IsSound calls (evaluate_snapshot (buffer s t)).1
      opened absent =
          evaluate_snapshot-IsSound (buffer s t) (buffer-IsSound s t i h)
            (previous-buffer s t ∙ absent)

step-IsSound :
    (c : Call) (calls : List Call) (t : SnapshotBridgeTracker)
    → IsSound calls t
    → IsSound (c ∷ calls) (step c t)
unfolding step on_snapshot invalidate
step-IsSound (snapshot last) calls t h =
    evaluate_snapshot-IsSound (snapshot last ∷ calls) _
      (record {
        buffered = (IsSound-later (snapshot last) calls t h).buffered;
        held = here refl;
        claimed = tt;
      })
      refl
step-IsSound (diff s) calls t h =
    on_diff-IsSound (diff s ∷ calls) s t (here refl) (IsSound-later (diff s) calls t h)
step-IsSound drop_all calls t h = record { buffered = tt; held = tt; claimed = tt }

run-IsSound :
    (calls past : List Call) (t : SnapshotBridgeTracker)
    → IsSound past t
    → IsSound (history past calls) (run calls t)
unfolding run
run-IsSound [] past t h = h
run-IsSound (c ∷ calls) past t h = run-IsSound calls (c ∷ past) (step c t) (step-IsSound c past t h)

init-IsSound : (maximum : ℕ) {t : SnapshotBridgeTracker} → init maximum ≡ some t → IsSound [] t
unfolding init
init-IsSound maximum {t} e = record {
  buffered = rw (parts.0) tt;
  held = rw (parts.1) tt;
  claimed = rw (parts.2) tt;
}
  where
    parts : (t.pending ≡ []) × (t.snapshot_last_update_id ≡ none) × (t.previous_update_id ≡ none)
    parts = ground arith

-- Whenever a tracker, made by the constructor and taken through any calls, says that it is bridged
-- up to the final id `v`, one of the snapshots that it was given is overlapped by one of the diffs
-- that it was given, and from that diff an unbroken line of received diffs leads to `v`.
pub run-IsProven :
    (maximum : ℕ) (calls : List Call) (t : SnapshotBridgeTracker) (v : ℕ)
    → init maximum ≡ some t
    → (run calls t).previous_update_id ≡ some v
    → IsProven (history [] calls) v
run-IsProven maximum calls t v made bridged =
    subst (OnSome _) bridged (run-IsSound calls [] t (init-IsSound maximum made)).claimed
