-- ===== src/Pipeline/L2/Bridging.antt =====
-- The ends of `_try_bridge`, src/miry/pipeline/l2.py.
use miry_data_collector.Base.{
  ℕ, ◌≤◌, ◌<◌, ◌≡◌, refl, ap, ◌∙◌, ◌≢◌, inl, inr, none, some, List, [], ◌∷◌, ◌++◌, arith, map,
  length, drop, All, max, Bool-cases, ltb,
}
use miry_data_collector.Base.Result.{ok}
use miry_data_collector.Orderbook.Bridge.{
  BridgeResult, waiting_at, stale_at, bridged_at, locate_snapshot_bridge,
}
use miry_data_collector.Orderbook.Bridge.Locate.{locate-early, locate-late, locate-overlap}
use miry_data_collector.Pipeline.L2.Levels.{Decimals}
use miry_data_collector.Pipeline.L2.Chains.{
  IsOld, Chained, Chains, chains, split-IsOld, spans_old, map-old, drop-map, drop-map_all, sub_same,
}
use miry_data_collector.Pipeline.L2.Book.{
  DepthDiff, buffered_pu_discontinuity, candidates_of, span_of, ConnectionBook, Outcome, apply,
  broken_by, validated, replay, decide, resolve, try_bridge,
}

module _ (D : Decimals) where
  -- The diffs applied one after the other.
  abbrev pub apply_all : ConnectionBook D → List DepthDiff → ConnectionBook D
  apply_all b [] = b
  apply_all b (d ∷ ds) = apply_all (apply D b d) ds

  -- What `_try_bridge` returns, and the book that it leaves, without loops or indices.
  pub data BridgeOutcome (b : ConnectionBook D) (last received : ℕ) (ds : List DepthDiff)
      (r : Outcome D) : Type 0 where
    waits :
        All (IsOld last) ds
        → r ≡ ok (none, record b { pending = [] })
        → BridgeOutcome b last received ds r
    is_stale :
        (old rest : List DepthDiff) (c : DepthDiff)
        → ds ≡ old ++ (c ∷ rest)
        → All (IsOld last) old
        → last ≤ c.final_update_id
        → last < c.first_update_id
        → r
          ≡ ok (
            none,
            record b {
              bids = [];
              asks = [];
              previous_update_id = none;
              anchor_last_update_id = none;
              anchor_received_ns = none;
              pending = c ∷ rest;
            },
          )
        → BridgeOutcome b last received ds r
    becomes_valid :
        (old rest : List DepthDiff) (c : DepthDiff) (v : ℕ)
        → ds ≡ old ++ (c ∷ rest)
        → All (IsOld last) old
        → last ≤ c.final_update_id
        → c.first_update_id ≤ last
        → Chained c.final_update_id rest v
        → r ≡ ok (validated D (apply_all b (c ∷ rest)) (max received c.received_ns))
        → BridgeOutcome b last received ds r
    breaks :
        (old pre post : List DepthDiff) (c d : DepthDiff) (e : ℕ)
        → ds ≡ old ++ (c ∷ (pre ++ (d ∷ post)))
        → All (IsOld last) old
        → last ≤ c.final_update_id
        → c.first_update_id ≤ last
        → Chained c.final_update_id pre e
        → d.previous_final_update_id ≢ e
        → r ≡ ok (broken_by D (apply_all b (c ∷ pre)) d buffered_pu_discontinuity)
        → BridgeOutcome b last received ds r

  replay-Chained :
      (b : ConnectionBook D) (u v at : ℕ) (ds : List DepthDiff)
      → Chained u ds v
      → replay D b (some u) at ds ≡ ok (validated D (apply_all b ds) at)
  unfolding replay
  replay-Chained b u v at [] h = refl
  replay-Chained b u v at (d ∷ ds) h =
      ground (arith, replay-Chained (apply D b d) d.final_update_id v at ds h.1)

  replay-break :
      (b : ConnectionBook D) (u e at : ℕ) (pre post : List DepthDiff) (d : DepthDiff)
      → Chained u pre e
      → d.previous_final_update_id ≢ e
      → replay D b (some u) at (pre ++ (d ∷ post))
        ≡ ok (broken_by D (apply_all b pre) d buffered_pu_discontinuity)
  unfolding replay
  replay-break b u e at [] post d h n = ground arith
  replay-break b u e at (x ∷ pre) post d h n =
      ground (arith, replay-break (apply D b x) x.final_update_id e at pre post d h.1 n)

  module _ (b : ConnectionBook D) (last received : ℕ)
      (anchored : b.anchor_last_update_id ≡ some last)
      (dated : b.anchor_received_ns ≡ some received) where
    opened :
        (r : BridgeResult)
        → locate_snapshot_bridge last (map span_of (candidates_of b.pending)) ≡ r
        → try_bridge D b
          ≡ resolve D b received r r.status (drop r.discard_count (candidates_of b.pending))
    unfolding try_bridge
    opened r q =
        ap (λ l. decide D b l b.anchor_received_ns) anchored
        ∙ ap (λ at. decide D b (some last) at) dated
        ∙ rw q

    module _ (old rest : List DepthDiff) (c : DepthDiff)
        (e : candidates_of b.pending ≡ old ++ (c ∷ rest)) (h : All (IsOld last) old)
        (l : last ≤ c.final_update_id) where
      remaining : drop (length (map span_of old)) (candidates_of b.pending) ≡ c ∷ rest
      remaining = rw e (drop-map old (c ∷ rest))

      spans :
          map span_of (candidates_of b.pending) ≡ map span_of old ++ (span_of c ∷ map span_of rest)
      spans = ap (map span_of) e ∙ map-old old (c ∷ rest)

      bridged :
          c.first_update_id ≤ last
          → try_bridge D b
            ≡ replay D (apply D b c) (some c.final_update_id) (max received c.received_ns) rest
      bridged f =
          opened (bridged_at (length (map span_of old))) (
            rw spans (
              locate-overlap last (map span_of old) (map span_of rest) (span_of c)
                (spans_old last old h) l f))
          ∙ rw (remaining, sub_same)

      overlapped :
          c.first_update_id ≤ last
          → Chains c.final_update_id rest
          → BridgeOutcome b last received (candidates_of b.pending) (try_bridge D b)
      overlapped f (Chains.whole v k) =
          BridgeOutcome.becomes_valid old rest c v e h l f k
            (bridged f ∙ replay-Chained (apply D b c) c.final_update_id v _ rest k)
      overlapped f (Chains.split pre post d x p k n) =
          BridgeOutcome.breaks old pre post c d x (rw p at e) h l f k n (
            bridged f
            ∙ ap (replay D (apply D b c) (some c.final_update_id) _) p
            ∙ replay-break (apply D b c) c.final_update_id x _ pre post d k n)

    -- A book with an anchor tries to bridge it in one of four ways: it waits, finds its snapshot
    -- stale, becomes valid with exactly the chained diffs applied to the snapshot in order, or is
    -- invalidated at the first diff that breaks the chain. It raises nothing.
    pub try_bridge-BridgeOutcome :
        BridgeOutcome b last received (candidates_of b.pending) (try_bridge D b)
    try_bridge-BridgeOutcome = elim (split-IsOld last (candidates_of b.pending)) [
      | inl h ↦ BridgeOutcome.waits h (
          opened (waiting_at (length (map span_of (candidates_of b.pending))))
            (locate-early last _ (spans_old last _ h))
          ∙ rw (drop-map_all (candidates_of b.pending)))
      | inr (old, rest, c, e, h, l) ↦ elim (Bool-cases (ltb last c.first_update_id)) [
        | inl late ↦ BridgeOutcome.is_stale old rest c e h l (ground arith) (
            opened (stale_at (length (map span_of old))) (
              rw (spans old rest c e h l) (
                locate-late last (map span_of old) (map span_of rest) (span_of c)
                  (spans_old last old h) l (ground arith)))
            ∙ rw (remaining old rest c e h l))
        | inr in_time ↦ overlapped old rest c e h l (ground arith) (chains c.final_update_id rest)
      ]
    ]
