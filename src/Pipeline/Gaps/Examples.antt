-- ===== src/Pipeline/Gaps/Examples.antt =====
-- A ledger of one gap, src/miry/pipeline/gaps.py.
use miry_data_collector.Base.{ℕ, ◌≡◌, refl, true, false, Option, none, some, List, [], ◌∷◌, filter}
use miry_data_collector.Base.Result.{ok}
use miry_data_collector.Contracts.Gap.{GapEvent, GapReason, GapState}
use miry_data_collector.Pipeline.L2.Transport.{is_of, transport_gap_events}
use miry_data_collector.Pipeline.Gaps.{
  GapChunk, collect, build_transport_gap_ledger, transport_gap_events-of_ledger,
}

abbrev gap_at : GapState → ℕ → Option ℕ → GapEvent
gap_at state observed affected = record {
  gap_id = b'g' ∷ [];
  state = state;
  reason = GapReason.connection_lost;
  collector_id = b'c' ∷ [];
  connection_id = none;
  exchange_symbols = [];
  stream_types = [];
  observed_at_realtime_ns = observed;
  affected_from_realtime_ns = affected;
  detail = [];
}

abbrev chunk_of : GapEvent → GapChunk
chunk_of e = record { is_gap_json = true; size_matches = true; hash_matches = true; event = some e }

abbrev chunks : List GapChunk
chunks =
    chunk_of (gap_at GapState.closed 9 none)
    ∷ record { is_gap_json = false; size_matches = true; hash_matches = true; event = none }
    ∷ chunk_of (gap_at GapState.opened 7 (some 5))
    ∷ []

abbrev ledger : List GapEvent
ledger = gap_at GapState.opened 7 (some 5) ∷ gap_at GapState.closed 9 none ∷ []

builds : build_transport_gap_ledger chunks ≡ ok ledger
unfolding build_transport_gap_ledger collect
builds = refl

transport_gap_events-of_ledger_example :
    transport_gap_events (b's' ∷ []) ledger ≡ filter (is_of (b's' ∷ [])) ledger
transport_gap_events-of_ledger_example =
    transport_gap_events-of_ledger (b's' ∷ []) chunks ledger builds
