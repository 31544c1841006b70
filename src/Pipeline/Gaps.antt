-- ===== src/Pipeline/Gaps.antt =====
-- The ledger of transport gaps of a day, src/miry/pipeline/gaps.py. A chunk of the sealed manifest
-- comes with what the file system and the parser say of its file.
mod Examples
use miry_data_collector.Base.{
  ℕ, ◌≡◌, refl, ◌⊎◌, inl, inr, Bool, true, false, not, ◌&&◌, ◌||◌, Option, none, some, List, [],
  ◌∷◌, if◌then◌else◌, leb, ◌==◌, arith, Bool-cases, subst, sym, ap, ◌∙◌, All, filter,
}
use miry_data_collector.Base.Result.{
  Result, ok, err, ◌>>=◌, ◌>>◌, raise_if, >>=-eq-ok, ok-injective,
}
use miry_data_collector.Base.Sorting.{
  sort_by, IsSorted, sort_by-IsSorted, sort_by-of_sorted, filter-IsSorted,
}
use miry_data_collector.Pipeline.L2.Transport.{
  effective_or, gap_effective_ns, gap_leb, is_of, transport_gap_events,
}
use miry_data_collector.Base.Text.{
  Text, text_eq, text_leb, text_eq_iff, text_leb_total, text_leb_trans, text_leb_antisym,
}
use miry_data_collector.Contracts.Gap.{GapEvent, GapState, is_opened, state_leb}

pub data LedgerFault : Type 0 where
  integrity_failure event_refused : LedgerFault

pub record GapChunk : Type 0 where
  pub is_gap_json : Bool
  pub size_matches : Bool
  pub hash_matches : Bool
  pub event : Option GapEvent

abbrev pub sort_time : GapState → Option ℕ → ℕ → ℕ
sort_time GapState.opened (some affected) observed = affected
sort_time _ _ observed = observed

-- The time of `_gap_sort_key`
abbrev pub sort_ns : GapEvent → ℕ
sort_ns e = sort_time e.state e.affected_from_realtime_ns e.observed_at_realtime_ns

-- The order of the tuples that `_gap_sort_key` returns.
abbrev pub key_leb : ℕ → Text → GapState → ℕ → Text → GapState → Bool
key_leb t i s u j r =
    if t == u then if text_eq i j then state_leb s r else text_leb i j else leb t u

abbrev pub ledger_leb : GapEvent → GapEvent → Bool
ledger_leb e f = key_leb (sort_ns e) e.gap_id e.state (sort_ns f) f.gap_id f.state

abbrev pub parsed_event : Option GapEvent → Result LedgerFault GapEvent
parsed_event none = err event_refused
parsed_event (some e) = ok e

abbrev pub with_event :
    GapChunk → Result LedgerFault (List GapEvent) → Result LedgerFault (List GapEvent)
with_event c rest = do
  raise_if (not c.size_matches || not c.hash_matches) integrity_failure
  e ← parsed_event c.event
  es ← rest
  ok (e ∷ es)

unfoldable pub collect : List GapChunk → Result LedgerFault (List GapEvent)
collect [] = ok []
collect (c ∷ cs) = let rest = collect cs in if c.is_gap_json then with_event c rest else rest

-- `build_transport_gap_ledger`: the events in the order in which they are written
unfoldable pub build_transport_gap_ledger : List GapChunk → Result LedgerFault (List GapEvent)
build_transport_gap_ledger chunks = collect chunks >>= (λ es. ok (sort_by ledger_leb es))

state_leb_total : (s r : GapState) → (state_leb s r || state_leb r s) ≡ true
state_leb_total GapState.opened GapState.opened = refl
state_leb_total GapState.opened GapState.closed = refl
state_leb_total GapState.closed GapState.opened = refl
state_leb_total GapState.closed GapState.closed = refl

key_leb_total :
    (t : ℕ) (i : Text) (s : GapState) (u : ℕ) (j : Text) (r : GapState)
    → (key_leb t i s u j r ≡ true) ⊎ (key_leb u j r t i s ≡ true)
key_leb_total t i s u j r =
    ground (arith, text_eq_iff i j, text_eq_iff j i, text_leb_total i j, state_leb_total s r)

state_leb_trans :
    (s r q : GapState) → state_leb s r ≡ true → state_leb r q ≡ true → state_leb s q ≡ true
state_leb_trans GapState.opened GapState.opened q h k = k
state_leb_trans GapState.opened GapState.closed q h k = cc
state_leb_trans GapState.closed r q h k = refl

key_leb_trans :
    (t : ℕ) (i : Text) (s : GapState) (u : ℕ) (j : Text) (r : GapState) (v : ℕ) (k : Text)
    (q : GapState)
    → key_leb t i s u j r ≡ true
    → key_leb u j r v k q ≡ true
    → key_leb t i s v k q ≡ true
key_leb_trans t i s u j r v k q a b = ground (
  arith,
  text_eq_iff i j,
  text_eq_iff j k,
  text_eq_iff i k,
  text_leb_trans i j k,
  text_leb_antisym i j,
  text_leb_antisym j k,
  state_leb_trans s r q,
)

ledger_leb_total : (x y : GapEvent) → (ledger_leb x y ≡ true) ⊎ (ledger_leb y x ≡ true)
ledger_leb_total x y = key_leb_total (sort_ns x) x.gap_id x.state (sort_ns y) y.gap_id y.state

ledger_leb_trans :
    (x y z : GapEvent) → ledger_leb x y ≡ true → ledger_leb y z ≡ true → ledger_leb x z ≡ true
ledger_leb_trans x y z =
    key_leb_trans (sort_ns x) x.gap_id x.state (sort_ns y) y.gap_id y.state (sort_ns z) z.gap_id
      z.state

ledger-IsSorted :
    (chunks : List GapChunk) (events : List GapEvent)
    → build_transport_gap_ledger chunks ≡ ok events
    → IsSorted ledger_leb events
unfolding build_transport_gap_ledger
ledger-IsSorted chunks events e =
    let (es, _, same) = >>=-eq-ok (collect chunks) (λ es. ok (sort_by ledger_leb es)) e in
    subst (IsSorted ledger_leb) (ok-injective same)
      (sort_by-IsSorted ledger_leb ledger_leb_total ledger_leb_trans es)

-- The two orders, of the ledger and of the day that reads it, are one.
same_time :
    (s : GapState) (affected : Option ℕ) (observed : ℕ)
    → sort_time s affected observed ≡ effective_or s affected observed
same_time GapState.opened none observed = refl
same_time GapState.opened (some affected) observed = refl
same_time GapState.closed none observed = refl
same_time GapState.closed (some affected) observed = refl

same_leb : (e f : GapEvent) → ledger_leb e f ≡ gap_leb e f
same_leb e f =
    ap (λ t. key_leb t e.gap_id e.state (sort_ns f) f.gap_id f.state)
      (same_time e.state e.affected_from_realtime_ns e.observed_at_realtime_ns)
    ∙ ap (λ t. key_leb (gap_effective_ns e) e.gap_id e.state t f.gap_id f.state)
        (same_time f.state f.affected_from_realtime_ns f.observed_at_realtime_ns)

All-same :
    (e : GapEvent) (es : List GapEvent)
    → All (λ f. ledger_leb e f ≡ true) es
    → All (λ f. gap_leb e f ≡ true) es
All-same e [] h = tt
All-same e (f ∷ es) h = (sym (same_leb e f) ∙ h.0, All-same e es h.1)

IsSorted-same : (es : List GapEvent) → IsSorted ledger_leb es → IsSorted gap_leb es
IsSorted-same [] h = tt
IsSorted-same (e ∷ es) h = (All-same e es h.0, IsSorted-same es h.1)

-- A ledger that was built is already in the order of the day: the sort of `_transport_gap_events`
-- changes nothing, and the day handles the events that concern its symbol as they stand in the file.
pub transport_gap_events-of_ledger :
    (symbol : Text) (chunks : List GapChunk) (events : List GapEvent)
    → build_transport_gap_ledger chunks ≡ ok events
    → transport_gap_events symbol events ≡ filter (is_of symbol) events
unfolding transport_gap_events
transport_gap_events-of_ledger symbol chunks events e =
    sort_by-of_sorted gap_leb (filter (is_of symbol) events) (
      filter-IsSorted gap_leb (is_of symbol) events
        (IsSorted-same events (ledger-IsSorted chunks events e)))
