-- ===== src/Contracts/Gap.antt =====
-- Stream types, writer groups and gap events, src/miry/contracts/models.py.
use miry_data_collector.Base.{
  ℕ, Bool, true, false, ◌&&◌, Option, none, some, List, if◌then◌else◌, ltb, leb, length, all,
}
use miry_data_collector.Base.Text.{Text}
use miry_data_collector.Contracts.Symbols.{TextMethods, is_exchange_symbol}

pub data StreamType : Type 0 where
  depth rpi_depth depth_snapshot rpi_depth_snapshot book_ticker agg_trade trade : StreamType
  mark_price force_order contract_info open_interest exchange_info market_tickers : StreamType
  daily_klines liquidity_depth universe_decision formal_collection_started : StreamType
  clock_sample ws_control unknown : StreamType

-- `stream is StreamType.DEPTH`
abbrev pub is_depth : StreamType → Bool
is_depth StreamType.depth = true
is_depth _ = false

-- `stream is StreamType.DEPTH_SNAPSHOT`
abbrev pub is_depth_snapshot : StreamType → Bool
is_depth_snapshot StreamType.depth_snapshot = true
is_depth_snapshot _ = false

pub data GapReason : Type 0 where
  ingest_overload storage_exhausted connection_lost l2_sequence l2_reanchor : GapReason
  planned_boundary collector_stopped : GapReason

pub data GapState : Type 0 where
  opened closed : GapState

abbrev pub is_opened : GapState → Bool
is_opened GapState.opened = true
is_opened GapState.closed = false

-- The order of the texts "OPEN" and "CLOSED".
abbrev pub state_leb : GapState → GapState → Bool
state_leb GapState.opened GapState.closed = false
state_leb _ _ = true

pub record GapEvent : Type 0 where
  pub gap_id : Text
  pub state : GapState
  pub reason : GapReason
  pub collector_id : Text
  pub connection_id : Option Text
  pub exchange_symbols : List Text
  pub stream_types : List StreamType
  pub observed_at_realtime_ns : ℕ
  pub affected_from_realtime_ns : Option ℕ
  pub detail : Text

-- `validate_affected_from`: whether the model accepts the event
unfoldable pub validate_affected_from : GapEvent → Bool
validate_affected_from e = elim e.affected_from_realtime_ns [
  | none ↦ true
  | some affected ↦ if ltb e.observed_at_realtime_ns affected then false else is_opened e.state
]

abbrev pub is_length_between : ℕ → ℕ → Text → Bool
is_length_between low high t = leb low (length t) && leb (length t) high

-- `connection_id: str | None = Field(max_length=160)`
abbrev pub accepts_connection_id : Option Text → Bool
accepts_connection_id none = true
accepts_connection_id (some id) = is_length_between 0 160 id

-- All checks of the model: the lengths of the texts, `validate_symbols` and `validate_affected_from`.
unfoldable pub accepts_gap : TextMethods → GapEvent → Bool
accepts_gap M e =
    is_length_between 8 160 e.gap_id
    && is_length_between 1 100 e.collector_id
    && accepts_connection_id e.connection_id
    && all (is_exchange_symbol M) e.exchange_symbols
    && is_length_between 0 500 e.detail
    && validate_affected_from e
