-- ===== src/Contracts/Raw.antt =====
-- Raw events and their writer groups, src/miry/contracts/models.py. The event keeps the fields that
-- the queues read.
use miry_data_collector.Base.{ℕ, ◌+◌, List, length}
use miry_data_collector.Contracts.Gap.{StreamType}

pub data WriterGroup : Type 0 where
  depth_group trades_market metadata control : WriterGroup

pub record RawEvent : Type 0 where
  pub stream_type : StreamType
  pub payload_bytes : List ℕ

abbrev pub approximate_size_bytes : RawEvent → ℕ
approximate_size_bytes e = length e.payload_bytes + 256

abbrev pub group_of : StreamType → WriterGroup
group_of StreamType.depth = WriterGroup.depth_group
group_of StreamType.rpi_depth = WriterGroup.depth_group
group_of StreamType.depth_snapshot = WriterGroup.depth_group
group_of StreamType.rpi_depth_snapshot = WriterGroup.depth_group
group_of StreamType.book_ticker = WriterGroup.trades_market
group_of StreamType.agg_trade = WriterGroup.trades_market
group_of StreamType.trade = WriterGroup.trades_market
group_of StreamType.mark_price = WriterGroup.trades_market
group_of StreamType.force_order = WriterGroup.trades_market
group_of _ = WriterGroup.metadata

-- `writer_group`
abbrev pub writer_group : RawEvent → WriterGroup
writer_group e = group_of e.stream_type
