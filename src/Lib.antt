-- ===== src/Lib.antt =====
-- A model of the miry data collector's order-book reconstruction, its daily quality gate, and the
-- collector's queues, traffic recorder, route sharding, day index and gap journal.
--
-- The collector records Binance depth diffs and snapshots of many connections, with the gaps in its
-- own transport. The pipeline rebuilds the order book of each symbol and day from them, writes the
-- intervals in which one connection was authoritative and valid, and hands a checkpoint to the next
-- day. The quality gate then accepts a day of sixty symbols only if the time of each symbol is
-- accounted for.
--
-- Parts and files:
--   Base: tests on naturals, lists, sorting, texts, dicts in insertion order, parsed JSON values, and
--     results with the exceptions as data. Its child modules carry the lemmas that the parts share.
--   Contracts/Gap: the stream types and the gap event of src/miry/contracts/models.py.
--   Contracts/Raw: the writer groups and the raw event of that file, as far as the queues read them.
--   Collector/Queue: ByteBoundedQueues of src/miry/collector/queue.py (put, get, get_nowait,
--     release, put_control, take_interval_high_water_bytes). Accounting has the relation Reaches, which says what the writers of
--     src/miry/collector/writer.py do with the queues; Keeping and Budget have the proofs over it.
--   Collector/Sharding: TrafficSharder of src/miry/collector/sharding.py. The module itself has
--     _improve_balance and _message_rate, Methods the constructor, shards and rebalance. Swaps,
--     Exchanges, Settling and Keeping are about _improve_balance; Placing, Assigning, Stability,
--     Noting and Partition about shards; CurrentShards and Rebalancing about rebalance.
--   Collector/Traffic: PublicTrafficRecorder of src/miry/collector/traffic.py, and in State the state
--     file with _save, _load and _parse_blocks. Parsing is about the file; Recording, Blocks and Saving
--     about any sequence of calls; Rates about effective_rates.
--   Collector/DayIndex: DayIndex of src/miry/collector/day_index.py (record, record_generated, seal).
--     Sealing is about the sealed manifest, Freezing about any sequence of calls.
--   Collector/Gaps: GapJournal of src/miry/collector/gaps.py (open, close, rollover). Rolling is about
--     the events that it writes at midnights; Story, Split and Refinement about what
--     Pipeline/Quality/Explicit reads of them.
--   Contracts/Chunks: the chunk models of src/miry/contracts/models.py with their validators.
--   Contracts/Decisions: the universe decision, the override, the acknowledgement and the release of
--     that file; Members is about an accepted decision.
--   Contracts/Symbols: src/miry/contracts/symbols.py.
--   Orderbook/Bridge: src/miry/orderbook/bridge.py, that is locate_snapshot_bridge and
--     SnapshotBridgeTracker (on_snapshot, on_diff, invalidate, _evaluate_snapshot). A method takes
--     the tracker and returns its result and the new tracker. Locate, Following and Outcomes are
--     about one evaluation; Calls, Invariant and Soundness about any sequence of calls.
--   Pipeline/L2: src/miry/pipeline/l2.py. Levels has the two sides of a book; Book has
--     ConnectionBook (on_diff, on_snapshot, _try_bridge, invalidate); Checkpoint the two checkpoint
--     models with their validators, from_checkpoint, from_anchor_checkpoint and _build_checkpoint;
--     Start the preconditions of a day; Transport the state of run and handle_gap; Day the loop over
--     the rows and run. Chains, Bridging, Safety and Receipts are proofs on one book, Authority,
--     Succession, Rows, Beginning, Ending and Refusal on a day.
--   Pipeline/Gaps: build_transport_gap_ledger of src/miry/pipeline/gaps.py, which writes the gap file
--     that the day and the gate read.
--   Universe/Ranking: src/miry/universe/ranking.py. Better and Competition are about _metric_ranks.
--   Pipeline/Quality: src/miry/pipeline/quality.py. Durations has _union_duration,
--     _intersection_duration and _extend_invalid_until_valid; Explicit has
--     _explicit_invalid_intervals; Finalize has _validate_validity and finalize_day. Points,
--     Coverage, Intersection and Extension read durations as numbers of nanoseconds; Episodes,
--     Validity and Verdict are about gaps, validity files and one symbol's verdict; Accepting,
--     Admitting and Gate about the day.
--   Examples, in each part: concrete runs.
-- The day's loop calls Book, Book calls locate_snapshot_bridge of Orderbook/Bridge, the gate
-- reads the intervals and checkpoints that the day writes, the journal enters its files in the day
-- index, and the gate reads the gaps of a sealed day.
--
-- Numbers: times, update ids, sequence numbers and dates are naturals; dates are days since the
-- epoch. The source subtracts only where the result is not negative, apart from a release of the
-- queues, which raises where an account would fall below zero; what the counters hold behind that
-- error is left out. Texts are lists of code points. Every loop but one is structural recursion on what
-- the source iterates over; the loop of _roll_state_to counts its days beforehand. The loop of
-- _improve_balance runs on fuel, one more than the spread of the loads, which every round makes
-- smaller.
--
-- Parameters: decimal.Decimal is a record of operations with the laws that equality is by value and
-- that a printed price parses to itself (Decimals in Pipeline/L2/Levels); the ranking takes
-- only its order (Order in Universe/Ranking). What the JSON parser, the
-- pydantic type checks and the file system deliver is input: an Option for a file that may be
-- missing or a line that may be refused. The thresholds of the queues, which the source computes in
-- floating point, and clock readings are arguments. The text methods of the language are a record of
-- functions (TextMethods in Contracts/Symbols), and so are printing and hashing (Printing in
-- Collector/Gaps). Validators that the source writes itself are modelled.
--
-- Not modelled: reading parquet rows and the partitioned L2 input, writing files, the copied fields
-- and printed ratios of the quality marker, and the payload hash's hexadecimal form. Of the
-- collector the spool, the writers, the routes and all network and file access are left out, and
-- of the universe selection only the ranking is modelled, and nothing of normalization and retention.
pub mod Base
pub mod Contracts
pub mod Orderbook
pub mod Collector
pub mod Pipeline
pub mod Universe
