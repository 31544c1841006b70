-- ===== src/Collector/DayIndex/Examples.antt =====
-- Runs of the index of src/miry/collector/day_index.py at concrete inputs.
use miry_data_collector.Base.{◌*◌, ◌≡◌, refl, true, none, some, [], ◌∷◌, arith}
use miry_data_collector.Base.Result.{ok}
use miry_data_collector.Base.Text.{Text}
use miry_data_collector.Contracts.Chunks.{
  ChunkRef, ChunkManifest, ContentType, DayManifest, are_distinct, day_length_ns,
}
use miry_data_collector.Contracts.Raw.{WriterGroup}
use miry_data_collector.Collector.DayIndex.{
  DayIndex, DayFiles, on_day, journal_with, seal, record_chunk, read_refs,
}
use miry_data_collector.Collector.DayIndex.Sealing.{has_identity, is_known, seal-ok}
use miry_data_collector.Collector.DayIndex.Freezing.{SameDay, Calls-SameDay, begun, recorded}

abbrev chunk : Text → ChunkRef
chunk name = record {
  chunk_id = name;
  data_path = name;
  sha256 = [];
  size_bytes = 1;
  content_type = ContentType.parquet;
}

abbrev first : ChunkRef
first = chunk (b'a' ∷ [])

abbrev second : ChunkRef
second = chunk (b'b' ∷ [])

-- The second chunk was recorded twice, before and after the first.
abbrev files : DayFiles
files = record {
  journal = some (second ∷ first ∷ second ∷ []);
  ready = [];
  acked = [];
  sealed = none;
}

abbrev index : DayIndex
index = record { collector_id = b'c' ∷ []; days = λ d. files }

refs_run : read_refs files ≡ first ∷ second ∷ []
unfolding read_refs
refs_run = refl

abbrev acknowledged : ChunkManifest
acknowledged = record {
  ref = first;
  collector_id = b'c' ∷ [];
  writer_group = WriterGroup.metadata;
  utc_date = 10;
  event_count = 1;
  min_app_receive_realtime_ns = 10 * day_length_ns;
  max_app_receive_realtime_ns = 10 * day_length_ns;
  data_contract_hash = [];
  universe_hash = [];
  created_at = 10 * day_length_ns;
}

-- Without a journal, the manifests of the day are not read.
unread_run : read_refs (record files { journal = none; acked = acknowledged ∷ [] }) ≡ []
unfolding read_refs
unread_run = refl

seal-ok_example :
    (s' : DayIndex) × (m : DayManifest) × (seal 10 (11 * day_length_ns) index ≡ ok s')
    × ((s'.days 10).sealed ≡ some m)
    × (are_distinct m.chunks ≡ true)
    × ((c : ChunkRef) → has_identity c m.chunks ≡ is_known c files)
seal-ok_example = seal-ok 10 (11 * day_length_ns) index refl (omega arith) refl

abbrev manifest : DayManifest
manifest = record {
  collector_id = b'c' ∷ [];
  utc_date = 9;
  sealed_at = 10 * day_length_ns;
  chunks = first ∷ [];
}

abbrev sealed_files : DayFiles
sealed_files = record { journal = none; ready = []; acked = []; sealed = some manifest }

abbrev all_sealed : DayIndex
all_sealed = record { collector_id = b'c' ∷ []; days = λ d. sealed_files }

-- The tenth day is open, and all others are sealed.
abbrev partly : DayIndex
partly = on_day 10 files all_sealed

abbrev extended : DayIndex
extended = on_day 10 (journal_with first files) partly

record_run : record_chunk 10 first partly ≡ ok extended
unfolding record_chunk
record_run = refl

Calls-SameDay_example : SameDay 9 partly extended
Calls-SameDay_example =
    Calls-SameDay 9 manifest partly extended (recorded begun 10 first record_run) refl
