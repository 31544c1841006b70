-- ===== src/Collector/DayIndex.antt =====
-- `DayIndex`, src/miry/collector/day_index.py. The files of a day are its journal, if it has one, the
-- manifests under ready and acked-manifests, and the sealed manifest; every method runs under the
-- lock. What `create` makes is an argument: the manifest that it has written, or nothing for an OSError.
-- `completed_dates`, a listing of directories, is left out.
use miry_data_collector.Base.{
  ℕ, Bool, not, Option, none, some, List, [], ◌∷◌, ◌++◌, if◌then◌else◌, ◌==◌, map, is_some,
}
use miry_data_collector.Base.Result.{Result, ok, err, ◌>>◌, raise_if}
use miry_data_collector.Base.Sorting.{sort_by}
use miry_data_collector.Base.Text.{Text}
use miry_data_collector.Contracts.Chunks.{
  ChunkRef, ChunkManifest, DayManifest, as_ref, same_identity, identity_leb, accepts_day,
}
pub mod Sealing
pub mod Freezing
mod Examples

pub record DayFiles : Type 0 where
  pub journal : Option (List ChunkRef)
  pub ready : List ChunkManifest
  pub acked : List ChunkManifest
  pub sealed : Option DayManifest

pub record DayIndex : Type 0 where
  pub collector_id : Text
  pub days : ℕ → DayFiles

pub data IndexFault : Type 0 where
  day_is_sealed date_mismatch io_failed manifest_refused : IndexFault

abbrev pub on_day : ℕ → DayFiles → DayIndex → DayIndex
on_day date files s = record s { days = λ d. if d == date then files else s.days d }

abbrev pub is_sealed : ℕ → DayIndex → Bool
is_sealed date s = is_some (s.days date).sealed

-- The lines of a journal; one that is missing has none.
abbrev pub lines_of : Option (List ChunkRef) → List ChunkRef
lines_of none = []
lines_of (some lines) = lines

abbrev pub journal_with : ChunkRef → DayFiles → DayFiles
journal_with chunk files = record files { journal = some (lines_of files.journal ++ (chunk ∷ [])) }

-- `record`
unfoldable pub record_chunk : ℕ → ChunkRef → DayIndex → Result IndexFault DayIndex
record_chunk date chunk s =
    raise_if (is_sealed date s) day_is_sealed
    >> ok (on_day date (journal_with chunk (s.days date)) s)

abbrev pub ready_with : ChunkManifest → DayFiles → DayFiles
ready_with manifest files = record files { ready = files.ready ++ (manifest ∷ []) }

-- The manifest that `create` has written, and its line in the journal.
abbrev pub enter : ℕ → ChunkManifest → DayIndex → Result IndexFault DayIndex
enter date manifest s =
    raise_if (not (manifest.utc_date == date)) date_mismatch
    >> ok (on_day date (journal_with (as_ref manifest) (ready_with manifest (s.days date))) s)

-- The first call of `create`, and the second behind `recover_io`.
abbrev pub attempt :
    ℕ → Option ChunkManifest → Option ChunkManifest → DayIndex → Result IndexFault DayIndex
attempt date (some manifest) second s = enter date manifest s
attempt date none (some manifest) s = enter date manifest s
attempt date none none s = err io_failed

-- `record_generated`
unfoldable pub record_generated :
    ℕ → Option ChunkManifest → Option ChunkManifest → DayIndex → Result IndexFault DayIndex
record_generated date first second s =
    raise_if (is_sealed date s) day_is_sealed >> attempt date first second s

-- `by_identity[...] = chunk`
abbrev pub put_ref : ChunkRef → List ChunkRef → List ChunkRef
put_ref c [] = c ∷ []
put_ref c (d ∷ ds) = let rest = put_ref c ds in if same_identity d c then c ∷ ds else d ∷ rest

abbrev pub put_all : List ChunkRef → List ChunkRef → List ChunkRef
put_all [] by_identity = by_identity
put_all (c ∷ cs) by_identity = put_all cs (put_ref c by_identity)

-- The lines and manifests in the order in which `_read_refs` reads them. Without a journal it reads
-- none of them.
abbrev pub sources : Option (List ChunkRef) → DayFiles → List ChunkRef
sources none files = []
sources (some lines) files = lines ++ (map as_ref files.ready ++ map as_ref files.acked)

-- `_read_refs`
unfoldable pub read_refs : DayFiles → List ChunkRef
read_refs files = sort_by identity_leb (put_all (sources files.journal files) [])

-- `_clean_sealed_day_state`
abbrev pub cleaned : DayFiles → DayFiles
cleaned files = record files { journal = none; acked = [] }

abbrev pub manifest_for : ℕ → ℕ → DayIndex → DayManifest
manifest_for date sealed_at s = record {
  collector_id = s.collector_id;
  utc_date = date;
  sealed_at = sealed_at;
  chunks = read_refs (s.days date);
}

abbrev pub with_manifest : DayManifest → DayFiles → DayFiles
with_manifest m files = record files { sealed = some m }

abbrev pub sealed_now : ℕ → DayManifest → DayIndex → Result IndexFault DayIndex
sealed_now date m s =
    raise_if (not (accepts_day m)) manifest_refused
    >> ok (on_day date (cleaned (with_manifest m (s.days date))) s)

-- `seal`, by whether the sealed manifest exists
abbrev pub seal_from : Option DayManifest → ℕ → ℕ → DayIndex → Result IndexFault DayIndex
seal_from (some m) date sealed_at s = ok (on_day date (cleaned (s.days date)) s)
seal_from none date sealed_at s = sealed_now date (manifest_for date sealed_at s) s

unfoldable pub seal : ℕ → ℕ → DayIndex → Result IndexFault DayIndex
seal date sealed_at s = seal_from (s.days date).sealed date sealed_at s
