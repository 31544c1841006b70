-- ===== src/Contracts/Chunks.antt =====
-- The chunk models of src/miry/contracts/models.py with their own validators. The instants are
-- nanoseconds, and dates are days since the epoch; the type checks of the fields are left out.
use miry_data_collector.Base.{
  ℕ, ◌/◌, Bool, true, false, not, ◌&&◌, ◌||◌, List, [], ◌∷◌, ltb, leb, ◌==◌, any, all, length,
  if◌then◌else◌,
}
use miry_data_collector.Base.Text.{Text, text_eq, text_leb}
use miry_data_collector.Contracts.Raw.{WriterGroup}

-- Nanoseconds of a day.
abbrev pub day_length_ns : ℕ
day_length_ns = 86400000000000

-- `datetime.fromtimestamp(ns // 1_000_000_000, tz=UTC).date()`
abbrev pub date_of : ℕ → ℕ
date_of ns = ns / day_length_ns

pub data ContentType : Type 0 where
  parquet gap_json : ContentType

pub record ChunkRef : Type 0 where
  pub chunk_id : Text
  pub data_path : Text
  pub sha256 : Text
  pub size_bytes : ℕ
  pub content_type : ContentType

pub record ChunkManifest : Type 0 where
  pub ref : ChunkRef
  pub collector_id : Text
  pub writer_group : WriterGroup
  pub utc_date : ℕ
  pub event_count : ℕ
  pub min_app_receive_realtime_ns : ℕ
  pub max_app_receive_realtime_ns : ℕ
  pub data_contract_hash : Text
  pub universe_hash : Text
  pub created_at : ℕ

pub record DayManifest : Type 0 where
  pub collector_id : Text
  pub utc_date : ℕ
  pub sealed_at : ℕ
  pub chunks : List ChunkRef

-- `low <= c <= high`
abbrev pub within : ℕ → ℕ → ℕ → Bool
within low high c = leb low c && leb c high

-- `HASH_PATTERN`
abbrev pub is_hash : Text → Bool
is_hash value = (length value == 64) && all (λ c. within b'0' b'9' c || within b'a' b'f' c) value

-- `ID_PATTERN`
abbrev pub is_id_char : ℕ → Bool
is_id_char c =
    within b'A' b'Z' c
    || within b'a' b'z' c
    || within b'0' b'9' c
    || any (λ d. c == d) (b'.' ∷ b'_' ∷ b'-' ∷ [])

abbrev pub is_id : Text → Bool
is_id value = leb 8 (length value) && leb (length value) 160 && all is_id_char value

-- The parts of a path between its slashes.
abbrev pub add_char : ℕ → List Text → List Text
add_char c [] = (c ∷ []) ∷ []
add_char c (part ∷ parts) = (c ∷ part) ∷ parts

abbrev pub parts_of : Text → List Text
parts_of [] = [] ∷ []
parts_of (c ∷ cs) = let rest = parts_of cs in if c == b'/' then [] ∷ rest else add_char c rest

abbrev pub starts_with_slash : Text → Bool
starts_with_slash [] = false
starts_with_slash (c ∷ cs) = c == b'/'

-- `validate_path`
abbrev pub is_safe_path : Text → Bool
is_safe_path value =
    not (starts_with_slash value || any (text_eq (b'.' ∷ b'.' ∷ [])) (parts_of value))

-- The fields and validators of `ChunkRef`: whether the model accepts it
unfoldable pub accepts_ref : ChunkRef → Bool
accepts_ref c =
    is_id c.chunk_id
    && is_hash c.sha256
    && is_safe_path c.data_path
    && leb 1 (length c.data_path)
    && leb (length c.data_path) 500
    && ltb 0 c.size_bytes

unfoldable pub accepts_manifest : ChunkManifest → Bool
accepts_manifest m =
    accepts_ref m.ref
    && leb 1 (length m.collector_id)
    && leb (length m.collector_id) 100
    && ltb 0 m.event_count
    && is_hash m.data_contract_hash
    && is_hash m.universe_hash
    && leb m.min_app_receive_realtime_ns m.max_app_receive_realtime_ns

-- `as_ref`
abbrev pub as_ref : ChunkManifest → ChunkRef
as_ref m = m.ref

-- The identity of a chunk, `(chunk_id, sha256)`.
abbrev pub same_identity : ChunkRef → ChunkRef → Bool
same_identity c d = text_eq c.chunk_id d.chunk_id && text_eq c.sha256 d.sha256

abbrev pub identity_leb : ChunkRef → ChunkRef → Bool
identity_leb c d =
    if text_eq c.chunk_id d.chunk_id
    then text_leb c.sha256 d.sha256
    else text_leb c.chunk_id d.chunk_id

-- `len(identities) == len(set(identities))`
abbrev pub are_distinct : List ChunkRef → Bool
are_distinct [] = true
are_distinct (c ∷ cs) = not (any (same_identity c) cs) && are_distinct cs

-- `validate_unique_chunks`, and the length of the collector's id
unfoldable pub accepts_day : DayManifest → Bool
accepts_day m =
    are_distinct m.chunks
    && ltb m.utc_date (date_of m.sealed_at)
    && leb 1 (length m.collector_id)
    && leb (length m.collector_id) 100
