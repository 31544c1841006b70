-- ===== src/Contracts/Decisions.antt =====
-- The universe decision, the candidate override, the acknowledgement and the release of
-- src/miry/contracts/models.py with their own validators. Instants are nanoseconds; the type checks of
-- the fields, the time zones and the pattern of the version, which its last validator implies for
-- printed numbers, are left out. Printing a number and the hash of the roles are parameters.
use miry_data_collector.Base.{
  ℕ, ◌+◌, ◌%◌, Bool, true, false, not, ◌&&◌, ◌||◌, Option, none, some, List, [], ◌∷◌, ◌++◌,
  if◌then◌else◌, leb, ◌==◌, any, all, map, length,
}
use miry_data_collector.Base.Sorting.{sort_by}
use miry_data_collector.Base.Text.{Text, text_eq, text_leb}
use miry_data_collector.Base.Counting.{dedupe}
use miry_data_collector.Contracts.Symbols.{TextMethods, is_exchange_symbol}
use miry_data_collector.Contracts.Chunks.{day_length_ns, is_hash, is_id}
pub mod Members

pub data UniverseDecisionReason : Type 0 where
  formal_bootstrap daily_candidate weekly_core inactive_replacement : UniverseDecisionReason
  manual_candidate_override : UniverseDecisionReason

abbrev pub is_bootstrap : UniverseDecisionReason → Bool
is_bootstrap formal_bootstrap = true
is_bootstrap _ = false

pub record UniverseDecision : Type 0 where
  pub core_generation : ℕ
  pub candidate_revision : ℕ
  pub decision_sequence : ℕ
  pub universe_version : Text
  pub created_at : ℕ
  pub effective_at : ℕ
  pub reason : UniverseDecisionReason
  pub core : List Text
  pub boundary : List Text
  pub probe : List Text
  pub source_hashes : List Text
  pub universe_hash : Text

pub record CandidateOverride : Type 0 where
  pub created_at : ℕ
  pub effective_at : ℕ
  pub boundary : List Text
  pub probe : List Text

pub record Ack : Type 0 where
  pub chunk_id : Text
  pub sha256 : Text
  pub durable_at : ℕ

pub record DayReleaseRef : Type 0 where
  pub collector_id : Text
  pub utc_date : ℕ
  pub sealed_manifest_sha256 : Text

pub record DatasetRelease : Type 0 where
  pub release_id : Text
  pub created_at : ℕ
  pub days : List DayReleaseRef

abbrev pub texts_eq : List Text → List Text → Bool
texts_eq [] [] = true
texts_eq (s ∷ ss) (t ∷ ts) = text_eq s t && texts_eq ss ts
texts_eq _ _ = false

-- `len(values) == len(set(values))`
abbrev pub has_no_repeats : List Text → Bool
has_no_repeats values = length (dedupe values) == length values

-- The time of day is midnight.
abbrev pub is_midnight : ℕ → Bool
is_midnight ns = ns % day_length_ns == 0

abbrev pub all_members : UniverseDecision → List Text
all_members d = d.core ++ (d.boundary ++ d.probe)

-- `members`
abbrev pub members : UniverseDecision → List Text
members d = sort_by text_leb (all_members d)

module _ (M : TextMethods) where
  -- `validate_members` of the decision: the role in capitals, where it is accepted
  abbrev pub accepts_role : List Text → Bool
  accepts_role role =
      all (is_exchange_symbol M) role
      && has_no_repeats role
      && texts_eq role (sort_by text_leb role)

  abbrev pub capitals : List Text → List Text
  capitals role = map M.upper role

  abbrev pub in_capitals : UniverseDecision → UniverseDecision
  in_capitals d = record d {
    core = capitals d.core;
    boundary = capitals d.boundary;
    probe = capitals d.probe;
  }

  abbrev pub accepts_roles : UniverseDecision → Bool
  accepts_roles d =
      leb 1 d.core_generation
      && leb 1 d.decision_sequence
      && (length d.core == 50)
      && (length d.boundary == 5)
      && (length d.probe == 5)
      && accepts_role d.core
      && accepts_role d.boundary
      && accepts_role d.probe
      && all is_hash d.source_hashes

  module _ (show : ℕ → Text) (hash_of : List Text → List Text → List Text → Text) where
    -- `validate_schedule_version_and_hash`
    abbrev pub is_scheduled : UniverseDecision → Bool
    is_scheduled d =
        text_eq d.universe_version (show d.core_generation ++ (b'.' ∷ show d.candidate_revision))
        && leb d.created_at d.effective_at
        && (length (dedupe (all_members d)) == 60)
        && (is_bootstrap d.reason || is_midnight d.effective_at)
        && text_eq d.universe_hash (hash_of d.core d.boundary d.probe)

    -- `UniverseDecision.model_validate`
    unfoldable pub validate_decision : UniverseDecision → Option UniverseDecision
    validate_decision d =
        if accepts_roles (in_capitals d) && is_scheduled (in_capitals d)
        then some (in_capitals d)
        else none

  -- `validate_members` of the override, which sorts
  abbrev pub sorted_capitals : List Text → List Text
  sorted_capitals role = sort_by text_leb (capitals role)

  abbrev pub with_sorted_capitals : CandidateOverride → CandidateOverride
  with_sorted_capitals o = record o {
    boundary = sorted_capitals o.boundary;
    probe = sorted_capitals o.probe;
  }

  abbrev pub accepts_override : CandidateOverride → Bool
  accepts_override o =
      (length o.boundary == 5)
      && (length o.probe == 5)
      && all (is_exchange_symbol M) (o.boundary ++ o.probe)
      && has_no_repeats o.boundary
      && has_no_repeats o.probe
      && leb o.created_at o.effective_at
      && is_midnight o.effective_at
      && (length (dedupe (o.boundary ++ o.probe)) == 10)

  -- `CandidateOverride.model_validate`
  unfoldable pub validate_override : CandidateOverride → Option CandidateOverride
  validate_override o =
      if accepts_override (with_sorted_capitals o) then some (with_sorted_capitals o) else none

abbrev pub accepts_ack : Ack → Bool
accepts_ack a = is_id a.chunk_id && is_hash a.sha256

abbrev pub same_day : DayReleaseRef → DayReleaseRef → Bool
same_day r s = text_eq r.collector_id s.collector_id && (r.utc_date == s.utc_date)

abbrev pub are_distinct_days : List DayReleaseRef → Bool
are_distinct_days [] = true
are_distinct_days (r ∷ rs) = not (any (same_day r) rs) && are_distinct_days rs

abbrev pub accepts_day_ref : DayReleaseRef → Bool
accepts_day_ref r =
    leb 1 (length r.collector_id)
    && leb (length r.collector_id) 100
    && is_hash r.sealed_manifest_sha256

-- `DatasetRelease` with `validate_unique_days`
unfoldable pub accepts_release : DatasetRelease → Bool
accepts_release r =
    is_id r.release_id
    && leb 1 (length r.days)
    && all accepts_day_ref r.days
    && are_distinct_days r.days
