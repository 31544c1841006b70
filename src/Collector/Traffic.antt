-- ===== src/Collector/Traffic.antt =====
-- `PublicTrafficRecorder`, src/miry/collector/traffic.py. A reading of the clock is an argument, in
-- whole minutes; the log line and the loop `run`, which waits for the end of a minute, are left out.
use miry_data_collector.Base.{
  ℕ, ◌+◌, ◌-◌, max, Bool, true, false, not, Option, none, some, List, [], ◌∷◌, ◌++◌, if◌then◌else◌,
  ltb, leb, ◌==◌, filter, length, drop,
}
use miry_data_collector.Base.Sorting.{sort_by}
use miry_data_collector.Base.Text.{Text}
use miry_data_collector.Base.Dict.{Dict, lookup, insert}
use miry_data_collector.Base.Keys.{entry_leb}
pub mod State
pub mod Parsing
pub mod Recording
pub mod Blocks
pub mod Saving
pub mod Rates
mod Examples

pub record MessageRateBlock : Type 0 where
  pub start_minute : ℕ
  pub end_minute : ℕ
  pub rates : Dict ℕ

pub record PublicTrafficRecorder : Type 0 where
  pub baseline_rates : Dict ℕ
  pub started_minute : ℕ
  pub last_minute : Option ℕ
  pub minute_symbols : List (ℕ × Dict ℕ)
  pub minute_routes : List (ℕ × Dict ℕ)
  pub block_start : Option ℕ
  pub block_minutes : ℕ
  pub block_peaks : Dict ℕ
  pub blocks : List MessageRateBlock

-- `PublicTrafficRecorder(path, baseline_rates, clock)`, with what `_load` gives
abbrev pub init : Dict ℕ → ℕ → List MessageRateBlock → PublicTrafficRecorder
init baseline_rates minute loaded = record {
  baseline_rates = baseline_rates;
  started_minute = minute;
  last_minute = none;
  minute_symbols = [];
  minute_routes = [];
  block_start = none;
  block_minutes = 0;
  block_peaks = [];
  blocks = loaded;
}

-- `d.get(key, 0)`, and the value of a key in a `Counter`
abbrev pub or_zero : Option ℕ → ℕ
or_zero none = 0
or_zero (some n) = n

abbrev pub rate_in : Text → Dict ℕ → ℕ
rate_in symbol d = or_zero (lookup symbol d)

-- `minutes.setdefault(minute, Counter())[name] += 1`
abbrev pub tally : ℕ → Text → List (ℕ × Dict ℕ) → List (ℕ × Dict ℕ)
tally minute name [] = (minute, (name, 1) ∷ []) ∷ []
tally minute name ((m, counts) ∷ minutes) =
    if m == minute
    then (m, insert name (rate_in name counts + 1) counts) ∷ minutes
    else (m, counts) ∷ tally minute name minutes

-- `minutes.pop(minute, Counter())`, its result
abbrev pub counts_of : ℕ → List (ℕ × Dict ℕ) → Dict ℕ
counts_of minute [] = []
counts_of minute ((m, counts) ∷ minutes) = if m == minute then counts else counts_of minute minutes

-- What the pop and `_discard_older_minutes` leave.
abbrev pub after_minute : ℕ → List (ℕ × Dict ℕ) → List (ℕ × Dict ℕ)
after_minute minute minutes = filter (λ e. ltb minute e.0) minutes

abbrev pub note : Text → Text → ℕ → PublicTrafficRecorder → PublicTrafficRecorder
note route symbol minute r = record r {
  minute_symbols = tally minute symbol r.minute_symbols;
  minute_routes = tally minute route r.minute_routes;
}

abbrev pub reset_block : PublicTrafficRecorder → PublicTrafficRecorder
reset_block r = record r { block_start = none; block_minutes = 0; block_peaks = [] }

abbrev pub discard_older_minutes : ℕ → PublicTrafficRecorder → PublicTrafficRecorder
discard_older_minutes minute r = record r {
  minute_symbols = after_minute minute r.minute_symbols;
  minute_routes = after_minute minute r.minute_routes;
}

-- `minute != self._last_minute + 1`, where there is a last minute
abbrev pub is_gap : ℕ → Option ℕ → Bool
is_gap minute none = false
is_gap minute (some last) = not (minute == last + 1)

abbrev pub without_gap : ℕ → PublicTrafficRecorder → PublicTrafficRecorder
without_gap minute r = if is_gap minute r.last_minute then reset_block r else r

abbrev pub start_or : ℕ → Option ℕ → ℕ
start_or minute none = minute
start_or minute (some start) = start

-- The loop over the counts of a minute.
abbrev pub raise_peaks : Dict ℕ → Dict ℕ → Dict ℕ
raise_peaks [] peaks = peaks
raise_peaks ((symbol, rate) ∷ counts) peaks =
    raise_peaks counts (insert symbol (max (rate_in symbol peaks) rate) peaks)

abbrev pub count_minute : ℕ → Dict ℕ → PublicTrafficRecorder → PublicTrafficRecorder
count_minute minute counts r = record r {
  last_minute = some minute;
  block_start = some (start_or minute r.block_start);
  block_minutes = r.block_minutes + 1;
  block_peaks = raise_peaks counts r.block_peaks;
}

-- `xs[-n:]`
abbrev pub last_items : {A : Type 0} → ℕ → List A → List A
last_items n xs = drop (length xs - n) xs

abbrev pub finished_block : ℕ → PublicTrafficRecorder → MessageRateBlock
finished_block minute r = record {
  start_minute = start_or minute r.block_start;
  end_minute = minute;
  rates = sort_by entry_leb r.block_peaks;
}

abbrev pub add_block : ℕ → PublicTrafficRecorder → PublicTrafficRecorder
add_block minute r =
    reset_block (record r { blocks = last_items 24 (r.blocks ++ (finished_block minute r ∷ [])) })

abbrev pub complete : ℕ → PublicTrafficRecorder → Bool × PublicTrafficRecorder
complete minute r = if ltb r.block_minutes 60 then (false, r) else (true, add_block minute r)

-- `finish_minute`
unfoldable pub finish_minute : ℕ → PublicTrafficRecorder → Bool × PublicTrafficRecorder
finish_minute minute r =
    let kept = discard_older_minutes minute r in
    let counted =
      count_minute minute (counts_of minute r.minute_symbols) (without_gap minute kept) in
    if leb minute r.started_minute then (false, kept) else complete minute counted

abbrev pub has_complete_evidence : PublicTrafficRecorder → Bool
has_complete_evidence r = length r.blocks == 24

abbrev pub raise_rates : List MessageRateBlock → Dict ℕ → Dict ℕ
raise_rates [] rates = rates
raise_rates (b ∷ bs) rates = raise_rates bs (raise_peaks b.rates rates)

-- `rates or dict(self._baseline_rates)`
abbrev pub or_baseline : Dict ℕ → Dict ℕ → Dict ℕ
or_baseline [] baseline = baseline
or_baseline (e ∷ rates) baseline = e ∷ rates

-- `effective_rates`
unfoldable pub effective_rates : PublicTrafficRecorder → Dict ℕ
effective_rates r =
    if has_complete_evidence r
    then or_baseline (raise_rates r.blocks []) r.baseline_rates
    else r.baseline_rates
