-- ===== src/Collector/Queue.antt =====
-- `ByteBoundedQueues`, src/miry/collector/queue.py. The thresholds that the constructor computes in
-- floating point, and the monotonic clock, are arguments. The dicts have the three groups as keys.
pub mod Accounting
pub mod Keeping
pub mod Budget
mod Examples
use miry_data_collector.Base.{
  ℕ, ◌+◌, ◌-◌, max, Bool, true, false, not, ◌&&◌, ◌||◌, Option, none, some, List, [], ◌∷◌, ◌++◌,
  if◌then◌else◌, ltb, leb,
}
use miry_data_collector.Base.Result.{Result, ok, err}
use miry_data_collector.Contracts.Raw.{WriterGroup, RawEvent, approximate_size_bytes, writer_group}

pub data QueueFault : Type 0 where
  queue_overloaded negative_accounting no_such_group queue_empty : QueueFault

-- What waits in a queue; the future of a control item is left out.
pub data WriterItem : Type 0 where
  queued : RawEvent → ℕ → WriterItem
  rotate stop : WriterItem

pub record PerGroup (A : Type 0) : Type 0 where
  pub of_depth : A
  pub of_trades : A
  pub of_metadata : A

abbrev pub read : {A : Type 0} → WriterGroup → PerGroup A → Option A
read WriterGroup.depth_group p = some p.of_depth
read WriterGroup.trades_market p = some p.of_trades
read WriterGroup.metadata p = some p.of_metadata
read WriterGroup.control p = none

abbrev pub write : {A : Type 0} → WriterGroup → A → PerGroup A → PerGroup A
write WriterGroup.depth_group a p = record p { of_depth = a }
write WriterGroup.trades_market a p = record p { of_trades = a }
write WriterGroup.metadata a p = record p { of_metadata = a }
write WriterGroup.control a p = p

pub record Queues : Type 0 where
  pub max_bytes : ℕ
  pub warn_bytes : ℕ
  pub resume_bytes : ℕ
  pub used_bytes : ℕ
  pub queues : PerGroup (List WriterItem)
  pub last_event : PerGroup (Option ℕ)
  pub used_bytes_by_group : PerGroup ℕ
  pub high_water_bytes : ℕ
  pub interval_high_water_bytes : ℕ
  pub warn_crossings : ℕ
  pub hard_rejections : ℕ
  pub above_warn : Bool

abbrev pub each : {A : Type 0} → A → PerGroup A
each a = record { of_depth = a; of_trades = a; of_metadata = a }

-- The constructor
abbrev pub init : ℕ → ℕ → ℕ → Queues
init maximum warn resume = record {
  max_bytes = maximum;
  warn_bytes = warn;
  resume_bytes = resume;
  used_bytes = 0;
  queues = each [];
  last_event = each none;
  used_bytes_by_group = each 0;
  high_water_bytes = 0;
  interval_high_water_bytes = 0;
  warn_crossings = 0;
  hard_rejections = 0;
  above_warn = false;
}

abbrev pub take_interval_high_water_bytes : Queues → ℕ × Queues
take_interval_high_water_bytes q =
    (q.interval_high_water_bytes, record q { interval_high_water_bytes = q.used_bytes })

-- The part of `put` behind the test of the hard limit, on the group's account and queue.
abbrev pub enter :
    RawEvent
    → WriterGroup
    → ℕ
    → ℕ
    → Queues
    → Option ℕ
    → Option (List WriterItem)
    → Result QueueFault (Unit {0}) × Queues
enter e g size now q (some used) (some items) =
    let crosses = not q.above_warn && leb q.warn_bytes (q.used_bytes + size) in
    (
      ok tt,
      record q {
        used_bytes = q.used_bytes + size;
        used_bytes_by_group = write g (used + size) q.used_bytes_by_group;
        high_water_bytes = max q.high_water_bytes (q.used_bytes + size);
        interval_high_water_bytes = max q.interval_high_water_bytes (q.used_bytes + size);
        above_warn = if crosses then true else q.above_warn;
        warn_crossings = if crosses then q.warn_crossings + 1 else q.warn_crossings;
        last_event = write g (some now) q.last_event;
        queues = write g (items ++ (queued e size ∷ [])) q.queues;
      },
    )
enter e g size now q _ _ = (err no_such_group, record q { used_bytes = q.used_bytes + size })

abbrev pub enter_group :
    RawEvent → WriterGroup → ℕ → ℕ → Queues → Result QueueFault (Unit {0}) × Queues
enter_group e g size now q = enter e g size now q (read g q.used_bytes_by_group) (read g q.queues)

abbrev pub is_overloaded : ℕ → Queues → Bool
is_overloaded size q = ltb q.max_bytes size || ltb q.max_bytes (q.used_bytes + size)

unfoldable pub put : RawEvent → ℕ → Queues → Result QueueFault (Unit {0}) × Queues
put e now q =
    let size = approximate_size_bytes e in
    let rejected = record q { hard_rejections = q.hard_rejections + 1 } in
    if is_overloaded size q
    then (err queue_overloaded, rejected)
    else enter_group e (writer_group e) size now q

abbrev pub first_of :
    WriterGroup → Queues → Option (List WriterItem) → Result QueueFault (WriterItem × Queues)
first_of g q none = err no_such_group
first_of g q (some []) = err queue_empty
first_of g q (some (item ∷ items)) = ok (item, record q { queues = write g items q.queues })

-- `get_nowait`; `get` waits until the queue has an item, and then does the same
unfoldable pub get_nowait : WriterGroup → Queues → Result QueueFault (WriterItem × Queues)
get_nowait g q = first_of g q (read g q.queues)

abbrev pub released_queues : WriterGroup → ℕ → ℕ → Bool → Queues → Queues
released_queues g n used above q = record q {
  used_bytes = q.used_bytes - n;
  used_bytes_by_group = write g (used - n) q.used_bytes_by_group;
  above_warn = above;
}

-- `release` on the account of the group. Where it raises, what the counters hold is left out.
abbrev pub release_from : WriterGroup → ℕ → Queues → Option ℕ → Result QueueFault Queues
release_from g n q none = err no_such_group
release_from g n q (some used) =
    let falls = q.above_warn && leb (q.used_bytes - n) q.resume_bytes in
    if ltb q.used_bytes n || ltb used n
    then err negative_accounting
    else ok (released_queues g n used (if falls then false else q.above_warn) q)

unfoldable pub release : WriterGroup → ℕ → Queues → Result QueueFault Queues
release g n q = release_from g n q (read g q.used_bytes_by_group)

abbrev pub is_resumable : Queues → Bool
is_resumable q = leb q.used_bytes q.resume_bytes

abbrev pub append_control :
    WriterGroup → WriterItem → Queues → Option (List WriterItem) → Result QueueFault Queues
append_control g item q none = err no_such_group
append_control g item q (some items) =
    ok (record q { queues = write g (items ++ (item ∷ [])) q.queues })

unfoldable pub put_control : WriterGroup → WriterItem → Queues → Result QueueFault Queues
put_control g item q = append_control g item q (read g q.queues)
