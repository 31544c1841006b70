-- ===== src/Collector/Queue/Accounting.antt =====
-- The byte accounts of the queues, src/miry/collector/queue.py. A writer, src/miry/collector/writer.py,
-- holds the bytes of the events that it took out of a queue until it releases them.
use miry_data_collector.Base.{
  ℕ, ◌+◌, ◌-◌, ◌≤◌, ◌<◌, ◌≡◌, ◌∙◌, ap, Bool, true, false, Option, none, some, List, [], ◌∷◌, ◌++◌,
  arith,
}
use miry_data_collector.Base.Result.{ok, ok-injective}
use miry_data_collector.Contracts.Raw.{WriterGroup, RawEvent}
use miry_data_collector.Collector.Queue.{
  WriterItem, queued, rotate, stop, PerGroup, read, write, Queues, each, init, put, enter_group,
  first_of, released_queues, get_nowait, release, put_control, take_interval_high_water_bytes,
}

abbrev pub bytes_of : WriterItem → ℕ
bytes_of (queued e size) = size
bytes_of _ = 0

abbrev pub queued_bytes : List WriterItem → ℕ
queued_bytes [] = 0
queued_bytes (i ∷ is) = bytes_of i + queued_bytes is

abbrev queued_or : Option (List WriterItem) → ℕ
queued_or none = 0
queued_or (some is) = queued_bytes is

some-injective : {a b : ℕ} → ◌≡◌ {A = Option ℕ} (some a) (some b) → a ≡ b
some-injective e = cc

pub queued_bytes-append :
    (is : List WriterItem) (i : WriterItem)
    → queued_bytes (is ++ (i ∷ [])) ≡ queued_bytes is + bytes_of i
queued_bytes-append [] i = omega arith
queued_bytes-append (x ∷ is) i = omega (arith, queued_bytes-append is i)

-- What a group's writer holds; no writer has the control group.
abbrev pub held : WriterGroup → PerGroup ℕ → ℕ
held WriterGroup.depth_group h = h.of_depth
held WriterGroup.trades_market h = h.of_trades
held WriterGroup.metadata h = h.of_metadata
held WriterGroup.control h = 0

abbrev pub is_data_group : WriterGroup → Bool
is_data_group WriterGroup.control = false
is_data_group _ = true

-- The queues that the collector reaches, with the bytes that the writers hold.
pub data Reaches (maximum warn resume : ℕ) : Queues → PerGroup ℕ → Type 0 where
  starts : Reaches maximum warn resume (init maximum warn resume) (each 0)
  puts :
      {q : Queues} {h : PerGroup ℕ} (e : RawEvent) (now : ℕ)
      → Reaches maximum warn resume q h
      → Reaches maximum warn resume (put e now q).1 h
  gets :
      {q q' : Queues} {h : PerGroup ℕ} (g : WriterGroup) (i : WriterItem)
      → Reaches maximum warn resume q h
      → get_nowait g q ≡ ok (i, q')
      → Reaches maximum warn resume q' (write g (held g h + bytes_of i) h)
  releases :
      {q q' : Queues} {h : PerGroup ℕ} (g : WriterGroup) (n : ℕ)
      → Reaches maximum warn resume q h
      → n ≤ held g h
      → release g n q ≡ ok q'
      → Reaches maximum warn resume q' (write g (held g h - n) h)
  rotates :
      {q q' : Queues} {h : PerGroup ℕ} (g : WriterGroup)
      → Reaches maximum warn resume q h
      → put_control g rotate q ≡ ok q'
      → Reaches maximum warn resume q' h
  stops :
      {q q' : Queues} {h : PerGroup ℕ} (g : WriterGroup)
      → Reaches maximum warn resume q h
      → put_control g stop q ≡ ok q'
      → Reaches maximum warn resume q' h
  takes :
      {q : Queues} {h : PerGroup ℕ}
      → Reaches maximum warn resume q h
      → Reaches maximum warn resume (take_interval_high_water_bytes q).1 h

-- Each group's account is what is queued and what its writer holds, and the total is their sum.
pub record Balances (q : Queues) (h : PerGroup ℕ) : Type 0 where
  pub depth : q.used_bytes_by_group.of_depth ≡ queued_bytes q.queues.of_depth + h.of_depth
  pub trades : q.used_bytes_by_group.of_trades ≡ queued_bytes q.queues.of_trades + h.of_trades
  pub metadata :
      q.used_bytes_by_group.of_metadata ≡ queued_bytes q.queues.of_metadata + h.of_metadata
  pub total :
      q.used_bytes
      ≡ q.used_bytes_by_group.of_depth
        + (q.used_bytes_by_group.of_trades + q.used_bytes_by_group.of_metadata)

-- The total is within the budget, the high-water marks bound it, and where the warning is off it is
-- below the warning's threshold.
pub record IsWithin (maximum warn resume : ℕ) (q : Queues) : Type 0 where
  pub bounded : q.used_bytes ≤ maximum
  pub marked : q.used_bytes ≤ q.interval_high_water_bytes
  pub high : q.interval_high_water_bytes ≤ q.high_water_bytes
  pub within : q.high_water_bytes ≤ maximum
  pub budget : q.max_bytes ≡ maximum
  pub warns_at : q.warn_bytes ≡ warn
  pub resumes_at : q.resume_bytes ≡ resume
  pub quiet : q.above_warn ≡ false → q.used_bytes < warn

pub enter-Balances :
    (e : RawEvent) (g : WriterGroup) (size now : ℕ) (q : Queues) (h : PerGroup ℕ)
    → Balances q h
    → is_data_group g ≡ true
    → Balances (enter_group e g size now q).1 h
enter-Balances e WriterGroup.depth_group size now q h a d = record {
  depth = ground (arith, a.depth, queued_bytes-append q.queues.of_depth (queued e size));
  trades = a.trades;
  metadata = a.metadata;
  total = ground (arith, a.total);
}
enter-Balances e WriterGroup.trades_market size now q h a d = record {
  depth = a.depth;
  trades = ground (arith, a.trades, queued_bytes-append q.queues.of_trades (queued e size));
  metadata = a.metadata;
  total = ground (arith, a.total);
}
enter-Balances e WriterGroup.metadata size now q h a d = record {
  depth = a.depth;
  trades = a.trades;
  metadata = ground (arith, a.metadata, queued_bytes-append q.queues.of_metadata (queued e size));
  total = ground (arith, a.total);
}
enter-Balances e WriterGroup.control size now q h a d = cc

pub first_of-eq-ok :
    (g : WriterGroup) (i : WriterItem) (q q' : Queues) (o : Option (List WriterItem))
    → first_of g q o ≡ ok (i, q')
    → (is : List WriterItem) × (o ≡ some (i ∷ is))
      × (record q { queues = write g is q.queues } ≡ q')
first_of-eq-ok g i q q' none e = cc
first_of-eq-ok g i q q' (some []) e = cc
first_of-eq-ok g i q q' (some (j ∷ is)) e =
    let same = ok-injective e in (is, ap (λ x. some (x.0 ∷ is)) same, ap (λ x. x.1) same)

pub taken-Balances :
    (g : WriterGroup) (i : WriterItem) (is : List WriterItem) (q : Queues) (h : PerGroup ℕ)
    → Balances q h
    → read g q.queues ≡ some (i ∷ is)
    → Balances (record q { queues = write g is q.queues }) (write g (held g h + bytes_of i) h)
taken-Balances WriterGroup.depth_group i is q h a e = record {
  depth = a.depth ∙ ap (λ o. queued_or o + h.of_depth) e ∙ omega arith;
  trades = a.trades;
  metadata = a.metadata;
  total = a.total;
}
taken-Balances WriterGroup.trades_market i is q h a e = record {
  depth = a.depth;
  trades = a.trades ∙ ap (λ o. queued_or o + h.of_trades) e ∙ omega arith;
  metadata = a.metadata;
  total = a.total;
}
taken-Balances WriterGroup.metadata i is q h a e = record {
  depth = a.depth;
  trades = a.trades;
  metadata = a.metadata ∙ ap (λ o. queued_or o + h.of_metadata) e ∙ omega arith;
  total = a.total;
}
taken-Balances WriterGroup.control i is q h a e = cc

pub appended-Balances :
    (g : WriterGroup) (i : WriterItem) (is : List WriterItem) (q : Queues) (h : PerGroup ℕ)
    → Balances q h
    → bytes_of i ≡ 0
    → read g q.queues ≡ some is
    → Balances (record q { queues = write g (is ++ (i ∷ [])) q.queues }) h
appended-Balances WriterGroup.depth_group i is q h a z e = record {
  depth =
      a.depth ∙ ap (λ o. queued_or o + h.of_depth) e ∙ omega (arith, queued_bytes-append is i, z);
  trades = a.trades;
  metadata = a.metadata;
  total = a.total;
}
appended-Balances WriterGroup.trades_market i is q h a z e = record {
  depth = a.depth;
  trades =
      a.trades ∙ ap (λ o. queued_or o + h.of_trades) e ∙ omega (arith, queued_bytes-append is i, z);
  metadata = a.metadata;
  total = a.total;
}
appended-Balances WriterGroup.metadata i is q h a z e = record {
  depth = a.depth;
  trades = a.trades;
  metadata =
      a.metadata
      ∙ ap (λ o. queued_or o + h.of_metadata) e
      ∙ omega (arith, queued_bytes-append is i, z);
  total = a.total;
}
appended-Balances WriterGroup.control i is q h a z e = cc

pub released-Balances :
    (g : WriterGroup) (n used : ℕ) (above : Bool) (q : Queues) (h : PerGroup ℕ)
    → Balances q h
    → read g q.used_bytes_by_group ≡ some used
    → n ≤ held g h
    → Balances (released_queues g n used above q) (write g (held g h - n) h)
released-Balances WriterGroup.depth_group n used above q h a e l =
    let same = some-injective e in
    record {
      depth = omega (arith, a.depth, same);
      trades = a.trades;
      metadata = a.metadata;
      total = omega (arith, a.total, a.depth, same);
    }
released-Balances WriterGroup.trades_market n used above q h a e l =
    let same = some-injective e in
    record {
      depth = a.depth;
      trades = omega (arith, a.trades, same);
      metadata = a.metadata;
      total = omega (arith, a.total, a.trades, same);
    }
released-Balances WriterGroup.metadata n used above q h a e l =
    let same = some-injective e in
    record {
      depth = a.depth;
      trades = a.trades;
      metadata = omega (arith, a.metadata, same);
      total = omega (arith, a.total, a.metadata, same);
    }
released-Balances WriterGroup.control n used above q h a e l = cc

-- What a group's writer holds is on the group's account, and the account is part of the total.
pub held-le :
    (g : WriterGroup) (used : ℕ) (q : Queues) (h : PerGroup ℕ)
    → Balances q h
    → read g q.used_bytes_by_group ≡ some used
    → (held g h ≤ used) × (used ≤ q.used_bytes)
held-le WriterGroup.depth_group used q h a e =
    let same = some-injective e in (omega (arith, a.depth, same), omega (arith, a.total, same))
held-le WriterGroup.trades_market used q h a e =
    let same = some-injective e in (omega (arith, a.trades, same), omega (arith, a.total, same))
held-le WriterGroup.metadata used q h a e =
    let same = some-injective e in (omega (arith, a.metadata, same), omega (arith, a.total, same))
held-le WriterGroup.control used q h a e = cc
