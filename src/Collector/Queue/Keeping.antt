-- ===== src/Collector/Queue/Keeping.antt =====
-- What one operation keeps, src/miry/collector/queue.py.
use miry_data_collector.Base.{
  ℕ, ◌+◌, ◌-◌, ◌≤◌, ◌<◌, ◌≡◌, refl, subst, sym, Bool, true, false, ◌&&◌, ◌||◌, Option, none, some,
  List, [], ◌∷◌, ◌++◌, if◌then◌else◌, ltb, leb, arith, Bool-cases, inl, inr,
}
use miry_data_collector.Base.Result.{Result, ok, ok-injective}
use miry_data_collector.Contracts.Raw.{
  WriterGroup, RawEvent, approximate_size_bytes, writer_group, group_of,
}
use miry_data_collector.Contracts.Gap.{StreamType}
use miry_data_collector.Collector.Queue.{
  WriterItem, PerGroup, read, write, Queues, QueueFault, put, enter, enter_group, is_overloaded,
  get_nowait, release, release_from, released_queues, put_control, append_control,
}
use miry_data_collector.Collector.Queue.Accounting.{
  bytes_of, held, is_data_group, Balances, IsWithin, enter-Balances, first_of-eq-ok, taken-Balances,
  appended-Balances, released-Balances,
}

pub group_of-data : (t : StreamType) → is_data_group (group_of t) ≡ true
group_of-data t = ground arith

-- A data group has an account and a queue.
pub has_account :
    (g : WriterGroup) (q : Queues)
    → is_data_group g ≡ true
    → (used : ℕ) × (items : List WriterItem) × (read g q.used_bytes_by_group ≡ some used)
      × (read g q.queues ≡ some items)
has_account WriterGroup.depth_group q d = (_, _, refl, refl)
has_account WriterGroup.trades_market q d = (_, _, refl, refl)
has_account WriterGroup.metadata q d = (_, _, refl, refl)
has_account WriterGroup.control q d = cc

pub entered :
    (e : RawEvent) (g : WriterGroup) (size now : ℕ) (q : Queues)
    (P : Result QueueFault (Unit {0}) × Queues → Type 0)
    → is_data_group g ≡ true
    → ((used : ℕ) (items : List WriterItem) → P (enter e g size now q (some used) (some items)))
    → P (enter_group e g size now q)
entered e g size now q P d f =
    let (used, items, p, r) = has_account g q d in
    subst (λ o. P (enter e g size now q o (read g q.queues))) (sym p)
      (subst (λ o. P (enter e g size now q (some used) o)) (sym r) (f used items))

module _ (maximum warn resume : ℕ) where
  enter-IsWithin :
      (e : RawEvent) (g : WriterGroup) (size now : ℕ) (q : Queues)
      → IsWithin maximum warn resume q
      → is_overloaded size q ≡ false
      → (used : ℕ) (items : List WriterItem)
      → IsWithin maximum warn resume (enter e g size now q (some used) (some items)).1
  enter-IsWithin e g size now q a f used items = record {
    bounded = ground (arith, a.budget);
    marked = ground (arith, a.marked);
    high = ground (arith, a.high);
    within = ground (arith, a.within, a.budget);
    budget = a.budget;
    warns_at = a.warns_at;
    resumes_at = a.resumes_at;
    quiet = λ x. ground (arith, a.quiet, a.warns_at);
  }

  pub put-kept :
      (e : RawEvent) (now : ℕ) (q : Queues) (h : PerGroup ℕ)
      → Balances q h × IsWithin maximum warn resume q
      → Balances (put e now q).1 h × IsWithin maximum warn resume (put e now q).1
  unfolding put
  put-kept e now q h (b, w) = elim (Bool-cases (is_overloaded (approximate_size_bytes e) q)) [
    | inl over ↦ rw over (
      record { depth = b.depth; trades = b.trades; metadata = b.metadata; total = b.total },
      record {
        bounded = w.bounded;
        marked = w.marked;
        high = w.high;
        within = w.within;
        budget = w.budget;
        warns_at = w.warns_at;
        resumes_at = w.resumes_at;
        quiet = w.quiet;
      },
    )
    | inr fits ↦ rw fits (
      enter-Balances e (writer_group e) (approximate_size_bytes e) now q h b
          (group_of-data e.stream_type),
      entered e (writer_group e) (approximate_size_bytes e) now q
          (λ r. IsWithin maximum warn resume r.1) (group_of-data e.stream_type)
          (enter-IsWithin e (writer_group e) (approximate_size_bytes e) now q w fits),
    )
  ]

  queues-IsWithin :
      (q : Queues) (items : PerGroup (List WriterItem))
      → IsWithin maximum warn resume q
      → IsWithin maximum warn resume (record q { queues = items })
  queues-IsWithin q items w = record {
    bounded = w.bounded;
    marked = w.marked;
    high = w.high;
    within = w.within;
    budget = w.budget;
    warns_at = w.warns_at;
    resumes_at = w.resumes_at;
    quiet = w.quiet;
  }

  append_control-eq-ok :
      (g : WriterGroup) (i : WriterItem) (q q' : Queues) (o : Option (List WriterItem))
      → append_control g i q o ≡ ok q'
      → (is : List WriterItem) × (o ≡ some is)
        × (record q { queues = write g (is ++ (i ∷ [])) q.queues } ≡ q')
  append_control-eq-ok g i q q' none e = cc
  append_control-eq-ok g i q q' (some is) e = (is, refl, ok-injective e)

  pub control-kept :
      (g : WriterGroup) (i : WriterItem) (q q' : Queues) (h : PerGroup ℕ)
      → bytes_of i ≡ 0
      → Balances q h × IsWithin maximum warn resume q
      → put_control g i q ≡ ok q'
      → Balances q' h × IsWithin maximum warn resume q'
  unfolding put_control
  control-kept g i q q' h z (b, w) e =
      let (is, p, same) = append_control-eq-ok g i q q' _ e in
      subst (λ x. Balances x h × IsWithin maximum warn resume x) same
        (appended-Balances g i is q h b z p, queues-IsWithin q _ w)

  pub get-kept :
      (g : WriterGroup) (i : WriterItem) (q q' : Queues) (h : PerGroup ℕ)
      → Balances q h × IsWithin maximum warn resume q
      → get_nowait g q ≡ ok (i, q')
      → Balances q' (write g (held g h + bytes_of i) h) × IsWithin maximum warn resume q'
  unfolding get_nowait
  get-kept g i q q' h (b, w) e =
      let (is, p, same) = first_of-eq-ok g i q q' _ e in
      subst (λ x. Balances x (write g (held g h + bytes_of i) h) × IsWithin maximum warn resume x)
        same (taken-Balances g i is q h b p, queues-IsWithin q _ w)

  abbrev pub falls : ℕ → Queues → Bool
  falls n q = q.above_warn && leb (q.used_bytes - n) q.resume_bytes

  release_from-eq-ok :
      (g : WriterGroup) (n : ℕ) (q q' : Queues) (o : Option ℕ)
      → release_from g n q o ≡ ok q'
      → (used : ℕ) × (o ≡ some used)
        × (released_queues g n used (if falls n q then false else q.above_warn) q ≡ q')
  release_from-eq-ok g n q q' none e = cc
  release_from-eq-ok g n q q' (some used) e = elim (Bool-cases (ltb q.used_bytes n || ltb used n)) [
    | inl bad ↦ absurd (raised bad)
    | inr good ↦ (used, refl, returned good)
  ]
    where
      raised : (ltb q.used_bytes n || ltb used n) ≡ true → ⊥
      raised bad = ground arith

      returned :
          (ltb q.used_bytes n || ltb used n) ≡ false
          → released_queues g n used (if falls n q then false else q.above_warn) q ≡ q'
      returned good = ground arith

  module _ (apart : resume < warn) where
    pub release-kept :
        (g : WriterGroup) (n : ℕ) (q q' : Queues) (h : PerGroup ℕ)
        → Balances q h × IsWithin maximum warn resume q
        → n ≤ held g h
        → release g n q ≡ ok q'
        → Balances q' (write g (held g h - n) h) × IsWithin maximum warn resume q'
    unfolding release
    release-kept g n q q' h (b, w) l e =
        let (used, p, same) = release_from-eq-ok g n q q' _ e in
        subst (λ x. Balances x (write g (held g h - n) h) × IsWithin maximum warn resume x) same
          (
            released-Balances g n used _ q h b p l,
            record {
              bounded = omega (arith, w.bounded);
              marked = omega (arith, w.marked);
              high = w.high;
              within = w.within;
              budget = w.budget;
              warns_at = w.warns_at;
              resumes_at = w.resumes_at;
              quiet = λ x. ground (arith, w.quiet, w.resumes_at);
            },
          )
