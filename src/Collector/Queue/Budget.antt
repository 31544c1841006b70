-- ===== src/Collector/Queue/Budget.antt =====
-- The byte budget of the queues over any use of them, src/miry/collector/queue.py.
use miry_data_collector.Base.{
  ℕ, ◌+◌, ◌≤◌, ◌<◌, ◌≡◌, refl, ◌∙◌, ap, ◌↔◌, true, false, some, if◌then◌else◌, arith, Bool-cases,
  inl, inr,
}
use miry_data_collector.Base.Result.{ok}
use miry_data_collector.Contracts.Raw.{WriterGroup, RawEvent, approximate_size_bytes, writer_group}
use miry_data_collector.Collector.Queue.{
  rotate, stop, PerGroup, Queues, put, is_overloaded, release, release_from, released_queues,
}
use miry_data_collector.Collector.Queue.Accounting.{
  held, is_data_group, Reaches, Balances, IsWithin, held-le,
}
use miry_data_collector.Collector.Queue.Keeping.{
  group_of-data, has_account, entered, put-kept, control-kept, get-kept, release-kept, falls,
}

module _ (maximum warn resume : ℕ) (apart : resume < warn) where
  -- However the collector uses the queues, by puts, gets, releases, control items and reports of the
  -- interval's high-water mark, where the threshold to resume is below the warning's and its writers
  -- release only what they took out: each group's account is what is queued and what is held, the total never exceeds the budget, and
  -- where the warning is off it is below the threshold.
  pub Reaches-IsWithin :
      (q : Queues) (h : PerGroup ℕ)
      → Reaches maximum warn resume q h
      → Balances q h × IsWithin maximum warn resume q
  Reaches-IsWithin _ _ Reaches.starts = (
    record { depth = refl; trades = refl; metadata = refl; total = refl },
    record {
      bounded = omega arith;
      marked = omega arith;
      high = omega arith;
      within = omega arith;
      budget = refl;
      warns_at = refl;
      resumes_at = refl;
      quiet = λ _. omega arith;
    },
  )
  Reaches-IsWithin _ _ (Reaches.puts {q} {h} e now r) =
      put-kept maximum warn resume e now q h (Reaches-IsWithin q h r)
  Reaches-IsWithin _ _ (Reaches.gets {q} {q'} {h} g i r e) =
      get-kept maximum warn resume g i q q' h (Reaches-IsWithin q h r) e
  Reaches-IsWithin _ _ (Reaches.releases {q} {q'} {h} g n r l e) =
      release-kept maximum warn resume apart g n q q' h (Reaches-IsWithin q h r) l e
  Reaches-IsWithin _ _ (Reaches.rotates {q} {q'} {h} g r e) =
      control-kept maximum warn resume g rotate q q' h refl (Reaches-IsWithin q h r) e
  Reaches-IsWithin _ _ (Reaches.stops {q} {q'} {h} g r e) =
      control-kept maximum warn resume g stop q q' h refl (Reaches-IsWithin q h r) e
  Reaches-IsWithin _ _ (Reaches.takes {q} {h} r) =
      let (b, w) = Reaches-IsWithin q h r in
      (
        record { depth = b.depth; trades = b.trades; metadata = b.metadata; total = b.total },
        record {
          bounded = w.bounded;
          marked = omega arith;
          high = omega (arith, w.marked, w.high);
          within = w.within;
          budget = w.budget;
          warns_at = w.warns_at;
          resumes_at = w.resumes_at;
          quiet = w.quiet;
        },
      )

  -- Where the threshold to resume is below the warning's, a writer that releases no more than it
  -- holds never sees the accounts become negative.
  pub release-Reaches :
      (q : Queues) (h : PerGroup ℕ) (g : WriterGroup) (n : ℕ)
      → Reaches maximum warn resume q h
      → is_data_group g ≡ true
      → n ≤ held g h
      → (q' : Queues) × (release g n q ≡ ok q')
  unfolding release
  release-Reaches q h g n r d l =
      let (used, _, p, _) = has_account g q d in
      let (b, _) = Reaches-IsWithin q h r in
      (
        released_queues g n used (if falls maximum warn resume n q then false else q.above_warn) q,
        ap (release_from g n q) p ∙ enough used (held-le g used q h b p),
      )
    where
      enough :
          (used : ℕ)
          → (held g h ≤ used) × (used ≤ q.used_bytes)
          → release_from g n q (some used)
            ≡ ok (
                released_queues g n used
                  (if falls maximum warn resume n q then false else q.above_warn)
                  q)
      enough used s = ground (arith, s.0, s.1)

-- An event is taken exactly if the budget has room for its bytes.
pub put-ok_iff :
    (e : RawEvent) (now : ℕ) (q : Queues)
    → ((put e now q).0 ≡ ok tt) ↔ (q.used_bytes + approximate_size_bytes e ≤ q.max_bytes)
unfolding put
put-ok_iff e now q = (
  λ h. elim (Bool-cases (is_overloaded (approximate_size_bytes e) q)) [
    | inl over ↦ absurd (refused over h)
    | inr fits ↦ ground arith
  ],
  λ l. rw (room l) (
      entered e (writer_group e) (approximate_size_bytes e) now q (λ r. r.0 ≡ ok tt)
        (group_of-data e.stream_type) (λ used items. refl)),
)
  where
    refused : is_overloaded (approximate_size_bytes e) q ≡ true → (put e now q).0 ≡ ok tt → ⊥
    refused over h = ground arith

    room :
        q.used_bytes + approximate_size_bytes e ≤ q.max_bytes
        → is_overloaded (approximate_size_bytes e) q ≡ false
    room l = ground arith
