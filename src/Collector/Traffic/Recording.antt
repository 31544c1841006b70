-- ===== src/Collector/Traffic/Recording.antt =====
-- What the recorder of src/miry/collector/traffic.py keeps true.
use miry_data_collector.Base.{
  ℕ, suc, ◌+◌, ◌≤◌, ◌<◌, ◌≡◌, ◌⊎◌, max, refl, inl, inr, true, false, Bool-cases, Option, none, some,
  List, [], ◌∷◌, ltb, ◌==◌, All, filter, length, arith,
}
use miry_data_collector.Base.Text.{Text}
use miry_data_collector.Base.Dict.{Dict, insert, All-insert}
use miry_data_collector.Base.Keys.{insert-IsDict}
use miry_data_collector.Contracts.Symbols.{TextMethods, is_exchange_symbol}
use miry_data_collector.Collector.Traffic.{
  MessageRateBlock, PublicTrafficRecorder, rate_in, tally, counts_of, after_minute, reset_block,
  discard_older_minutes, is_gap, without_gap, start_or, raise_peaks, count_minute, or_zero,
}
use miry_data_collector.Collector.Traffic.State.{is_early, is_rate}
use miry_data_collector.Collector.Traffic.Parsing.{IsRates, IsState}

-- The end of the last block.
abbrev pub last_end : Option ℕ → List MessageRateBlock → Option ℕ
last_end previous_end [] = previous_end
last_end previous_end (b ∷ bs) = last_end (some b.end_minute) bs

-- The latest minute that the recorder knows of.
abbrev pub reached : PublicTrafficRecorder → ℕ
reached r = max r.started_minute (or_zero r.last_minute)

-- The minutes of the running block are those up to the last minute.
abbrev pub IsRunning : Option ℕ → ℕ → Option ℕ → Type 0
IsRunning none minutes last = minutes ≡ 0
IsRunning (some start) minutes none = ⊥
IsRunning (some start) minutes (some last) = (last + 1 ≡ start + minutes) × (0 < minutes)

module _ (M : TextMethods) where
  pub record IsRecording (limit : ℕ) (r : PublicTrafficRecorder) : Type 0 where
    pub blocks_state : IsState M none r.blocks
    pub bounded : length r.blocks ≤ 24
    pub counted : All (λ e. IsRates M e.1) r.minute_symbols
    pub peaks : IsRates M r.block_peaks
    pub short : r.block_minutes < limit
    pub running : IsRunning r.block_start r.block_minutes r.last_minute
    pub behind :
        is_early (last_end none r.blocks) (start_or (suc (reached r)) r.block_start) ≡ false

  insert-IsRates :
      (s : Text) (n : ℕ) (d : Dict ℕ)
      → is_rate M s n ≡ true
      → IsRates M d
      → IsRates M (insert s n d)
  insert-IsRates s n d v h = (
    insert-IsDict s n d h.0,
    All-insert (λ e. is_rate M e.0 e.1 ≡ true) s n d (λ j same. rw same v) h.1,
  )

  pub nothing-IsRates : IsRates M []
  nothing-IsRates = ((λ s. omega arith), tt)

  pub tally-IsRates :
      (minute : ℕ) (s : Text) (minutes : List (ℕ × Dict ℕ))
      → is_exchange_symbol M s ≡ true
      → All (λ e. IsRates M e.1) minutes
      → All (λ e. IsRates M e.1) (tally minute s minutes)
  tally-IsRates minute s [] v h = (insert-IsRates s 1 [] (ground (arith, v)) nothing-IsRates, tt)
  tally-IsRates minute s ((m, counts) ∷ minutes) v (p, rest) = elim (Bool-cases (m == minute)) [
    | inl same ↦
        rw (tally, same)
          (insert-IsRates s (rate_in s counts + 1) counts (ground (arith, v)) p, rest)
    | inr other ↦ rw (tally, other) (p, tally-IsRates minute s minutes v rest)
  ]

  pub counts_of-IsRates :
      (minute : ℕ) (minutes : List (ℕ × Dict ℕ))
      → All (λ e. IsRates M e.1) minutes
      → IsRates M (counts_of minute minutes)
  counts_of-IsRates minute [] h = nothing-IsRates
  counts_of-IsRates minute ((m, counts) ∷ minutes) (p, rest) = elim (Bool-cases (m == minute)) [
    | inl same ↦ rw (counts_of, same) p
    | inr other ↦ rw (counts_of, other) (counts_of-IsRates minute minutes rest)
  ]

  after_minute-IsRates :
      (minute : ℕ) (minutes : List (ℕ × Dict ℕ))
      → All (λ e. IsRates M e.1) minutes
      → All (λ e. IsRates M e.1) (after_minute minute minutes)
  after_minute-IsRates minute [] h = tt
  after_minute-IsRates minute (e ∷ minutes) (p, rest) = elim (Bool-cases (ltb minute e.0)) [
    | inl later ↦ rw (filter, later) (p, after_minute-IsRates minute minutes rest)
    | inr past ↦ rw (filter, past) (after_minute-IsRates minute minutes rest)
  ]

  raise_peaks-IsRates :
      (counts peaks : Dict ℕ)
      → IsRates M counts
      → IsRates M peaks
      → IsRates M (raise_peaks counts peaks)
  raise_peaks-IsRates [] peaks h k = k
  raise_peaks-IsRates ((s, n) ∷ counts) peaks (d, (p, rest)) k =
      raise_peaks-IsRates counts (insert s (max (rate_in s peaks) n) peaks)
        ((λ t. ground (arith, d t)), rest)
        (insert-IsRates s (max (rate_in s peaks) n) peaks (ground (arith, p)) k)

  pub discard-IsRecording :
      (minute n : ℕ) (r : PublicTrafficRecorder)
      → IsRecording n r
      → IsRecording n (discard_older_minutes minute r)
  discard-IsRecording minute n r h = record {
    blocks_state = h.blocks_state;
    bounded = h.bounded;
    counted = after_minute-IsRates minute r.minute_symbols h.counted;
    peaks = h.peaks;
    short = h.short;
    running = h.running;
    behind = h.behind;
  }

  -- A running block started no later than the last minute.
  running_le :
      (start : Option ℕ) (minutes started : ℕ) (last : Option ℕ)
      → IsRunning start minutes last
      → start_or (suc (max started (or_zero last))) start ≤ suc (max started (or_zero last))
  running_le none minutes started last h = omega arith
  running_le (some s) minutes started none h = absurd h
  running_le (some s) minutes started (some l) h = omega (arith, h.0, h.1)

  pub is_early_mono : (o : Option ℕ) (m n : ℕ) → m ≤ n → is_early o m ≡ false → is_early o n ≡ false
  is_early_mono none m n l h = refl
  is_early_mono (some e) m n l h = ground (arith, l, h)

  reset-IsRecording :
      (r : PublicTrafficRecorder) (n : ℕ) → IsRecording n r → IsRecording n (reset_block r)
  reset-IsRecording r n h = record {
    blocks_state = h.blocks_state;
    bounded = h.bounded;
    counted = h.counted;
    peaks = nothing-IsRates;
    short = omega (arith, h.short);
    running = refl;
    behind =
        is_early_mono (last_end none r.blocks) (start_or (suc (reached r)) r.block_start)
          (suc (reached r))
          (running_le r.block_start r.block_minutes r.started_minute r.last_minute h.running)
          h.behind;
  }

  -- The minute goes on with the running block, or none is running.
  abbrev pub FollowsOn : ℕ → PublicTrafficRecorder → Type 0
  FollowsOn minute r = (is_gap minute r.last_minute ≡ false) ⊎ (r.block_start ≡ none)

  pub without_gap-IsRecording :
      (minute n : ℕ) (r : PublicTrafficRecorder)
      → IsRecording n r
      → IsRecording n (without_gap minute r) × FollowsOn minute (without_gap minute r)
  without_gap-IsRecording minute n r h = elim (Bool-cases (is_gap minute r.last_minute)) [
    | inl gap ↦ rw (without_gap, gap) (reset-IsRecording r n h, inr refl)
    | inr on ↦ rw (without_gap, on) (h, inl on)
  ]

  count-IsRunning :
      (minute minutes : ℕ) (start last : Option ℕ)
      → IsRunning start minutes last
      → (is_gap minute last ≡ false) ⊎ (start ≡ none)
      → IsRunning (some (start_or minute start)) (minutes + 1) (some minute)
  count-IsRunning minute minutes none last h f = (omega (arith, h), omega arith)
  count-IsRunning minute minutes (some s) none h f = absurd h
  count-IsRunning minute minutes (some s) (some l) (h, k) (inl f) =
      (ground (arith, h, f), omega arith)
  count-IsRunning minute minutes (some s) (some l) (h, k) (inr f) = cc

  count_le :
      (minute started : ℕ) (start last : Option ℕ)
      → started < minute
      → ((l : ℕ) → last ≡ some l → l < minute)
      → start_or (suc (max started (or_zero last))) start ≤ start_or minute start
  count_le minute started none none l k = omega (arith, l)
  count_le minute started none (some last) l k = omega (arith, l, k last refl)
  count_le minute started (some s) last l k = omega arith

  pub count-IsRecording :
      (minute : ℕ) (counts : Dict ℕ) (r : PublicTrafficRecorder)
      → IsRecording 60 r
      → IsRates M counts
      → FollowsOn minute r
      → r.started_minute < minute
      → ((l : ℕ) → r.last_minute ≡ some l → l < minute)
      → IsRecording 61 (count_minute minute counts r)
  count-IsRecording minute counts r h rates follows started later = record {
    blocks_state = h.blocks_state;
    bounded = h.bounded;
    counted = h.counted;
    peaks = raise_peaks-IsRates counts r.block_peaks rates h.peaks;
    short = omega (arith, h.short);
    running = count-IsRunning minute r.block_minutes r.block_start r.last_minute h.running follows;
    behind =
        is_early_mono (last_end none r.blocks) (start_or (suc (reached r)) r.block_start)
          (start_or minute r.block_start)
          (count_le minute r.started_minute r.block_start r.last_minute started later) h.behind;
  }
