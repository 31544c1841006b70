-- ===== src/Collector/Traffic/Blocks.antt =====
-- A block that is complete joins the others, src/miry/collector/traffic.py.
use miry_data_collector.Base.{
  ℕ, zero, suc, ◌+◌, ◌-◌, ◌≤◌, ◌<◌, ◌≡◌, refl, sym, subst, ◌∙◌, inl, inr, true, false, Bool-cases,
  Option, none, some, List, [], ◌∷◌, ◌++◌, ltb, leb, length, length-append, length-drop, drop,
  arith,
}
use miry_data_collector.Base.Sorting.{All-sort_by}
use miry_data_collector.Base.Keys.{entry_leb, sort_by-IsDict}
use miry_data_collector.Contracts.Symbols.{TextMethods}
use miry_data_collector.Collector.Traffic.{
  MessageRateBlock, PublicTrafficRecorder, counts_of, discard_older_minutes, is_gap, without_gap,
  start_or, count_minute, finished_block, add_block, complete, finish_minute,
}
use miry_data_collector.Collector.Traffic.State.{is_early, is_rate}
use miry_data_collector.Collector.Traffic.Parsing.{IsBlock, IsState}
use miry_data_collector.Collector.Traffic.Recording.{
  last_end, reached, IsRunning, IsRecording, nothing-IsRates, counts_of-IsRates,
  discard-IsRecording, without_gap-IsRecording, count-IsRecording,
}

module _ (M : TextMethods) where
  append-IsState :
      (previous_end : Option ℕ) (bs : List MessageRateBlock) (b : MessageRateBlock)
      → IsState M previous_end bs
      → IsBlock M (last_end previous_end bs) b
      → IsState M previous_end (bs ++ (b ∷ []))
  append-IsState previous_end [] b h k = (k, tt)
  append-IsState previous_end (c ∷ bs) b (p, rest) k =
      (p, append-IsState (some c.end_minute) bs b rest k)

  -- The first block may stand at the start, too.
  freed-IsState :
      (previous_end : Option ℕ) (bs : List MessageRateBlock)
      → IsState M previous_end bs
      → IsState M none bs
  freed-IsState previous_end [] h = tt
  freed-IsState previous_end (b ∷ bs) (p, rest) =
      (record { sixty_minutes = p.sixty_minutes; in_order = refl; positive = p.positive }, rest)

  pub drop-IsState :
      (n : ℕ) (bs : List MessageRateBlock) → IsState M none bs → IsState M none (drop n bs)
  drop-IsState zero bs h = h
  drop-IsState (suc n) [] h = tt
  drop-IsState (suc n) (b ∷ bs) (p, rest) =
      drop-IsState n bs (freed-IsState (some b.end_minute) bs rest)

  last_end-drop :
      (n : ℕ) (previous_end : Option ℕ) (bs : List MessageRateBlock) (b : MessageRateBlock)
      → n ≤ length bs
      → last_end previous_end (drop n (bs ++ (b ∷ []))) ≡ some b.end_minute
  last_end-drop zero previous_end [] b h = refl
  last_end-drop zero previous_end (c ∷ bs) b h =
      last_end-drop zero (some c.end_minute) bs b (omega arith)
  last_end-drop (suc n) previous_end [] b h = absurd (omega (arith, h))
  last_end-drop (suc n) previous_end (c ∷ bs) b h =
      last_end-drop n previous_end bs b (omega (arith, h))

  add_block-IsRecording :
      (minute : ℕ) (r : PublicTrafficRecorder)
      → IsRecording M 61 r
      → r.last_minute ≡ some minute
      → 60 ≤ r.block_minutes
      → (start : ℕ) → r.block_start ≡ some start
      → IsRecording M 60 (add_block minute r)
  add_block-IsRecording minute r h last full start begun = record {
    blocks_state =
        drop-IsState (length (r.blocks ++ (block ∷ [])) - 24) (r.blocks ++ (block ∷ []))
          (append-IsState none r.blocks block h.blocks_state block_IsBlock);
    bounded =
        omega
          (arith, length-drop (length (r.blocks ++ (block ∷ [])) - 24) (r.blocks ++ (block ∷ [])));
    counted = h.counted;
    peaks = nothing-IsRates M;
    short = omega arith;
    running = refl;
    behind =
        rw
          (
            last_end-drop (length (r.blocks ++ (block ∷ [])) - 24) none r.blocks block
                (omega (arith, length-append r.blocks (block ∷ []), h.bounded)),
            last,
          )
          (ground arith);
  }
    where
      block : MessageRateBlock
      block = finished_block minute r

      ran : (minute + 1 ≡ start + r.block_minutes)
      ran =
          (subst (λ o. IsRunning (some start) r.block_minutes o) last
            (subst (λ o. IsRunning o r.block_minutes r.last_minute) begun h.running)).0

      block_IsBlock : IsBlock M (last_end none r.blocks) block
      block_IsBlock = record {
        sixty_minutes = rw begun (omega (arith, ran, full, h.short));
        in_order = rw begun (
            subst (λ o. is_early (last_end none r.blocks) (start_or (suc (reached r)) o) ≡ false)
              begun h.behind);
        positive = (
          sort_by-IsDict r.block_peaks h.peaks.0,
          All-sort_by entry_leb (λ e. is_rate M e.0 e.1 ≡ true) r.block_peaks h.peaks.1,
        );
      }

  complete-IsRecording :
      (minute : ℕ) (r : PublicTrafficRecorder)
      → IsRecording M 61 r
      → r.last_minute ≡ some minute
      → (start : ℕ) → r.block_start ≡ some start
      → IsRecording M 60 (complete minute r).1
  complete-IsRecording minute r h last start begun = elim (Bool-cases (ltb r.block_minutes 60)) [
    | inl running ↦
        rw (complete, running)
          (record {
            blocks_state = h.blocks_state;
            bounded = h.bounded;
            counted = h.counted;
            peaks = h.peaks;
            short = ground (arith, running);
            running = h.running;
            behind = h.behind;
          })
    | inr full ↦
        rw (complete, full)
          (add_block-IsRecording minute r h last (ground (arith, full)) start begun)
  ]

  -- A finished minute, later than the last one.
  pub finish_minute-IsRecording :
      (minute : ℕ) (r : PublicTrafficRecorder)
      → IsRecording M 60 r
      → ((l : ℕ) → r.last_minute ≡ some l → l < minute)
      → IsRecording M 60 (finish_minute minute r).1
  unfolding finish_minute
  finish_minute-IsRecording minute r h later = elim (Bool-cases (leb minute r.started_minute)) [
    | inl early ↦ rw (finish_minute, early) (discard-IsRecording M minute 60 r h)
    | inr started ↦
        let kept = discard_older_minutes minute r in
        let (fits, follows) =
          without_gap-IsRecording M minute 60 kept (discard-IsRecording M minute 60 r h) in
        let fields = without_gap_fields minute kept in
        rw (finish_minute, started)
          (complete-IsRecording minute
            (count_minute minute (counts_of minute r.minute_symbols) (without_gap minute kept))
            (count-IsRecording M minute (counts_of minute r.minute_symbols)
              (without_gap minute kept) fits (counts_of-IsRates M minute r.minute_symbols h.counted)
              follows (rw fields.0 (ground (arith, started))) (λ l e. later l (sym fields.1 ∙ e)))
            refl (start_or minute (without_gap minute kept).block_start) refl)
  ]
    where
      without_gap_fields :
          (m : ℕ) (q : PublicTrafficRecorder)
          → ((without_gap m q).started_minute ≡ q.started_minute)
            × ((without_gap m q).last_minute ≡ q.last_minute)
      without_gap_fields m q = elim (Bool-cases (is_gap m q.last_minute)) [
        | inl gap ↦ rw (without_gap, gap) (refl, refl)
        | inr on ↦ rw (without_gap, on) (refl, refl)
      ]
