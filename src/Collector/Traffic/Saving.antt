-- ===== src/Collector/Traffic/Saving.antt =====
-- The state file of the recorder loads again, src/miry/collector/traffic.py.
use miry_data_collector.Base.{
  ℕ, suc, ◌-◌, ◌≤◌, ◌<◌, ◌≡◌, max, refl, ap, ◌∙◌, true, false, Option, none, some, List, length,
  length-drop, drop, arith,
}
use miry_data_collector.Base.Text.{Text}
use miry_data_collector.Base.Dict.{Dict}
use miry_data_collector.Base.Result.{Result, ok, err}
use miry_data_collector.Base.Json.{Value}
use miry_data_collector.Contracts.Symbols.{TextMethods, is_exchange_symbol}
use miry_data_collector.Collector.Traffic.{
  MessageRateBlock, PublicTrafficRecorder, init, note, finish_minute,
}
use miry_data_collector.Collector.Traffic.State.{
  is_early, payload_of, parse_blocks, load, or_nothing, StateFault,
}
use miry_data_collector.Collector.Traffic.Parsing.{
  IsState, parse_blocks-of_payload, parse_blocks-IsState,
}
use miry_data_collector.Collector.Traffic.Recording.{
  last_end, IsRecording, nothing-IsRates, tally-IsRates,
}
use miry_data_collector.Collector.Traffic.Blocks.{drop-IsState, finish_minute-IsRecording}

module _ (M : TextMethods) where
  -- Calls of the recorder: every symbol is an exchange symbol, and the finished minutes increase.
  pub data Runs (r : PublicTrafficRecorder) : PublicTrafficRecorder → Type 0 where
    created : Runs r r
    recorded :
        {q : PublicTrafficRecorder}
        → Runs r q
        → (minute : ℕ) (route symbol : Text) → is_exchange_symbol M symbol ≡ true
        → Runs r (note route symbol minute q)
    finished :
        {q : PublicTrafficRecorder}
        → Runs r q
        → (minute : ℕ) → ((l : ℕ) → q.last_minute ≡ some l → l < minute)
        → Runs r (finish_minute minute q).1

  note-IsRecording :
      (route symbol : Text) (minute : ℕ) (r : PublicTrafficRecorder)
      → is_exchange_symbol M symbol ≡ true
      → IsRecording M 60 r
      → IsRecording M 60 (note route symbol minute r)
  note-IsRecording route symbol minute r v h = record {
    blocks_state = h.blocks_state;
    bounded = h.bounded;
    counted = tally-IsRates M minute symbol r.minute_symbols v h.counted;
    peaks = h.peaks;
    short = h.short;
    running = h.running;
    behind = h.behind;
  }

  Runs-IsRecording :
      (r q : PublicTrafficRecorder) → Runs r q → IsRecording M 60 r → IsRecording M 60 q
  Runs-IsRecording r q created h = h
  Runs-IsRecording r q (recorded {q = p} run minute route symbol v) h =
      note-IsRecording route symbol minute p v (Runs-IsRecording r p run h)
  Runs-IsRecording r q (finished {q = p} run minute later) h =
      finish_minute-IsRecording M minute p (Runs-IsRecording r p run h) later

  load-IsState :
      (file : Option (Option Value)) → IsState M none (load M file) × (length (load M file) ≤ 24)
  unfolding load
  load-IsState none = (tt, omega arith)
  load-IsState (some none) = (tt, omega arith)
  load-IsState (some (some payload)) = parsed (parse_blocks M payload) refl
    where
      parsed :
          (result : Result StateFault (List MessageRateBlock))
          → parse_blocks M payload ≡ result
          → IsState M none (or_nothing M result) × (length (or_nothing M result) ≤ 24)
      parsed (err e) f = (tt, omega arith)
      parsed (ok bs) f = (
        drop-IsState M (length bs - 24) bs (parse_blocks-IsState M payload bs f),
        omega (arith, length-drop (length bs - 24) bs),
      )

  load-payload_of :
      (bs : List MessageRateBlock)
      → IsState M none bs
      → length bs ≤ 24
      → load M (some (some (payload_of bs))) ≡ bs
  unfolding load
  load-payload_of bs h l =
      ap (or_nothing M) (parse_blocks-of_payload M bs h) ∙ ap (λ n. drop n bs) few
    where
      few : length bs - 24 ≡ 0
      few = omega (arith, l)

  init-IsRecording :
      (baseline : Dict ℕ) (minute : ℕ) (file : Option (Option Value))
      → is_early (last_end none (load M file)) (suc minute) ≡ false
      → IsRecording M 60 (init baseline minute (load M file))
  init-IsRecording baseline minute file h = record {
    blocks_state = (load-IsState file).0;
    bounded = (load-IsState file).1;
    counted = tt;
    peaks = nothing-IsRates M;
    short = omega arith;
    running = refl;
    behind = rw (reached_start) h;
  }
    where
      reached_start : suc (max minute 0) ≡ suc minute
      reached_start = omega arith

  -- The blocks of a recorder that starts from any state file, good or bad, are those of a state file:
  -- at most 24 blocks of sixty minutes, each after the one before, with a positive rate for each of
  -- its symbols, once. Conditions: the clock does not start before the end of the loaded blocks,
  -- only exchange symbols are recorded, and a finished minute is later than the last one.
  pub Runs-IsState :
      (file : Option (Option Value)) (baseline : Dict ℕ) (minute : ℕ) (r : PublicTrafficRecorder)
      → is_early (last_end none (load M file)) (suc minute) ≡ false
      → Runs (init baseline minute (load M file)) r
      → IsState M none r.blocks × (length r.blocks ≤ 24)
  Runs-IsState file baseline minute r h run =
      let k =
        Runs-IsRecording (init baseline minute (load M file)) r run
          (init-IsRecording baseline minute file h) in
      (k.blocks_state, k.bounded)

  -- What `_save` writes, `_load` reads: under the same conditions, a restart gets back every block of
  -- the recorder.
  pub load-of_payload :
      (file : Option (Option Value)) (baseline : Dict ℕ) (minute : ℕ) (r : PublicTrafficRecorder)
      → is_early (last_end none (load M file)) (suc minute) ≡ false
      → Runs (init baseline minute (load M file)) r
      → load M (some (some (payload_of r.blocks))) ≡ r.blocks
  load-of_payload file baseline minute r h run =
      let (state, few) = Runs-IsState file baseline minute r h run in
      load-payload_of r.blocks state few
