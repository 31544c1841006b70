-- ===== src/Collector/Traffic/Examples.antt =====
-- Runs of the recorder of src/miry/collector/traffic.py at concrete inputs.
use miry_data_collector.Base.{
  ℕ, zero, suc, ◌+◌, ◌≤◌, ◌≡◌, refl, true, false, Option, none, some, List, [], ◌∷◌, length, arith,
}
use miry_data_collector.Base.Text.{Text}
use miry_data_collector.Base.Keys.{IsDict}
use miry_data_collector.Base.Json.{Value}
use miry_data_collector.Contracts.Symbols.{TextMethods}
use miry_data_collector.Collector.Traffic.{
  MessageRateBlock, PublicTrafficRecorder, init, note, finish_minute, rate_in, effective_rates,
}
use miry_data_collector.Collector.Traffic.State.{
  payload_of, load, is_early, parse_blocks, parse_elements, parse_block, parse_rates,
}
use miry_data_collector.Collector.Traffic.Parsing.{IsState}
use miry_data_collector.Collector.Traffic.Recording.{last_end}
use miry_data_collector.Collector.Traffic.Saving.{
  Runs, created, recorded, finished, Runs-IsState, load-of_payload,
}
use miry_data_collector.Collector.Traffic.Rates.{effective_rates-peak}

-- Texts of capital letters.
abbrev plain : TextMethods
plain = record { strip = λ s. s; normalize_nfc = λ s. s; upper = λ s. s; isalnum = λ s. true }

abbrev symbol : Text
symbol = b'A' ∷ []

abbrev route : Text
route = b'r' ∷ []

abbrev block : ℕ → MessageRateBlock
block start = record { start_minute = start; end_minute = start + 59; rates = (symbol, 7) ∷ [] }

abbrev file : Option (Option Value)
file = some (some (payload_of (block 60 ∷ [])))

load_run : load plain file ≡ block 60 ∷ []
unfolding load parse_blocks parse_elements parse_block parse_rates
load_run = refl

refused_run : load plain (some (some (payload_of (block 60 ∷ block 100 ∷ [])))) ≡ []
unfolding load parse_blocks parse_elements parse_block parse_rates
refused_run = refl

abbrev before : PublicTrafficRecorder
before = init [] 200 (load plain file)

abbrev after : PublicTrafficRecorder
after = (finish_minute 201 (note route symbol 201 before)).1

after_run : Runs plain before after
after_run = finished (recorded created 201 route symbol refl) 201 (λ l e. cc)

loaded_before : is_early (last_end none (load plain file)) 201 ≡ false
unfolding load parse_blocks parse_elements parse_block parse_rates
loaded_before = refl

Runs-IsState_example : IsState plain none after.blocks × (length after.blocks ≤ 24)
Runs-IsState_example = Runs-IsState plain file [] 200 after loaded_before after_run

load-of_payload_example : load plain (some (some (payload_of after.blocks))) ≡ after.blocks
load-of_payload_example = load-of_payload plain file [] 200 after loaded_before after_run

abbrev blocks_from : ℕ → ℕ → List MessageRateBlock
blocks_from zero start = []
blocks_from (suc n) start = block start ∷ blocks_from n (start + 60)

one_symbol : IsDict {V = ℕ} ((symbol, 7) ∷ [])
one_symbol s = ground arith

blocks_from-IsState :
    (n start : ℕ) (previous_end : Option ℕ)
    → is_early previous_end start ≡ false
    → IsState plain previous_end (blocks_from n start)
blocks_from-IsState zero start previous_end h = tt
blocks_from-IsState (suc n) start previous_end h = (
  record { sixty_minutes = refl; in_order = h; positive = (one_symbol, (refl, tt)) },
  blocks_from-IsState n (start + 60) (some (start + 59)) (ground arith),
)

abbrev full : PublicTrafficRecorder
full = init [] 2000 (blocks_from 24 60)

effective_rates-peak_example : rate_in symbol (effective_rates full) ≡ 7
effective_rates-peak_example =
    effective_rates-peak plain full symbol (blocks_from-IsState 24 60 none refl)
