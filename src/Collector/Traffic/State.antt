-- ===== src/Collector/Traffic/State.antt =====
-- The state file of the recorder, `_save`, `_load` and `_parse_blocks` of
-- src/miry/collector/traffic.py. The file's bytes are left out: `_save` gives the value that is
-- encoded, and `_load` takes the value that the parser delivers.
use miry_data_collector.Base.{
  ℕ, ◌-◌, Bool, false, not, ◌&&◌, Option, none, some, List, [], ◌∷◌, ltb, leb, ◌==◌,
}
use miry_data_collector.Base.Text.{Text}
use miry_data_collector.Base.Dict.{Dict, insert}
use miry_data_collector.Base.Result.{Result, ok, err, ◌>>=◌, ◌>>◌, raise_if}
use miry_data_collector.Base.Json.{
  Value, Elements, Members, integer, array, object, no_elements, element, no_members, member, get,
  int_of, plain_int_of, elements_of, members_of, equals_int,
}
use miry_data_collector.Contracts.Symbols.{TextMethods, is_exchange_symbol}
use miry_data_collector.Collector.Traffic.{MessageRateBlock, last_items}

pub data StateFault : Type 0 where
  unsupported_state blocks_not_a_list block_not_an_object minutes_not_integers : StateFault
  not_sixty_minutes not_ordered rates_not_an_object invalid_rate : StateFault

-- `if value is not of the type: raise e`
abbrev pub required : {E A : Type 0} → Option A → E → Result E A
required none e = err e
required (some a) e = ok a

abbrev pub version_key : Text
version_key = b'v' ∷ b'e' ∷ b'r' ∷ b's' ∷ b'i' ∷ b'o' ∷ b'n' ∷ []

abbrev pub blocks_key : Text
blocks_key = b'b' ∷ b'l' ∷ b'o' ∷ b'c' ∷ b'k' ∷ b's' ∷ []

abbrev pub start_key : Text
start_key = b's' ∷ b't' ∷ b'a' ∷ b'r' ∷ b't' ∷ b'_' ∷ b'm' ∷ b'i' ∷ b'n' ∷ b'u' ∷ b't' ∷ b'e' ∷ []

abbrev pub end_key : Text
end_key = b'e' ∷ b'n' ∷ b'd' ∷ b'_' ∷ b'm' ∷ b'i' ∷ b'n' ∷ b'u' ∷ b't' ∷ b'e' ∷ []

abbrev pub rates_key : Text
rates_key = b'r' ∷ b'a' ∷ b't' ∷ b'e' ∷ b's' ∷ []

-- The payload of `_save`.
abbrev pub rate_members : Dict ℕ → Members
rate_members [] = no_members
rate_members ((symbol, rate) ∷ rates) = member symbol (integer rate) (rate_members rates)

abbrev pub block_value : MessageRateBlock → Value
block_value b = object (
    member start_key (integer b.start_minute) (
      member end_key (integer b.end_minute)
        (member rates_key (object (rate_members b.rates)) no_members)))

abbrev pub block_elements : List MessageRateBlock → Elements
block_elements [] = no_elements
block_elements (b ∷ bs) = element (block_value b) (block_elements bs)

abbrev pub payload_of : List MessageRateBlock → Value
payload_of blocks =
    object (
      member version_key (integer 1) (member blocks_key (array (block_elements blocks)) no_members))

-- `previous_end is not None and start <= previous_end`
abbrev pub is_early : Option ℕ → ℕ → Bool
is_early none start = false
is_early (some previous_end) start = leb start previous_end

module _ (M : TextMethods) where
  -- The test of one rate.
  abbrev pub is_rate : Text → ℕ → Bool
  is_rate symbol rate = is_exchange_symbol M symbol && ltb 0 rate

  unfoldable pub parse_rates : Members → Dict ℕ → Result StateFault (Dict ℕ)
  parse_rates no_members rates = ok rates
  parse_rates (member symbol value members) rates = do
    rate ← required (plain_int_of value) invalid_rate
    raise_if (not (is_rate symbol rate)) invalid_rate
    parse_rates members (insert symbol rate rates)

  -- The body of the loop of `_parse_blocks`, step by step from its end.
  abbrev pub block_of : ℕ → ℕ → Dict ℕ → Result StateFault MessageRateBlock
  block_of first last rates = ok (record { start_minute = first; end_minute = last; rates = rates })

  abbrev pub rated : ℕ → ℕ → Members → Result StateFault MessageRateBlock
  rated first last raw_rates = parse_rates raw_rates [] >>= block_of first last

  abbrev pub with_rates : Members → ℕ → ℕ → Result StateFault MessageRateBlock
  with_rates members first last =
      required (members_of (get rates_key members)) rates_not_an_object >>= rated first last

  abbrev pub after_minutes : Option ℕ → Members → ℕ → ℕ → Result StateFault MessageRateBlock
  after_minutes previous_end members first last =
      raise_if (is_early previous_end first) not_ordered >> with_rates members first last

  abbrev pub dated : Option ℕ → Members → ℕ → ℕ → Result StateFault MessageRateBlock
  dated previous_end members first last =
      raise_if (not (last - first == 59)) not_sixty_minutes
      >> after_minutes previous_end members first last

  abbrev pub with_first : Option ℕ → Members → ℕ → Result StateFault MessageRateBlock
  with_first previous_end members first =
      required (int_of (get end_key members)) minutes_not_integers
      >>= dated previous_end members first

  abbrev pub checked : Option ℕ → Members → Result StateFault MessageRateBlock
  checked previous_end members =
      required (int_of (get start_key members)) minutes_not_integers
      >>= with_first previous_end members

  unfoldable pub parse_block : Option ℕ → Value → Result StateFault MessageRateBlock
  parse_block previous_end value =
      required (members_of value) block_not_an_object >>= checked previous_end

  unfoldable pub parse_elements : Option ℕ → Elements → Result StateFault (List MessageRateBlock)
  parse_elements previous_end no_elements = ok []
  parse_elements previous_end (element value elements) = parse_block previous_end value >>= λ block.
      parse_elements (some block.end_minute) elements >>= λ rest. ok (block ∷ rest)

  -- `_parse_blocks`, step by step from its end.
  abbrev pub listed : Members → Result StateFault (List MessageRateBlock)
  listed members =
      required (elements_of (get blocks_key members)) blocks_not_a_list >>= parse_elements none

  abbrev pub versioned : Members → Result StateFault (List MessageRateBlock)
  versioned members =
      raise_if (not (equals_int 1 (get version_key members))) unsupported_state >> listed members

  unfoldable pub parse_blocks : Value → Result StateFault (List MessageRateBlock)
  parse_blocks payload = required (members_of payload) unsupported_state >>= versioned

  abbrev pub or_nothing : Result StateFault (List MessageRateBlock) → List MessageRateBlock
  or_nothing (err e) = []
  or_nothing (ok blocks) = last_items 24 blocks

  -- `_load`: no file, a file that cannot be read or parsed, and a payload
  unfoldable pub load : Option (Option Value) → List MessageRateBlock
  load none = []
  load (some none) = []
  load (some (some payload)) = or_nothing (parse_blocks payload)
