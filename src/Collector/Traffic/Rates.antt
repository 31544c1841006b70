-- ===== src/Collector/Traffic/Rates.antt =====
-- The rates that routes are balanced by, `effective_rates` of src/miry/collector/traffic.py.
use miry_data_collector.Base.{
  ℕ, ◌≡◌, max, refl, sym, ap, any, ◌&&◌, ◌||◌, ◌∙◌, inl, inr, ◌⊎◌, Bool, Bool-cases, true, false,
  Option, none, some, List, [], ◌∷◌, length, ◌==◌, if◌then◌else◌, arith,
}
use miry_data_collector.Base.Text.{Text, text_eq, text_eq_iff, text_eq_refl}
use miry_data_collector.Base.Dict.{Dict, lookup, insert, lookup-insert}
use miry_data_collector.Base.Keys.{keys, IsDict}
use miry_data_collector.Base.Counting.{count}
use miry_data_collector.Contracts.Symbols.{TextMethods}
use miry_data_collector.Collector.Traffic.{
  MessageRateBlock, PublicTrafficRecorder, or_zero, rate_in, raise_peaks, raise_rates, or_baseline,
  effective_rates,
}
use miry_data_collector.Collector.Traffic.Parsing.{IsState}

-- The highest rate of a symbol in any of the blocks.
abbrev pub peak : Text → List MessageRateBlock → ℕ
peak symbol [] = 0
peak symbol (b ∷ bs) = max (rate_in symbol b.rates) (peak symbol bs)

rate_in-insert :
    (s t : Text) (n : ℕ) (d : Dict ℕ)
    → rate_in s (insert t n d) ≡ (if text_eq t s then n else rate_in s d)
rate_in-insert s t n d = ap or_zero (lookup-insert t s n d) ∙ under (text_eq t s)
  where
    under : (b : Bool) → or_zero (if b then some n else lookup s d) ≡ (if b then n else rate_in s d)
    under true = refl
    under false = refl

rate_in-absent : (s : Text) (d : Dict ℕ) → count s (keys d) ≡ 0 → rate_in s d ≡ 0
rate_in-absent s [] h = refl
rate_in-absent s ((t, n) ∷ d) h =
    ground (arith, text_eq_iff t s, text_eq_iff s t, rate_in-absent s d)

pub rate_in-raise_peaks :
    (s : Text) (counts peaks : Dict ℕ)
    → IsDict counts
    → rate_in s (raise_peaks counts peaks) ≡ max (rate_in s peaks) (rate_in s counts)
rate_in-raise_peaks s [] peaks h = omega arith
rate_in-raise_peaks s ((t, n) ∷ counts) peaks h =
    rate_in-raise_peaks s counts (insert t (max (rate_in t peaks) n) peaks)
      (λ u. ground (arith, h u))
    ∙ by_symbol (Bool-cases (text_eq t s))
  where
    by_symbol :
        (text_eq t s ≡ true) ⊎ (text_eq t s ≡ false)
        → max (rate_in s (insert t (max (rate_in t peaks) n) peaks)) (rate_in s counts)
          ≡ max (rate_in s peaks) (rate_in s ((t, n) ∷ counts))
    by_symbol (inl same) =
        rw
          (
            rate_in-insert s t (max (rate_in t peaks) n) peaks,
            same,
            (text_eq_iff t s).0 same,
            rate_in-absent s counts (ground (arith, h s, (text_eq_iff t s).0 same, text_eq_refl s)),
          )
          (omega arith)
    by_symbol (inr other) = rw (rate_in-insert s t (max (rate_in t peaks) n) peaks, other) refl

abbrev is_nonempty : Dict ℕ → Bool
is_nonempty [] = false
is_nonempty (e ∷ d) = true

-- Whether a symbol was seen in the block.
abbrev pub has_rates : MessageRateBlock → Bool
has_rates b = is_nonempty b.rates

is_nonempty-insert : (s : Text) (n : ℕ) (d : Dict ℕ) → is_nonempty (insert s n d) ≡ true
is_nonempty-insert s n [] = refl
is_nonempty-insert s n ((t, m) ∷ d) = ground arith

is_nonempty-raise_peaks :
    (counts peaks : Dict ℕ)
    → is_nonempty (raise_peaks counts peaks) ≡ (is_nonempty peaks || is_nonempty counts)
is_nonempty-raise_peaks [] peaks = or_false (is_nonempty peaks)
  where
    or_false : (b : Bool) → b ≡ (b || false)
    or_false true = refl
    or_false false = refl
is_nonempty-raise_peaks ((s, n) ∷ counts) peaks = ground (
  arith,
  is_nonempty-raise_peaks counts (insert s (max (rate_in s peaks) n) peaks),
  is_nonempty-insert s (max (rate_in s peaks) n) peaks,
)

is_nonempty-raise_rates :
    (bs : List MessageRateBlock) (rates : Dict ℕ)
    → is_nonempty (raise_rates bs rates) ≡ (is_nonempty rates || any has_rates bs)
is_nonempty-raise_rates [] rates = is_nonempty-raise_peaks [] rates
is_nonempty-raise_rates (b ∷ bs) rates = ground (
  arith,
  is_nonempty-raise_rates bs (raise_peaks b.rates rates),
  is_nonempty-raise_peaks b.rates rates,
)

module _ (M : TextMethods) where
  rate_in-raise_rates :
      (s : Text) (previous_end : Option ℕ) (bs : List MessageRateBlock) (rates : Dict ℕ)
      → IsState M previous_end bs
      → rate_in s (raise_rates bs rates) ≡ max (rate_in s rates) (peak s bs)
  rate_in-raise_rates s previous_end [] rates h = omega arith
  rate_in-raise_rates s previous_end (b ∷ bs) rates (p, rest) = omega (
    arith,
    rate_in-raise_rates s (some b.end_minute) bs (raise_peaks b.rates rates) rest,
    rate_in-raise_peaks s b.rates rates p.positive.0,
  )

  -- With 24 blocks, some of which have a symbol, the rate of every symbol is its highest rate
  -- in any of them; with fewer blocks, or if none has a symbol, the rates are the baseline.
  -- Condition, in every case: the blocks are as a recorder keeps them.
  pub effective_rates-peak :
      (r : PublicTrafficRecorder) (symbol : Text)
      → IsState M none r.blocks
      → rate_in symbol (effective_rates r) ≡ (
          if (length r.blocks == 24) && any has_rates r.blocks
          then peak symbol r.blocks
          else rate_in symbol r.baseline_rates)
  unfolding effective_rates
  effective_rates-peak r symbol h = elim (Bool-cases (length r.blocks == 24)) [
    | inl full ↦ rw full (by_rates (raise_rates r.blocks []) refl)
    | inr few ↦ rw few refl
  ]
    where
      by_rates :
          (rates : Dict ℕ)
          → rates ≡ raise_rates r.blocks []
          → rate_in symbol (or_baseline rates r.baseline_rates) ≡ (
              if any has_rates r.blocks
              then peak symbol r.blocks
              else rate_in symbol r.baseline_rates)
      by_rates [] e = rw (sym (is_nonempty-raise_rates r.blocks []) ∙ sym (ap is_nonempty e)) refl
      by_rates (f ∷ rates) e =
          rw (sym (is_nonempty-raise_rates r.blocks []) ∙ sym (ap is_nonempty e))
            (ap (rate_in symbol) e ∙ rate_in-raise_rates symbol none r.blocks [] h ∙ omega arith)
