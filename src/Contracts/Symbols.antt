-- ===== src/Contracts/Symbols.antt =====
-- Exchange symbols, src/miry/contracts/symbols.py. The language's text methods are parameters.
use miry_data_collector.Base.{
  ℕ, Bool, false, not, ◌&&◌, Option, none, some, List, [], ◌∷◌, leb, ◌==◌, length,
}
use miry_data_collector.Base.Result.{Result, ok, ◌>>=◌, ◌>>◌, raise_if}
use miry_data_collector.Base.Text.{Text, text_eq}
use miry_data_collector.Base.Counting.{dedupe}

-- `str.strip`, `unicodedata.normalize` with the form NFC, `str.upper` and `str.isalnum`
pub record TextMethods : Type 0 where
  pub strip : Text → Text
  pub normalize_nfc : Text → Text
  pub upper : Text → Text
  pub isalnum : Text → Bool

pub data SymbolFault : Type 0 where
  invalid_symbol : Text → SymbolFault
  duplicates wrong_count : SymbolFault

module _ (M : TextMethods) where
  abbrev pub is_exchange_symbol : Text → Bool
  is_exchange_symbol value =
      leb 1 (length value)
      && leb (length value) 30
      && text_eq value (M.strip value)
      && text_eq value (M.normalize_nfc value)
      && text_eq value (M.upper value)
      && M.isalnum value

  unfoldable pub validate_exchange_symbol : Text → Result SymbolFault Text
  validate_exchange_symbol value =
      raise_if (not (is_exchange_symbol value)) (invalid_symbol value) >> ok value

  -- The loop of `validate_symbols`, which skips empty texts.
  unfoldable pub validated_from : List Text → Result SymbolFault (List Text)
  validated_from [] = ok []
  validated_from ([] ∷ values) = validated_from values
  validated_from ((c ∷ cs) ∷ values) = do
    symbol ← validate_exchange_symbol (c ∷ cs)
    rest ← validated_from values
    ok (symbol ∷ rest)

  abbrev pub is_other_count : Option ℕ → ℕ → Bool
  is_other_count none n = false
  is_other_count (some count) n = not (n == count)

  unfoldable pub validate_symbols : List Text → Option ℕ → Result SymbolFault (List Text)
  validate_symbols values count = do
    result ← validated_from values
    raise_if (not (length result == length (dedupe result))) duplicates
    raise_if (is_other_count count (length result)) wrong_count
    ok result
