-- ===== src/Pipeline/L2/Levels.antt =====
-- Price levels, src/miry/pipeline/l2.py. A side of the book is a dict from prices to quantities; the
-- decimal arithmetic of the prices is a parameter.
use miry_data_collector.Base.{
  ◌+◌, ◌≡◌, refl, ap, ◌∙◌, Bool, true, false, ◌&&◌, ◌||◌, Option, none, some, List, [], ◌∷◌, arith,
  if◌then◌else◌, leb, ◌==◌, all, map,
}
use miry_data_collector.Base.Text.{Text}
use miry_data_collector.Base.Sorting.{sort_by}

-- What the code takes from `decimal.Decimal`: parsing, equality, order and printing. Equality is by
-- value, so that it is an equivalence but not identity (1.0 and 1.00 are equal and print differently),
-- and a printed decimal parses to itself. The price texts are those of parsed events, so that they
-- are decimals.
pub record Decimals : Type 1 where
  pub Price : Type 0
  pub price : Text → Price
  pub price_eq : Price → Price → Bool
  pub price_eq_sym : (p q : Price) → price_eq p q ≡ price_eq q p
  pub price_eq_trans :
      (p q r : Price) → price_eq p q ≡ true → price_eq q r ≡ true → price_eq p r ≡ true
  pub price_leb : Price → Price → Bool
  pub text_of : Price → Text
  pub price-text_of : (p : Price) → price (text_of p) ≡ p

-- `value.lower()`, as far as the tests below can see
abbrev pub lower : Text → Text
lower = map (λ c. if leb b'A' c && leb c b'Z' then c + 32 else c)

-- `value.split("e", 1)[0]`
abbrev pub before_e : Text → Text
before_e [] = []
before_e (c ∷ s) = if c == b'e' then [] else c ∷ before_e s

-- `value.lstrip("+-")`
abbrev pub strip_signs : Text → Text
strip_signs [] = []
strip_signs (c ∷ s) = let rest = strip_signs s in if (c == b'+') || (c == b'-') then rest else c ∷ s

abbrev pub is_filled : Text → Bool
is_filled [] = false
is_filled (_ ∷ _) = true

-- `_is_zero`
unfoldable pub is_zero : Text → Bool
is_zero value =
    let mantissa = strip_signs (before_e (lower value)) in
    is_filled mantissa && all (λ c. (c == b'0') || (c == b'.')) mantissa

abbrev pub Levels : Type 0
Levels = List (Text × Text)

module _ (D : Decimals) where
  open D use {Price, price, price_eq, price_eq_sym, price_eq_trans, price_leb, text_of}

  abbrev pub Side : Type 0
  Side = List (Price × Text)

  -- `side.get(p)`
  abbrev pub quantity : Price → Side → Option Text
  quantity p [] = none
  quantity p ((k, q) ∷ side) = if price_eq k p then some q else quantity p side

  -- `side[p] = q`
  abbrev pub put : Price → Text → Side → Side
  put p q [] = (p, q) ∷ []
  put p q ((k, r) ∷ side) = if price_eq k p then (k, q) ∷ side else (k, r) ∷ put p q side

  -- `side.pop(p, None)`; a dict has each key once
  abbrev pub pop : Price → Side → Side
  pop p [] = []
  pop p ((k, r) ∷ side) = let rest = pop p side in if price_eq k p then rest else (k, r) ∷ rest

  -- `_apply_levels`
  unfoldable pub apply_levels : Side → Levels → Side
  apply_levels side [] = side
  apply_levels side ((p, q) ∷ levels) =
      apply_levels (if is_zero q then pop (price p) side else put (price p) q side) levels

  abbrev pub fill : Side → Levels → Side
  fill side [] = side
  fill side ((p, q) ∷ levels) = fill (if is_zero q then side else put (price p) q side) levels

  -- `_book_side`
  unfoldable pub book_side : Levels → Side
  book_side levels = fill [] levels

  -- `_checkpoint_levels`: the levels in the order of their prices
  unfoldable pub checkpoint_levels : Side → Levels
  checkpoint_levels side = map (λ e. (text_of e.0, e.1)) (sort_by (λ a b. price_leb a.0 b.0) side)

  -- Equal prices are equal to the same prices.
  same_for : (p q r : Price) → price_eq p q ≡ true → price_eq p r ≡ price_eq q r
  same_for p q r e = ground (arith, price_eq_trans p q r, price_eq_trans q p r, price_eq_sym p q)

  pub quantity-put :
      (p k : Price) (q : Text) (side : Side)
      → quantity k (put p q side) ≡ (if price_eq p k then some q else quantity k side)
  quantity-put p k q [] = refl
  quantity-put p k q ((j, r) ∷ side) = ground (
    arith,
    same_for j p k,
    same_for p k j,
    price_eq_sym j p,
    price_eq_sym k j,
    quantity-put p k q side,
  )

  pub quantity-pop :
      (p k : Price) (side : Side)
      → quantity k (pop p side) ≡ (if price_eq p k then none else quantity k side)
  quantity-pop p k [] = ground arith
  quantity-pop p k ((j, r) ∷ side) = ground (
    arith,
    same_for j p k,
    same_for p k j,
    price_eq_sym j p,
    price_eq_sym k j,
    quantity-pop p k side,
  )

  -- What a run of updates makes of the quantity at one price: its last update decides, and a zero
  -- quantity removes the level.
  abbrev pub latest : Price → Levels → Option Text → Option Text
  latest k [] old = old
  latest k ((p, q) ∷ levels) old =
      latest k levels (if price_eq (price p) k then if is_zero q then none else some q else old)

  -- At every price the updated side holds what the last update of that price says, and is unchanged
  -- where no update names the price.
  pub quantity-apply_levels :
      (k : Price) (side : Side) (levels : Levels)
      → quantity k (apply_levels side levels) ≡ latest k levels (quantity k side)
  unfolding apply_levels
  quantity-apply_levels k side [] = refl
  quantity-apply_levels k side ((p, q) ∷ levels) =
      quantity-apply_levels k (if is_zero q then pop (price p) side else put (price p) q side)
        levels
      ∙ ap (latest k levels) step
    where
      step :
          quantity k (if is_zero q then pop (price p) side else put (price p) q side)
          ≡ (if price_eq (price p) k then if is_zero q then none else some q else quantity k side)
      step = ground (arith, quantity-pop (price p) k side, quantity-put (price p) k q side)
