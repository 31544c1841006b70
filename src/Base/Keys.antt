-- ===== src/Base/Keys.antt =====
-- The keys of a dict: they are distinct, and its pairs can be sorted by them.
use Prim.Native.Nat.{ℕ, ◌+◌, ◌≤◌, max}
use mathlib.Core.Path.{◌≡◌, refl, ◌∙◌}
use mathlib.Core.Bool.{Bool}
use mathlib.Core.List.{List, [], ◌∷◌, ◌++◌, map}
use native.Mathlib.Omega.{arith}
use miry_data_collector.Base.Tests.{if◌then◌else◌, leb}
use miry_data_collector.Base.Sorting.{insert_by, sort_by}
use miry_data_collector.Base.Text.{Text, text_eq, text_eq_iff, text_leb}
use miry_data_collector.Base.Dict.{Dict, insert}
use miry_data_collector.Base.Counting.{count}

abbrev pub keys {ℓ} : {V : Type ℓ} → Dict V → List Text
keys d = map (λ e. e.0) d

-- The keys of a dict are distinct.
abbrev pub IsDict {ℓ} : {V : Type ℓ} → Dict V → Type 0
IsDict d = (s : Text) → count s (keys d) ≤ 1

module _ {ℓ} {V : Type ℓ} where
  pub count-insert :
      (s k : Text) (v : V) (d : Dict V)
      → count s (keys (insert k v d))
        ≡ (if text_eq s k then max 1 (count s (keys d)) else count s (keys d))
  count-insert s k v [] = ground arith
  count-insert s k v ((j, w) ∷ d) =
      ground (arith, text_eq_iff s k, text_eq_iff j k, text_eq_iff s j, count-insert s k v d)

  pub insert-IsDict : (k : Text) (v : V) (d : Dict V) → IsDict d → IsDict (insert k v d)
  insert-IsDict k v d h s = ground (arith, count-insert s k v d, h s)

  -- A new key goes to the end.
  pub insert-append :
      (k : Text) (v : V) (d : Dict V) → count k (keys d) ≡ 0 → insert k v d ≡ d ++ ((k, v) ∷ [])
  insert-append k v [] h = refl
  insert-append k v ((j, w) ∷ d) h =
      ground (arith, text_eq_iff j k, text_eq_iff k j, insert-append k v d)

  pub keys-append :
      (s : Text) (d e : Dict V) → count s (keys (d ++ e)) ≡ count s (keys d) + count s (keys e)
  keys-append s [] e = omega arith
  keys-append s (f ∷ d) e = omega (arith, keys-append s d e)

-- The order of the pairs of a key and a number.
abbrev pub entry_leb : Text × ℕ → Text × ℕ → Bool
entry_leb e f = if text_eq e.0 f.0 then leb e.1 f.1 else text_leb e.0 f.0

keys-insert_by :
    (s : Text) (e : Text × ℕ) (d : Dict ℕ)
    → count s (keys (insert_by entry_leb e d)) ≡ count s (keys (e ∷ d))
keys-insert_by s e [] = refl
keys-insert_by s e (f ∷ d) = ground (arith, keys-insert_by s e d)

pub keys-sort_by : (s : Text) (d : Dict ℕ) → count s (keys (sort_by entry_leb d)) ≡ count s (keys d)
keys-sort_by s [] = refl
keys-sort_by s (e ∷ d) = keys-insert_by s e (sort_by entry_leb d) ∙ omega (arith, keys-sort_by s d)

pub sort_by-IsDict : (d : Dict ℕ) → IsDict d → IsDict (sort_by entry_leb d)
sort_by-IsDict d h s = omega (arith, h s, keys-sort_by s d)
