-- ===== src/Base/Dict.antt =====
-- A dict keyed by texts, in insertion order.
use mathlib.Core.Path.{◌≡◌, refl, ap, sym, subst}
use mathlib.Core.Logic.{inl, inr}
use mathlib.Core.Bool.{true, false}
use mathlib.Core.List.{List, [], ◌∷◌, map}
use mathlib.Core.Option.{Option, none, some}
use native.Mathlib.Omega.{arith}
use miry_data_collector.Base.Tests.{if◌then◌else◌, Bool-cases}
use miry_data_collector.Base.Lists.{In, here, there, All}
use miry_data_collector.Base.Text.{Text, text_eq, text_eq_refl, text_eq_iff}

abbrev pub Dict {ℓ} : Type ℓ → Type ℓ
Dict V = List (Text × V)

module _ {ℓ} {V : Type ℓ} where
  -- `d.get(k)`
  abbrev pub lookup : Text → Dict V → Option V
  lookup k [] = none
  lookup k ((j, v) ∷ d) = if text_eq j k then some v else lookup k d

  -- `d[k] = v`: a key that is there keeps its place
  abbrev pub insert : Text → V → Dict V → Dict V
  insert k v [] = (k, v) ∷ []
  insert k v ((j, w) ∷ d) = if text_eq j k then (j, v) ∷ d else (j, w) ∷ insert k v d

  -- `d.pop(k, None)`, without its result
  abbrev pub erase : Text → Dict V → Dict V
  erase k [] = []
  erase k ((j, w) ∷ d) = if text_eq j k then d else (j, w) ∷ erase k d

  pub lookup-insert :
      (k j : Text) (v : V) (d : Dict V)
      → lookup j (insert k v d) ≡ (if text_eq k j then some v else lookup j d)
  lookup-insert k j v [] = refl
  lookup-insert k j v ((i, w) ∷ d) =
      ground (arith, text_eq_iff k j, text_eq_iff i k, text_eq_iff i j, lookup-insert k j v d)

  pub lookup-insert_self : (k : Text) (v : V) (d : Dict V) → lookup k (insert k v d) ≡ some v
  lookup-insert_self k v d = ground (arith, lookup-insert k k v d, text_eq_refl k)

  pub lookup-erase_ne :
      (k j : Text) (d : Dict V) → text_eq k j ≡ false → lookup j (erase k d) ≡ lookup j d
  lookup-erase_ne k j [] h = refl
  lookup-erase_ne k j ((i, w) ∷ d) h =
      ground (arith, text_eq_iff k j, text_eq_iff i k, text_eq_iff i j, lookup-erase_ne k j d h)

  -- What a lookup finds is among the values.
  pub In-map_of_lookup {κ} :
      {B : Type κ} (f : V → B) (k : Text) (v : V) (d : Dict V)
      → lookup k d ≡ some v
      → In (f v) (map (λ e. f e.1) d)
  In-map_of_lookup f k v [] h = cc
  In-map_of_lookup f k v ((j, w) ∷ d) h = elim (Bool-cases (text_eq j k)) [
    | inl same ↦ here (ap f (ground arith))
    | inr other ↦ there (In-map_of_lookup f k v d (ground arith))
  ]

  -- What holds of all entries holds of the one that a lookup finds, under the key's own text.
  pub All-lookup {κ} :
      (P : Text × V → Type κ) (k : Text) (v : V) (d : Dict V)
      → All P d
      → lookup k d ≡ some v
      → P (k, v)
  All-lookup P k v [] h e = cc
  All-lookup P k v ((j, w) ∷ d) (p, rest) e = elim (Bool-cases (text_eq j k)) [
    | inl same ↦ subst P (entry same) p
    | inr other ↦ All-lookup P k v d rest (ground arith)
  ]
    where
      entry : text_eq j k ≡ true → ◌≡◌ {A = Text × V} (j, w) (k, v)
      entry same = ground (arith, text_eq_iff j k)

  pub All-insert {κ} :
      (P : Text × V → Type κ) (k : Text) (v : V) (d : Dict V)
      → ((j : Text) → j ≡ k → P (j, v))
      → All P d
      → All P (insert k v d)
  All-insert P k v [] p h = (p k refl, tt)
  All-insert P k v ((j, w) ∷ d) p (q, rest) = elim (Bool-cases (text_eq j k)) [
    | inl same ↦
        subst (λ b. All P (if b then (j, v) ∷ d else (j, w) ∷ insert k v d)) (sym same)
          (p j ((text_eq_iff j k).0 same), rest)
    | inr other ↦
        subst (λ b. All P (if b then (j, v) ∷ d else (j, w) ∷ insert k v d)) (sym other)
          (q, All-insert P k v d p rest)
  ]
