-- ===== src/Pipeline/L2/Chains.antt =====
-- Chains of diffs, src/miry/pipeline/l2.py.
use miry_data_collector.Base.{
  ℕ, ◌-◌, ◌≤◌, ◌<◌, ◌≡◌, refl, ap, ◌≢◌, ◌⊎◌, inl, inr, List, [], ◌∷◌, ◌++◌, arith, map, length,
  drop, All, Bool-cases, ==_iff, ◌==◌, leb,
}
use miry_data_collector.Orderbook.Bridge.Locate.{IsEarly}
use miry_data_collector.Pipeline.L2.Book.{DepthDiff, span_of}

abbrev pub IsOld : ℕ → DepthDiff → Type 0
IsOld last d = d.final_update_id < last

-- Each diff names the final id of the one before it, from `u` up to `v`.
abbrev pub Chained : ℕ → List DepthDiff → ℕ → Type 0
Chained u [] v = u ≡ v
Chained u (d ∷ ds) v = (d.previous_final_update_id ≡ u) × Chained d.final_update_id ds v

-- A run of diffs is chained throughout, or up to a first diff that names another id.
pub data Chains (u : ℕ) (ds : List DepthDiff) : Type 0 where
  whole : (v : ℕ) → Chained u ds v → Chains u ds
  split :
      (pre post : List DepthDiff) (d : DepthDiff) (e : ℕ)
      → ds ≡ pre ++ (d ∷ post)
      → Chained u pre e
      → d.previous_final_update_id ≢ e
      → Chains u ds

pub chains : (u : ℕ) (ds : List DepthDiff) → Chains u ds
chains u [] = Chains.whole u refl
chains u (d ∷ ds) = elim (Bool-cases (d.previous_final_update_id == u)) [
  | inl same ↦ elim (chains d.final_update_id ds) [
    | Chains.whole v h ↦ Chains.whole v ((==_iff _ _).0 same, h)
    | Chains.split pre post x e p h n ↦
        Chains.split (d ∷ pre) post x e (ap (◌∷◌ d) p) ((==_iff _ _).0 same, h) n
  ]
  | inr other ↦ Chains.split [] ds d u refl refl (λ e. ground arith)
]

-- Every run of diffs is old throughout, or has a first diff that is not.
pub split-IsOld :
    (last : ℕ) (ds : List DepthDiff)
    → All (IsOld last) ds
      ⊎ ((old : List DepthDiff) × (rest : List DepthDiff) × (c : DepthDiff) × (ds
            ≡ old ++ (c ∷ rest))
          × All (IsOld last) old
          × (last ≤ c.final_update_id))
split-IsOld last [] = inl tt
split-IsOld last (d ∷ ds) = elim (Bool-cases (leb last d.final_update_id)) [
  | inl late ↦ inr ([], ds, d, refl, tt, ground arith)
  | inr early ↦ elim (split-IsOld last ds) [
    | inl h ↦ inl (ground arith, h)
    | inr (pre, rest, c, e, h, l) ↦ inr (d ∷ pre, rest, c, ap (◌∷◌ d) e, (ground arith, h), l)
  ]
]

pub spans_old :
    (last : ℕ) (ds : List DepthDiff) → All (IsOld last) ds → All (IsEarly last) (map span_of ds)
spans_old last [] h = tt
spans_old last (d ∷ ds) h = (h.0, spans_old last ds h.1)

pub map-old :
    (old rest : List DepthDiff) → map span_of (old ++ rest) ≡ map span_of old ++ map span_of rest
map-old [] rest = refl
map-old (d ∷ old) rest = ap (◌∷◌ (span_of d)) (map-old old rest)

pub drop-map : (old rest : List DepthDiff) → drop (length (map span_of old)) (old ++ rest) ≡ rest
drop-map [] rest = refl
drop-map (d ∷ old) rest = drop-map old rest

pub drop-map_all : (ds : List DepthDiff) → drop (length (map span_of ds)) ds ≡ []
drop-map_all [] = refl
drop-map_all (d ∷ ds) = drop-map_all ds

pub sub_same : (n : ℕ) → n - n ≡ 0
sub_same n = omega arith
