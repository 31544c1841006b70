-- ===== src/Orderbook/Bridge/Following.antt =====
-- Following the buffer from one span to the next, src/miry/orderbook/bridge.py.
use miry_data_collector.Base.{
  ℕ, suc, ◌+◌, ◌≡◌, refl, ◌≢◌, inl, inr, List, [], ◌∷◌, ◌++◌, arith, ◌==◌, Bool-cases, length, ap,
  ==_iff, ◌∙◌, sym,
}
use miry_data_collector.Orderbook.Bridge.{UpdateSpan, broken, reached, follow}

-- Each span names the final id of the one before it, from `u` up to `v`.
abbrev pub Linked : ℕ → List UpdateSpan → ℕ → Type 0
Linked u [] v = u ≡ v
Linked u (s ∷ ss) v = (s.previous_final_update_id ≡ u) × Linked s.final_update_id ss v

pub Linked-append_one :
    (u v : ℕ) (ss : List UpdateSpan) (s : UpdateSpan)
    → Linked u ss v
    → s.previous_final_update_id ≡ v
    → Linked u (ss ++ (s ∷ [])) s.final_update_id
Linked-append_one u v [] s h e = (e ∙ sym h, refl)
Linked-append_one u v (x ∷ ss) s h e = (h.0, Linked-append_one x.final_update_id v ss s h.1 e)

-- A buffer is linked throughout, or up to a first span that names another id.
pub data Links (u : ℕ) (ss : List UpdateSpan) : Type 0 where
  whole : (v : ℕ) → Linked u ss v → Links u ss
  split :
      (pre post : List UpdateSpan) (s : UpdateSpan) (e : ℕ)
      → ss ≡ pre ++ (s ∷ post)
      → Linked u pre e
      → s.previous_final_update_id ≢ e
      → Links u ss

pub links : (u : ℕ) (ss : List UpdateSpan) → Links u ss
links u [] = Links.whole u refl
links u (s ∷ ss) = elim (Bool-cases (s.previous_final_update_id == u)) [
  | inl same ↦ elim (links s.final_update_id ss) [
    | Links.whole v h ↦ Links.whole v ((==_iff _ _).0 same, h)
    | Links.split pre post x e p h n ↦
        Links.split (s ∷ pre) post x e (ap (◌∷◌ s) p) ((==_iff _ _).0 same, h) n
  ]
  | inr other ↦ Links.split [] ss s u refl refl (λ e. ground arith)
]

pub follow-Linked :
    (index u v : ℕ) (ss : List UpdateSpan) → Linked u ss v → follow index u ss ≡ reached v
unfolding follow
follow-Linked index u v [] h = ap reached h
follow-Linked index u v (s ∷ ss) h =
    ground (arith, follow-Linked (suc index) s.final_update_id v ss h.1)

pub follow-break :
    (index u e : ℕ) (pre post : List UpdateSpan) (s : UpdateSpan)
    → Linked u pre e
    → s.previous_final_update_id ≢ e
    → follow index u (pre ++ (s ∷ post)) ≡ broken (index + length pre) e s.previous_final_update_id
unfolding follow
follow-break index u e [] post s h n = ground arith
follow-break index u e (x ∷ pre) post s h n =
    ground (arith, follow-break (suc index) x.final_update_id e pre post s h.1 n)
