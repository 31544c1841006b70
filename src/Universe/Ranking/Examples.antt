-- ===== src/Universe/Ranking/Examples.antt =====
-- Ranks at concrete inputs of src/miry/universe/ranking.py.
use miry_data_collector.Base.{ℕ, ◌≡◌, ◌⊎◌, refl, true, List, [], ◌∷◌, leb, arith}
use miry_data_collector.Base.Text.{Text}
use miry_data_collector.Universe.Ranking.{Order, metric_ranks, number}
use miry_data_collector.Universe.Ranking.Competition.{metric_ranks-eq}

leb_total : (x y : ℕ) → (leb x y ≡ true) ⊎ (leb y x ≡ true)
leb_total x y = ground arith

leb_trans : (x y z : ℕ) → leb x y ≡ true → leb y z ≡ true → leb x z ≡ true
leb_trans x y z h k = ground arith

abbrev naturals : Order
naturals = record { Decimal = ℕ; le = leb; total = leb_total; trans = leb_trans }

abbrev values : List (Text × ℕ)
values = (b'a' ∷ [], 5) ∷ (b'b' ∷ [], 9) ∷ (b'c' ∷ [], 5) ∷ (b'd' ∷ [], 1) ∷ []

abbrev ranks : List (Text × ℕ)
ranks = (b'b' ∷ [], 1) ∷ (b'a' ∷ [], 2) ∷ (b'c' ∷ [], 2) ∷ (b'd' ∷ [], 4) ∷ []

metric_ranks_run : metric_ranks naturals true values ≡ ranks
unfolding metric_ranks number
metric_ranks_run = refl

metric_ranks-eq_example : metric_ranks naturals true values ≡ ranks
metric_ranks-eq_example = metric_ranks-eq naturals true values
