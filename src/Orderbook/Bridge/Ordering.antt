-- ===== src/Orderbook/Bridge/Ordering.antt =====
-- The buffer's order, src/miry/orderbook/bridge.py.
use miry_data_collector.Base.{◌≡◌, refl, List, [], ◌∷◌, arith, Bool-cases, false, inl, inr}
use miry_data_collector.Base.Sorting.{sort_by}
use miry_data_collector.Orderbook.Bridge.{
  UpdateSpan, out_of_order, by_receive_seq, in_receive_order,
}

sort_by_ordered : (ss : List UpdateSpan) → out_of_order ss ≡ false → sort_by by_receive_seq ss ≡ ss
sort_by_ordered [] h = refl
sort_by_ordered (s ∷ []) h = refl
sort_by_ordered (s ∷ s' ∷ ss) h = rw (sort_by_ordered (s' ∷ ss) (ground arith)) (ground arith)

-- The test before the sort is only an optimisation: the buffer is evaluated in the stable order of
-- its receive sequence numbers, whatever the order of arrival.
pub in_receive_order-eq-sort_by :
    (ss : List UpdateSpan) → in_receive_order ss ≡ sort_by by_receive_seq ss
unfolding in_receive_order
in_receive_order-eq-sort_by [] = refl
in_receive_order-eq-sort_by (s ∷ []) = refl
in_receive_order-eq-sort_by (s ∷ s' ∷ ss) = elim (Bool-cases (out_of_order (s ∷ s' ∷ ss))) [
  | inl late ↦ ground arith
  | inr ordered ↦ ground (arith, sort_by_ordered (s ∷ s' ∷ ss) ordered)
]
