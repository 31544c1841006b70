-- ===== src/Pipeline/Quality/Validity.antt =====
-- The validity intervals of a symbol, src/miry/pipeline/quality.py.
use miry_data_collector.Base.{
  ℕ, ◌+◌, ◌*◌, ◌≤◌, ◌<◌, ◌≡◌, subst, false, Option, none, some, List, [], ◌∷◌, arith,
}
use miry_data_collector.Base.Result.{ok, >>=-eq-ok, raise_if-eq-ok, ok-injective}
use miry_data_collector.Pipeline.Quality.Durations.{Interval}
use miry_data_collector.Pipeline.Quality.Finalize.{
  Fault, ValidityRow, is_disordered, validate_from, validate_validity, day_ns,
}

-- Intervals of the day, none empty, each beginning where the one before ends or later.
abbrev pub Ordered : ℕ → ℕ → List Interval → Type 0
Ordered from to [] = Unit
Ordered from to (i ∷ rest) = (from ≤ i.0) × (i.0 < i.1) × (i.1 ≤ to) × Ordered i.1 to rest

abbrev latest : ℕ → Option ℕ → ℕ
latest from none = from
latest from (some previous_end) = previous_end

validate_from-Ordered :
    (date : ℕ) (previous_end : Option ℕ) (rows : List (Option ValidityRow)) {xs : List Interval}
    → validate_from date previous_end rows ≡ ok xs
    → Ordered (latest (date * day_ns) previous_end) (date * day_ns + day_ns) xs
unfolding validate_from
validate_from-Ordered date p [] e = subst (Ordered _ _) (ok-injective e) tt
validate_from-Ordered date p (none ∷ rows) e = cc
validate_from-Ordered date p (some row ∷ rows) {xs} e =
    let (fine, e') = raise_if-eq-ok (is_disordered date p row) Fault.validity_order _ e in
    let (rest, valid, same) = >>=-eq-ok (validate_from date (some row.valid_to_ns) rows) _ e' in
    let later = validate_from-Ordered date (some row.valid_to_ns) rows valid in
    subst (Ordered (latest (date * day_ns) p) (date * day_ns + day_ns)) (ok-injective same)
      (follows p fine, longer fine, within fine, later)
  where
    follows :
        (q : Option ℕ)
        → is_disordered date q row ≡ false
        → latest (date * day_ns) q ≤ row.valid_from_ns
    follows none h = ground arith
    follows (some end) h = ground arith

    longer : is_disordered date p row ≡ false → row.valid_from_ns < row.valid_to_ns
    longer h = ground arith

    within : is_disordered date p row ≡ false → row.valid_to_ns ≤ date * day_ns + day_ns
    within h = ground arith

-- The intervals that `_validate_validity` returns lie within the UTC day, are not empty, and follow
-- one another without overlap.
pub validate_validity-Ordered :
    (date : ℕ) (rows : List (Option ValidityRow)) (xs : List Interval)
    → validate_validity date rows ≡ ok xs
    → Ordered (date * day_ns) (date * day_ns + day_ns) xs
unfolding validate_validity
validate_validity-Ordered date rows xs e = validate_from-Ordered date none rows e
