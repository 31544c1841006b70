-- ===== src/Pipeline/Quality/Gate.antt =====
-- What a published day guarantees, src/miry/pipeline/quality.py.
use miry_data_collector.Base.{
  ℕ, ◌+◌, ◌*◌, ◌≡◌, refl, ◌∙◌, sym, subst, ap, true, false, Option, none, some, List, [], ◌∷◌,
  arith, Bool-cases, inl, inr,
}
use miry_data_collector.Base.Result.{Result, ok, err, >>=-eq-ok, raise_if-eq-ok, ok-injective}
use miry_data_collector.Base.Text.{Text}
use miry_data_collector.Pipeline.Quality.Durations.{Interval}
use miry_data_collector.Pipeline.Quality.Finalize.{
  Fault, Normalized, check_universe, examined, examine, day_ns, Coverage, Inputs, Tally, visit_all,
  finalize_day, DayFiles, is_nonempty, window_is_outside, or_default, publish, marker_of,
}
use miry_data_collector.Pipeline.Quality.Accepting.{AreAccepted, visit_all-IsClean}
use miry_data_collector.Pipeline.Quality.Admitting.{
  IsUniverse, IsInDay, check_universe-IsUniverse, window_is_outside-IsInDay,
}

-- What the run has found when it publishes, and the two files that it leaves.
pub record IsPublished (day : Inputs) (disk : DayFiles) : Type 0 where
  pub lo : ℕ
  pub hi : ℕ
  pub normalized : Normalized
  pub from_normalized : day.normalized ≡ some normalized
  pub universe : IsUniverse day.symbols normalized.expected_symbols
  pub opens : lo ≡ or_default normalized.collection_window_start_ns (day.utc_date * day_ns)
  pub closes : hi ≡ or_default normalized.collection_window_end_ns (day.utc_date * day_ns + day_ns)
  pub in_day : IsInDay day.utc_date lo hi
  pub entries : List (Text × Coverage)
  pub accepted : AreAccepted day lo hi day.symbols entries
  pub written : disk ≡ record {
    processed = some (record {
      symbols = day.symbols;
      collection_window_start_ns = lo;
      collection_window_end_ns = hi;
      l2_coverage = entries;
      rejected_symbols = [];
    });
    quality_rejected = none;
  }

nonempty_false : (xs : List Text) → is_nonempty xs ≡ false → xs ≡ []
nonempty_false [] h = refl
nonempty_false (x ∷ xs) h = cc

module _ (day : Inputs) where
  -- A tally without a rejection, from an examination that found everything.
  examined-IsAccepted :
      (n : Normalized) (lo hi : ℕ) (r : Interval × Tally)
      → examined day n lo hi ≡ ok r
      → r.1.rejected ≡ []
      → (r.0 ≡ (lo, hi))
        × IsUniverse day.symbols n.expected_symbols
        × IsInDay day.utc_date lo hi
        × AreAccepted day lo hi day.symbols r.1.coverage
  unfolding examined
  examined-IsAccepted n lo hi r e h =
      let (_, universe, e₁) = >>=-eq-ok (check_universe day.symbols n.expected_symbols) _ e in
      let (in_day, e₂) = raise_if-eq-ok (window_is_outside day.utc_date lo hi) _ _ e₁ in
      let (tally, visited, e₃) = >>=-eq-ok (visit_all day lo hi day.symbols _) _ e₂ in
      let (complete, e₄) = raise_if-eq-ok (is_nonempty tally.missing) _ _ e₃ in
      let same = ok-injective e₄ in
      let none_missing = nonempty_false tally.missing complete in
      let none_rejected = ap (λ x. x.1.rejected) same ∙ h in
      let (_, entries, accepted, all) =
        visit_all-IsClean day lo hi day.symbols _ tally visited (none_missing, none_rejected) in
      (
        sym (ap (λ x. x.0) same),
        check_universe-IsUniverse day.symbols n.expected_symbols universe,
        window_is_outside-IsInDay day.utc_date lo hi in_day,
        subst (AreAccepted day lo hi day.symbols) (sym all ∙ ap (λ x. x.1.coverage) same) accepted,
      )

  published :
      (disk : DayFiles) (o : Option Normalized) (r : Result Fault (Interval × Tally))
      → day.normalized ≡ o
      → examine day o ≡ r
      → (publish day disk r).0 ≡ ok tt
      → IsPublished day (publish day disk r).1
  published disk o (err fault) p e h = cc
  published disk none (ok r) p e h = cc
  published disk (some n) (ok (window, tally)) p e h =
      elim (Bool-cases (is_nonempty tally.rejected)) [
        | inl bad ↦ absurd (rejected bad)
        | inr good ↦
            let (same, universe, in_day, accepted) =
              examined-IsAccepted n
                (or_default n.collection_window_start_ns (day.utc_date * day_ns))
                (or_default n.collection_window_end_ns (day.utc_date * day_ns + day_ns))
                (window, tally) e (nonempty_false tally.rejected good) in
            record {
              lo = or_default n.collection_window_start_ns (day.utc_date * day_ns);
              hi = or_default n.collection_window_end_ns (day.utc_date * day_ns + day_ns);
              entries = tally.coverage;
              normalized = n;
              from_normalized = p;
              universe = universe;
              in_day = in_day;
              accepted = accepted;
              opens = refl;
              closes = refl;
              written =
                  written_good good
                  ∙ ap (λ w. stored w tally.rejected) same
                  ∙ ap (stored _) (nonempty_false tally.rejected good);
            }
      ]
    where
      stored : Interval → List Text → DayFiles
      stored w rejected = record {
        processed = some (marker_of day w (record tally { rejected = rejected }));
        quality_rejected = none;
      }

      written_good :
          is_nonempty tally.rejected ≡ false
          → (publish day disk (ok (window, tally))).1 ≡ stored window tally.rejected
      written_good good = ground arith

      rejected : is_nonempty tally.rejected ≡ true → ⊥
      rejected bad = ground arith

  unpublished :
      (disk : DayFiles) (r : Result Fault (Interval × Tally)) {fault : Fault}
      → (publish day disk r).0 ≡ err fault
      → (publish day disk r).1.processed ≡ disk.processed
  unpublished disk (err fault) e = refl
  unpublished disk (ok (window, tally)) e = ground arith

-- A run that raises nothing has found a normalized day whose universe is sixty distinct symbols, the
-- requested ones, and a window, the normalized day's or else the whole day, that is not empty and
-- inside the day, and has accepted every requested symbol: its validity file is well formed, its
-- checkpoint has the collector, the date and the symbol itself, and its coverage is not rejected. It
-- publishes a marker with the symbols, the window, the coverage of each symbol, in order, as its files
-- give it, and no rejected symbol, and takes back an older rejection.
pub finalize_day-IsPublished :
    (day : Inputs) (disk : DayFiles)
    → (finalize_day day disk).0 ≡ ok tt
    → IsPublished day (finalize_day day disk).1
unfolding finalize_day
finalize_day-IsPublished day disk h =
    published day disk day.normalized (examine day day.normalized) refl refl h

-- A run that raises leaves the published marker as it was.
pub finalize_day-err :
    (day : Inputs) (disk : DayFiles) (fault : Fault)
    → (finalize_day day disk).0 ≡ err fault
    → (finalize_day day disk).1.processed ≡ disk.processed
unfolding finalize_day
finalize_day-err day disk fault e = unpublished day disk (examine day day.normalized) e
