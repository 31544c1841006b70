-- ===== src/Pipeline/Quality/Accepting.antt =====
-- What an accepted symbol of a day has, src/miry/pipeline/quality.py.
use miry_data_collector.Base.{
  ℕ, ◌≡◌, refl, ◌∙◌, sym, subst, ap, false, Option, none, some, List, [], ◌∷◌, ◌++◌, arith,
  append-nil, append_assoc, Bool-cases, inl, inr,
}
use miry_data_collector.Base.Result.{ok, >>=-eq-ok, raise_if-eq-ok, ok-injective}
use miry_data_collector.Base.Text.{Text, text_eq_iff}
use miry_data_collector.Pipeline.Quality.Durations.{Interval}
use miry_data_collector.Pipeline.Quality.Finalize.{
  ValidityRow, validate_validity, Coverage, coverage_of, is_rejected, Inputs, Tally, invalid_of,
  visit, visit_all, CheckpointIdentity, classify, parsed, is_other_checkpoint,
}

-- A symbol's published standing, the entry that the marker has for it: its validity file is well
-- formed, its checkpoint is its own, and the entry is its coverage, which is accepted.
pub record IsAccepted (day : Inputs) (lo hi : ℕ) (symbol : Text) (entry : Text × Coverage)
    : Type 0 where
  pub rows : List (Option ValidityRow)
  pub content : CheckpointIdentity
  pub valid : List Interval
  pub present : (day.files symbol).validity ≡ some rows
  pub restorable : (day.files symbol).checkpoint ≡ some (some content)
  pub well_formed : validate_validity day.utc_date rows ≡ ok valid
  pub own_collector : content.collector_id ≡ day.collector_id
  pub own_date : content.utc_date ≡ day.utc_date
  pub own_symbol : content.exchange_symbol ≡ symbol
  pub named : entry.0 ≡ symbol
  pub measured : entry.1 ≡ coverage_of lo hi valid (invalid_of day lo hi symbol valid)
  pub covered : is_rejected entry.1 ≡ false

-- The entries are those of the symbols, one for each and in their order.
abbrev pub AreAccepted : Inputs → ℕ → ℕ → List Text → List (Text × Coverage) → Type 0
AreAccepted day lo hi [] [] = Unit
AreAccepted day lo hi (symbol ∷ symbols) (entry ∷ entries) =
    IsAccepted day lo hi symbol entry × AreAccepted day lo hi symbols entries
AreAccepted day lo hi _ _ = ⊥

abbrev pub IsClean : Tally → Type 0
IsClean t = (t.missing ≡ []) × (t.rejected ≡ [])

append_one-ne-nil {ℓ} : {A : Type ℓ} (xs : List A) (x : A) → (xs ++ (x ∷ [])) ≡ [] → ⊥
append_one-ne-nil [] x e = cc
append_one-ne-nil (_ ∷ xs) x e = cc

module _ (day : Inputs) (lo hi : ℕ) (symbol : Text) where
  own_checkpoint :
      (c : CheckpointIdentity)
      → is_other_checkpoint day symbol c ≡ false
      → (c.collector_id ≡ day.collector_id)
        × (c.utc_date ≡ day.utc_date)
        × (c.exchange_symbol ≡ symbol)
  own_checkpoint c e = (
    (text_eq_iff c.collector_id day.collector_id).0 (ground arith),
    ground arith,
    (text_eq_iff c.exchange_symbol symbol).0 (ground arith),
  )

  classified :
      (valid : List Interval) (t u : Tally)
      → classify symbol (coverage_of lo hi valid (invalid_of day lo hi symbol valid)) t ≡ u
      → IsClean u
      → IsClean t
        × (is_rejected (coverage_of lo hi valid (invalid_of day lo hi symbol valid)) ≡ false)
        × (u.coverage
            ≡ t.coverage
              ++ ((symbol, coverage_of lo hi valid (invalid_of day lo hi symbol valid)) ∷ []))
  classified valid t u e h =
      elim (Bool-cases
        (is_rejected (coverage_of lo hi valid (invalid_of day lo hi symbol valid)))) [
          | inl bad ↦ absurd (append_one-ne-nil t.rejected symbol (ground arith))
          | inr good ↦ (ground arith, good, sym (ap (λ x. x.coverage) e))
        ]

  visit-IsClean :
      (v : Option (List (Option ValidityRow))) (c : Option (Option CheckpointIdentity))
      (t u : Tally)
      → (day.files symbol).validity ≡ v
      → (day.files symbol).checkpoint ≡ c
      → visit day lo hi symbol v c t ≡ ok u
      → IsClean u
      → IsClean t
        × (entry : Text × Coverage) × IsAccepted day lo hi symbol entry
        × (u.coverage ≡ t.coverage ++ (entry ∷ []))
  unfolding visit
  visit-IsClean (some rows) (some content) t u p q e h =
      let (valid, formed, e₁) = >>=-eq-ok (validate_validity day.utc_date rows) _ e in
      let (identity, known, e₂) = >>=-eq-ok (parsed content) _ e₁ in
      let (own, e₃) = raise_if-eq-ok (is_other_checkpoint day symbol identity) _ _ e₂ in
      let (clean, covered, grown) = classified valid t u (ok-injective e₃) h in
      (
        clean,
        (symbol, coverage_of lo hi valid (invalid_of day lo hi symbol valid)),
        record {
          rows = rows;
          content = identity;
          valid = valid;
          present = p;
          restorable = q ∙ ap some (parsed_from content known);
          well_formed = formed;
          own_collector = (own_checkpoint identity own).0;
          own_date = (own_checkpoint identity own).1;
          own_symbol = (own_checkpoint identity own).2;
          named = refl;
          measured = refl;
          covered = covered;
        },
        grown,
      )
    where
      parsed_from :
          (o : Option CheckpointIdentity) {i : CheckpointIdentity} → parsed o ≡ ok i → o ≡ some i
      parsed_from none e = cc
      parsed_from (some i) e = ap some (ok-injective e)
  visit-IsClean (some rows) none t u p q e h =
      absurd (append_one-ne-nil t.missing symbol (ap (λ x. x.missing) (ok-injective e) ∙ h.0))
  visit-IsClean none c t u p q e h =
      absurd (append_one-ne-nil t.missing symbol (ap (λ x. x.missing) (ok-injective e) ∙ h.0))

pub visit_all-IsClean :
    (day : Inputs) (lo hi : ℕ) (symbols : List Text) (t u : Tally)
    → visit_all day lo hi symbols t ≡ ok u
    → IsClean u
    → IsClean t
      × (entries : List (Text × Coverage)) × AreAccepted day lo hi symbols entries
      × (u.coverage ≡ t.coverage ++ entries)
unfolding visit_all
visit_all-IsClean day lo hi [] t u e h =
    let same = ok-injective e in
    (
      subst IsClean (sym same) h,
      [],
      tt,
      ap (λ x. x.coverage) (sym same) ∙ sym (append-nil t.coverage),
    )
visit_all-IsClean day lo hi (s ∷ ss) t u e h =
    let (next, visited, e') =
      >>=-eq-ok (visit day lo hi s (day.files s).validity (day.files s).checkpoint t) _ e in
    let (clean, entries, rest, later) = visit_all-IsClean day lo hi ss next u e' h in
    let (clean', entry, here, grown) =
      visit-IsClean day lo hi s _ _ t next refl refl visited clean in
    (
      clean',
      entry ∷ entries,
      (here, rest),
      later ∙ ap (λ c. c ++ entries) grown ∙ append_assoc t.coverage (entry ∷ []) entries,
    )
