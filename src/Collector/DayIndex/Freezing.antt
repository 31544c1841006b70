-- ===== src/Collector/DayIndex/Freezing.antt =====
-- A sealed day stays as it is, src/miry/collector/day_index.py.
use miry_data_collector.Base.{
  ℕ, ◌≡◌, refl, sym, ap, subst, ◌∙◌, inl, inr, true, false, not, Bool-cases, Option-cases, Option,
  none, some, ◌==◌, ==_iff, is_some, arith,
}
use miry_data_collector.Base.Result.{ok, raise_if-eq-ok, ok-injective}
use miry_data_collector.Contracts.Chunks.{ChunkRef, ChunkManifest, DayManifest, as_ref, accepts_day}
use miry_data_collector.Collector.DayIndex.{
  DayFiles, DayIndex, day_is_sealed, date_mismatch, manifest_refused, on_day, is_sealed,
  journal_with, ready_with, enter, attempt, record_chunk, record_generated, manifest_for,
  with_manifest, seal_from, seal, cleaned,
}

-- Calls that return.
pub data Calls (s : DayIndex) : DayIndex → Type 0 where
  begun : Calls s s
  recorded :
      {r q : DayIndex}
      → Calls s r
      → (date : ℕ) (chunk : ChunkRef) → record_chunk date chunk r ≡ ok q
      → Calls s q
  generated :
      {r q : DayIndex}
      → Calls s r
      → (date : ℕ) (first second : Option ChunkManifest)
      → record_generated date first second r ≡ ok q
      → Calls s q
  sealed_call :
      {r q : DayIndex} → Calls s r → (date sealed_at : ℕ) → seal date sealed_at r ≡ ok q → Calls s q

-- The sealed manifest and the ready files of a day are the same before and after.
abbrev pub SameDay : ℕ → DayIndex → DayIndex → Type 0
SameDay d s s' = ((s'.days d).sealed ≡ (s.days d).sealed) × ((s'.days d).ready ≡ (s.days d).ready)

module _ (d : ℕ) (m : DayManifest) where
  -- What is written to another day, or leaves the two as they are.
  on_day-SameDay :
      (date : ℕ) (files : DayFiles) (s : DayIndex)
      → (date ≡ d → (files.sealed ≡ (s.days d).sealed) × (files.ready ≡ (s.days d).ready))
      → SameDay d s (on_day date files s)
  on_day-SameDay date files s h = elim (Bool-cases (d == date)) [
    | inl same ↦ rw same (h (sym ((==_iff d date).0 same)))
    | inr other ↦ rw other (refl, refl)
  ]

  not_sealed :
      (date : ℕ) (s : DayIndex)
      → (s.days d).sealed ≡ some m
      → is_sealed date s ≡ false
      → date ≡ d
      → ⊥
  not_sealed date s h e same = clash (ap is_some (ap (λ x. (s.days x).sealed) same ∙ h))
    where
      clash : is_some (s.days date).sealed ≡ true → ⊥
      clash f = ground (arith, e, f)

  enter-SameDay :
      (date : ℕ) (manifest : ChunkManifest) (s q : DayIndex)
      → (s.days d).sealed ≡ some m
      → is_sealed date s ≡ false
      → enter date manifest s ≡ ok q
      → SameDay d s q
  enter-SameDay date manifest s q h free e =
      let (_, f) =
        raise_if-eq-ok (not (manifest.utc_date == date)) date_mismatch
          (ok (on_day date (journal_with (as_ref manifest) (ready_with manifest (s.days date))) s))
          e in
      subst (SameDay d s) (ok-injective f) (
        on_day-SameDay date (journal_with (as_ref manifest) (ready_with manifest (s.days date))) s
          (λ same. absurd (not_sealed date s h free same)))

  attempt-SameDay :
      (date : ℕ) (first second : Option ChunkManifest) (s q : DayIndex)
      → (s.days d).sealed ≡ some m
      → is_sealed date s ≡ false
      → attempt date first second s ≡ ok q
      → SameDay d s q
  attempt-SameDay date (some manifest) second s q h free e =
      enter-SameDay date manifest s q h free e
  attempt-SameDay date none (some manifest) s q h free e = enter-SameDay date manifest s q h free e
  attempt-SameDay date none none s q h free e = cc

  seal-SameDay :
      (date sealed_at : ℕ) (s q : DayIndex)
      → (s.days d).sealed ≡ some m
      → seal date sealed_at s ≡ ok q
      → SameDay d s q
  unfolding seal
  seal-SameDay date sealed_at s q h e = elim (Option-cases (s.days date).sealed) [
    | inl n ↦
        let (_, f) =
          raise_if-eq-ok (not (accepts_day (manifest_for date sealed_at s))) manifest_refused
            (ok (
              on_day date (cleaned (with_manifest (manifest_for date sealed_at s) (s.days date)))
                s))
            (sym (ap (λ o. seal_from o date sealed_at s) n) ∙ e) in
        subst (SameDay d s) (ok-injective f) (
          on_day-SameDay date
            (cleaned (with_manifest (manifest_for date sealed_at s) (s.days date))) s
            (λ same. absurd (not_sealed date s h (ap is_some n) same)))
    | inr (k, n) ↦
        subst (SameDay d s) (ok-injective (sym (ap (λ o. seal_from o date sealed_at s) n) ∙ e)) (
          on_day-SameDay date (cleaned (s.days date)) s
            (λ same. (ap (λ x. (s.days x).sealed) same, ap (λ x. (s.days x).ready) same)))
  ]

  -- Once a day is sealed, no call that returns changes its manifest or adds a chunk to the day's
  -- ready files.
  pub Calls-SameDay : (s q : DayIndex) → Calls s q → (s.days d).sealed ≡ some m → SameDay d s q
  unfolding record_chunk record_generated
  Calls-SameDay s q begun h = (refl, refl)
  Calls-SameDay s q (recorded {r} calls date chunk e) h =
      let (p, n) = Calls-SameDay s r calls h in
      let (free, f) =
        raise_if-eq-ok (is_sealed date r) day_is_sealed
          (ok (on_day date (journal_with chunk (r.days date)) r)) e in
      let (p', n') = subst (SameDay d r) (ok-injective f) (
        on_day-SameDay date (journal_with chunk (r.days date)) r
          (λ same. absurd (not_sealed date r (p ∙ h) free same))) in
      (p' ∙ p, n' ∙ n)
  Calls-SameDay s q (generated {r} calls date first second e) h =
      let (p, n) = Calls-SameDay s r calls h in
      let (free, f) =
        raise_if-eq-ok (is_sealed date r) day_is_sealed (attempt date first second r) e in
      let (p', n') = attempt-SameDay date first second r q (p ∙ h) free f in (p' ∙ p, n' ∙ n)
  Calls-SameDay s q (sealed_call {r} calls date sealed_at e) h =
      let (p, n) = Calls-SameDay s r calls h in
      let (p', n') = seal-SameDay date sealed_at r q (p ∙ h) e in (p' ∙ p, n' ∙ n)
