-- ===== src/Contracts/Decisions/Members.antt =====
-- The members of an accepted decision, src/miry/contracts/models.py.
use miry_data_collector.Base.{
  ℕ, ◌≤◌, ◌≡◌, refl, sym, subst, ◌∙◌, true, ◌&&◌, Option, some, List, [], ◌∷◌, ◌++◌, any, length,
  length-append, Bool-cases, inl, inr, arith,
}
use miry_data_collector.Base.Text.{Text, text_eq, text_eq_iff, text_leb}
use miry_data_collector.Base.Sorting.{length-sort_by}
use miry_data_collector.Base.Counting.{count, dedupe, count-any, count-sort_by}
use miry_data_collector.Contracts.Symbols.{TextMethods}
use miry_data_collector.Contracts.Decisions.{
  UniverseDecision, all_members, members, in_capitals, accepts_roles, is_scheduled,
  validate_decision,
}

length-dedupe : (xs : List Text) → length (dedupe xs) ≤ length xs
length-dedupe [] = omega arith
length-dedupe (x ∷ xs) = ground (arith, length-dedupe xs)

-- A list that keeps its length as a set has no text twice.
pub count-of_set : (s : Text) (xs : List Text) → length xs ≤ length (dedupe xs) → count s xs ≤ 1
count-of_set s [] h = omega arith
count-of_set s (x ∷ xs) h = elim (Bool-cases (any (text_eq x) xs)) [
  | inl again ↦ absurd (ground (arith, again, h, length-dedupe xs))
  | inr new ↦ ground (arith, new, h, count-of_set s xs, count-any x xs new, text_eq_iff s x)
]

module _ (M : TextMethods) (show : ℕ → Text)
    (hash_of : List Text → List Text → List Text → Text) where
  accepted-members :
      (d : UniverseDecision)
      → accepts_roles M d ≡ true
      → is_scheduled M show hash_of d ≡ true
      → (length (members d) ≡ 60) × ((s : Text) → count s (members d) ≤ 1)
  accepted-members d roles scheduled = (
    length-sort_by text_leb (all_members d) ∙ sixty,
    λ s. omega (
      arith,
      count-sort_by text_leb s (all_members d),
      count-of_set s (all_members d) (ground (arith, scheduled, sixty)),
    ),
  )
    where
      sixty : length (all_members d) ≡ 60
      sixty = ground (
        arith,
        roles,
        length-append d.core (d.boundary ++ d.probe),
        length-append d.boundary d.probe,
      )

  -- A decision that is accepted has sixty members and none twice.
  pub validate_decision-members :
      (d e : UniverseDecision)
      → validate_decision M show hash_of d ≡ some e
      → (length (members e) ≡ 60) × ((s : Text) → count s (members e) ≤ 1)
  unfolding validate_decision
  validate_decision-members d e h =
      elim (Bool-cases
        (accepts_roles M (in_capitals M d) && is_scheduled M show hash_of (in_capitals M d))) [
          | inl accepted ↦
              subst (λ x. (length (members x) ≡ 60) × ((s : Text) → count s (members x) ≤ 1))
                {x = in_capitals M d} (some_eq (sym (rw (validate_decision, accepted) refl) ∙ h))
                (accepted-members (in_capitals M d) (ground (arith, accepted))
                  (ground (arith, accepted)))
          | inr refused ↦ cc
        ]
    where
      some_eq :
          {x y : UniverseDecision} → ◌≡◌ {A = Option UniverseDecision} (some x) (some y) → x ≡ y
      some_eq e = cc
