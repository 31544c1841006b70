-- ===== src/Pipeline/Quality/Points.antt =====
-- Counting the points of time below a bound, the reference for the durations of quality.py.
use miry_data_collector.Base.{
  ℕ, zero, suc, ◌+◌, ◌-◌, ◌≤◌, ◌<◌, ◌≡◌, refl, ◌==◌, Bool-cases, inl, inr, Bool, true, false, ◌&&◌,
  ◌||◌, arith, ltb, leb, min, if◌then◌else◌,
}

-- How many points below `n` pass a test.
unfoldable pub count : (ℕ → Bool) → ℕ → ℕ
count p zero = 0
count p (suc n) = (if p n then 1 else 0) + count p n

pub count-ext : (p q : ℕ → Bool) (n : ℕ) → ((t : ℕ) → t < n → p t ≡ q t) → count p n ≡ count q n
unfolding count
count-ext p q zero h = refl
count-ext p q (suc n) h =
    ground (arith, h n (omega arith), count-ext p q n (λ t l. h t (omega arith)))

-- The points of either of two sets and those of both, counted together, are those of each.
pub count-or_and :
    (p q : ℕ → Bool) (n : ℕ)
    → count (λ t. p t || q t) n + count (λ t. p t && q t) n ≡ count p n + count q n
unfolding count
count-or_and p q zero = refl
count-or_and p q (suc n) = ground (arith, count-or_and p q n)

pub count-none : (p : ℕ → Bool) (n : ℕ) → ((t : ℕ) → t < n → p t ≡ false) → count p n ≡ 0
unfolding count
count-none p zero h = refl
count-none p (suc n) h =
    ground (arith, h n (omega arith), count-none p n (λ t l. h t (omega arith)))

count-range_below : (a b n : ℕ) → count (λ t. leb a t && ltb t b) n ≡ min b n - min a n
unfolding count
count-range_below a b zero = omega arith
count-range_below a b (suc n) = ground (arith, count-range_below a b n)

-- The points of an interval below the bound are as many as it is long.
pub count-range : (a b n : ℕ) → a ≤ b → b ≤ n → count (λ t. leb a t && ltb t b) n ≡ b - a
count-range a b n h k = omega (arith, count-range_below a b n)

-- A count of nothing, and a count that leaves nothing out.
pub count-eq-zero : (p : ℕ → Bool) (n t : ℕ) → count p n ≡ 0 → t < n → p t ≡ false
unfolding count
count-eq-zero p zero t e h = elim h [ ]
count-eq-zero p (suc n) t e h = elim (Bool-cases (t == n)) [
  | inl last ↦ ground arith
  | inr before ↦ count-eq-zero p n t (ground arith) (ground arith)
]

pub count_mono :
    (p q : ℕ → Bool) (n : ℕ) → ((t : ℕ) → t < n → p t ≡ true → q t ≡ true) → count p n ≤ count q n
unfolding count
count_mono p q zero h = omega arith
count_mono p q (suc n) h =
    ground (arith, h n (omega arith), count_mono p q n (λ t l. h t (omega arith)))

pub count-eq-full :
    (p q : ℕ → Bool) (n t : ℕ)
    → ((t : ℕ) → t < n → p t ≡ true → q t ≡ true)
    → count q n ≤ count p n
    → t < n
    → q t ≡ true
    → p t ≡ true
unfolding count
count-eq-full p q zero t h e l k = elim l [ ]
count-eq-full p q (suc n) t h e l k = elim (Bool-cases (t == n)) [
  | inl last ↦ ground (arith, h n (omega arith), count_mono p q n (λ t l. h t (omega arith)))
  | inr before ↦
      count-eq-full p q n t (λ t l. h t (omega arith))
        (ground (arith, h n (omega arith), count_mono p q n (λ t l. h t (omega arith))))
        (ground arith) k
]
