-- ===== src/Pipeline/Quality/Admitting.antt =====
-- The universe and the window of a day that is accepted, src/miry/pipeline/quality.py.
use miry_data_collector.Base.{
  ℕ, ◌+◌, ◌*◌, ◌≤◌, ◌<◌, ◌≡◌, refl, sym, ap, ◌∙◌, Bool, true, false, not, ◌||◌, ◌==◌, Option, none,
  some, List, [], ◌∷◌, length, arith,
}
use miry_data_collector.Base.Result.{ok, raise_if, raise_if-eq-ok}
use miry_data_collector.Base.Sorting.{sort_by}
use miry_data_collector.Base.Counting.{count, dedupe, count-sort_by}
use miry_data_collector.Base.Text.{Text, text_eq_iff, text_leb}
use miry_data_collector.Pipeline.Quality.Finalize.{
  Fault, universe_invalid, check_universe, texts_eq, day_ns, window_is_outside,
}

-- The normalized day expects sixty symbols, no two the same, and they are the requested ones.
pub record IsUniverse (symbols : List Text) (o : Option (List Text)) : Type 0 where
  pub expected : List Text
  pub known : o ≡ some expected
  pub sixty : length expected ≡ 60
  pub distinct : length (dedupe expected) ≡ 60
  pub requested : (s : Text) → count s symbols ≡ count s expected

texts_eq→eq : (ss ts : List Text) → texts_eq ss ts ≡ true → ss ≡ ts
texts_eq→eq [] [] e = refl
texts_eq→eq [] (t ∷ ts) e = cc
texts_eq→eq (s ∷ ss) [] e = cc
texts_eq→eq (s ∷ ss) (t ∷ ts) e = ground (arith, text_eq_iff s t, texts_eq→eq ss ts)

not_raised : (b : Bool) (fault : Fault) → raise_if b fault ≡ ok tt → b ≡ false
not_raised true fault e = cc
not_raised false fault e = refl

pub check_universe-IsUniverse :
    (symbols : List Text) (o : Option (List Text))
    → check_universe symbols o ≡ ok tt
    → IsUniverse symbols o
unfolding check_universe
check_universe-IsUniverse symbols none e = cc
check_universe-IsUniverse symbols (some expected) e =
    let (sized, rest) =
      raise_if-eq-ok (not (length expected == 60) || not (length (dedupe expected) == 60))
        universe_invalid _ e in
    let same =
      texts_eq→eq (sort_by text_leb symbols) (sort_by text_leb expected)
        (not_false _ (not_raised _ _ rest)) in
    record {
      expected = expected;
      known = refl;
      sixty = ground (arith, sized);
      distinct = ground (arith, sized);
      requested = λ s.
          sym (count-sort_by text_leb s symbols)
          ∙ ap (count s) same
          ∙ count-sort_by text_leb s expected;
    }
  where
    not_false : (b : Bool) → not b ≡ false → b ≡ true
    not_false true e = refl
    not_false false e = cc

-- The window begins and ends in the day, and is not empty.
pub record IsInDay (date lo hi : ℕ) : Type 0 where
  pub begins : date * day_ns ≤ lo
  pub nonempty : lo < hi
  pub ends : hi ≤ date * day_ns + day_ns

pub window_is_outside-IsInDay :
    (date lo hi : ℕ) → window_is_outside date lo hi ≡ false → IsInDay date lo hi
window_is_outside-IsInDay date lo hi e = record {
  begins = ground arith;
  nonempty = ground arith;
  ends = ground arith;
}
