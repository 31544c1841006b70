-- ===== src/Pipeline/Quality/Intersection.antt =====
-- The intersection of two lists of intervals, src/miry/pipeline/quality.py.
use miry_data_collector.Base.{
  ℕ, ◌+◌, ◌≡◌, refl, max, min, ◌∙◌, sym, Bool, true, false, ◌&&◌, ◌||◌, List, [], ◌∷◌, ◌++◌, arith,
  ltb, leb, ap, ap₂,
}
use miry_data_collector.Pipeline.Quality.Durations.{
  Interval, is_inside, union_duration, meet_one, meet_all, intersection_duration,
}
use miry_data_collector.Pipeline.Quality.Points.{count, count-ext, count-or_and}
use miry_data_collector.Pipeline.Quality.Coverage.{union_duration-eq-count}

pub is_inside-append :
    (t : ℕ) (xs ys : List Interval) → is_inside t (xs ++ ys) ≡ (is_inside t xs || is_inside t ys)
is_inside-append t [] ys = refl
is_inside-append t (x ∷ xs) ys = ground (arith, is_inside-append t xs ys)

and_or : (a b c : Bool) → ((a && b) || (a && c)) ≡ (a && (b || c))
and_or a b c = ground arith

or_and : (a b c : Bool) → ((a && c) || (b && c)) ≡ ((a || b) && c)
or_and a b c = ground arith

both_and : (a b c : Bool) → (a && (b && c)) ≡ ((a && b) && (a && c))
both_and a b c = ground arith

and_or_false : (a b c : Bool) → (a && b) ≡ false → (a && c) ≡ (a && (b || c))
and_or_false a b c h = ground arith

within_meet :
    (t a b c d : ℕ)
    → (leb (max a c) t && ltb t (min b d)) ≡ ((leb a t && ltb t b) && (leb c t && ltb t d))
within_meet t a b c d = ground arith

within_meet_empty :
    (t a b c d : ℕ)
    → ltb (max a c) (min b d) ≡ false
    → ((leb a t && ltb t b) && (leb c t && ltb t d)) ≡ false
within_meet_empty t a b c d h = ground arith

is_inside-meet_one :
    (t : ℕ) (i : Interval) (ys : List Interval)
    → is_inside t (meet_one i ys) ≡ ((leb i.0 t && ltb t i.1) && is_inside t ys)
unfolding meet_one
is_inside-meet_one t (a, b) [] = ground arith
is_inside-meet_one t (a, b) ((c, d) ∷ ys) =
    go (ltb (max a c) (min b d)) refl (is_inside-meet_one t (a, b) ys)
  where
    go :
        (x : Bool)
        → ltb (max a c) (min b d) ≡ x
        → is_inside t (meet_one (a, b) ys) ≡ ((leb a t && ltb t b) && is_inside t ys)
        → is_inside t
            (elim x [ true ↦ (max a c, min b d) ∷ meet_one (a, b) ys | false ↦ meet_one (a, b) ys ])
          ≡ ((leb a t && ltb t b) && ((leb c t && ltb t d) || is_inside t ys))
    go true e ih =
        ap₂ ◌||◌ (within_meet t a b c d) ih
        ∙ and_or (leb a t && ltb t b) (leb c t && ltb t d) (is_inside t ys)
    go false e ih =
        ih
        ∙ and_or_false (leb a t && ltb t b) (leb c t && ltb t d) (is_inside t ys)
            (within_meet_empty t a b c d e)

is_inside-meet_all :
    (t : ℕ) (xs ys : List Interval)
    → is_inside t (meet_all xs ys) ≡ (is_inside t xs && is_inside t ys)
unfolding meet_all
is_inside-meet_all t [] ys = refl
is_inside-meet_all t (x ∷ xs) ys =
    is_inside-append t (meet_one x ys) (meet_all xs ys)
    ∙ ap₂ ◌||◌ (is_inside-meet_one t x ys) (is_inside-meet_all t xs ys)
    ∙ or_and (leb x.0 t && ltb t x.1) (is_inside t xs) (is_inside t ys)

-- The intersection's duration is the number of points of the window that both lists cover.
pub intersection_duration-eq-count :
    (lo hi : ℕ) (xs ys : List Interval)
    → intersection_duration lo hi xs ys
      ≡ count (λ t. (leb lo t && ltb t hi) && (is_inside t xs && is_inside t ys)) hi
unfolding intersection_duration
intersection_duration-eq-count lo hi xs ys =
    union_duration-eq-count lo hi (meet_all xs ys)
    ∙ count-ext _ _ hi (λ t h. rw (is_inside-meet_all t xs ys))

-- The points that either list covers and those that both cover are, together, the points of each:
-- the accounted time of a day and its conflicting time add up to its valid and its invalid time.
pub union_duration-append :
    (lo hi : ℕ) (xs ys : List Interval)
    → union_duration lo hi (xs ++ ys) + intersection_duration lo hi xs ys
      ≡ union_duration lo hi xs + union_duration lo hi ys
union_duration-append lo hi xs ys =
    rw
      (
        union_duration-eq-count lo hi (xs ++ ys),
        intersection_duration-eq-count lo hi xs ys,
        union_duration-eq-count lo hi xs,
        union_duration-eq-count lo hi ys,
      )
      (omega (
        arith,
        count-or_and (λ t. (leb lo t && ltb t hi) && is_inside t xs)
            (λ t. (leb lo t && ltb t hi) && is_inside t ys) hi,
        count-ext (λ t. (leb lo t && ltb t hi) && is_inside t (xs ++ ys)) _ hi (λ t h. either t),
        count-ext (λ t. (leb lo t && ltb t hi) && (is_inside t xs && is_inside t ys)) _ hi
            (λ t h. both t),
      ))
  where
    either :
        (t : ℕ)
        → ((leb lo t && ltb t hi) && is_inside t (xs ++ ys)) ≡ (
            ((leb lo t && ltb t hi) && is_inside t xs)
            || ((leb lo t && ltb t hi) && is_inside t ys))
    either t =
        ap (◌&&◌ (leb lo t && ltb t hi)) (is_inside-append t xs ys)
        ∙ sym (and_or (leb lo t && ltb t hi) (is_inside t xs) (is_inside t ys))

    both :
        (t : ℕ)
        → ((leb lo t && ltb t hi) && (is_inside t xs && is_inside t ys)) ≡ (
            ((leb lo t && ltb t hi) && is_inside t xs)
            && ((leb lo t && ltb t hi) && is_inside t ys))
    both t = both_and (leb lo t && ltb t hi) (is_inside t xs) (is_inside t ys)
