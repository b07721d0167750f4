-- ===== src/Filters/Interesting.antt =====
-- What is left of the taps, and in which order.
use warsaw_beer_bot.Base.{
  ◌≤◌, ◌<◌, ◌≡◌, ◌⊎◌, inl, inr, true, false, ◌&&◌, ◌||◌, List, leb, ltb, ◌==◌, AllPairs, Bool-cases,
  arith,
}
use warsaw_beer_bot.Base.Sort.{AllPairs-sort}
use warsaw_beer_bot.Filters.{TapView, or_zero, ranked_before, rank_by_rating}

-- The better rating first, and of equal ratings the beer with the lower id.
abbrev pub Before : TapView → TapView → Type 0
Before a b =
    (or_zero b.u_rating < or_zero a.u_rating)
    ⊎ (or_zero a.u_rating ≡ or_zero b.u_rating) × (or_zero a.beer_id ≤ or_zero b.beer_id)

-- `rankByRating` puts the taps in that order.
rank_by_rating-Before : (taps : List TapView) → AllPairs Before (rank_by_rating taps)
unfolding rank_by_rating
rank_by_rating-Before taps = AllPairs-sort ranked_before Before holds turns trans taps
  where
    holds : (a b : TapView) → ranked_before a b ≡ true → Before a b
    holds a b e = elim (Bool-cases (ltb (or_zero b.u_rating) (or_zero a.u_rating))) [
      | inl f ↦ inl (ground arith)
      | inr f ↦ inr (rest (rw f at e))
    ]
      where
        rest :
            (false
                || ((or_zero a.u_rating == or_zero b.u_rating)
                    && leb (or_zero a.beer_id) (or_zero b.beer_id)))
              ≡ true
            → (or_zero a.u_rating ≡ or_zero b.u_rating) × (or_zero a.beer_id ≤ or_zero b.beer_id)
        rest e = (ground arith, ground arith)

    turns : (a b : TapView) → ranked_before a b ≡ false → Before b a
    turns a b e = elim (Bool-cases (ltb (or_zero a.u_rating) (or_zero b.u_rating))) [
      | inl f ↦ inl (ground arith)
      | inr f ↦ inr (ground arith, ground arith)
    ]

    trans : (a b c : TapView) → Before a b → Before b c → Before a c
    trans a b c (inl h) (inl k) = inl (ground arith)
    trans a b c (inl h) (inr k) = inl (ground arith)
    trans a b c (inr h) (inl k) = inl (ground arith)
    trans a b c (inr h) (inr k) = inr (ground arith, ground arith)
