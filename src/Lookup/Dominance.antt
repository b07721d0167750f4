-- ===== src/Lookup/Dominance.antt =====
-- The candidate that a search result list is about.
use warsaw_beer_bot.Base.{
  ℕ, ◌-◌, ◌*◌, ◌≤◌, ◌≡◌, refl, ap, subst, All-imp, inl, inr, Bool, false, Option, none, some, List,
  [], ◌∷◌, leb, ltb, Bool-cases, All, AllPairs, arith,
}
use warsaw_beer_bot.Base.Sort.{sort, AllPairs-sort}
use warsaw_beer_bot.Lookup.{
  SearchResult, rank, rivals, runner_up, contradicts, led_by, of_ranked, dominant_candidate,
  flagship_min_ratings, dominance_ratio, unique_from,
}

abbrev by_rank : SearchResult → SearchResult → Bool
by_rank a b = leb (rank b) (rank a)

abbrev pub ranking : List SearchResult → List SearchResult
ranking results = sort by_rank (unique_from [] results)

abbrev Descends : List SearchResult → Type 0
Descends = AllPairs (λ a b. rank b ≤ rank a)

-- The leader of a ranking has the ratings of a flagship, five times those of any other candidate, and
-- no strength that speaks against it.
abbrev pub Dominates : ℕ → Option ℕ → SearchResult → List SearchResult → Type 0
Dominates tolerance abv r l =
    (n : ℕ) × (r.rating_count ≡ some n)
    × (flagship_min_ratings ≤ n)
    × All (λ x. dominance_ratio * (rank x - 1) ≤ n) l
    × (contradicts tolerance abv r.abv ≡ false)

weak :
    (n : ℕ) (l : List SearchResult)
    → Descends l
    → rivals (runner_up l) n ≡ false
    → All (λ x. dominance_ratio * (rank x - 1) ≤ n) l
weak n [] d h = tt
weak n (x ∷ l) d h = (first x.rating_count refl h, All-imp (λ y k. later y k) l d.0)
  where
    first :
        (c : Option ℕ)
        → x.rating_count ≡ c
        → rivals c n ≡ false
        → dominance_ratio * (rank x - 1) ≤ n
    first none e k = rw e (ground arith)
    first (some c) e k = elim (Bool-cases (ltb 0 c)) [
      | inl f ↦ let k1 = rw f at k in rw e (ground arith)
      | inr f ↦ rw e (ground arith)
    ]

    later : (y : SearchResult) → rank y ≤ rank x → dominance_ratio * (rank y - 1) ≤ n
    later y k = ground (arith, first x.rating_count refl h)

of_ranked-Dominates :
    (tolerance : ℕ) (abv : Option ℕ) (ranked : List SearchResult) (r : SearchResult)
    → Descends ranked
    → of_ranked tolerance abv ranked ≡ some r
    → (l : List SearchResult) × (ranked ≡ r ∷ l) × Dominates tolerance abv r l
of_ranked-Dominates tolerance abv [] r d e = absurd (none_is e)
  where
    none_is : none ≡ some r → ⊥
    none_is k = cc
of_ranked-Dominates tolerance abv (x ∷ l) r d e = by_count x.rating_count refl e
  where
    none_is : none ≡ some r → ⊥
    none_is k = cc

    by_count :
        (c : Option ℕ)
        → x.rating_count ≡ c
        → led_by tolerance abv x l c ≡ some r
        → (t : List SearchResult) × (x ∷ l ≡ r ∷ t) × Dominates tolerance abv r t
    by_count none k h = absurd (none_is h)
    by_count (some n) k h = elim (Bool-cases (ltb n flagship_min_ratings)) [
      | inl f ↦ absurd (none_is (rw f at h))
      | inr f ↦ elim (Bool-cases (rivals (runner_up l) n)) [
        | inl g ↦ absurd (none_is (rw (f, g) at h))
        | inr g ↦ elim (Bool-cases (contradicts tolerance abv x.abv)) [
          | inl i ↦ absurd (none_is (rw (f, g, i) at h))
          | inr i ↦ leads n k f g i (rw (f, g, i) at h)
        ]
      ]
    ]
      where
        leads :
            (n : ℕ)
            → x.rating_count ≡ some n
            → ltb n flagship_min_ratings ≡ false
            → rivals (runner_up l) n ≡ false
            → contradicts tolerance abv x.abv ≡ false
            → some x ≡ some r
            → (t : List SearchResult) × (x ∷ l ≡ r ∷ t) × Dominates tolerance abv r t
        leads n k f g i h =
            let same : x ≡ r = cc in
            (
              l,
              ap (λ y. y ∷ l) same,
              subst (λ y. Dominates tolerance abv y l) same (n, k, ground arith, weak n l d.1 g, i),
            )

-- A candidate that is chosen leads the ranking of the results, with at least 1000 ratings, at least
-- five times the ratings of every other candidate, and no contradicting strength.
pub dominant_candidate-Dominates :
    (tolerance : ℕ) (results : List SearchResult) (abv : Option ℕ) (r : SearchResult)
    → dominant_candidate tolerance results abv ≡ some r
    → (l : List SearchResult) × (ranking results ≡ r ∷ l) × Dominates tolerance abv r l
unfolding dominant_candidate
dominant_candidate-Dominates tolerance results abv r =
    of_ranked-Dominates tolerance abv (ranking results) r (
      AllPairs-sort by_rank (λ a b. rank b ≤ rank a) (λ a b e. ground arith) (λ a b e. ground arith)
        (λ a b c h k. ground arith) (unique_from [] results))
