-- ===== src/Sync/Store/Order.antt =====
-- The order in which the rows of a coverage come does not matter to the hull nor to a later sort.
use warsaw_beer_bot.Base.{
  ℕ, ◌≡◌, refl, ◌∙◌, Bool, false, inl, inr, List, [], ◌∷◌, ◌++◌, Bool-cases, filter, arith,
}
use warsaw_beer_bot.Base.Sort.{sort, insert_sorted}
use warsaw_beer_bot.Sync.Coverage.{CoverageRange, newest_first, lower, upper}
use warsaw_beer_bot.Sync.Coverage.Merge.{hull}

lower_swap : (lo : ℕ) (r s : CoverageRange) → lower (lower lo s) r ≡ lower (lower lo r) s
lower_swap lo r s = ground arith

upper_swap : (hi : ℕ) (r s : CoverageRange) → upper (upper hi s) r ≡ upper (upper hi r) s
upper_swap hi r s = ground arith

hull_swap :
    (lo hi : ℕ) (r s : CoverageRange) (rs : List CoverageRange)
    → hull lo hi (s ∷ r ∷ rs) ≡ hull lo hi (r ∷ s ∷ rs)
unfolding hull
hull_swap lo hi r s rs = λ i. hull (lower_swap lo r s i) (upper_swap hi r s i) rs

hull-cons :
    (p : CoverageRange → Bool) (r : CoverageRange) (rs ts : List CoverageRange)
    → ((lo hi : ℕ) → hull lo hi (filter p rs) ≡ hull lo hi (filter p ts))
    → (lo hi : ℕ) → hull lo hi (filter p (r ∷ rs)) ≡ hull lo hi (filter p (r ∷ ts))
unfolding hull
hull-cons p r rs ts h lo hi = elim (Bool-cases (p r)) [
  | inl e ↦ rw e (h (lower lo r) (upper hi r))
  | inr e ↦ rw e (h lo hi)
]

hull-filter_swap :
    (p : CoverageRange → Bool) (lo hi : ℕ) (r s : CoverageRange) (rs : List CoverageRange)
    → hull lo hi (filter p (s ∷ r ∷ rs)) ≡ hull lo hi (filter p (r ∷ s ∷ rs))
hull-filter_swap p lo hi r s rs = elim (Bool-cases (p r)) [
  | inl e ↦ elim (Bool-cases (p s)) [
    | inl f ↦ rw (e, f) (hull_swap lo hi r s (filter p rs))
    | inr f ↦ rw (e, f)
  ]
  | inr e ↦ rw e
]

-- The order in which the rows come does not matter to the hull …
hull-insert_sorted :
    (p : CoverageRange → Bool) (r : CoverageRange) (rs : List CoverageRange) (lo hi : ℕ)
    → hull lo hi (filter p (insert_sorted newest_first r rs)) ≡ hull lo hi (filter p (r ∷ rs))
unfolding insert_sorted
hull-insert_sorted p r [] lo hi = refl
hull-insert_sorted p r (s ∷ rs) lo hi = elim (Bool-cases (newest_first r s)) [
  | inl e ↦ rw e
  | inr e ↦
      rw e (
        hull-cons p s _ (r ∷ rs) (hull-insert_sorted p r rs) lo hi
        ∙ hull-filter_swap p lo hi r s rs)
]

pub hull-sort :
    (p : CoverageRange → Bool) (rs : List CoverageRange) (lo hi : ℕ)
    → hull lo hi (filter p (sort newest_first rs)) ≡ hull lo hi (filter p rs)
unfolding sort
hull-sort p [] lo hi = refl
hull-sort p (r ∷ rs) lo hi =
    hull-insert_sorted p r (sort newest_first rs) lo hi ∙ hull-cons p r _ rs (hull-sort p rs) lo hi

-- … nor to a later sort.
pub insert_sorted_swap :
    (r y : CoverageRange) (zs : List CoverageRange)
    → newest_first r y ≡ false
    → insert_sorted newest_first y (insert_sorted newest_first r zs)
      ≡ insert_sorted newest_first r (insert_sorted newest_first y zs)
unfolding insert_sorted
insert_sorted_swap r y [] h = ground arith
insert_sorted_swap r y (z ∷ zs) h = ground (arith, insert_sorted_swap r y zs h)

resort-insert_sorted :
    (p : CoverageRange → Bool) (last r : CoverageRange) (rs : List CoverageRange)
    → sort newest_first (filter p (insert_sorted newest_first r rs) ++ last ∷ [])
      ≡ sort newest_first (filter p (r ∷ rs) ++ last ∷ [])
unfolding sort insert_sorted
resort-insert_sorted p last r [] = refl
resort-insert_sorted p last r (y ∷ rs) = elim (Bool-cases (newest_first r y)) [
  | inl e ↦ rw e
  | inr e ↦ elim (Bool-cases (p y)) [
    | inl f ↦ elim (Bool-cases (p r)) [
      | inl g ↦ rw (e, f, g, resort-insert_sorted p last r rs, g) (insert_sorted_swap r y _ e)
      | inr g ↦ rw (e, f, g, resort-insert_sorted p last r rs, g)
    ]
    | inr f ↦ rw (e, f, resort-insert_sorted p last r rs)
  ]
]

pub resort :
    (p : CoverageRange → Bool) (last : CoverageRange) (rs : List CoverageRange)
    → sort newest_first (filter p (sort newest_first rs) ++ last ∷ [])
      ≡ sort newest_first (filter p rs ++ last ∷ [])
unfolding sort
resort p last [] = refl
resort p last (r ∷ rs) =
    resort-insert_sorted p last r (sort newest_first rs) ∙ elim (Bool-cases (p r)) [
      | inl e ↦ rw (e, resort p last rs)
      | inr e ↦ rw (e, resort p last rs)
    ]
