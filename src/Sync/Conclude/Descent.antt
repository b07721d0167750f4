-- ===== src/Sync/Conclude/Descent.antt =====
-- The walk goes down, and skips only ids that are covered.
use warsaw_beer_bot.Base.{
  ℕ, ◌≤◌, ◌<◌, ◌≡◌, refl, inl, inr, false, Option, some, List, [], ◌∷◌, leb, ◌&&◌, Bool-cases,
  Option-cases, arith,
}
use warsaw_beer_bot.Base.Decimal.{Text, decimal, show, decimal-show}
use warsaw_beer_bot.Sync.Coverage.{CoverageRange, range_containing}
use warsaw_beer_bot.Sync.Coverage.Union.{Covers, IsCovered}
use warsaw_beer_bot.Sync.Guards.{CheckinFeedPage, accept, check_page}
use warsaw_beer_bot.Sync.Guards.Verdicts.{IsProof, check_page-accept}
use warsaw_beer_bot.Sync.Conclude.{is_caught_up, bottom_of, conclude}

-- The range that is found holds the id, and is one of the ranges.
pub range_containing-some :
    (ranges : List CoverageRange) (id : ℕ) (r : CoverageRange)
    → range_containing ranges id ≡ some r
    → Covers id r × ((k : ℕ) → Covers k r → IsCovered k ranges)
unfolding range_containing
range_containing-some [] id r h = cc
range_containing-some (s ∷ ranges) id r h = elim (Bool-cases (leb s.from_id id && leb id s.to_id)) [
  | inl e ↦
      let same : s ≡ r = ground arith in rw (← same) ((ground arith, ground arith), λ k c. inl c)
  | inr e ↦
      let (holds, inside) = range_containing-some ranges id r (rw e at h) in
      (holds, λ k c. inr (inside k c))
]

pub bottom_of-le : (ranges : List CoverageRange) (oldest : ℕ) → bottom_of ranges oldest ≤ oldest
unfolding bottom_of
bottom_of-le ranges oldest = elim (Option-cases (range_containing ranges oldest)) [
  | inl e ↦ rw (e, bottom_of) (omega arith)
  | inr (r, e) ↦ rw (e, bottom_of) (range_containing-some ranges oldest r e).0.0
]

-- Every id from the next cursor to the oldest id of the page, the latter left out, is covered: the
-- jump passes over nothing that the walk has not seen.
pub bottom_of-IsCovered :
    (ranges : List CoverageRange) (oldest id : ℕ)
    → bottom_of ranges oldest ≤ id
    → id < oldest
    → IsCovered id ranges
unfolding bottom_of
bottom_of-IsCovered ranges oldest id low high =
    elim (Option-cases (range_containing ranges oldest)) [
      | inl e ↦ absurd (omega (arith, rw (e, bottom_of) at low))
      | inr (r, e) ↦
          let (holds, inside) = range_containing-some ranges oldest r e in
          inside id (rw (e, bottom_of) at low, omega (arith, holds.1))
    ]

-- After an accepted page the next cursor, if there is one, is a number below the cursor of the
-- request.
pub conclude_descends :
    (page : CheckinFeedPage) (max_id : Text) (known : Option ℕ) (n : ℕ) (ids : List ℕ)
    (oldest newest count : ℕ) (total : Option ℕ) (ranges : List CoverageRange) (next : Text)
    → check_page page (some max_id) known ≡ accept (some n) ids oldest newest
    → (conclude count total ranges oldest).next_cursor ≡ some next
    → (m : ℕ) × (decimal next ≡ some m) × (m < n)
unfolding conclude
conclude_descends page max_id known n ids oldest newest count total ranges next accepted h =
    elim (Bool-cases (is_caught_up count total ranges)) [
      | inl e ↦ cc
      | inr e ↦ (
        bottom_of ranges oldest,
        read e,
        omega (arith, bottom_of-le ranges oldest, proved.below n refl),
      )
    ]
  where
    proved : IsProof (some n) ids oldest newest
    proved = (check_page-accept page (some max_id) known (some n) ids oldest newest accepted).3

    read : is_caught_up count total ranges ≡ false → decimal next ≡ some (bottom_of ranges oldest)
    read e =
        let shown : next ≡ show (bottom_of ranges oldest) = ground arith in
        rw shown (decimal-show (bottom_of ranges oldest))
