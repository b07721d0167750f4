-- ===== src/Sync/Coverage/Disjoint.antt =====
-- Merged coverage stays in its normal form: ranges that do not even touch, the highest first.
use warsaw_beer_bot.Base.{
  ℕ, ◌+◌, ◌≤◌, ◌<◌, ◌≡◌, ◌⊎◌, inl, inr, Bool, true, some, List, [], ◌∷◌, ◌++◌, filter, Bool-cases,
  arith, All, All-filter, All-filter_self, AllPairs, AllPairs-filter, All-append, All-imp, All-and,
  All-filter_imp,
}
use warsaw_beer_bot.Base.Sort.{sort, insert_sorted, All-insert_sorted, All-sort}
use warsaw_beer_bot.Sync.Coverage.{
  CoverageRange, integer, touches, newest_first, lower, upper, merge_range,
}
use warsaw_beer_bot.Sync.Coverage.Merge.{untouched, hull}
use warsaw_beer_bot.Sync.Coverage.Union.{merge_range_lem}

abbrev pub IsRange : CoverageRange → Type 0
IsRange r = r.from_id ≤ r.to_id

-- `a` lies above `b`, with at least one id between them.
abbrev pub Above : CoverageRange → CoverageRange → Type 0
Above a b = b.to_id + 1 < a.from_id

-- A gap of at least one id between the two, either way round.
abbrev pub Apart : CoverageRange → CoverageRange → Type 0
Apart a b = Above a b ⊎ Above b a

-- The normal form of a coverage.
abbrev pub IsCoverage : List CoverageRange → Type 0
IsCoverage rs = All IsRange rs × AllPairs Above rs

abbrev Touches : ℕ → ℕ → CoverageRange → Type 0
Touches from to r = touches from to r ≡ true

-- A range apart from the new one and from all that touch it is apart from their hull.
Apart-hull :
    (from to lo hi : ℕ) (k : CoverageRange) (rs : List CoverageRange)
    → IsRange k
    → lo ≤ from
    → to ≤ hi
    → from ≤ to
    → (k.to_id + 1 < lo) ⊎ (hi + 1 < k.from_id)
    → All (Touches from to) rs
    → All IsRange rs
    → All (Apart k) rs
    → Apart k (hull lo hi rs)
unfolding hull
Apart-hull from to lo hi k [] v l h f a t rv d = ground arith
Apart-hull from to lo hi k (r ∷ rs) v l h f a t rv d =
    Apart-hull from to (lower lo r) (upper hi r) k rs v (ground arith) (ground arith) f
      (ground (arith, t.0, rv.0, d.0)) t.1 rv.1 d.1

pub IsRange-hull : (lo hi : ℕ) (rs : List CoverageRange) → lo ≤ hi → IsRange (hull lo hi rs)
unfolding hull
IsRange-hull lo hi [] h = h
IsRange-hull lo hi (r ∷ rs) h = IsRange-hull (lower lo r) (upper hi r) rs (ground arith)

AllPairs-Apart : (rs : List CoverageRange) → AllPairs Above rs → AllPairs Apart rs
AllPairs-Apart [] h = tt
AllPairs-Apart (r ∷ rs) h = (All-imp (λ s k. inl k) rs h.0, AllPairs-Apart rs h.1)

Apart-sym : (a b : CoverageRange) → Apart a b → Apart b a
Apart-sym a b (inl h) = inr h
Apart-sym a b (inr h) = inl h

-- Ranges on the two sides of a filter are apart if all ranges are.
All-Apart_split :
    (p q : CoverageRange → Bool) (rs : List CoverageRange)
    → ((r : CoverageRange) → p r ≡ true → q r ≡ true → ⊥)
    → AllPairs Apart rs
    → All (λ k. All (λ r. q r ≡ true → Apart k r) rs) (filter p rs)
All-Apart_split p q [] x h = tt
All-Apart_split p q (r ∷ rs) x h =
    let later =
      All-and _ _ (filter p rs)
        (All-filter (λ k. q r ≡ true → Apart k r) p rs (All-imp (λ k a f. Apart-sym r k a) rs h.0))
        (All-Apart_split p q rs x h.1) in
    elim (Bool-cases (p r)) [
      | inl e ↦ rw e ((λ f. absurd (x r e f), All-imp (λ s a f. a) rs h.0), later)
      | inr e ↦ rw e later
    ]

-- Sorting ranges that are apart puts them in descending order.
insert_sorted-Above :
    (x : CoverageRange) (ys : List CoverageRange)
    → IsRange x
    → All IsRange ys
    → All (Apart x) ys
    → AllPairs Above ys
    → AllPairs Above (insert_sorted newest_first x ys)
unfolding insert_sorted
insert_sorted-Above x [] v w h k = (tt, tt)
insert_sorted-Above x (y ∷ ys) v w h k = elim (Bool-cases (newest_first x y)) [
  | inl e ↦
      let first : Above x y = ground (arith, h.0, w.0) in
      rw e ((first, All-imp (λ s (b : Above y s). omega (arith, w.0)) ys k.0), k)
  | inr e ↦ rw e (
    All-insert_sorted newest_first (Above y) x ys (ground (arith, h.0, w.0)) k.0,
    insert_sorted-Above x ys v w.1 h.1 k.1,
  )
]

sort-Above :
    (rs : List CoverageRange)
    → All IsRange rs
    → AllPairs Apart rs
    → AllPairs Above (sort newest_first rs)
unfolding sort
sort-Above [] v h = tt
sort-Above (r ∷ rs) v h =
    insert_sorted-Above r (sort newest_first rs) v.0 (All-sort newest_first IsRange rs v.1)
      (All-sort newest_first (Apart r) rs h.0) (sort-Above rs v.1 h.1)

AllPairs-append :
    (xs : List CoverageRange) (y : CoverageRange)
    → AllPairs Apart xs
    → All (λ x. Apart x y) xs
    → AllPairs Apart (xs ++ y ∷ [])
AllPairs-append [] y h k = (tt, tt)
AllPairs-append (x ∷ xs) y h k =
    (All-append (Apart x) xs (y ∷ []) h.0 (k.0, tt), AllPairs-append xs y h.1 k.1)

untouched-Apart :
    (from to : ℕ) (k : CoverageRange)
    → IsRange k
    → untouched from to k ≡ true
    → (k.to_id + 1 < from) ⊎ (to + 1 < k.from_id)
untouched-Apart from to k v h = ground arith

module _ (ranges : List CoverageRange) (from to : ℕ) (ordered : from ≤ to)
    (c : All IsRange ranges × AllPairs Apart ranges) where
  abbrev pub kept : List CoverageRange
  kept = filter (untouched from to) ranges

  abbrev pub near : List CoverageRange
  near = filter (touches from to) ranges

  kept-IsRange : All IsRange kept
  kept-IsRange = All-filter IsRange (untouched from to) ranges c.0

  pub kept-Apart-hull : All (λ k. Apart k (hull from to near)) kept
  kept-Apart-hull =
      All-imp
        (λ k h.
          Apart-hull from to from to k near h.0 (omega arith) (omega arith) ordered
            (untouched-Apart from to k h.0 h.1.0) (All-filter_self (touches from to) ranges)
            (All-filter IsRange (touches from to) ranges c.0)
            (All-filter_imp _ (touches from to) ranges h.1.1))
        kept
        (All-and _ _ kept kept-IsRange (
          All-and _ _ kept (All-filter_self (untouched from to) ranges) (
            All-Apart_split (untouched from to) (touches from to) ranges (λ r p q. ground arith)
              c.1)))

  -- What is kept and the hull are apart from one another.
  pub kept_and_hull :
      All IsRange (kept ++ hull from to near ∷ []) × AllPairs Apart (kept ++ hull from to near ∷ [])
  kept_and_hull = (
    All-append IsRange kept _ kept-IsRange (IsRange-hull from to near ordered, tt),
    AllPairs-append kept (hull from to near) (AllPairs-filter Apart (untouched from to) ranges c.1)
        kept-Apart-hull,
  )

-- Sorting puts ranges that are apart in the normal form.
pub sort-IsCoverage :
    (rs : List CoverageRange)
    → All IsRange rs × AllPairs Apart rs
    → IsCoverage (sort newest_first rs)
sort-IsCoverage rs h = (All-sort newest_first IsRange rs h.0, sort-Above rs h.0 h.1)

-- A merge keeps the normal form: every range the right way round, no two of them touching, the
-- highest first.
pub merge_range-IsCoverage :
    (ranges : List CoverageRange) (from to : ℕ) (out : List CoverageRange)
    → IsCoverage ranges
    → merge_range ranges (integer from) (integer to) ≡ some out
    → IsCoverage out
merge_range-IsCoverage ranges from to out c merged =
    let (ordered, same) = merge_range_lem ranges from to out merged in
    rw same
      (sort-IsCoverage _ (kept_and_hull ranges from to ordered (c.0, AllPairs-Apart ranges c.1)))
