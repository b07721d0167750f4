-- ===== src/Sync/Coverage.antt =====
-- src/shared/checkin-sync/coverage.ts: the coverage of a check-in history, a list of ranges of ids
-- each of which a page of the feed has proved. A check-in id is a natural number; what is no
-- integer, such as 1.5 or NaN, is `not_integer`. A thrown error is `none`.
pub mod Merge
pub mod Union
pub mod Disjoint
use warsaw_beer_bot.Base.{
  ℕ, ◌+◌, Bool, not, ◌&&◌, Option, none, some, List, [], ◌∷◌, ◌++◌, ltb, leb, if◌then◌else◌, find?,
}
use warsaw_beer_bot.Base.Sort.{sort}

pub record CoverageRange : Type 0 where
  pub from_id : ℕ
  pub to_id : ℕ

pub data Number : Type 0 where
  integer : ℕ → Number
  not_integer : Number

-- `r.to_id >= from - 1 && r.from_id <= to + 1`, with the 1 on the side where nothing is negative.
abbrev pub touches : ℕ → ℕ → CoverageRange → Bool
touches from to r = leb from (r.to_id + 1) && leb r.from_id (to + 1)

-- The comparator `(a, b) => b.from_id - a.from_id`: the highest range first.
abbrev pub newest_first : CoverageRange → CoverageRange → Bool
newest_first a b = leb b.from_id a.from_id

abbrev pub lower : ℕ → CoverageRange → ℕ
lower lo r = if ltb r.from_id lo then r.from_id else lo

abbrev pub upper : ℕ → CoverageRange → ℕ
upper hi r = if ltb hi r.to_id then r.to_id else hi

-- The loop of `mergeRange`, with the `push` that follows it.
pub merge_loop : ℕ → ℕ → ℕ → ℕ → List CoverageRange → List CoverageRange → List CoverageRange
merge_loop from to lo hi kept [] = kept ++ record { from_id = lo; to_id = hi } ∷ []
merge_loop from to lo hi kept (r ∷ rs) =
    merge_loop from to (if touches from to r then lower lo r else lo)
      (if touches from to r then upper hi r else hi)
      (if touches from to r then kept else kept ++ r ∷ []) rs

unfoldable pub merge_range : List CoverageRange → Number → Number → Option (List CoverageRange)
unfolding merge_loop
merge_range ranges (integer from) (integer to) =
    if ltb to from then none else some (sort newest_first (merge_loop from to from to [] ranges))
merge_range ranges _ _ = none

unfoldable pub range_containing : List CoverageRange → ℕ → Option CoverageRange
range_containing ranges id = find? (λ r. leb r.from_id id && leb id r.to_id) ranges
