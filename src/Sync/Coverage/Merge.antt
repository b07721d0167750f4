-- ===== src/Sync/Coverage/Merge.antt =====
-- What the loop of `merge_range` builds: the ranges that do not touch the new one, and the hull of
-- the new one with those that do.
use warsaw_beer_bot.Base.{ℕ, ◌≡◌, Bool, not, List, [], ◌∷◌, ◌++◌, filter, Bool-cases, inl, inr}
use mathlib.Core.List.{append_assoc, append-nil}
use warsaw_beer_bot.Sync.Coverage.{CoverageRange, touches, lower, upper, merge_loop}

abbrev pub untouched : ℕ → ℕ → CoverageRange → Bool
untouched from to r = not (touches from to r)

-- The hull of a range and of the ranges of a list.
unfoldable pub hull : ℕ → ℕ → List CoverageRange → CoverageRange
hull lo hi [] = record { from_id = lo; to_id = hi }
hull lo hi (r ∷ rs) = hull (lower lo r) (upper hi r) rs

pub merge_loop_lem :
    (from to lo hi : ℕ) (kept rs : List CoverageRange)
    → merge_loop from to lo hi kept rs
      ≡ (kept ++ filter (untouched from to) rs) ++ hull lo hi (filter (touches from to) rs) ∷ []
unfolding merge_loop hull
merge_loop_lem from to lo hi kept [] = rw append-nil
merge_loop_lem from to lo hi kept (r ∷ rs) = elim (Bool-cases (touches from to r)) [
  | inl e ↦ rw (e, merge_loop_lem from to (lower lo r) (upper hi r) kept rs)
  | inr e ↦ rw (e, merge_loop_lem from to lo hi (kept ++ r ∷ []) rs) (simp append_assoc)
]
