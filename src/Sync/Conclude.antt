-- ===== src/Sync/Conclude.antt =====
-- src/shared/checkin-sync/conclude.ts: where the walk over the feed steps next.
pub mod Descent
use warsaw_beer_bot.Base.{
  ℕ, Bool, false, ◌&&◌, Option, none, some, List, leb, if◌then◌else◌, length, ◌==◌,
}
use warsaw_beer_bot.Base.Decimal.{Text, show}
use warsaw_beer_bot.Sync.Coverage.{CoverageRange, range_containing}

pub record SyncConclusion : Type 0 where
  pub caught_up : Bool
  pub next_cursor : Option Text

abbrev reached : ℕ → Option ℕ → Bool
reached count none = false
reached count (some profile_total) = leb profile_total count

unfoldable pub is_caught_up : ℕ → Option ℕ → List CoverageRange → Bool
is_caught_up count profile_total ranges = reached count profile_total && length ranges == 1

-- `covering?.from_id ?? oldest`
unfoldable pub bottom_of : List CoverageRange → ℕ → ℕ
bottom_of ranges oldest = elim (range_containing ranges oldest) [
  | none ↦ oldest
  | some covering ↦ covering.from_id
]

unfoldable pub conclude : ℕ → Option ℕ → List CoverageRange → ℕ → SyncConclusion
conclude count profile_total ranges oldest = record {
  caught_up = is_caught_up count profile_total ranges;
  next_cursor =
      if is_caught_up count profile_total ranges
      then none
      else some (show (bottom_of ranges oldest));
}
