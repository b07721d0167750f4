-- ===== src/Sync/Store/Parity.antt =====
-- The SQL of checkin_coverage.ts and the pure merge of checkin-sync/coverage.ts give one coverage.
use Prim.Native.String.{String}
use mathlib.Core.Option
use warsaw_beer_bot.Base.{
  ℕ, ◌≤◌, ◌≡◌, ◌≢◌, refl, sym, ap, ◌∙◌, false, not, inl, inr, some, List, [], ◌∷◌, ◌++◌, ltb,
  Bool-cases, filter, arith, All, All-and, All-imp, All-filter, AllPairs,
}
use warsaw_beer_bot.Base.Sort.{sort}
use warsaw_beer_bot.Sync.Coverage.{
  CoverageRange, Number, integer, not_integer, touches, newest_first, merge_range,
}
use warsaw_beer_bot.Sync.Coverage.Merge.{hull, untouched, merge_loop_lem}
use warsaw_beer_bot.Sync.Coverage.Disjoint.{
  IsRange, IsRange-hull, Apart, kept-Apart-hull, kept_and_hull,
}
use warsaw_beer_bot.Sync.Store.{CoverageRow, Table, touching, ranges_of, coverage_for, add_coverage}
use warsaw_beer_bot.Sync.Store.Order.{hull-sort, resort}
use warsaw_beer_bot.Sync.Store.Rows.{
  touching-ranges, untouched-ranges, ranges_of-append, owned_by_self, no_clash,
}

-- What the table holds of one owner: ranges the right way round, no two of which touch.
abbrev pub IsStored : ℕ → String → Table → Type 0
IsStored telegram_id key table =
    All IsRange (ranges_of telegram_id key table) × AllPairs Apart (ranges_of telegram_id key table)

module _ (telegram_id : ℕ) (key : String) (from to : ℕ) (ordered : from ≤ to) (table : Table)
    (stored : IsStored telegram_id key table) where
  abbrev ranges : List CoverageRange
  ranges = ranges_of telegram_id key table

  abbrev whole : CoverageRange
  whole = hull from to (filter (touches from to) ranges)

  abbrev rest : Table
  rest = filter (λ row. not (touching telegram_id key from to row)) table

  abbrev stored_row : CoverageRow
  stored_row = record { telegram_id = telegram_id; account_key = key; range = whole }

  starts_elsewhere : (k : CoverageRange) → IsRange k × Apart k whole → k.from_id ≢ whole.from_id
  starts_elsewhere k (valid, apart) e =
      absurd (omega (arith, IsRange-hull from to (filter (touches from to) ranges) ordered))

  primary_key_kept : All (λ r. r.from_id ≢ whole.from_id) (ranges_of telegram_id key rest)
  primary_key_kept = rw (untouched-ranges telegram_id key from to table) (
      All-imp starts_elsewhere (filter (untouched from to) ranges) (
        All-and _ _ (filter (untouched from to) ranges)
          (All-filter IsRange (untouched from to) ranges stored.0)
          (kept-Apart-hull ranges from to ordered stored)))

  add_coverage_lem :
      add_coverage table telegram_id (integer from) (integer to) key
      ≡ some (rest ++ stored_row ∷ [])
  unfolding add_coverage
  add_coverage_lem =
      let on_order : ltb to from ≡ false = ground arith in
      rw (
        on_order,
        touching-ranges telegram_id key from to table,
        no_clash telegram_id key whole.from_id rest primary_key_kept,
      )

  ranges_after :
      ranges_of telegram_id key (rest ++ stored_row ∷ [])
      ≡ filter (untouched from to) ranges ++ whole ∷ []
  ranges_after = rw (
    ranges_of-append telegram_id key stored_row rest,
    owned_by_self telegram_id key whole,
    untouched-ranges telegram_id key from to table,
  )

  parity_ordered :
      Option.map
        (λ t. coverage_for t telegram_id key)
        (add_coverage table telegram_id (integer from) (integer to) key)
      ≡ merge_range (coverage_for table telegram_id key) (integer from) (integer to)
  unfolding coverage_for merge_range
  parity_ordered =
      let on_order : ltb to from ≡ false = ground arith in
      rw (add_coverage_lem, on_order, ranges_after)
        (ap some (
          sym (
            ap (sort newest_first) (merge_loop_lem from to from to [] (sort newest_first ranges))
            ∙ rw (hull-sort (touches from to) ranges from to)
                (resort (untouched from to) whole ranges))))

  pub IsStored-add_coverage :
      (after : Table)
      → add_coverage table telegram_id (integer from) (integer to) key ≡ some after
      → IsStored telegram_id key after
  IsStored-add_coverage after h =
      let same : after ≡ rest ++ stored_row ∷ [] = cc add_coverage_lem in
      rw (same, ranges_after) (kept_and_hull ranges from to ordered stored)

-- On a table whose ranges of the owner do not touch, the statements of `add_coverage` leave the
-- coverage that `merge_range` computes from the stored one, and throw exactly where it throws.
pub add_coverage-eq-merge_range :
    (telegram_id : ℕ) (key : String) (from to : Number) (table : Table)
    → IsStored telegram_id key table
    → Option.map (λ t. coverage_for t telegram_id key) (add_coverage table telegram_id from to key)
      ≡ merge_range (coverage_for table telegram_id key) from to
unfolding add_coverage merge_range
add_coverage-eq-merge_range telegram_id key (integer from) (integer to) table stored =
    elim (Bool-cases (ltb to from)) [
      | inl e ↦ rw e
      | inr e ↦ parity_ordered telegram_id key from to (ground arith) table stored
    ]
add_coverage-eq-merge_range telegram_id key (integer from) not_integer table stored = refl
add_coverage-eq-merge_range telegram_id key not_integer to table stored = refl
