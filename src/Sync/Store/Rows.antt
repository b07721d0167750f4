-- ===== src/Sync/Store/Rows.antt =====
-- What the statements of checkin_coverage.ts do to the rows of one owner, and of the others.
use Prim.Native.String.{String}
use text.Mathlib.TextPositions.{eq_refl}
use warsaw_beer_bot.Base.{
  ℕ, ◌≡◌, ◌≢◌, refl, true, false, not, ◌&&◌, inl, inr, [], ◌∷◌, ◌++◌, map, ◌==◌, Bool-cases, filter,
  any, arith, All,
}
use warsaw_beer_bot.Sync.Coverage.{CoverageRange, touches}
use warsaw_beer_bot.Sync.Coverage.Merge.{untouched}
use warsaw_beer_bot.Sync.Store.{CoverageRow, Table, owned_by, touching, ranges_of}

module _ (telegram_id : ℕ) (key : String) where
  pub touching-ranges :
      (from to : ℕ) (table : Table)
      → map (λ row. row.range) (filter (touching telegram_id key from to) table)
        ≡ filter (touches from to) (ranges_of telegram_id key table)
  touching-ranges from to [] = refl
  touching-ranges from to (row ∷ table) = ground (arith, touching-ranges from to table)

  pub untouched-ranges :
      (from to : ℕ) (table : Table)
      → ranges_of telegram_id key (filter (λ row. not (touching telegram_id key from to row)) table)
        ≡ filter (untouched from to) (ranges_of telegram_id key table)
  untouched-ranges from to [] = refl
  untouched-ranges from to (row ∷ table) = ground (arith, untouched-ranges from to table)

  pub ranges_of-append :
      (row : CoverageRow) (table : Table)
      → ranges_of telegram_id key (table ++ row ∷ [])
        ≡ ranges_of telegram_id key table ++ ranges_of telegram_id key (row ∷ [])
  ranges_of-append row [] = refl
  ranges_of-append row (r ∷ table) = ground (arith, ranges_of-append row table)

  pub owned_by_self :
      (range : CoverageRange)
      → owned_by telegram_id key
          (record { telegram_id = telegram_id; account_key = key; range = range })
        ≡ true
  owned_by_self range = ground (arith, eq_refl key)

  -- Where no range of the owner starts at `from_id`, the primary key refuses no insert there.
  pub no_clash :
      (from_id : ℕ) (table : Table)
      → All (λ r. r.from_id ≢ from_id) (ranges_of telegram_id key table)
      → any (λ row. owned_by telegram_id key row && row.range.from_id == from_id) table ≡ false
  no_clash from_id [] h = refl
  no_clash from_id (row ∷ table) h = elim (Bool-cases (owned_by telegram_id key row)) [
    | inl e ↦
        let k : (row.range.from_id ≢ from_id)
            × All (λ r. r.from_id ≢ from_id) (ranges_of telegram_id key table) =
          rw e at h in
        rw e (ground (arith, k.0, no_clash from_id table k.1))
    | inr e ↦ rw e (no_clash from_id table (rw e at h))
  ]
