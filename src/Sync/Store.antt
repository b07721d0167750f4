-- ===== src/Sync/Store.antt =====
-- src/storage/checkin_coverage.ts: the table checkin_coverage as a list of rows, and the queries on
-- it. Each is the SQL statement of the source; a thrown error, the primary key's included, is `none`.
pub mod Order
pub mod Rows
pub mod Parity
use Prim.Native.String.{String}
use text.Mathlib.Text.{◌==◌ as str_eq}
use warsaw_beer_bot.Base.{
  ℕ, Bool, not, ◌&&◌, Option, none, some, List, [], ◌∷◌, ◌++◌, map, ltb, leb, ◌==◌, if◌then◌else◌,
  filter, any, find?,
}
use warsaw_beer_bot.Base.Sort.{sort}
use warsaw_beer_bot.Sync.Coverage.{
  CoverageRange, Number, integer, not_integer, touches, newest_first,
}
use warsaw_beer_bot.Sync.Coverage.Merge.{hull}

-- A row of the table; its primary key is (telegram_id, account_key, from_id).
pub record CoverageRow : Type 0 where
  pub telegram_id : ℕ
  pub account_key : String
  pub range : CoverageRange

abbrev pub Table : Type 0
Table = List CoverageRow

-- `WHERE telegram_id = ? AND account_key = ?`
abbrev pub owned_by : ℕ → String → CoverageRow → Bool
owned_by telegram_id key row = row.telegram_id == telegram_id && str_eq row.account_key key

abbrev pub touching : ℕ → String → ℕ → ℕ → CoverageRow → Bool
touching telegram_id key from to row = owned_by telegram_id key row && touches from to row.range

abbrev pub ranges_of : ℕ → String → Table → List CoverageRange
ranges_of telegram_id key table = map (λ row. row.range) (filter (owned_by telegram_id key) table)

unfoldable pub coverage_for : Table → ℕ → String → List CoverageRange
coverage_for table telegram_id key = sort newest_first (ranges_of telegram_id key table)

-- `INSERT`, which the primary key refuses where the owner has a row with the same `from_id`.
unfoldable pub insert_row : CoverageRow → Table → Option Table
insert_row new table =
    if any
      (λ row.
        owned_by new.telegram_id new.account_key row && row.range.from_id == new.range.from_id)
      table
    then none
    else some (table ++ new ∷ [])

unfoldable pub add_coverage : Table → ℕ → Number → Number → String → Option Table
unfolding insert_row
add_coverage table telegram_id (integer from) (integer to) key =
    let near = map (λ row. row.range) (filter (touching telegram_id key from to) table) in
    let rest = filter (λ row. not (touching telegram_id key from to row)) table in
    if ltb to from
    then none
    else insert_row
        (record { telegram_id = telegram_id; account_key = key; range = hull from to near }) rest
add_coverage table telegram_id _ _ key = none

-- `SELECT … WHERE from_id <= ? AND to_id >= ? LIMIT 1`
unfoldable pub range_containing : Table → ℕ → ℕ → String → Option CoverageRange
range_containing table telegram_id id key =
    find? (λ r. leb r.from_id id && leb id r.to_id) (ranges_of telegram_id key table)

abbrev pub least : List CoverageRange → Option ℕ
least [] = none
least (r ∷ rs) = elim (least rs) [
  | none ↦ some r.from_id
  | some m ↦ some (if ltb r.from_id m then r.from_id else m)
]

-- `SELECT MIN(from_id)`
unfoldable pub deepest_covered_id : Table → ℕ → String → Option ℕ
deepest_covered_id table telegram_id key = least (ranges_of telegram_id key table)
