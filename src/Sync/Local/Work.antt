-- ===== src/Sync/Local/Work.antt =====
-- The stores after the loop over the rows of a page.
use Prim.Native.String.{String}
use warsaw_beer_bot.Base.{
  ℕ, suc, ◌+◌, ◌≡◌, refl, inl, inr, Option, none, some, List, [], ◌∷◌, ◌==◌, if◌then◌else◌, length,
  Bool-cases, arith,
}
use warsaw_beer_bot.Sync.Guards.{FeedCheckin}
use warsaw_beer_bot.Sync.Local.{LocalCheckin, checkin, put_checkin, is_known, row_of, put_all}

-- Reading after a write.
pub checkin-put_checkin :
    (row : LocalCheckin) (rows : List LocalCheckin) (id : ℕ)
    → checkin (put_checkin row rows) id
      ≡ (if row.checkin_id == id then some row else checkin rows id)
unfolding checkin put_checkin
checkin-put_checkin row [] id = refl
checkin-put_checkin row (r ∷ rows) id = ground (arith, checkin-put_checkin row rows id)

pub length-put_checkin :
    (row : LocalCheckin) (rows : List LocalCheckin)
    → length (put_checkin row rows)
      ≡ (if is_known (checkin rows row.checkin_id) then length rows else suc (length rows))
unfolding checkin put_checkin
length-put_checkin row [] = refl
length-put_checkin row (r ∷ rows) = ground (arith, length-put_checkin row rows)

module _ (canonical_checkin_at : String → String) where
  -- The last row of the page with an id.
  pub last_row : List FeedCheckin → ℕ → Option LocalCheckin
  last_row [] id = none
  last_row (ci ∷ rest) id = elim (last_row rest id) [
    | some row ↦ some row
    | none ↦ if ci.checkin_id == id then some (row_of canonical_checkin_at ci) else none
  ]

  abbrev pub or_stored : Option LocalCheckin → Option LocalCheckin → Option LocalCheckin
  or_stored (some row) stored = some row
  or_stored none stored = stored

  -- After the loop an id reads as the last row of the page that has it, else as before.
  pub checkin-put_all :
      (page : List FeedCheckin) (rows : List LocalCheckin) (merged already_known id : ℕ)
      → checkin (put_all canonical_checkin_at page rows merged already_known).0 id
        ≡ or_stored (last_row page id) (checkin rows id)
  unfolding put_all last_row
  checkin-put_all [] rows merged already_known id = refl
  checkin-put_all (ci ∷ rest) rows merged already_known id = ground (
    arith,
    checkin-put_all rest (put_checkin (row_of canonical_checkin_at ci) rows)
        (if is_known (checkin rows ci.checkin_id) then merged else suc merged)
        (if is_known (checkin rows ci.checkin_id) then suc already_known else already_known) id,
    checkin-put_checkin (row_of canonical_checkin_at ci) rows id,
  )

  -- Each row of the page is counted once, and `merged` counts the rows that are new to the store.
  pub put_all_counts :
      (page : List FeedCheckin) (rows : List LocalCheckin) (merged already_known : ℕ)
      → let after = put_all canonical_checkin_at page rows merged already_known in
        (after.1 + after.2 ≡ merged + already_known + length page)
        × (length after.0 + merged ≡ length rows + after.1)
  unfolding put_all
  put_all_counts [] rows merged already_known = (omega arith, omega arith)
  put_all_counts (ci ∷ rest) rows merged already_known =
      let known = is_known (checkin rows ci.checkin_id) in
      let put = put_checkin (row_of canonical_checkin_at ci) rows in
      let (all, fresh) =
        put_all_counts rest put (if known then merged else suc merged)
          (if known then suc already_known else already_known) in
      elim (Bool-cases known) [
        | inl e ↦
            ground (arith, all, fresh, e, length-put_checkin (row_of canonical_checkin_at ci) rows)
        | inr e ↦
            ground (arith, all, fresh, e, length-put_checkin (row_of canonical_checkin_at ci) rows)
      ]
