-- ===== src/Sync/Local.antt =====
-- extension/src/local/sync.ts and local/db.ts: the synchronisation of anonymous mode, over the
-- database in the browser. A page arrives as `isBlockPage` and `parseCheckinFeedPage` see it. What
-- throws aborts the transaction.
pub mod Work
pub mod Pages
pub mod Submit
use Prim.Native.String.{String}
use text.Mathlib.Text.{◌==◌ as str_eq}
use warsaw_beer_bot.Base.{
  ℕ, suc, ◌+◌, Bool, false, Option, none, some, List, [], ◌∷◌, ltb, ◌==◌, if◌then◌else◌, find?,
  length,
}
use warsaw_beer_bot.Base.Decimal.{Text}
use warsaw_beer_bot.Sync.Coverage.{CoverageRange, integer, merge_range}
use warsaw_beer_bot.Sync.Guards.{
  FeedCheckin, CheckinFeedPage, Code, Reason, no_session, bad_cursor, PageVerdict, check_page,
  coverage_span,
}
use warsaw_beer_bot.Sync.Conclude.{conclude, is_caught_up}

pub record LocalCheckin : Type 0 where
  pub checkin_id : ℕ
  pub bid : ℕ
  pub beer_name : String
  pub brewery_name : String
  pub user_rating : Option ℕ
  pub checkin_at : String

pub record LocalMeta : Type 0 where
  pub username : String
  pub generation : ℕ
  pub profile_total : Option ℕ
  pub oldest_id : Option ℕ
  pub updated_at : String

-- The three object stores of the database.
pub record LocalDb : Type 0 where
  pub meta : Option LocalMeta
  pub checkins : List LocalCheckin
  pub ranges : List CoverageRange

pub data Feed : Type 0 where
  block_page : Feed
  feed_page : CheckinFeedPage → Feed

pub data ApiError : Type 0 where
  blocked account_changed session_missing : ApiError
  page_rejected : Reason → ApiError
  -- Any other exception, such as an invalid coverage range.
  thrown : ApiError

pub record PageResult : Type 0 where
  pub merged : ℕ
  pub already_known : ℕ
  pub page_size : ℕ
  pub next_max_id : Option ℕ
  pub next_cursor : Option Text
  pub profile_total : Option ℕ
  pub server_count : ℕ
  pub complete : Bool
  pub caught_up : Bool

pub data Result {ℓ} (A : Type ℓ) : Type ℓ where
  ok : A → Result A
  err : ApiError → Result A

-- `inPageTx`: the work on the stores, undone when it throws.
abbrev pub in_page_tx :
    (LocalDb → Result (LocalDb × PageResult)) → LocalDb → LocalDb × Result PageResult
in_page_tx work db = elim (work db) [
  | ok (after, result) ↦ (after, ok result)
  | err e ↦ (db, err e)
]

-- `checkins.get(id)`.
unfoldable pub checkin : List LocalCheckin → ℕ → Option LocalCheckin
checkin rows id = find? (λ r. r.checkin_id == id) rows

-- `checkins.put(row)`, keyed by `checkin_id`.
unfoldable pub put_checkin : LocalCheckin → List LocalCheckin → List LocalCheckin
put_checkin row [] = row ∷ []
put_checkin row (r ∷ rows) =
    if r.checkin_id == row.checkin_id then row ∷ rows else r ∷ put_checkin row rows

-- `a ?? b`.
abbrev pub or_else : Option ℕ → Option ℕ → Option ℕ
or_else (some a) b = some a
or_else none b = b

abbrev pub oldest_with : Option ℕ → ℕ → ℕ
oldest_with none oldest = oldest
oldest_with (some known) oldest = if ltb oldest known then oldest else known

abbrev pub is_known : Option LocalCheckin → Bool
is_known none = false
is_known (some r) = Bool.true

-- `canonicalCheckinAt` of a check-in's time.
module _ (canonical_checkin_at : String → String) where
  abbrev pub row_of : FeedCheckin → LocalCheckin
  row_of ci = record {
    checkin_id = ci.checkin_id;
    bid = ci.bid;
    beer_name = ci.beer_name;
    brewery_name = ci.brewery_name;
    user_rating = ci.user_rating;
    checkin_at = canonical_checkin_at ci.checkin_at;
  }

  -- The loop over the rows of the page: the store, `merged` and `alreadyKnown`.
  pub put_all : List FeedCheckin → List LocalCheckin → ℕ → ℕ → List LocalCheckin × ℕ × ℕ
  put_all [] rows merged already_known = (rows, merged, already_known)
  put_all (ci ∷ rest) rows merged already_known =
      let existed = is_known (checkin rows ci.checkin_id) in
      put_all rest (put_checkin (row_of ci) rows) (if existed then merged else suc merged)
        (if existed then suc already_known else already_known)

pub empty_page : CheckinFeedPage → LocalMeta → LocalDb → PageResult
empty_page page meta db =
    let server_count = length db.checkins in
    let profile_total = or_else page.profile_total meta.profile_total in
    record {
      merged = 0;
      already_known = 0;
      page_size = 0;
      next_max_id = none;
      next_cursor = none;
      profile_total = profile_total;
      server_count = server_count;
      complete = false;
      caught_up = is_caught_up server_count profile_total db.ranges;
    }

-- The same, and the time of the call.
module _ (canonical_checkin_at : String → String) (now : String) where
  abbrev pub next_meta : CheckinFeedPage → LocalMeta → ℕ → LocalMeta
  next_meta page meta oldest = record meta {
    profile_total = or_else page.profile_total meta.profile_total;
    oldest_id = some (oldest_with meta.oldest_id oldest);
    updated_at = now;
  }

  -- The stores and the answer once the ranges are merged.
  abbrev pub stored_page :
      CheckinFeedPage → LocalMeta → LocalDb → ℕ → List CoverageRange → LocalDb × PageResult
  stored_page page meta db oldest ranges =
      let (rows, merged, already_known) =
        put_all canonical_checkin_at page.checkins db.checkins 0 0 in
      let next = next_meta page meta oldest in
      let conclusion = conclude (length rows) next.profile_total ranges oldest in
      (
        record { meta = some next; checkins = rows; ranges = ranges },
        record {
          merged = merged;
          already_known = already_known;
          page_size = length page.checkins;
          next_max_id = page.next_max_id;
          next_cursor = conclusion.next_cursor;
          profile_total = page.profile_total;
          server_count = length rows;
          complete = false;
          caught_up = conclusion.caught_up;
        },
      )

  -- What follows an accepted verdict.
  pub store_page :
      CheckinFeedPage → LocalMeta → LocalDb → Option ℕ → ℕ → ℕ → Result (LocalDb × PageResult)
  unfolding put_all
  store_page page meta db cursor oldest newest =
      let (from, to) = coverage_span cursor oldest newest in
      elim (merge_range db.ranges (integer from) (integer to)) [
        | none ↦ err thrown
        | some ranges ↦ ok (stored_page page meta db oldest ranges)
      ]

  pub judged : CheckinFeedPage → LocalMeta → LocalDb → PageVerdict → Result (LocalDb × PageResult)
  unfolding store_page empty_page
  judged page meta db (PageVerdict.refuse status no_session reason) = err session_missing
  judged page meta db (PageVerdict.refuse status bad_cursor reason) = err (page_rejected reason)
  judged page meta db PageVerdict.empty = ok (db, empty_page page meta db)
  judged page meta db (PageVerdict.accept cursor ids oldest newest) =
      store_page page meta db cursor oldest newest

  -- The database has an owner, and the page was fetched for this generation of it.
  pub work_with :
      CheckinFeedPage → Option Text → ℕ → LocalDb → Option LocalMeta → Result (LocalDb × PageResult)
  unfolding judged
  work_with page max_id link_revision db none = err account_changed
  work_with page max_id link_revision db (some meta) =
      if meta.generation == link_revision
      then judged page meta db (check_page page max_id meta.oldest_id)
      else err account_changed

  pub page_work : CheckinFeedPage → Option Text → ℕ → LocalDb → Result (LocalDb × PageResult)
  unfolding work_with
  page_work page max_id link_revision db = work_with page max_id link_revision db db.meta

  unfoldable pub submit_page : Feed → Option Text → ℕ → LocalDb → LocalDb × Result PageResult
  unfolding page_work
  submit_page block_page max_id link_revision db = (db, err blocked)
  submit_page (feed_page page) max_id link_revision db =
      in_page_tx (page_work page max_id link_revision) db
