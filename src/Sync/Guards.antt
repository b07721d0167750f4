-- ===== src/Sync/Guards.antt =====
-- src/shared/checkin-sync/guards.ts: what a page of the feed proves. `undefined` and `null` are
-- both `none` of an optional cursor.
pub mod Verdicts
pub mod Acceptance
use warsaw_beer_bot.Base.{
  ℕ, Bool, false, ◌||◌, Option, none, some, List, [], ◌∷◌, map, ltb, ◌==◌, if◌then◌else◌, any,
}
use warsaw_beer_bot.Base.Decimal.{Text, decimal}
use Prim.Native.String.{String}

-- A row of the feed. The parser keeps only rows whose id is decimal digits; the id is its number.
pub record FeedCheckin : Type 0 where
  pub checkin_id : ℕ
  pub bid : ℕ
  pub beer_name : String
  pub brewery_name : String
  pub user_rating : Option ℕ
  pub checkin_at : String
  pub venue : Option String

pub record CheckinFeedPage : Type 0 where
  pub checkins : List FeedCheckin
  pub next_max_id : Option ℕ
  pub profile_total : Option ℕ

pub data Code : Type 0 where
  bad_cursor no_session : Code

pub data Reason : Type 0 where
  cursor_format empty_above_known oldest_above_cursor page_contains_cursor : Reason

pub data PageVerdict : Type 0 where
  refuse : ℕ → Code → Reason → PageVerdict
  empty : PageVerdict
  accept : Option ℕ → List ℕ → ℕ → ℕ → PageVerdict

abbrev pub bad_cursor_for : Reason → PageVerdict
bad_cursor_for reason = refuse 400 bad_cursor reason

-- The cursor of the request: absent, a positive number, or a text that is no such number.
pub data Cursor : Type 0 where
  absent : Cursor
  at : ℕ → Cursor
  malformed : Cursor

unfoldable pub parse_cursor : Option Text → Cursor
parse_cursor none = absent
parse_cursor (some max_id) = elim (decimal max_id) [
  | none ↦ malformed
  | some n ↦ if n == 0 then malformed else at n
]

-- `Math.min(first, …rest)` and `Math.max(first, …rest)`.
abbrev pub min_of : ℕ → List ℕ → ℕ
min_of m [] = m
min_of m (x ∷ xs) = min_of (if ltb x m then x else m) xs

abbrev pub max_of : ℕ → List ℕ → ℕ
max_of m [] = m
max_of m (x ∷ xs) = max_of (if ltb m x then x else m) xs

abbrev pub includes : ℕ → List ℕ → Bool
includes id [] = false
includes id (x ∷ xs) = x == id || includes id xs

-- `cursor !== null && …` on the parsed cursor.
abbrev pub above_cursor : ℕ → Option ℕ → Bool
above_cursor oldest none = false
above_cursor oldest (some cursor) = ltb cursor oldest

abbrev pub contains_cursor : List ℕ → Option ℕ → Bool
contains_cursor ids none = false
contains_cursor ids (some cursor) = includes cursor ids

abbrev pub above_known : Option ℕ → Option ℕ → Bool
above_known (some cursor) (some known) = ltb known cursor
above_known _ _ = false

-- The checks after the cursor is read, over the ids of the page.
unfoldable pub check_ids : List ℕ → Option ℕ → Option ℕ → PageVerdict
check_ids [] cursor oldest_known =
    if above_known cursor oldest_known then refuse 422 no_session empty_above_known else empty
check_ids (id ∷ ids) cursor oldest_known =
    let oldest = min_of id ids in
    let newest = max_of id ids in
    if above_cursor oldest cursor
    then bad_cursor_for oldest_above_cursor
    else if contains_cursor (id ∷ ids) cursor
    then bad_cursor_for page_contains_cursor
    else accept cursor (id ∷ ids) oldest newest

abbrev pub ids_of : CheckinFeedPage → List ℕ
ids_of page = map (λ c. c.checkin_id) page.checkins

unfoldable pub check_page : CheckinFeedPage → Option Text → Option ℕ → PageVerdict
unfolding check_ids parse_cursor
check_page page max_id oldest_known = elim (parse_cursor max_id) [
  | malformed ↦ bad_cursor_for cursor_format
  | absent ↦ check_ids (ids_of page) none oldest_known
  | at n ↦ check_ids (ids_of page) (some n) oldest_known
]

-- From the oldest id of the page to the cursor; with no cursor, to the newest id.
unfoldable pub coverage_span : Option ℕ → ℕ → ℕ → ℕ × ℕ
coverage_span (some cursor) oldest newest = (oldest, cursor)
coverage_span none oldest newest = (oldest, newest)
