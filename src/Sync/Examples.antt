-- ===== src/Sync/Examples.antt =====
-- The synchronisation at concrete inputs: a history in two ranges, a page below a cursor.
use Prim.Native.String.{String}
use warsaw_beer_bot.Base.{
  ℕ, ◌+◌, ◌≤◌, ◌<◌, ◌≡◌, ◌≢◌, refl, ◌↔◌, ◌⊎◌, true, false, Option, none, some, List, [], ◌∷◌,
  length, arith,
}
use mathlib.Core.Option as Option
use warsaw_beer_bot.Base.Sort.{sort}
use warsaw_beer_bot.Base.Decimal.{show}
use warsaw_beer_bot.Sync.Coverage.{range_containing}
use warsaw_beer_bot.Sync.Conclude.{is_caught_up, bottom_of}
use warsaw_beer_bot.Sync.Guards.{coverage_span}
use warsaw_beer_bot.Sync.Guards.Verdicts.{ReadsAs}
use warsaw_beer_bot.Sync.Local.{
  checkin, put_checkin, LocalMeta, LocalDb, PageResult, Result, Feed, feed_page, ok, err,
  account_changed, thrown, submit_page, put_all,
}
use warsaw_beer_bot.Sync.Local.Pages as Pages
use warsaw_beer_bot.Sync.Local.Work.{put_all_counts}
use warsaw_beer_bot.Sync.Local.Submit.{
  submit_page-accepted, submit_page-IsCoverage, submit_page_error, submit_page_descends,
}
use warsaw_beer_bot.Sync.Walk.{
  PageAnswer, step_to, null, Next, Answer, returned, threw, other, Deps,
}
use warsaw_beer_bot.Base.Decimal.{Text, decimal}
use warsaw_beer_bot.Sync.Coverage.{CoverageRange, integer, merge_range}
use warsaw_beer_bot.Sync.Coverage.Union.{
  IsCovered, IsSpan, merge_range-IsCovered, merge_range-eq-none_iff,
}
use warsaw_beer_bot.Sync.Coverage.Disjoint.{IsCoverage, merge_range-IsCoverage}
use warsaw_beer_bot.Sync.Store.{CoverageRow, Table, add_coverage, coverage_for}
use warsaw_beer_bot.Sync.Store.Parity.{IsStored, add_coverage-eq-merge_range}
use warsaw_beer_bot.Sync.Guards.{FeedCheckin, CheckinFeedPage, accept, check_page}
use warsaw_beer_bot.Sync.Guards.Acceptance.{IsAccept, IsFragment, check_page-IsAccept_iff}
use warsaw_beer_bot.Sync.Conclude.{conclude}
use warsaw_beer_bot.Sync.Conclude.Descent.{bottom_of-IsCovered}

abbrev range : ℕ → ℕ → CoverageRange
range a b = record { from_id = a; to_id = b }

abbrev history : List CoverageRange
history = range 900 950 ∷ range 100 400 ∷ []

abbrev merged_history : List CoverageRange
merged_history = range 900 950 ∷ range 100 600 ∷ []

merged_example : merge_range history (integer 401) (integer 600) ≡ some merged_history
unfolding merge_range sort
merged_example = refl

history-IsCoverage : IsCoverage history
history-IsCoverage = ((ground arith, (ground arith, tt)), ((ground arith, tt), (tt, tt)))

merge_range-IsCovered_example :
    IsCovered 500 merged_history ↔ ((401 ≤ 500) × (500 ≤ 600) ⊎ IsCovered 500 history)
merge_range-IsCovered_example =
    merge_range-IsCovered history 401 600 merged_history merged_example 500

merge_range-IsCoverage_example : IsCoverage merged_history
merge_range-IsCoverage_example =
    merge_range-IsCoverage history 401 600 merged_history history-IsCoverage merged_example

merge_range-eq-none_iff_example :
    (merge_range history (integer 600) (integer 401) ≡ none)
    ↔ (¬ IsSpan (integer 600) (integer 401))
merge_range-eq-none_iff_example = merge_range-eq-none_iff history (integer 600) (integer 401)

abbrev row : ℕ → ℕ → ℕ → CoverageRow
row telegram_id a b = record { telegram_id = telegram_id; account_key = "anna"; range = range a b }

abbrev table : Table
table = row 7 100 400 ∷ row 8 1 1000 ∷ row 7 900 950 ∷ []

table-IsStored : IsStored 7 "anna" table
table-IsStored = ((ground arith, (ground arith, tt)), ((ground arith, tt), (tt, tt)))

add_coverage-eq-merge_range_example :
    Option.map
      (λ t. coverage_for t 7 "anna")
      (add_coverage table 7 (integer 401) (integer 600) "anna")
    ≡ merge_range (coverage_for table 7 "anna") (integer 401) (integer 600)
add_coverage-eq-merge_range_example =
    add_coverage-eq-merge_range 7 "anna" (integer 401) (integer 600) table table-IsStored

abbrev feed_row : ℕ → FeedCheckin
feed_row id = record {
  checkin_id = id;
  bid = 55;
  beer_name = "Buty Skejta";
  brewery_name = "Stu Mostow";
  user_rating = some 400;
  checkin_at = "2026-11-01";
  venue = none;
}

abbrev page : CheckinFeedPage
page = record {
  checkins = feed_row 580 ∷ feed_row 401 ∷ [];
  next_max_id = some 401;
  profile_total = some 500;
}

-- The cursor 600.
abbrev at_600 : Text
at_600 = b'6' ∷ b'0' ∷ b'0' ∷ []

abbrev ids : List ℕ
ids = 580 ∷ 401 ∷ []

page-accept : check_page page (some at_600) (some 100) ≡ accept (some 600) ids 401 580
unfolding check_page decimal
page-accept = refl

check_page-IsAccept_iff_example :
    IsAccept (check_page page (some at_600) (some 100))
    ↔ ((cursor : Option ℕ) × ReadsAs (some at_600) cursor × IsFragment cursor ids)
check_page-IsAccept_iff_example = check_page-IsAccept_iff page (some at_600) (some 100)

next_100 : (conclude 300 (some 500) merged_history 401).next_cursor ≡ some (b'1' ∷ b'0' ∷ b'0' ∷ [])
unfolding conclude is_caught_up show bottom_of range_containing
next_100 = refl

bottom_low : bottom_of merged_history 401 ≤ 250
unfolding bottom_of range_containing
bottom_low = ground arith

bottom_of-IsCovered_example : IsCovered 250 merged_history
bottom_of-IsCovered_example = bottom_of-IsCovered merged_history 401 250 bottom_low (ground arith)

abbrev owner : LocalMeta
owner = record {
  username = "anna";
  generation = 3;
  profile_total = some 500;
  oldest_id = some 100;
  updated_at = "2026-11-01";
}

abbrev local_db : LocalDb
local_db = record { meta = some owner; checkins = []; ranges = history }

abbrev same : String → String
same s = s

submit_page-accepted_example :
    (after : LocalDb) × (result : PageResult) × (submit_page same "now"
        (feed_page page)
        (some at_600)
        3
        local_db
      ≡ (after, ok result))
    × Pages.IsStored same page local_db after result 401 600
unfolding coverage_span
submit_page-accepted_example =
    submit_page-accepted same "now" page (some at_600) local_db owner (some 600) ids 401 580 refl
      page-accept

submit_page-IsCoverage_example :
    IsCoverage (submit_page same "now" (feed_page page) (some at_600) 3 local_db).0.ranges
submit_page-IsCoverage_example =
    submit_page-IsCoverage same "now" (feed_page page) (some at_600) 3 local_db history-IsCoverage

-- The page of an older database.
late : (submit_page same "now" (feed_page page) (some at_600) 4 local_db).1 ≡ err account_changed
unfolding submit_page
late = refl

submit_page_error_example :
    ((submit_page same "now" (feed_page page) (some at_600) 4 local_db).0 ≡ local_db)
    × (account_changed ≢ thrown)
submit_page_error_example =
    submit_page_error same "now" (feed_page page) (some at_600) 4 local_db account_changed late

put_all_counts_example :
    ((put_all same page.checkins [] 0 0).1 + (put_all same page.checkins [] 0 0).2 ≡ 0 + 0 + 2)
    × (length (put_all same page.checkins [] 0 0).0 + 0 ≡ 0 + (put_all same page.checkins [] 0 0).1)
put_all_counts_example = put_all_counts same page.checkins [] 0 0

abbrev submitted : PageResult
submitted = record {
  merged = 2;
  already_known = 0;
  page_size = 2;
  next_max_id = some 401;
  next_cursor = some (b'1' ∷ b'0' ∷ b'0' ∷ []);
  profile_total = some 500;
  server_count = 2;
  complete = false;
  caught_up = false;
}

submitted-ok : (submit_page same "now" (feed_page page) (some at_600) 3 local_db).1 ≡ ok submitted
unfolding submit_page check_page decimal merge_range sort conclude is_caught_up show bottom_of
    range_containing coverage_span checkin put_checkin
submitted-ok = refl

submit_page_descends_example :
    (n : ℕ) × (m : ℕ) × (decimal at_600 ≡ some n)
    × (decimal (b'1' ∷ b'0' ∷ b'0' ∷ []) ≡ some m)
    × (m < n)
submit_page_descends_example =
    submit_page_descends same "now" (feed_page page) at_600 3 local_db submitted
      (b'1' ∷ b'0' ∷ b'0' ∷ []) submitted-ok refl

-- The walk over the local database: its answers as the walk reads them.
abbrev next_of : Option Text → Next
next_of none = null
next_of (some t) = step_to t

abbrev answer_of : Result PageResult → Answer PageAnswer
answer_of (err e) = threw other
answer_of (ok r) = returned record {
  merged = r.merged;
  server_count = r.server_count;
  profile_total = r.profile_total;
  caught_up = r.caught_up;
  next_cursor = next_of r.next_cursor;
}

abbrev local_deps : Deps LocalDb Feed
local_deps = record {
  get_state = λ db. (
    db,
    returned record {
      username = "anna";
      link_revision = some 3;
      server_count = length db.checkins;
      profile_total = some 500;
      caught_up = false;
    },
  );
  fetch_feed = λ username c db. (db, returned (feed_page page));
  submit_page = λ html c revision db.
      let r = submit_page same "now" html c revision db in (r.0, answer_of r.1);
  on_progress = λ p db. db;
  sleep = λ db. db;
  aborted = λ db. false;
  session_of = none;
  before_fetch = λ db. (db, returned true);
  stop_after = λ a pages db. false;
  is_block_page = λ html. false;
  to_lower_case = λ s. s;
}
