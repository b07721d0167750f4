-- ===== src/Server/Feed.antt =====
-- src/api/routes/checkins.ts: the state of a synchronisation and a page of the feed that is submitted,
-- each in one transaction. A page arrives as `isBlockPage` and `parseCheckinFeedPage` see it; the
-- limits on the body are the framework's. The journal's lines are left out.
pub mod Counts
use Prim.Native.String.{String}
use warsaw_beer_bot.Base.{
  ℕ, suc, Bool, true, false, not, Option, none, some, List, [], ◌∷◌, ◌==◌, if◌then◌else◌, length,
}
use warsaw_beer_bot.Base.Strings.{same_string}
use warsaw_beer_bot.Base.Decimal.{Text, show}
use warsaw_beer_bot.Sync.Coverage.{integer}
use warsaw_beer_bot.Sync.Guards.{
  FeedCheckin, CheckinFeedPage, Code, Reason, PageVerdict, check_page, coverage_span,
}
use warsaw_beer_bot.Sync.Conclude.{conclude, is_caught_up}
use warsaw_beer_bot.Sync.Store.{Table, coverage_for, add_coverage}
use warsaw_beer_bot.Sync.Local.{Feed, block_page, feed_page, PageResult, or_else}
use warsaw_beer_bot.Server.{
  ProfileRow, CheckinRow, Tables, HistoryOwner, get_profile, get_history_owner, username_of,
}
use warsaw_beer_bot.Server.Checkins.{
  merge_checkin, checkin_exists, count_checkins, oldest_checkin_id, get_sync_state,
  record_profile_total,
}

pub data Refusal : Type 0 where
  not_linked account_changed sync_context_required blocked : Refusal
  rejected : ℕ → Code → Reason → Refusal

-- `failed` is a throw inside the transaction, which undoes it.
pub data Response (A : Type 0) : Type 0 where
  answered : A → Response A
  refused : Refusal → Response A
  failed : Response A

pub record FeedState : Type 0 where
  pub username : String
  pub link_revision : ℕ
  pub deepest_max_id : Option Text
  pub complete : Bool
  pub server_count : ℕ
  pub profile_total : Option ℕ
  pub caught_up : Bool

-- What the handlers call: lower case, the catalogue's `upsertBeerByBid` and `canonicalCheckinAt`.
pub record Calls (B : Type 0) : Type 0 where
  pub to_lower_case : String → String
  pub upsert_beer : FeedCheckin → B → ℕ × B
  pub canonical_checkin_at : String → ℕ

module _ {B : Type 0} (calls : Calls B) where
  abbrev pub owner_of : Tables B → ℕ → HistoryOwner
  owner_of t telegram_id = get_history_owner calls.to_lower_case t.profiles telegram_id

  abbrev pub state_for : Tables B → ℕ → HistoryOwner → String → FeedState
  state_for t telegram_id owner username =
      let state = get_sync_state t telegram_id owner.account_key in
      let server_count = count_checkins t.checkins telegram_id owner.account_key in
      record {
        username = username;
        link_revision = owner.link_revision;
        deepest_max_id = state.deepest_max_id;
        complete = state.complete;
        server_count = server_count;
        profile_total = state.profile_total;
        caught_up =
            is_caught_up server_count state.profile_total
              (coverage_for t.coverage telegram_id owner.account_key);
      }

  abbrev state_of : Tables B → ℕ → Option String → Response FeedState
  state_of t telegram_id none = refused not_linked
  state_of t telegram_id (some username) =
      if same_string username ""
      then refused not_linked
      else answered (state_for t telegram_id (owner_of t telegram_id) username)

  -- GET /checkins/sync/state
  unfoldable pub get_state : Tables B → ℕ → Response FeedState
  get_state t telegram_id =
      state_of t telegram_id (username_of (get_profile t.profiles telegram_id))

  abbrev pub row_of : ℕ → String → ℕ → FeedCheckin → CheckinRow
  row_of telegram_id key beer ci = record {
    checkin_id = show ci.checkin_id;
    telegram_id = telegram_id;
    account_key = key;
    beer_id = some beer;
    user_rating = ci.user_rating;
    checkin_at = calls.canonical_checkin_at ci.checkin_at;
    venue = ci.venue;
  }

  -- One row of the page: the catalogue, the check-in, and which counter grows.
  abbrev pub put_row : ℕ → String → FeedCheckin → List CheckinRow × B → List CheckinRow × B
  put_row telegram_id key ci (rows, beers) =
      let (beer, after) = calls.upsert_beer ci beers in
      (merge_checkin (row_of telegram_id key beer ci) rows, after)

  unfoldable pub put_page :
      ℕ → String → List FeedCheckin → List CheckinRow × B → ℕ → ℕ → (List CheckinRow × B) × ℕ × ℕ
  put_page telegram_id key [] s merged already_known = (s, merged, already_known)
  put_page telegram_id key (ci ∷ rest) s merged already_known =
      let existed = checkin_exists s.0 telegram_id (show ci.checkin_id) key in
      put_page telegram_id key rest (put_row telegram_id key ci s)
        (if existed then merged else suc merged)
        (if existed then suc already_known else already_known)

  unfoldable pub empty_answer : CheckinFeedPage → ℕ → String → Tables B → PageResult
  empty_answer page telegram_id key t =
      let stored_total = (get_sync_state t telegram_id key).profile_total in
      let profile_total = or_else page.profile_total stored_total in
      let server_count = count_checkins t.checkins telegram_id key in
      record {
        merged = 0;
        already_known = 0;
        page_size = 0;
        next_max_id = none;
        next_cursor = none;
        profile_total = profile_total;
        server_count = server_count;
        complete = false;
        caught_up =
            is_caught_up server_count profile_total (coverage_for t.coverage telegram_id key);
      }

  -- The tables after an accepted page, with the coverage that was written.
  abbrev pub tables_with : CheckinFeedPage → ℕ → String → Tables B → Table → Tables B
  tables_with page telegram_id key t coverage =
      let (s, merged, already_known) =
        put_page telegram_id key page.checkins (t.checkins, t.beers) 0 0 in
      record t {
        checkins = s.0;
        beers = s.1;
        coverage = coverage;
        sync_state = record_profile_total t.sync_state telegram_id page.profile_total key;
      }

  abbrev pub page_answer : CheckinFeedPage → ℕ → String → Tables B → Table → ℕ → PageResult
  page_answer page telegram_id key t coverage oldest =
      let (s, merged, already_known) =
        put_page telegram_id key page.checkins (t.checkins, t.beers) 0 0 in
      let after = tables_with page telegram_id key t coverage in
      let server_count = count_checkins after.checkins telegram_id key in
      let state = get_sync_state after telegram_id key in
      let conclusion =
        conclude server_count state.profile_total (coverage_for coverage telegram_id key) oldest in
      record {
        merged = merged;
        already_known = already_known;
        page_size = length page.checkins;
        next_max_id = page.next_max_id;
        next_cursor = conclusion.next_cursor;
        profile_total = page.profile_total;
        server_count = server_count;
        complete = false;
        caught_up = conclusion.caught_up;
      }

  abbrev pub stored :
      CheckinFeedPage → ℕ → String → Tables B → ℕ → Option Table → Tables B × Response PageResult
  stored page telegram_id key t oldest none = (t, failed)
  stored page telegram_id key t oldest (some coverage) = (
    tables_with page telegram_id key t coverage,
    answered (page_answer page telegram_id key t coverage oldest),
  )

  unfoldable pub on_verdict :
      CheckinFeedPage → ℕ → String → Tables B → PageVerdict → Tables B × Response PageResult
  on_verdict page telegram_id key t (PageVerdict.refuse status code reason) =
      (t, refused (rejected status code reason))
  on_verdict page telegram_id key t PageVerdict.empty =
      (t, answered (empty_answer page telegram_id key t))
  on_verdict page telegram_id key t (PageVerdict.accept cursor ids oldest newest) =
      let (from, to) = coverage_span cursor oldest newest in
      stored page telegram_id key t oldest
        (add_coverage t.coverage telegram_id (integer from) (integer to) key)

  -- The oldest check-in that is known is read only for an empty page.
  abbrev pub known_for : CheckinFeedPage → ℕ → String → Tables B → Option ℕ
  known_for page telegram_id key t =
      if length page.checkins == 0 then oldest_checkin_id t.checkins telegram_id key else none

  abbrev pub submit_feed :
      ℕ → HistoryOwner → Feed → Option Text → Tables B → Tables B × Response PageResult
  submit_feed telegram_id owner block_page max_id t = (t, refused blocked)
  submit_feed telegram_id owner (feed_page page) max_id t =
      on_verdict page telegram_id owner.account_key t
        (check_page page max_id (known_for page telegram_id owner.account_key t))

  abbrev pub same_revision : Option ℕ → ℕ → Bool
  same_revision none revision = false
  same_revision (some n) revision = n == revision

  -- Whether the request is of the account that is linked now.
  abbrev pub guarded :
      ℕ
      → Option ProfileRow
      → HistoryOwner
      → Feed
      → Option Text
      → Option ℕ
      → Tables B
      → Tables B × Response PageResult
  guarded telegram_id none owner feed max_id link_revision t = (t, refused not_linked)
  guarded telegram_id (some profile) owner feed max_id (some revision) t =
      if revision == owner.link_revision
      then submit_feed telegram_id owner feed max_id t
      else (t, refused account_changed)
  guarded telegram_id (some profile) owner feed max_id none t =
      if same_revision profile.legacy_sync_revision owner.link_revision
      then submit_feed telegram_id owner feed max_id t
      else (t, refused sync_context_required)

  abbrev pub linked_only :
      Option String → Tables B × Response PageResult → Tables B → Tables B × Response PageResult
  linked_only none next t = (t, refused not_linked)
  linked_only (some username) next t =
      if same_string username "" then (t, refused not_linked) else next

  -- POST /checkins/sync
  unfoldable pub post_sync :
      ℕ → Feed → Option Text → Option ℕ → Tables B → Tables B × Response PageResult
  unfolding on_verdict
  post_sync telegram_id feed max_id link_revision t =
      let profile = get_profile t.profiles telegram_id in
      linked_only (username_of profile)
        (guarded telegram_id profile (owner_of t telegram_id) feed max_id link_revision t) t
