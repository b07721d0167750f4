-- ===== src/Server/Examples.antt =====
-- Tests of the server's history, and the theorems at concrete inputs.
use Prim.Native.String.{String}
use warsaw_beer_bot.Base.{ℕ, ◌+◌, none, some, [], ◌∷◌, map, ◌≡◌, refl}
use warsaw_beer_bot.Base.Decimal.{Text, show}
use warsaw_beer_bot.Sync.Guards.{FeedCheckin, CheckinFeedPage}
use warsaw_beer_bot.Sync.Local.{feed_page}
use warsaw_beer_bot.Server.{ProfileRow, CheckinRow, Tables, get_profile}
use warsaw_beer_bot.Server.Profiles.{set_untappd_username, adopt_checkins}
use warsaw_beer_bot.Server.Profiles.Linking.{relinked-refused}
use warsaw_beer_bot.Server.Feed.{Calls, refused, account_changed, post_sync, owner_of}
use warsaw_beer_bot.Server.Feed.Counts.{Submitted, post_sync-Submitted}

abbrev calls : Calls ℕ
calls = record {
  to_lower_case = λ s. s;
  upsert_beer = λ ci n. (ci.bid, n + 1);
  canonical_checkin_at = λ s. 0;
}

abbrev ann : ProfileRow
ann = record {
  telegram_id = 7;
  untappd_username = some "ann";
  untappd_link_revision = 4;
  legacy_sync_revision = none;
  language = none;
  city = none;
}

abbrev seen : ℕ → String → CheckinRow
seen id key = record {
  checkin_id = show id;
  telegram_id = 7;
  account_key = key;
  beer_id = some 1;
  user_rating = none;
  checkin_at = 0;
  venue = none;
}

abbrev tables : Tables ℕ
tables = record {
  profiles = ann ∷ [];
  checkins = seen 90 "ann" ∷ seen 95 "" ∷ [];
  had = [];
  sync_state = [];
  coverage = [];
  beers = 0;
}

abbrev fed : ℕ → FeedCheckin
fed id = record {
  checkin_id = id;
  bid = 2;
  beer_name = "b";
  brewery_name = "c";
  user_rating = none;
  checkin_at = "t";
  venue = none;
}

abbrev page : CheckinFeedPage
page = record { checkins = fed 95 ∷ fed 90 ∷ []; next_max_id = some 90; profile_total = some 2 }

post_sync-Submitted_example :
    Submitted 7
      (owner_of calls tables 7).account_key
      tables
      (post_sync calls 7 (feed_page page) none (some 4) tables)
post_sync-Submitted_example = post_sync-Submitted calls 7 (feed_page page) none (some 4) tables

has_ann : get_profile tables.profiles 7 ≡ some ann
unfolding get_profile
has_ann = refl

relinked-refused_example :
    post_sync calls 7
      (feed_page page)
      none
      (some 4)
      (set_untappd_username calls.to_lower_case 7 "bob" tables)
    ≡ (set_untappd_username calls.to_lower_case 7 "bob" tables, refused account_changed)
relinked-refused_example =
    relinked-refused calls 7 (feed_page page) none "bob" tables ann has_ann refl refl

first_link_adopts :
    map {B = Text × String}
      (λ c. (c.checkin_id, c.account_key))
      (adopt_checkins 7 "ann" (seen 90 "ann" ∷ seen 90 "" ∷ seen 95 "" ∷ []))
    ≡ (show 90, "ann") ∷ (show 95, "ann") ∷ []
unfolding adopt_checkins show
first_link_adopts = refl
