-- ===== src/Server/Checkins.antt =====
-- src/storage/checkins.ts and checkin_sync_state.ts: the check-ins of an account, and what is known of
-- their number. The account key is given, except where the source always reads the current one.
use Prim.Native.String.{String}
use warsaw_beer_bot.Base.{
  ℕ, Bool, false, ◌&&◌, Option, none, some, List, [], ◌∷◌, ◌++◌, ltb, leb, ◌==◌, if◌then◌else◌,
  find?, filter, any, length,
}
use warsaw_beer_bot.Base.Strings.{same_string}
use warsaw_beer_bot.Base.Sort.{sort}
use warsaw_beer_bot.Base.Decimal.{Text, same_text, decimal, show}
use warsaw_beer_bot.Sync.Store.{deepest_covered_id}
use warsaw_beer_bot.Server.{CheckinRow, HadRow, SyncRow, Tables}

abbrev pub owned : ℕ → String → CheckinRow → Bool
owned telegram_id key c = c.telegram_id == telegram_id && same_string c.account_key key

abbrev pub is_checkin : ℕ → String → Text → CheckinRow → Bool
is_checkin telegram_id key id c = owned telegram_id key c && same_text c.checkin_id id

-- `INSERT … ON CONFLICT … DO UPDATE` on the primary key; `checkin_at` is the canonical time.
unfoldable pub merge_checkin : CheckinRow → List CheckinRow → List CheckinRow
merge_checkin new [] = new ∷ []
merge_checkin new (c ∷ cs) =
    let rest = c ∷ merge_checkin new cs in
    if is_checkin new.telegram_id new.account_key new.checkin_id c
    then record c {
      beer_id = new.beer_id;
      user_rating = new.user_rating;
      checkin_at = new.checkin_at;
      venue = new.venue;
    }
      ∷ cs
    else rest

unfoldable pub checkin_exists : List CheckinRow → ℕ → Text → String → Bool
checkin_exists rows telegram_id id key = any (is_checkin telegram_id key id) rows

unfoldable pub count_checkins : List CheckinRow → ℕ → String → ℕ
count_checkins rows telegram_id key = length (filter (owned telegram_id key) rows)

-- `MIN` over the ids that are decimal digits and nothing else.
abbrev least_id : List CheckinRow → Option ℕ
least_id [] = none
least_id (c ∷ cs) = lesser (decimal c.checkin_id) (least_id cs)
  where
    lesser : Option ℕ → Option ℕ → Option ℕ
    lesser none m = m
    lesser (some n) none = some n
    lesser (some n) (some m) = some (if ltb m n then m else n)

unfoldable pub oldest_checkin_id : List CheckinRow → ℕ → String → Option ℕ
oldest_checkin_id rows telegram_id key = least_id (filter (owned telegram_id key) rows)

-- Newest first; the order of rows of one instant is not said by the source.
unfoldable pub checkins_for : List CheckinRow → ℕ → String → List CheckinRow
checkins_for rows telegram_id key =
    sort (λ a b. leb b.checkin_at a.checkin_at) (filter (owned telegram_id key) rows)

unfoldable pub latest_checkin_at : List CheckinRow → ℕ → String → Option ℕ
latest_checkin_at rows telegram_id key = greatest (filter (owned telegram_id key) rows)
  where
    later : ℕ → Option ℕ → Option ℕ
    later n none = some n
    later n (some m) = some (if ltb n m then m else n)

    greatest : List CheckinRow → Option ℕ
    greatest [] = none
    greatest (c ∷ cs) = later c.checkin_at (greatest cs)

abbrev drank : ℕ → CheckinRow → Bool
drank beer c = is_some c.beer_id
  where
    is_some : Option ℕ → Bool
    is_some none = false
    is_some (some b) = b == beer

unfoldable pub has_been_drunk : List CheckinRow → ℕ → String → ℕ → Bool
has_been_drunk rows telegram_id key beer = any (λ c. owned telegram_id key c && drank beer c) rows

-- A set of beers, each once.
abbrev add_beer : Option ℕ → List ℕ → List ℕ
add_beer none beers = beers
add_beer (some b) beers = if any (λ x. x == b) beers then beers else b ∷ beers

abbrev pub beers_of : List CheckinRow → List ℕ
beers_of [] = []
beers_of (c ∷ cs) = add_beer c.beer_id (beers_of cs)

unfoldable pub drunk_beer_ids : List CheckinRow → ℕ → String → List ℕ
drunk_beer_ids rows telegram_id key = beers_of (filter (owned telegram_id key) rows)

unfoldable pub count_distinct_beers : List CheckinRow → ℕ → String → ℕ
unfolding drunk_beer_ids
count_distinct_beers rows telegram_id key = length (drunk_beer_ids rows telegram_id key)

-- The map from a beer to its rating; the first entry of a beer is the one that stays.
abbrev pub rating_in : List (ℕ × ℕ) → ℕ → Option ℕ
rating_in [] beer = none
rating_in ((b, r) ∷ ratings) beer = if b == beer then some r else rating_in ratings beer

abbrev add_rating : Option ℕ → Option ℕ → List (ℕ × ℕ) → List (ℕ × ℕ)
add_rating (some beer) (some rating) out = add_new (rating_in out beer)
  where
    add_new : Option ℕ → List (ℕ × ℕ)
    add_new none = out ++ (beer, rating) ∷ []
    add_new (some r) = out
add_rating _ _ out = out

abbrev pub add_checkins : List CheckinRow → List (ℕ × ℕ) → List (ℕ × ℕ)
add_checkins [] out = out
add_checkins (c ∷ cs) out = add_checkins cs (add_rating c.beer_id c.user_rating out)

abbrev add_had : List HadRow → List (ℕ × ℕ) → List (ℕ × ℕ)
add_had [] out = out
add_had (h ∷ hs) out = add_had hs (add_rating (some h.beer_id) h.user_rating out)

module _ {B : Type 0} (t : Tables B) where
  unfoldable pub latest_ratings_by_beer : ℕ → String → List (ℕ × ℕ)
  unfolding checkins_for
  latest_ratings_by_beer telegram_id key =
      let had = filter (λ h. h.telegram_id == telegram_id && same_string h.account_key key) t.had in
      add_had had (add_checkins (checkins_for t.checkins telegram_id key) [])

abbrev pub sync_of : ℕ → String → SyncRow → Bool
sync_of telegram_id key s = s.telegram_id == telegram_id && same_string s.account_key key

pub record SyncState : Type 0 where
  pub deepest_max_id : Option Text
  pub complete : Bool
  pub profile_total : Option ℕ

abbrev complete_of : Option SyncRow → Bool
complete_of none = false
complete_of (some s) = s.complete

abbrev pub total_of : Option SyncRow → Option ℕ
total_of none = none
total_of (some s) = s.profile_total

abbrev text_of : Option ℕ → Option Text
text_of none = none
text_of (some n) = some (show n)

unfoldable pub get_sync_state : {B : Type 0} → Tables B → ℕ → String → SyncState
get_sync_state t telegram_id key =
    let row = find? (sync_of telegram_id key) t.sync_state in
    record {
      deepest_max_id = text_of (deepest_covered_id t.coverage telegram_id key);
      complete = complete_of row;
      profile_total = total_of row;
    }

abbrev coalesce : Option ℕ → Option ℕ → Option ℕ
coalesce (some a) b = some a
coalesce none b = b

unfoldable pub record_profile_total : List SyncRow → ℕ → Option ℕ → String → List SyncRow
record_profile_total [] telegram_id total key =
    record { telegram_id = telegram_id; account_key = key; complete = false; profile_total = total }
    ∷ []
record_profile_total (s ∷ ss) telegram_id total key =
    let rest = s ∷ record_profile_total ss telegram_id total key in
    if sync_of telegram_id key s
    then record s { profile_total = coalesce total s.profile_total } ∷ ss
    else rest
