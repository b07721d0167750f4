-- ===== src/Server.antt =====
-- The history of a person on the server: src/storage/history-owner.ts, user_profiles.ts, checkins.ts and
-- checkin_sync_state.ts, over their tables as lists of rows. The coverage table is that of Sync.Store.
-- `checkin_at` is the instant of the canonical text, which orders as the texts do.
pub mod Profiles
pub mod Checkins
pub mod Feed
pub mod Examples
use Prim.Native.String.{String}
use warsaw_beer_bot.Base.{
  ℕ, suc, ◌+◌, Bool, true, false, not, ◌&&◌, Option, none, some, List, [], ◌∷◌, ◌++◌, map, ltb, leb,
  ◌==◌, if◌then◌else◌, find?, filter, any, length,
}
use warsaw_beer_bot.Base.Strings.{same_string}
use warsaw_beer_bot.Base.Decimal.{Text}
use warsaw_beer_bot.Sync.Store.{Table}

pub record ProfileRow : Type 0 where
  pub telegram_id : ℕ
  pub untappd_username : Option String
  pub untappd_link_revision : ℕ
  pub legacy_sync_revision : Option ℕ
  pub language : Option String
  pub city : Option String

-- The primary key is the owner with `checkin_id`, a text of any characters.
pub record CheckinRow : Type 0 where
  pub checkin_id : Text
  pub telegram_id : ℕ
  pub account_key : String
  pub beer_id : Option ℕ
  pub user_rating : Option ℕ
  pub checkin_at : ℕ
  pub venue : Option String

pub record HadRow : Type 0 where
  pub telegram_id : ℕ
  pub account_key : String
  pub beer_id : ℕ
  pub last_seen_at : ℕ
  pub user_rating : Option ℕ

pub record SyncRow : Type 0 where
  pub telegram_id : ℕ
  pub account_key : String
  pub complete : Bool
  pub profile_total : Option ℕ

-- The tables; the catalogue of beers is left as it is given.
pub record Tables (B : Type 0) : Type 0 where
  pub profiles : List ProfileRow
  pub checkins : List CheckinRow
  pub had : List HadRow
  pub sync_state : List SyncRow
  pub coverage : Table
  pub beers : B

pub record HistoryOwner : Type 0 where
  pub telegram_id : ℕ
  pub account_key : String
  pub link_revision : ℕ

unfoldable pub get_profile : List ProfileRow → ℕ → Option ProfileRow
get_profile profiles telegram_id = find? (λ p. p.telegram_id == telegram_id) profiles

-- `previous?.untappd_username ?? null`
abbrev pub username_of : Option ProfileRow → Option String
username_of none = none
username_of (some p) = p.untappd_username

abbrev pub revision_of : Option ProfileRow → ℕ
revision_of none = 0
revision_of (some p) = p.untappd_link_revision

module _ (to_lower_case : String → String) where
  abbrev pub account_key_for : Option String → String
  account_key_for none = ""
  account_key_for (some username) = to_lower_case username

  abbrev pub owner_with : ℕ → Option ProfileRow → HistoryOwner
  owner_with telegram_id row = record {
    telegram_id = telegram_id;
    account_key = account_key_for (username_of row);
    link_revision = revision_of row;
  }

  unfoldable pub get_history_owner : List ProfileRow → ℕ → HistoryOwner
  unfolding get_profile
  get_history_owner profiles telegram_id = owner_with telegram_id (get_profile profiles telegram_id)

  -- Within the transaction of the guarded write.
  unfoldable pub is_current_history_owner : List ProfileRow → HistoryOwner → Bool
  unfolding get_history_owner
  is_current_history_owner profiles owner =
      let current = get_history_owner profiles owner.telegram_id in
      same_string current.account_key owner.account_key
      && current.link_revision == owner.link_revision
