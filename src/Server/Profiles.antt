-- ===== src/Server/Profiles.antt =====
-- src/storage/user_profiles.ts: the rows of people, and what linking an account does to their history.
pub mod Linking
use Prim.Native.String.{String}
use warsaw_beer_bot.Base.{
  ℕ, suc, Bool, true, false, not, ◌&&◌, ◌||◌, Option, none, some, List, [], ◌∷◌, ◌++◌, map, ltb,
  ◌==◌, if◌then◌else◌, find?, filter, any,
}
use warsaw_beer_bot.Base.Strings.{same_string}
use warsaw_beer_bot.Base.Decimal.{Text, same_text}
use warsaw_beer_bot.Server.{ProfileRow, CheckinRow, HadRow, Tables, get_profile, account_key_for}

abbrev fresh_profile : ℕ → ProfileRow
fresh_profile telegram_id = record {
  telegram_id = telegram_id;
  untappd_username = none;
  untappd_link_revision = 0;
  legacy_sync_revision = none;
  language = none;
  city = none;
}

-- `INSERT OR IGNORE`
unfoldable pub ensure_profile : List ProfileRow → ℕ → List ProfileRow
ensure_profile profiles telegram_id =
    if any (λ p. p.telegram_id == telegram_id) profiles
    then profiles
    else profiles ++ fresh_profile telegram_id ∷ []

unfoldable pub update_profile : ℕ → (ProfileRow → ProfileRow) → List ProfileRow → List ProfileRow
update_profile telegram_id f [] = []
update_profile telegram_id f (p ∷ ps) =
    (if p.telegram_id == telegram_id then f p else p) ∷ update_profile telegram_id f ps

abbrev pub held_by : ℕ → String → CheckinRow → Bool
held_by telegram_id key c = c.telegram_id == telegram_id && same_string c.account_key key

abbrev coalesce {ℓ} : {A : Type ℓ} → Option A → Option A → Option A
coalesce (some a) b = some a
coalesce none b = b

-- The named row with what it lacks from the import of the same check-in.
abbrev pub filled : CheckinRow → Option CheckinRow → CheckinRow
filled named none = named
filled named (some unbound) = record named {
  beer_id = coalesce named.beer_id unbound.beer_id;
  user_rating = coalesce named.user_rating unbound.user_rating;
  venue = coalesce named.venue unbound.venue;
}

module _ (telegram_id : ℕ) (key : String) where
  abbrev fill : List CheckinRow → CheckinRow → CheckinRow
  fill rows c =
      if held_by telegram_id key c
      then filled c
          (find? (λ u. held_by telegram_id "" u && same_text u.checkin_id c.checkin_id) rows)
      else c

  abbrev has_named : List CheckinRow → CheckinRow → Bool
  has_named rows c =
      any (λ n. held_by telegram_id key n && same_text n.checkin_id c.checkin_id) rows

  abbrev rename : CheckinRow → CheckinRow
  rename c = if held_by telegram_id "" c then record c { account_key = key } else c

  -- The three statements on check-ins, one after the other.
  unfoldable pub adopt_checkins : List CheckinRow → List CheckinRow
  adopt_checkins rows =
      let filled_rows = map (fill rows) rows in
      let kept =
        filter (λ c. not (held_by telegram_id "" c && has_named filled_rows c)) filled_rows in
      map rename kept

  abbrev had_by : String → HadRow → Bool
  had_by k h = h.telegram_id == telegram_id && same_string h.account_key k

  -- `DO UPDATE SET` of a row that is there, with the row that was to be inserted.
  abbrev merge_had : HadRow → HadRow → HadRow
  merge_had there excluded = record there {
    user_rating =
        if ltb there.last_seen_at excluded.last_seen_at
        then coalesce excluded.user_rating there.user_rating
        else coalesce there.user_rating excluded.user_rating;
    last_seen_at =
        if ltb there.last_seen_at excluded.last_seen_at
        then excluded.last_seen_at
        else there.last_seen_at;
  }

  abbrev insert_had : HadRow → List HadRow → List HadRow
  insert_had new [] = new ∷ []
  insert_had new (h ∷ hs) =
      let rest = h ∷ insert_had new hs in
      if had_by key h && h.beer_id == new.beer_id then merge_had h new ∷ hs else rest

  abbrev insert_all : List HadRow → List HadRow → List HadRow
  insert_all [] rows = rows
  insert_all (h ∷ hs) rows = insert_all hs (insert_had (record h { account_key = key }) rows)

  unfoldable pub adopt_had : List HadRow → List HadRow
  adopt_had rows = filter (λ h. not (had_by "" h)) (insert_all (filter (had_by "") rows) rows)

  abbrev pub adopt : {B : Type 0} → Tables B → Tables B
  adopt t = record t { checkins = adopt_checkins t.checkins; had = adopt_had t.had }

abbrev pub is_none : Option String → Bool
is_none none = true
is_none (some _) = false

abbrev pub bump : Bool → ProfileRow → ProfileRow
bump first_link p = record p {
  untappd_link_revision = suc p.untappd_link_revision;
  legacy_sync_revision =
      if first_link then some (suc p.untappd_link_revision) else p.legacy_sync_revision;
}

abbrev pub name : String → ProfileRow → ProfileRow
name username p = record p { untappd_username = some username }

module _ {B : Type 0} (to_lower_case : String → String) where
  abbrev pub relink : ℕ → String → Option String → Tables B → Tables B
  relink telegram_id key previous t =
      let adopted = if is_none previous then adopt telegram_id key t else t in
      record adopted {
        profiles = update_profile telegram_id (bump (is_none previous)) adopted.profiles;
      }

  abbrev pub link_with : ℕ → String → Option ProfileRow → Tables B → Tables B
  link_with telegram_id username none t = t
  link_with telegram_id username (some previous) t =
      let key = to_lower_case username in
      let after =
        if same_string (account_key_for to_lower_case previous.untappd_username) key
        then t
        else relink telegram_id key previous.untappd_username t in
      record after { profiles = update_profile telegram_id (name username) after.profiles }

  unfoldable pub set_untappd_username : ℕ → String → Tables B → Tables B
  unfolding adopt_checkins adopt_had update_profile get_profile
  set_untappd_username telegram_id username t =
      link_with telegram_id username (get_profile t.profiles telegram_id) t

abbrev outside_city : String
outside_city = "outside-pl"

abbrev city_or : (String → Bool) → Option String → String
city_or is_selectable none = outside_city
city_or is_selectable (some v) = if is_selectable v then v else outside_city

abbrev city_of : Option ProfileRow → Option String
city_of none = none
city_of (some p) = p.city

unfoldable pub get_user_city : (is_selectable : String → Bool) → List ProfileRow → ℕ → String
unfolding get_profile
get_user_city is_selectable profiles telegram_id =
    city_or is_selectable (city_of (get_profile profiles telegram_id))

unfoldable pub set_user_city : List ProfileRow → ℕ → String → List ProfileRow
unfolding update_profile
set_user_city profiles telegram_id slug =
    update_profile telegram_id (λ p. record p { city = some slug }) profiles

pub data Locale : Type 0 where
  uk pl en : Locale

abbrev pub to_locale : Option String → Option Locale
to_locale none = none
to_locale (some v) =
    if same_string v "uk"
    then some uk
    else if same_string v "pl"
    then some pl
    else if same_string v "en"
    then some en
    else none

abbrev language_of : Option ProfileRow → Option String
language_of none = none
language_of (some p) = p.language

unfoldable pub get_user_language : List ProfileRow → ℕ → Option Locale
unfolding get_profile
get_user_language profiles telegram_id = to_locale (language_of (get_profile profiles telegram_id))

abbrev locale_text : Locale → String
locale_text uk = "uk"
locale_text pl = "pl"
locale_text en = "en"

unfoldable pub set_user_language : List ProfileRow → ℕ → Locale → List ProfileRow
unfolding update_profile
set_user_language profiles telegram_id lang =
    update_profile telegram_id (λ p. record p { language = some (locale_text lang) }) profiles
