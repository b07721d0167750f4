-- ===== src/Sync/Session.antt =====
-- extension/src/local/sync.ts, getState: whose history the browser holds; and feedFailure of
-- extension/src/background/handle-checkin-sync.ts. What `currentGeneration` and the session give is
-- given.
use Prim.Native.String.{String}
use text.Mathlib.Text.{◌==◌ as str_eq}
use warsaw_beer_bot.Base.{
  ℕ, ◌≡◌, refl, Bool, not, ◌&&◌, ◌||◌, Option, none, some, ltb, ◌==◌, if◌then◌else◌, length,
  if-cases,
}
use warsaw_beer_bot.Sync.Conclude.{is_caught_up}
use warsaw_beer_bot.Sync.Local.{
  LocalMeta, LocalDb, session_missing, account_changed, Result, ok, err,
}
use warsaw_beer_bot.Sync.Walk.{CheckinSyncState, ErrCode, blocked, feed_unavailable}

abbrev pub fresh_meta : String → ℕ → String → LocalMeta
fresh_meta username generation now = record {
  username = username;
  generation = generation;
  profile_total = none;
  oldest_id = none;
  updated_at = now;
}

abbrev pub with_meta : LocalMeta → LocalDb → LocalDb
with_meta m db = record { meta = some m; checkins = db.checkins; ranges = db.ranges }

abbrev pub state_of : String → LocalMeta → LocalDb → CheckinSyncState
state_of username m db = record {
  username = username;
  link_revision = some m.generation;
  server_count = length db.checkins;
  profile_total = m.profile_total;
  caught_up = is_caught_up (length db.checkins) m.profile_total db.ranges;
}

abbrev pub is_leftover : ℕ → LocalMeta → LocalDb → Bool
is_leftover generation m db = ltb m.generation generation && (length db.checkins == 0)

-- The work of the transaction.
abbrev pub owned_state :
    String → ℕ → String → LocalDb → Option LocalMeta → LocalDb × Result CheckinSyncState
owned_state username generation now db none =
    let m = fresh_meta username generation now in (with_meta m db, ok (state_of username m db))
owned_state username generation now db (some m) =
    if is_leftover generation m db
    then (let n = fresh_meta username generation now in
        (with_meta n db, ok (state_of username n db)))
    else if not (str_eq m.username username) || not (m.generation == generation)
    then (db, err account_changed)
    else (db, ok (state_of username m db))

-- The generation before the session request, the session's user, and the generation after it.
unfoldable pub get_state :
    ℕ → Option String → ℕ → String → LocalDb → LocalDb × Result CheckinSyncState
get_state before none after now db = (db, err session_missing)
get_state before (some username) after now db =
    if not (after == before)
    then (db, err account_changed)
    else owned_state username before now db db.meta

-- The status of an answer, whether it is in the range of `ok`, and whether it was redirected.
unfoldable pub feed_failure : Bool → Bool → ℕ → Bool → Option ErrCode
feed_failure is_more_feed is_ok status redirected =
    if (status == 403) || (status == 429)
    then some blocked
    else if (is_more_feed && redirected) || not is_ok
    then some feed_unavailable
    else none

abbrev pub Kept : LocalDb → LocalDb × Result CheckinSyncState → Type 0
Kept db (after, ok state) =
    (after.checkins ≡ db.checkins)
    × (after.ranges ≡ db.ranges)
    × ((m : LocalMeta) × (after.meta ≡ some m) × (state.link_revision ≡ some m.generation))
Kept db (after, err e) = after ≡ db

owned_state-Kept :
    (username : String) (generation : ℕ) (now : String) (db : LocalDb) (o : Option LocalMeta)
    → db.meta ≡ o
    → Kept db (owned_state username generation now db o)
owned_state-Kept username generation now db none e = (refl, refl, (_, refl, refl))
owned_state-Kept username generation now db (some m) e =
    if-cases (Kept db) (is_leftover generation m db) _ _ (λ _. (refl, refl, (_, refl, refl)))
      λ _.
        if-cases (Kept db) (not (str_eq m.username username) || not (m.generation == generation)) _
          _ (λ _. refl) λ _. (refl, refl, (m, e, refl))

-- `getState` never touches the check-ins or their coverage; where it fails it changes nothing, and
-- where it answers, the database has an owner, whose generation is the link revision of the answer.
get_state-Kept :
    (before : ℕ) (session : Option String) (after : ℕ) (now : String) (db : LocalDb)
    → Kept db (get_state before session after now db)
unfolding get_state
get_state-Kept before none after now db = refl
get_state-Kept before (some username) after now db =
    if-cases (Kept db) (not (after == before)) _ _ (λ _. refl)
      λ _. owned_state-Kept username before now db db.meta refl
