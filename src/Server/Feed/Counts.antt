-- ===== src/Server/Feed/Counts.antt =====
-- What a submitted page does to the tables: api/routes/checkins.ts, on every way that it can end.
use Prim.Native.String.{String}
use text.Mathlib.TextPositions.{eq_refl}
use warsaw_beer_bot.Base.{
  ℕ, suc, ◌+◌, true, false, not, ◌&&◌, Option, none, some, List, [], ◌∷◌, ◌==◌, ==_refl, ◌≡◌, refl,
  ap, ◌∙◌, inl, inr, if◌then◌else◌, if-cases, Bool-cases, arith, length, filter,
}
use warsaw_beer_bot.Base.Strings.{same_string}
use warsaw_beer_bot.Base.Decimal.{Text, show}
use warsaw_beer_bot.Sync.Guards.{FeedCheckin, CheckinFeedPage, PageVerdict}
use warsaw_beer_bot.Sync.Local.{Feed, block_page, feed_page, PageResult}
use warsaw_beer_bot.Sync.Store.{Table}
use warsaw_beer_bot.Server.{CheckinRow, Tables, HistoryOwner, ProfileRow, username_of, get_profile}
use warsaw_beer_bot.Server.Checkins.{
  owned, is_checkin, merge_checkin, checkin_exists, count_checkins,
}
use warsaw_beer_bot.Server.Feed.{
  Calls, row_of, put_row, put_page, Response, answered, refused, failed, stored, on_verdict,
  empty_answer, submit_feed, guarded, same_revision, linked_only, post_sync, owner_of,
}

module _ (new : CheckinRow) where
  is_checkin-owned :
      (c : CheckinRow)
      → is_checkin new.telegram_id new.account_key new.checkin_id c ≡ true
      → owned new.telegram_id new.account_key c ≡ true
  is_checkin-owned c h = elim (Bool-cases (owned new.telegram_id new.account_key c)) [
    | inl e ↦ e
    | inr e ↦ absurd (apart (rw e at h))
  ]
    where
      apart : false ≡ true → ⊥
      apart k = cc

  -- A row in front changes both counts alike.
  counted :
      (c : CheckinRow) (xs ys : List CheckinRow) (n : ℕ)
      → length (filter (owned new.telegram_id new.account_key) xs)
        ≡ n + length (filter (owned new.telegram_id new.account_key) ys)
      → length (filter (owned new.telegram_id new.account_key) (c ∷ xs))
        ≡ n + length (filter (owned new.telegram_id new.account_key) (c ∷ ys))
  counted c xs ys n h = elim (Bool-cases (owned new.telegram_id new.account_key c)) [
    | inl e ↦ rw e (omega (arith, h))
    | inr e ↦ rw e h
  ]

  -- The count of the owner's rows grows by one exactly where the row was not there.
  pub count-merge_checkin :
      (rows : List CheckinRow)
      → owned new.telegram_id new.account_key new ≡ true
      → count_checkins (merge_checkin new rows) new.telegram_id new.account_key
        ≡ (if checkin_exists rows new.telegram_id new.checkin_id new.account_key then 0 else 1)
          + count_checkins rows new.telegram_id new.account_key
  unfolding count_checkins merge_checkin checkin_exists
  count-merge_checkin [] own = rw own (omega arith)
  count-merge_checkin (c ∷ rows) own =
      elim (Bool-cases (is_checkin new.telegram_id new.account_key new.checkin_id c)) [
        | inl e ↦ let mine = is_checkin-owned c e in rw (e, mine) (omega arith)
        | inr e ↦ rw e (counted c (merge_checkin new rows) rows _ (count-merge_checkin rows own))
      ]

own_row : (tid : ℕ) (key : String) → (tid == tid && same_string key key) ≡ true
own_row tid key = let here = ==_refl tid in let same = eq_refl key in rw (here, same)

module _ {B : Type 0} (calls : Calls B) (telegram_id : ℕ) (key : String) where
  -- Every row of the page is counted once, and the table grows by those that were not known.
  pub put_page_counts :
      (page : List FeedCheckin) (s : List CheckinRow × B) (merged already_known : ℕ)
      → (((put_page calls telegram_id key page s merged already_known).1
            + (put_page calls telegram_id key page s merged already_known).2)
          ≡ merged + already_known + length page)
        × ((count_checkins
                (put_page calls telegram_id key page s merged already_known).0.0
                telegram_id
                key
              + merged)
            ≡ (count_checkins s.0 telegram_id key
                + (put_page calls telegram_id key page s merged already_known).1))
  unfolding put_page
  put_page_counts [] s merged already_known = (omega arith, omega arith)
  put_page_counts (ci ∷ rest) s merged already_known =
      let (beer, after) = calls.upsert_beer ci s.1 in
      let grown =
        count-merge_checkin (row_of calls telegram_id key beer ci) s.0 (own_row telegram_id key) in
      elim (Bool-cases (checkin_exists s.0 telegram_id (show ci.checkin_id) key)) [
        | inl e ↦
            let (sum, count) =
              put_page_counts rest (put_row calls telegram_id key ci s) merged
                (suc already_known) in
            rw (put_page, e) (omega (arith, sum), omega (arith, count, rw e at grown))
        | inr e ↦
            let (sum, count) =
              put_page_counts rest (put_row calls telegram_id key ci s) (suc merged)
                already_known in
            rw (put_page, e) (omega (arith, sum), omega (arith, count, rw e at grown))
      ]

  merge_checkin-others :
      (new : CheckinRow) (rows : List CheckinRow)
      → owned telegram_id key new ≡ true
      → new.telegram_id ≡ telegram_id
      → new.account_key ≡ key
      → filter (λ c. not (owned telegram_id key c)) (merge_checkin new rows)
        ≡ filter (λ c. not (owned telegram_id key c)) rows
  unfolding merge_checkin
  merge_checkin-others new [] own at_id at_key = rw own refl
  merge_checkin-others new (c ∷ rows) own at_id at_key =
      elim (Bool-cases (is_checkin new.telegram_id new.account_key new.checkin_id c)) [
        | inl e ↦
            let mine : owned telegram_id key c ≡ true =
              rw (at_id, at_key) at (is_checkin-owned new c e) in
            rw (e, mine) refl
        | inr e ↦ rw e (elim (Bool-cases (owned telegram_id key c)) [
          | inl f ↦ rw f (merge_checkin-others new rows own at_id at_key)
          | inr f ↦ rw f (ap (λ xs. c ∷ xs) (merge_checkin-others new rows own at_id at_key))
        ])
      ]

  pub put_page-others :
      (page : List FeedCheckin) (s : List CheckinRow × B) (merged already_known : ℕ)
      → filter
          (λ c. not (owned telegram_id key c))
          (put_page calls telegram_id key page s merged already_known).0.0
        ≡ filter (λ c. not (owned telegram_id key c)) s.0
  unfolding put_page
  put_page-others [] s merged already_known = refl
  put_page-others (ci ∷ rest) s merged already_known =
      let (beer, after) = calls.upsert_beer ci s.1 in
      put_page-others rest (put_row calls telegram_id key ci s) _ _
      ∙ merge_checkin-others (row_of calls telegram_id key beer ci) s.0 (own_row telegram_id key)
          refl refl

-- What a submission may do: with an answer every row of the page is counted once, the count of the
-- answer is that of the table, which grew by the rows that are new, and neither the rows of other
-- accounts nor the profiles change; without one the tables are as they were.
pub Submitted : {B : Type 0} → ℕ → String → Tables B → Tables B × Response PageResult → Type 0
Submitted telegram_id key t (t', answered r) =
    (r.merged + r.already_known ≡ r.page_size)
    × (r.server_count ≡ count_checkins t'.checkins telegram_id key)
    × (r.server_count ≡ count_checkins t.checkins telegram_id key + r.merged)
    × (filter (λ c. not (owned telegram_id key c)) t'.checkins
        ≡ filter (λ c. not (owned telegram_id key c)) t.checkins)
    × (t'.profiles ≡ t.profiles)
Submitted telegram_id key t (t', refused r) = t' ≡ t
Submitted telegram_id key t (t', failed) = t' ≡ t

module _ {B : Type 0} (calls : Calls B) (telegram_id : ℕ) where
  stored-Submitted :
      (page : CheckinFeedPage) (key : String) (t : Tables B) (oldest : ℕ) (o : Option Table)
      → Submitted telegram_id key t (stored calls page telegram_id key t oldest o)
  unfolding Submitted
  stored-Submitted page key t oldest none = refl
  stored-Submitted page key t oldest (some coverage) =
      let (sum, count) =
        put_page_counts calls telegram_id key page.checkins (t.checkins, t.beers) 0 0 in
      (
        omega (arith, sum),
        refl,
        omega (arith, count),
        put_page-others calls telegram_id key page.checkins (t.checkins, t.beers) 0 0,
        refl,
      )

  on_verdict-Submitted :
      (page : CheckinFeedPage) (key : String) (t : Tables B) (v : PageVerdict)
      → Submitted telegram_id key t (on_verdict calls page telegram_id key t v)
  unfolding on_verdict Submitted empty_answer
  on_verdict-Submitted page key t (PageVerdict.refuse status code reason) = refl
  on_verdict-Submitted page key t PageVerdict.empty = (refl, refl, omega arith, refl, refl)
  on_verdict-Submitted page key t (PageVerdict.accept cursor ids oldest newest) =
      stored-Submitted page key t oldest _

  feed-Submitted :
      (owner : HistoryOwner) (feed : Feed) (max_id : Option Text) (t : Tables B)
      → Submitted telegram_id owner.account_key t
          (submit_feed calls telegram_id owner feed max_id t)
  unfolding Submitted
  feed-Submitted owner block_page max_id t = refl
  feed-Submitted owner (feed_page page) max_id t = on_verdict-Submitted page owner.account_key t _

  guarded-Submitted :
      (profile : Option ProfileRow) (owner : HistoryOwner) (feed : Feed) (max_id : Option Text)
      (revision : Option ℕ) (t : Tables B)
      → Submitted telegram_id owner.account_key t
          (guarded calls telegram_id profile owner feed max_id revision t)
  unfolding Submitted
  guarded-Submitted none owner feed max_id revision t = refl
  guarded-Submitted (some profile) owner feed max_id (some revision) t =
      if-cases (Submitted telegram_id owner.account_key t) (revision == owner.link_revision) _ _
        (λ e. feed-Submitted owner feed max_id t) λ e. refl
  guarded-Submitted (some profile) owner feed max_id none t =
      if-cases (Submitted telegram_id owner.account_key t)
        (same_revision calls profile.legacy_sync_revision owner.link_revision) _ _
        (λ e. feed-Submitted owner feed max_id t) λ e. refl

  linked-Submitted :
      (username : Option String) (key : String) (next : Tables B × Response PageResult)
      (t : Tables B)
      → Submitted telegram_id key t next
      → Submitted telegram_id key t (linked_only calls username next t)
  unfolding Submitted
  linked-Submitted none key next t h = refl
  linked-Submitted (some username) key next t h =
      if-cases (Submitted telegram_id key t) (same_string username "") _ _ (λ e. refl) λ e. h

  -- Every submission is answered with counts that fit, or leaves the tables as they were.
  pub post_sync-Submitted :
      (feed : Feed) (max_id : Option Text) (revision : Option ℕ) (t : Tables B)
      → Submitted telegram_id
          (owner_of calls t telegram_id).account_key
          t
          (post_sync calls telegram_id feed max_id revision t)
  unfolding post_sync
  post_sync-Submitted feed max_id revision t =
      linked-Submitted (username_of (get_profile t.profiles telegram_id)) _ _ t (
        guarded-Submitted (get_profile t.profiles telegram_id) (owner_of calls t telegram_id) feed
          max_id revision t)
