-- ===== src/Fest/Planning.antt =====
-- src/domain/fest/mcp-paging.ts, schedule.ts and alerts.ts: what the festival's jobs do
-- next. Times are milliseconds since the epoch; an unreadable time is `none`.
pub mod Paging
pub mod Alerting
use warsaw_beer_bot.Base.{
  ℕ, zero, suc, ◌+◌, ◌*◌, Bool, true, false, not, ◌&&◌, ◌||◌, Option, none, some, List, [], ◌∷◌,
  ◌++◌, leb, ltb, ◌==◌, if◌then◌else◌, filter, find?, any,
}
use warsaw_beer_bot.Base.Sort.{sort}

abbrev pub mcp_page_cap : ℕ
mcp_page_cap = 25

abbrev pub mcp_max_pages : ℕ
mcp_max_pages = 4

pub data PageStep : Type 0 where
  more done hole : PageStep

abbrev pub is_none : Option ℕ → Bool
is_none none = true
is_none (some n) = false

unfoldable pub page_step : Option ℕ → ℕ → ℕ → PageStep
page_step cursor page_no count =
    if is_none cursor || ltb count mcp_page_cap
    then done
    else if leb mcp_max_pages page_no
    then hole
    else more

abbrev pub newer : Option ℕ → ℕ → Option ℕ
newer none id = some id
newer (some m) id = if ltb m id then some id else some m

unfoldable pub next_cursor : Option ℕ → List ℕ → Option ℕ
next_cursor cursor [] = cursor
next_cursor cursor (id ∷ ids) = next_cursor (newer cursor id) ids

-- `Math.min(...ids) <= c`, and `oldestAt !== null && oldestAt <= floorAt`.
abbrev pub reaches : Option ℕ → ℕ → List ℕ → Option ℕ → Bool
reaches (some c) floor_at ids oldest_at = any (λ id. leb id c) ids
reaches none floor_at ids none = false
reaches none floor_at ids (some t) = leb t floor_at

abbrev pub has_ids : List ℕ → Bool
has_ids [] = false
has_ids (id ∷ ids) = true

unfoldable pub venue_page_step : Option ℕ → ℕ → ℕ → ℕ → List ℕ → Option ℕ → PageStep
venue_page_step cursor floor_at page_no count ids oldest_at =
    if ltb count mcp_page_cap
    then done
    else if not (has_ids ids)
    then hole
    else if reaches cursor floor_at ids oldest_at
    then done
    else if leb mcp_max_pages page_no
    then hole
    else more

abbrev pub server_poll_interval_ms : ℕ
server_poll_interval_ms = 10 * 60 * 1000

abbrev pub menu_interval_in_window_ms : ℕ
menu_interval_in_window_ms = 2 * 60 * 60 * 1000

abbrev pub menu_interval_run_up_ms : ℕ
menu_interval_run_up_ms = 6 * 60 * 60 * 1000

pub record Window : Type 0 where
  pub start_at : ℕ
  pub end_at : ℕ

abbrev pub due : ℕ → Option ℕ → ℕ → Bool
due now none interval = true
due now (some last) interval = leb (last + interval) now

unfoldable pub due_server_poll : ℕ → Bool → Option ℕ → Bool
due_server_poll now in_window last_at = in_window && due now last_at server_poll_interval_ms

abbrev pub last_end : ℕ → List Window → ℕ
last_end t [] = t
last_end t (w ∷ l) = last_end w.end_at l

abbrev pub read_since : Option ℕ → ℕ → Bool
read_since none start = false
read_since (some last) start = leb start last

abbrev pub menu_due : ℕ → Option ℕ → Option Window → Bool
menu_due t last_at (some w) =
    not (read_since last_at w.start_at) || due t last_at menu_interval_in_window_ms
menu_due t last_at none = due t last_at menu_interval_run_up_ms

unfoldable pub due_menu_refresh : ℕ → List Window → Option ℕ → Bool
due_menu_refresh t [] last_at = false
due_menu_refresh t (w ∷ l) last_at =
    if ltb (last_end w.end_at l) t
    then false
    else menu_due t last_at (find? (λ x. leb x.start_at t && leb t x.end_at) (w ∷ l))

abbrev pub alert_fresh_ms : ℕ
alert_fresh_ms = 15 * 60 * 1000

abbrev pub clock_skew_ms : ℕ
clock_skew_ms = 5 * 60 * 1000

-- The texts of `firstAt` have one form, in which they are in the order of their times.
pub record OnTapTarget : Type 0 where
  pub beer_id : ℕ
  pub first_at : Option ℕ
  pub first_checkin_id : ℕ

pub record AlertPlan : Type 0 where
  pub fresh : List OnTapTarget
  pub pouring : List OnTapTarget

abbrev pub plausible : ℕ → Option ℕ → Bool
plausible now none = false
plausible now (some t) = leb t (now + clock_skew_ms)

abbrev pub is_fresh : ℕ → Option ℕ → Bool
is_fresh now none = false
is_fresh now (some t) = leb now (t + alert_fresh_ms)

abbrev pub at_time : Option ℕ → ℕ
at_time none = 0
at_time (some t) = t

abbrev pub announced_before : OnTapTarget → OnTapTarget → Bool
announced_before a b =
    ltb (at_time a.first_at) (at_time b.first_at)
    || ((at_time a.first_at == at_time b.first_at) && leb a.beer_id b.beer_id)

abbrev pub due_alerts : List OnTapTarget → (ℕ → Bool) → ℕ → List OnTapTarget
due_alerts on_tap sent now =
    sort announced_before (filter (λ t. not (sent t.beer_id) && plausible now t.first_at) on_tap)

unfoldable pub plan_alerts : List OnTapTarget → (ℕ → Bool) → ℕ → AlertPlan
plan_alerts on_tap sent now = record {
  fresh = filter (λ t. is_fresh now t.first_at) (due_alerts on_tap sent now);
  pouring = filter (λ t. not (is_fresh now t.first_at)) (due_alerts on_tap sent now);
}
