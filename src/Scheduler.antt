-- ===== src/Scheduler.antt =====
-- extension/src/background/sync-scheduler.ts: the intent to synchronise and its budget. The work that
-- the source chains on the intent (`withIntent`) is one function here, from the stores to the stores;
-- times are milliseconds, and ids and local dates, which are only compared, stand as numbers.
pub mod Budget
use warsaw_beer_bot.Base.{
  ℕ, suc, ◌+◌, ◌-◌, ◌*◌, ◌/◌, Bool, true, false, not, ◌&&◌, ◌||◌, Option, none, some, leb, ltb,
  ◌==◌, if◌then◌else◌,
}
use warsaw_beer_bot.Sync.Walk.{
  SyncStatus, done, capped, gap, cancelled, not_linked, blocked, no_session, account_changed,
  sync_context_required, feed_unavailable, page_rejected, error, SyncOutcome,
}

abbrev pub silent_budget : ℕ
silent_budget = 10

abbrev pub max_checks_per_day : ℕ
max_checks_per_day = 4

abbrev pub more_feed_page_size : ℕ
more_feed_page_size = 25

abbrev pub intent_max_age_ms : ℕ
intent_max_age_ms = 24 * 60 * 60 * 1000

pub data Kind : Type 0 where
  manual silent : Kind

-- An id is only compared.
pub record SyncIntent : Type 0 where
  pub id : ℕ
  pub kind : Kind
  pub started_at : ℕ
  pub silent_pages_used : ℕ

pub record SchedulerReport : Type 0 where
  pub outcome : SyncOutcome
  pub kind : Kind
  pub gap_missing : Option ℕ
  pub paused_until : Option ℕ
  pub quiet : Bool
  pub after_step : Bool

pub record Checks : Type 0 where
  pub date : ℕ
  pub count : ℕ

-- The three keys of the store, the watchdog alarm, and the last report.
pub record Store : Type 0 where
  pub intent : Option SyncIntent
  pub pause : Option ℕ
  pub checks : Option Checks
  pub watchdog : Bool
  pub report : Option SchedulerReport

abbrev pub is_manual : Kind → Bool
is_manual manual = true
is_manual silent = false

abbrev pub up : ℕ → ℕ
up n = (n + (more_feed_page_size - 1)) / more_feed_page_size

unfoldable pub pages_needed : Option ℕ → ℕ → ℕ
pages_needed none server_count = 0
pages_needed (some total) server_count = up (total - server_count)

abbrev pub empty_outcome : SyncStatus → SyncOutcome
empty_outcome status = record {
  status = status;
  complete = false;
  server_count = 0;
  profile_total = none;
  merged_this_run = 0;
  caught_up = false;
}

unfoldable pub write_intent : SyncIntent → Store → Store
write_intent i s = record {
  intent = some i;
  pause = s.pause;
  checks = s.checks;
  watchdog = true;
  report = s.report;
}

unfoldable pub remove_intent : Store → Store
remove_intent s = record {
  intent = none;
  pause = s.pause;
  checks = s.checks;
  watchdog = false;
  report = s.report;
}

-- `cur && cur.id !== id`.
abbrev pub is_other : ℕ → Option SyncIntent → Bool
is_other id none = false
is_other id (some cur) = not (cur.id == id)

unfoldable pub clear_intent : ℕ → Store → Store × Bool
unfolding remove_intent
clear_intent id s = if is_other id s.intent then (s, false) else (remove_intent s, true)

abbrev pub spent : SyncIntent → SyncIntent
spent i = record {
  id = i.id;
  kind = i.kind;
  started_at = i.started_at;
  silent_pages_used = suc i.silent_pages_used;
}

abbrev pub reserve : Option SyncIntent → Store → Store × Bool
reserve none s = (s, false)
reserve (some i) s =
    if is_manual i.kind
    then (s, true)
    else if leb silent_budget i.silent_pages_used
    then (s, false)
    else (write_intent (spent i) s, true)

unfoldable pub before_fetch : Store → Store × Bool
unfolding write_intent
before_fetch s = reserve s.intent s

-- `true` for `stop`; `current` is the last intent read or written.
unfoldable pub after_page : Option SyncIntent → Option ℕ → ℕ → Bool
unfolding pages_needed
after_page none total server_count = false
after_page (some i) total server_count =
    not (is_manual i.kind)
    && ltb silent_budget (pages_needed total server_count + i.silent_pages_used)

abbrev pub missing_of : SyncOutcome → Option ℕ → Option ℕ
missing_of o none = none
missing_of o (some total) = some (total - o.server_count)

abbrev pub is_positive : Option ℕ → Bool
is_positive none = false
is_positive (some n) = ltb 0 n

abbrev pub is_gap : SyncStatus → Kind → Option ℕ → Bool
is_gap gap kind missing = true
is_gap capped kind missing = not (is_manual kind) && is_positive missing
is_gap _ kind missing = false

abbrev pub is_no_session : SyncStatus → Bool
is_no_session no_session = true
is_no_session _ = false

-- `nextLocalMidnight` of the clock, for a block.
abbrev pub pause_of : SyncStatus → ℕ → Option ℕ
pause_of blocked midnight = some midnight
pause_of _ midnight = none

abbrev pub with_status : SyncStatus → SyncOutcome → SyncOutcome
with_status status o = record {
  status = status;
  complete = o.complete;
  server_count = o.server_count;
  profile_total = o.profile_total;
  merged_this_run = o.merged_this_run;
  caught_up = o.caught_up;
}

abbrev pub verdict : SyncOutcome → Kind → ℕ → SchedulerReport
verdict o kind midnight =
    let missing = missing_of o o.profile_total in
    let gapped = is_gap o.status kind missing in
    record {
      outcome = if gapped then with_status gap o else o;
      kind = kind;
      gap_missing = if gapped then missing else none;
      paused_until = pause_of o.status midnight;
      quiet = is_no_session o.status && not (is_manual kind);
      after_step = true;
    }

abbrev pub or_keep : Option ℕ → Option ℕ → Option ℕ
or_keep none before = before
or_keep (some t) before = some t

-- `stored` is whether `onReport` has kept the verdict; it goes on when it throws.
unfoldable pub settle : SyncOutcome → SyncIntent → ℕ → Bool → Store → Store
unfolding remove_intent
settle o i midnight stored s =
    if is_other i.id s.intent
    then s
    else remove_intent record {
      intent = s.intent;
      pause = or_keep (pause_of o.status midnight) s.pause;
      checks = s.checks;
      watchdog = s.watchdog;
      report = if stored then some (verdict o i.kind midnight) else s.report;
    }

abbrev pub is_capped_or_gap : SyncStatus → Bool
is_capped_or_gap capped = true
is_capped_or_gap gap = true
is_capped_or_gap _ = false

abbrev pub cancelled_report : SyncOutcome → Kind → SchedulerReport
cancelled_report o kind = record {
  outcome = with_status cancelled o;
  kind = kind;
  gap_missing = none;
  paused_until = none;
  quiet = false;
  after_step = true;
}

abbrev pub reported : SchedulerReport → Store → Store
reported r s = record {
  intent = s.intent;
  pause = s.pause;
  checks = s.checks;
  watchdog = s.watchdog;
  report = some r;
}

-- The end of a step of `runLoop`: `i` is the intent that it began with, `after` the one it reads.
abbrev pub end_with : SyncOutcome → SyncIntent → Bool → ℕ → Bool → Store → Option SyncIntent → Store
end_with o i aborted midnight stored s none = reported (cancelled_report o i.kind) s
end_with o i aborted midnight stored s (some after) =
    if aborted && not (after.id == i.id)
    then reported (cancelled_report o i.kind) s
    else if is_capped_or_gap o.status && is_manual after.kind
    then s
    else settle o after midnight stored s

unfoldable pub end_step : SyncOutcome → SyncIntent → Bool → ℕ → Bool → Store → Store
unfolding settle
end_step o i aborted midnight stored s = end_with o i aborted midnight stored s s.intent

abbrev pub used_by : Option SyncIntent → ℕ
used_by none = 0
used_by (some i) = i.silent_pages_used

-- `startManual`: the pause goes, and a new intent is written.
unfoldable pub start_manual : ℕ → ℕ → Store → Store
unfolding write_intent
start_manual new_id now s =
    write_intent
      record { id = new_id; kind = manual; started_at = now; silent_pages_used = used_by s.intent }
      record {
        intent = s.intent;
        pause = none;
        checks = s.checks;
        watchdog = s.watchdog;
        report = s.report;
      }

abbrev pub has_intent : Option SyncIntent → Bool
has_intent none = false
has_intent (some i) = true

-- `stop`, and whether it had something to stop; `running` is whether a loop runs.
unfoldable pub stop_sync : Bool → Store → Store × Bool
unfolding remove_intent
stop_sync running s = (remove_intent s, has_intent s.intent || running)

pub data CheckResult : Type 0 where
  started no_permission no_token running paused daily_limit : CheckResult

abbrev pub is_paused : ℕ → Option ℕ → Bool
is_paused now none = false
is_paused now (some until) = ltb now until

abbrev pub count_of : ℕ → Option Checks → ℕ
count_of today none = 0
count_of today (some c) = if c.date == today then c.count else 0

abbrev pub counted : ℕ → Store → Store
counted today s = record {
  intent = s.intent;
  pause = s.pause;
  checks = some record { date = today; count = suc (count_of today s.checks) };
  watchdog = s.watchdog;
  report = s.report;
}

-- `check` with nothing written between its reads and its intent.
unfoldable pub check : (permission token loops : Bool) → ℕ → ℕ → ℕ → Store → Store × CheckResult
unfolding write_intent
check permission token loops new_id now today s =
    if not permission
    then (s, no_permission)
    else if not token
    then (s, no_token)
    else if loops || has_intent s.intent
    then (s, running)
    else if is_paused now s.pause
    then (s, paused)
    else if leb max_checks_per_day (count_of today s.checks)
    then (s, daily_limit)
    else (
      write_intent record { id = new_id; kind = silent; started_at = now; silent_pages_used = 0 }
          (counted today s),
      started,
    )

-- `resume`, up to the loop, which it starts where it says so.
abbrev pub watched : Store → Store
watched s = record {
  intent = s.intent;
  pause = s.pause;
  checks = s.checks;
  watchdog = true;
  report = s.report;
}

abbrev pub lost_report : Bool → Kind → SchedulerReport
lost_report token kind = record {
  outcome = empty_outcome (if token then error else not_linked);
  kind = kind;
  gap_missing = none;
  paused_until = none;
  quiet = false;
  after_step = false;
}

abbrev pub resume_with : (permission token : Bool) → ℕ → Store → Option SyncIntent → Store × Bool
resume_with permission token now s none = (
  record {
    intent = s.intent;
    pause = s.pause;
    checks = s.checks;
    watchdog = false;
    report = s.report;
  },
  false,
)
resume_with permission token now s (some i) =
    if leb (i.started_at + intent_max_age_ms) now
    then (remove_intent s, false)
    else if not token || not permission
    then (reported (lost_report token i.kind) (remove_intent s), false)
    else (watched s, true)

unfoldable pub resume : (loops permission token : Bool) → ℕ → Store → Store × Bool
unfolding remove_intent
resume loops permission token now s =
    if loops then (s, false) else resume_with permission token now s s.intent
