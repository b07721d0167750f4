-- ===== src/Lib.antt =====
-- Warsaw Beer Overlay: a Telegram bot with an API (src/) and a browser extension (extension/) that
-- show which beers a person has had. This library models the core of both in TypeScript.
--
-- Base: the libraries' names passed on, Boolean tests on the native ℕ, lists, sorting, decimal texts.
--
-- Sync: the check-in synchronisation. Coverage is src/shared/checkin-sync/coverage.ts, a history as
-- ranges of ids (mergeRange, rangeContaining); Store is the same on the table of
-- src/storage/checkin_coverage.ts; Guards is guards.ts (checkPage, coverageSpan) and Conclude is
-- conclude.ts (isCaughtUp, conclude) of src/shared/checkin-sync. Local is submitPage of
-- extension/src/local/sync.ts on the stores of local/db.ts, which calls those four; Session is its
-- getState; Walk is
-- runCheckinSync of extension/src/background/handle-checkin-sync.ts, which calls submitPage, of the
-- server or local. Sync.Examples runs the walk over the local database.
--
-- Server: the history of a person on the server, over its tables. Server is storage/history-owner.ts,
-- Profiles is user_profiles.ts, Checkins is checkins.ts and checkin_sync_state.ts of src/storage, and
-- Feed is src/api/routes/checkins.ts, which answers the steps of Walk from Guards, Store and Conclude.
--
-- Scheduler: extension/src/background/sync-scheduler.ts, which starts the steps of Walk. Each piece of
-- work on the intent is one function from the store to the store; the functions are interleaved in
-- any order.
--
-- Circuit: src/domain/untappd-circuit.ts, the circuit breaker in memory and the one over job_state.
-- Report: src/domain/bug-report-flow.ts and bug-report-categories.ts, the dialogue of /report.
-- Bugs: the queue that the dialogue fills. Store is src/storage/bug_reports.ts, Errors is
-- transient-error.ts, Verdicts is bug-report-verdict.ts with the cleaning of fields of
-- bug-report-redact.ts and bug-report-template.ts, and Worker is src/jobs/bug-report-worker.ts, where
-- Worker.Process is processReport and runOnce. The worker is code that changes a state and may throw
-- (Base.Exec): what was written before a throw stays written.
-- Router: src/domain/router.ts, which pubs to visit (greedySetCover, localSwapForDistance) and, in
-- Tours, in which order (openTsp, nearestNeighbourTwoOpt).
-- Fest: src/domain/fest, with Coverage (coverage.ts), Eyes (eye-health.ts, tap-status.ts), Closure
-- (closure.ts), Targets (targets.ts), Ranking (ranking.ts), Planning (mcp-paging.ts, schedule.ts,
-- alerts.ts) and Presence (presence.ts). Queue is src/storage/fest_queue.ts, the glasses of a team, and
-- Print is src/storage/fest_print.ts, the stations that print their labels; Queue.Runs makes any
-- sequence of the calls of both.
-- Lookup: src/domain/lookup-backoff.ts and rating-dominance.ts. Retry: src/storage/busy-retry.ts.
-- Messages: src/bot/commands/message-split.ts. Status: src/domain/status/reboot-alert.ts.
-- Filters: src/domain/filters.ts. Cache: extension/src/cache/store.ts.
--
-- Numbers are natural numbers. Ids, counters and times in milliseconds are far below 2^53, where a
-- double is exact; where the code may go below 0 the test is written without the subtraction.
-- Ratings and strengths are in hundredths. A text is the list of its UTF-16 units where the code looks
-- into it, and a String or a number where it only compares it. `walk` runs on the number of pages
-- left, which is the page cap at the start, `retry_from` on the attempts left, `strip_tags` on the
-- length of the text, of which each round takes at least one unit. The greedy cover runs on the number
-- of pubs, of which each round takes one, and the swaps on the number of selections, of which each
-- sweep but the last leaves a shorter one than all before. A distance there is of any type with the
-- operations that the code uses of a number.
--
-- Parameters are what the code is given from outside: the calls of a step, the clock's texts, lower
-- case and style families, canonicalCheckinAt. Not modelled: HTTP and Telegram, HTML parsing, the
-- tables that no part above names, memberBeerCheckins of the glasses, the lookup of beers and its
-- triage, the matcher's text rules, the texts of the bot, the deployment.
pub mod Base
pub mod Sync
pub mod Bugs
pub mod Circuit
pub mod Report
pub mod Fest
pub mod Router
pub mod Scheduler
pub mod Lookup
pub mod Retry
pub mod Messages
pub mod Server
pub mod Status
pub mod Filters
pub mod Cache
mod Examples
