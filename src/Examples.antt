-- ===== src/Examples.antt =====
-- The components beside the synchronisation, at concrete inputs.
use warsaw_beer_bot.Base.{
  ℕ, ◌+◌, ◌≤◌, ◌<◌, ◌≡◌, refl, true, false, not, none, some, List, [], ◌∷◌, map, leb, ◌==◌,
  if◌then◌else◌, length, All, arith,
}
use warsaw_beer_bot.Circuit as Circuit
use warsaw_beer_bot.Circuit.Runs as Runs
use warsaw_beer_bot.Circuit.Alerts.{Alternate, alerts_of, run-Alternate}
use warsaw_beer_bot.Circuit.Persistence.{ReadsBack, persistent_run, restart-same_answer}
use warsaw_beer_bot.Report as Report
use warsaw_beer_bot.Report.Flow as Flow
use warsaw_beer_bot.Report.Sound.{Sound, step_flow-Sound}
use warsaw_beer_bot.Base.Sort.{sort}
use warsaw_beer_bot.Scheduler as Scheduler
use warsaw_beer_bot.Scheduler.Budget.{
  Action, fetch, press, auto_check, silent_requests, silent_requests-le,
}
use warsaw_beer_bot.Lookup as Lookup
use warsaw_beer_bot.Lookup.Dominance.{ranking, Dominates, dominant_candidate-Dominates}
use warsaw_beer_bot.Retry as Retry
use warsaw_beer_bot.Retry.Attempts.{scripted, noted, with_busy_retry-first}
use warsaw_beer_bot.Messages as Messages
use warsaw_beer_bot.Messages.Split.{join, split_message-whole}
use warsaw_beer_bot.Status as Status
use warsaw_beer_bot.Status.Reminders.{sends, sends-once, snoozed-reminder}
use warsaw_beer_bot.Cache as Cache
use warsaw_beer_bot.Cache.Reads.{get_cached-write_cached}

abbrev breaker_options : Circuit.CircuitOptions
breaker_options = record { cooldown_ms = 100; block_threshold = 2 }

abbrev calls : List Runs.Call
calls =
    Runs.attempt 5
    ∷ Runs.result true 6
    ∷ Runs.result true 7
    ∷ Runs.attempt 50
    ∷ Runs.attempt 107
    ∷ Runs.result false 108
    ∷ []

-- A clock whose texts are the times themselves.
abbrev clock : Circuit.Clock ℕ
clock = record { parse = λ t. some t; is_empty = λ t. false; to_iso = λ t. t }

clock-ReadsBack : ReadsBack clock
clock-ReadsBack t = (refl, refl)

persistent_run_example :
    (Runs.run
      (Runs.persistent_step clock breaker_options)
      calls
      record { row = none; memory = Circuit.new_breaker }).1
    ≡ (Runs.run (Runs.step breaker_options) calls Circuit.new_breaker).1
persistent_run_example = persistent_run clock breaker_options calls clock-ReadsBack

restart-same_answer_example :
    let s =
      (Runs.run
        (Runs.persistent_step clock breaker_options)
        calls
        record { row = none; memory = Circuit.new_breaker }).0 in
    ((Circuit.persistent_can_attempt clock breaker_options 120
        record { row = s.row; memory = Circuit.new_breaker }).1
      ≡ (Circuit.persistent_can_attempt clock breaker_options 120 s).1)
    × (Circuit.is_circuit_open clock s.row 120
        ≡ not (Circuit.persistent_can_attempt clock breaker_options 120 s).1)
restart-same_answer_example = restart-same_answer clock breaker_options calls 120 clock-ReadsBack

run-Alternate_example :
    Alternate false (alerts_of (Runs.run (Runs.step breaker_options) calls Circuit.new_breaker).1)
run-Alternate_example = run-Alternate breaker_options calls Circuit.new_breaker

step_flow-Sound_example :
    Sound (Flow.step_flow (some (Flow.new_draft 0)) (Report.pick_source Report.bot) 1000)
step_flow-Sound_example =
    step_flow-Sound (some (Flow.new_draft 0)) (Report.pick_source Report.bot) 1000 refl

abbrev empty_store : Scheduler.Store
empty_store = record { intent = none; pause = none; checks = none; watchdog = false; report = none }

abbrev day : List Action
day = auto_check true true false 1 0 ∷ fetch ∷ fetch ∷ press 2 50 ∷ fetch ∷ []

silent_requests-le_example : silent_requests 20 day empty_store ≤ 40
silent_requests-le_example = silent_requests-le 20 day empty_store

abbrev guinness : Lookup.SearchResult
guinness = record { bid = 1; rating_count = some 5000; abv = some 420 }

abbrev bitter : Lookup.SearchResult
bitter = record { bid = 2; rating_count = some 90; abv = some 440 }

leads : Lookup.dominant_candidate 30 (bitter ∷ guinness ∷ []) none ≡ some guinness
unfolding Lookup.dominant_candidate sort
leads = refl

dominant_candidate-Dominates_example :
    (l : List Lookup.SearchResult) × (ranking (bitter ∷ guinness ∷ []) ≡ guinness ∷ l)
    × Dominates 30 none guinness l
dominant_candidate-Dominates_example =
    dominant_candidate-Dominates 30 (bitter ∷ guinness ∷ []) none guinness leads

-- Two busy attempts, then a value.
abbrev twice_busy : ℕ → Retry.Tried ℕ ℕ
twice_busy n = if leb 2 n then Retry.returned 9 else Retry.busy n

twice : (j : ℕ) → j < 2 → (e : ℕ) × (twice_busy (0 + j) ≡ Retry.busy e)
twice j h = (0 + j, rw (below) refl)
  where
    below : leb 2 (0 + j) ≡ false
    below = ground arith

with_busy_retry-first_example :
    Retry.with_busy_retry (scripted twice_busy 100) (noted twice_busy 100) 100 5 (0, [])
    ≡ ((3, 200 ∷ 100 ∷ []), Retry.gave 9)
with_busy_retry-first_example = with_busy_retry-first twice_busy 100 2 5 9 (ground arith) twice refl

split_message-whole_example :
    All
      (λ m. length m ≤ 5)
      (Messages.split_message [] ((65 ∷ 66 ∷ []) ∷ (67 ∷ 68 ∷ 69 ∷ []) ∷ []) 5)
    × (join (Messages.split_message [] ((65 ∷ 66 ∷ []) ∷ (67 ∷ 68 ∷ 69 ∷ []) ∷ []) 5)
        ≡ join (map (Messages.clip 5) ((65 ∷ 66 ∷ []) ∷ (67 ∷ 68 ∷ 69 ∷ []) ∷ [])))
split_message-whole_example =
    split_message-whole [] ((65 ∷ 66 ∷ []) ∷ (67 ∷ 68 ∷ 69 ∷ []) ∷ []) 5 (ground arith)

abbrev announced : Status.RebootAlertState
announced = record { since = 1000; snooze_until = none }

sends-once_example :
    All
      (λ b. b ≡ false)
      (sends
        ((Status.pending 1000, 5000) ∷ (Status.unreadable, 6000) ∷ [])
        (Status.decide_reboot_alert (Status.pending 1000) none 2000).state)
unfolding Status.decide_reboot_alert
sends-once_example =
    sends-once 1000 2000 ((Status.pending 1000, 5000) ∷ (Status.unreadable, 6000) ∷ []) none refl
      (refl, (tt, tt))

snoozed-reminder_example :
    (Status.decide_reboot_alert
      (Status.pending 1000)
      (some (Status.snooze_reboot_alert announced 2000))
      3000).send
    ≡ leb (2000 + Status.reboot_snooze_seconds) 3000
snoozed-reminder_example = snoozed-reminder announced 2000 3000 (ground arith)

get_cached-write_cached_example :
    Cache.get_cached {Result = ℕ} 4 1000 (Cache.write_cached 4 9 500 []) ≡ (
      if 4 == 4
      then (if leb (500 + Cache.cache_ttl_ms) 1000 then none else some 9)
      else Cache.get_cached {Result = ℕ} 4 1000 [])
get_cached-write_cached_example = get_cached-write_cached {Result = ℕ} 4 4 9 500 1000 []
