-- ===== src/Bugs/Worker/Process.antt =====
-- src/jobs/bug-report-worker.ts: processReport and runOnce. The flag `publishing` of the source is
-- which of the two parts of a report's processing runs: what the first part throws is handled with the
-- flag down, what the second throws with the flag up.
pub mod Settles
pub mod Changes
pub mod Others
use warsaw_beer_bot.Base.{
  ℕ, Bool, true, false, not, ◌||◌, Option, none, some, List, [], ◌∷◌, ◌++◌, map, leb, ◌==◌,
  if◌then◌else◌,
}
use warsaw_beer_bot.Base.Exec.{Result, ok, err, Exec, pure, gets, modify, catch, ◌>>=◌, ◌>>◌}
use warsaw_beer_bot.Bugs.{
  IssueDetail, severity, effort, StateReason, completed, ReportContext, ValidatedVerdict, valid_new,
  valid_open, valid_closed, valid_not_a_bug, ReportOutcome, told_created, told_open, told_closed,
  told_not_a_bug, told_deferred, told_needs_review, told_failed, BugReportRow, BugReportMedia,
  ErrorText, queued, publishing, new_issue, duplicate_open, duplicate_closed, not_a_bug,
}
use warsaw_beer_bot.Base.Decimal.{Text}
use warsaw_beer_bot.Bugs.Errors.{Failure, is_transient, credential_refusal, error_message}
use warsaw_beer_bot.Bugs.Store.{
  list_by_status, list_media, mark_publishing, mark_done, mark_failed, mark_needs_review,
  record_attempt_error, set_jev_response, mark_deferred_notified, count_processed_since,
}
use warsaw_beer_bot.Bugs.Worker.{
  Deps, World, Pause, set_paused, set_cache, Judged, judged, rejected, Prepared, finished_early,
  to_publish, call, clock, on_db, notify, candidates, images, verdict, finished, get_details,
  version_for, context, mark_truncated,
}

module _ {W : Type 0} (deps : Deps W) where
  abbrev fail : BugReportRow → ErrorText → Exec (World W) Failure Bool
  fail report error = do
    now ← clock deps
    on_db deps (mark_failed report.id error now)
    notify deps report told_failed
    finished deps

  -- From the verdict to the end of the report, or to the flag.
  abbrev pub conclude :
      BugReportRow
      → Option Text
      → List BugReportMedia
      → ValidatedVerdict
      → Exec (World W) Failure Prepared
  conclude report version media valid_not_a_bug = do
    now ← clock deps
    on_db deps (mark_done report.id not_a_bug none now none)
    notify deps report told_not_a_bug
    done ← finished deps
    pure (finished_early done)
  conclude report version media v = do
    now ← clock deps
    on_db deps (mark_publishing report.id)
    pure (to_publish v (context deps report version media) now)

  abbrev pub after_verdict :
      BugReportRow → Option Text → List BugReportMedia → Judged → Exec (World W) Failure Prepared
  after_verdict report version media (judged v) = conclude report version media v
  after_verdict report version media (rejected e) = do
    done ← fail report e
    pure (finished_early done)

  -- The `try` block up to `publishing = true`.
  unfoldable pub prepare : BugReportRow → Exec (World W) Failure Prepared
  prepare report = do
    issues ← candidates deps
    selected ← call deps (
        deps.select
          (record { source = report.source; category = report.category; text = report.text })
          issues)
    on_db deps (set_jev_response report.id (deps.stringify selected.response))
    mark_truncated deps report.id selected.truncated
    details ← get_details deps selected.numbers
    media ← gets λ s. list_media report.id s.db
    version ← version_for deps report.source
    shots ← images deps media
    answer ←
        verdict deps
          (record {
            source = report.source;
            category = report.category;
            text = report.text;
            latest_extension_version = version;
            candidates = details;
            images = shots;
          })
          details report.source
    after_verdict report version media answer

  abbrev is_completed : Option StateReason → Bool
  is_completed (some completed) = true
  is_completed _ = false

  -- The publication itself, and what the user is told of it.
  unfoldable pub publish_as :
      BugReportRow
      → ReportContext
      → (at : ℕ) → ValidatedVerdict
      → Exec (World W) Failure ReportOutcome
  publish_as report ctx at (valid_new fields labels s e related) = do
    n ← call deps (
        deps.create_issue fields.title (deps.issue_body fields ctx related)
          (labels ++ severity s ∷ effort e ∷ []))
    on_db deps (mark_done report.id new_issue (some n) at (some related))
    modify (set_cache none)
    pure (told_created n)
  publish_as report ctx at (valid_open issue fields related) = do
    call deps (deps.comment_on_issue issue.number (deps.duplicate_comment fields ctx))
    on_db deps (mark_done report.id duplicate_open (some issue.number) at (some related))
    pure (told_open issue.number)
  publish_as report ctx at (valid_closed issue fields related) = do
    call deps (deps.comment_on_issue issue.number (deps.duplicate_comment fields ctx))
    on_db deps (mark_done report.id duplicate_closed (some issue.number) at (some related))
    pure (told_closed issue.number issue.closed_at (is_completed issue.state_reason))
  publish_as report ctx at valid_not_a_bug = pure told_not_a_bug

  -- The `try` block from `publishing = true` on.
  unfoldable pub publish :
      BugReportRow → ReportContext → ℕ → ValidatedVerdict → Exec (World W) Failure Bool
  unfolding publish_as
  publish report ctx at v = do
    outcome ← publish_as report ctx at v
    notify deps report outcome
    finished deps

  -- The `catch` block, with the flag up.
  unfoldable pub publish_failed : BugReportRow → Exec (World W) Failure Bool
  publish_failed report = do
    now ← clock deps
    on_db deps (mark_needs_review report.id now)
    notify deps report told_needs_review
    finished deps

  abbrev pub pause : ℕ → Option Pause → Exec (World W) Failure Bool
  pause status none = do
    now ← clock deps
    modify (set_paused (some (record { since = now; status = status })))
    pure false
  pause status (some p) = pure false

  abbrev pub count_attempt : BugReportRow → Failure → Exec (World W) Failure Bool
  count_attempt report e = do
    attempts ← on_db deps (record_attempt_error report.id (error_message e))
    if not (is_transient e) || leb deps.max_attempts attempts
        then fail report (error_message e)
        else pure false

  abbrev pub on_refusal : BugReportRow → Failure → Option ℕ → Exec (World W) Failure Bool
  on_refusal report e (some status) = do paused ← gets λ s. s.paused; pause status paused
  on_refusal report e none = count_attempt report e

  -- The `catch` block, with the flag down.
  unfoldable pub prepare_failed : BugReportRow → Failure → Exec (World W) Failure Bool
  unfolding credential_refusal
  prepare_failed report e = on_refusal report e (credential_refusal e)

  abbrev pub publish_prepared : BugReportRow → Prepared → Exec (World W) Failure Bool
  publish_prepared report (finished_early b) = pure b
  publish_prepared report (to_publish v ctx at) =
      catch (publish report ctx at v) λ _. publish_failed report

  abbrev pub attempt : BugReportRow → Exec (World W) Failure Prepared
  attempt report =
      catch (prepare report) λ e. do b ← prepare_failed report e; pure (finished_early b)

  unfoldable pub process_report : BugReportRow → Exec (World W) Failure Bool
  unfolding prepare publish publish_failed prepare_failed
  process_report report = do prepared ← attempt report; publish_prepared report prepared

  -- Reports that a crash left in `publishing`.
  unfoldable pub recover : List BugReportRow → Exec (World W) Failure Unit
  recover [] = pure tt
  recover (r ∷ rs) = do
    now ← clock deps
    on_db deps (mark_needs_review r.id now)
    notify deps r told_needs_review
    recover rs

  abbrev pub defer_one : BugReportRow → Exec (World W) Failure Unit
  defer_one r =
      if r.deferred_notified
      then pure tt
      else (do notify deps r told_deferred; on_db deps (mark_deferred_notified r.id))

  unfoldable pub defer : List BugReportRow → Exec (World W) Failure Unit
  defer [] = pure tt
  defer (r ∷ rs) = do defer_one r; defer rs

  abbrev pub go_on : Exec (World W) Failure Unit → Bool → Exec (World W) Failure Unit
  go_on rest more = if more then rest else pure tt

  abbrev pub at_cap :
      BugReportRow
      → List BugReportRow
      → Exec (World W) Failure Unit
      → Bool
      → Exec (World W) Failure Unit
  at_cap r rs rest true = defer (r ∷ rs)
  at_cap r rs rest false = do more ← process_report r; go_on rest more

  -- The loop over the queue, on the reports that are left.
  unfoldable pub drain : List BugReportRow → Exec (World W) Failure Unit
  unfolding process_report defer
  drain [] = pure tt
  drain (r ∷ rs) =
      let rest = drain rs in
      (do
        now ← clock deps
        count ← gets λ s. count_processed_since (deps.day_start now) s.db
        at_cap r rs rest (leb deps.daily_cap count))

  abbrev pub set_running : Bool → World W → World W
  set_running b s = record s { running = b }

  unfoldable pub run_queue : Exec (World W) Failure Unit
  unfolding recover drain
  run_queue = do
    stuck ← gets λ s. list_by_status publishing s.db
    recover stuck
    waiting ← gets λ s. list_by_status queued s.db
    drain waiting

  abbrev pub end_run : Result Failure Unit × World W → Result Failure Unit × World W
  end_run (r, s) = (r, set_running false s)

  unfoldable pub run_once : Exec (World W) Failure Unit
  unfolding run_queue
  run_once s = if s.running then (ok tt, s) else end_run (run_queue (set_running true s))
