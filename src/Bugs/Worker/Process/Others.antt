-- ===== src/Bugs/Worker/Process/Others.antt =====
-- Processing one report leaves the other rows of the table alone: bug-report-worker.ts.
use warsaw_beer_bot.Base.{ℕ, Bool, true, false, Option, none, some, List, ◌≡◌, refl, arith, ◌∙◌}
use warsaw_beer_bot.Base.Decimal.{Text}
use warsaw_beer_bot.Base.Exec.{◌>>=◌}
use warsaw_beer_bot.Base.Exec.Runs.{Keeps-state, Keeps, Keeps-bind, keeps_rules}
use warsaw_beer_bot.Bugs.{
  BugReportRow, BugReportMedia, ValidatedVerdict, valid_new, valid_open, valid_closed,
  valid_not_a_bug, ReportContext, ErrorText, Verdict,
}
use warsaw_beer_bot.Bugs.Errors.{Failure, credential_refusal}
use warsaw_beer_bot.Bugs.Store.{
  Db, mark_publishing, mark_done, mark_failed, mark_needs_review, record_attempt_error,
  set_jev_response, set_candidates_truncated, attempts_now,
}
use warsaw_beer_bot.Bugs.Store.Transitions.{others, transition-others, others-update_where}
use warsaw_beer_bot.Bugs.Worker.{
  Deps, World, Pause, Judged, judged, rejected, Prepared, finished_early, to_publish,
  mark_truncated,
}
use warsaw_beer_bot.Bugs.Worker.Calls.{
  InDb, Keeps-db, Keeps-call, Keeps-clock, Keeps-notify, Keeps-paused, Keeps-cache,
  Keeps-candidates, Keeps-get_details, Keeps-version_for, Keeps-images, Keeps-verdict,
}
use warsaw_beer_bot.Bugs.Worker.Process.{
  conclude, after_verdict, prepare, publish_as, publish, publish_failed, pause, on_refusal,
  prepare_failed, publish_prepared, process_report,
}

module _ {W : Type 0} (deps : Deps W) (report : BugReportRow) (c : List BugReportRow) where
  abbrev OthersDb : Db → Type 0
  OthersDb db = others report.id db.reports ≡ c

  abbrev Others : World W → Type 0
  Others = InDb OthersDb

  Others-mark_publishing : Keeps OthersDb (mark_publishing report.id)
  unfolding mark_publishing
  Others-mark_publishing = transition-others _ _ _ (λ r. refl) _ c

  Others-mark_done :
      (v : Verdict) (n : Option ℕ) (at : ℕ) (related : Option (List ℕ))
      → Keeps OthersDb (mark_done report.id v n at related)
  unfolding mark_done
  Others-mark_done v n at related = transition-others _ _ _ (λ r. refl) _ c

  Others-mark_failed : (e : ErrorText) (at : ℕ) → Keeps OthersDb (mark_failed report.id e at)
  unfolding mark_failed
  Others-mark_failed e at = transition-others _ _ _ (λ r. refl) _ c

  Others-mark_needs_review : (at : ℕ) → Keeps OthersDb (mark_needs_review report.id at)
  unfolding mark_needs_review
  Others-mark_needs_review at = transition-others _ _ _ (λ r. refl) _ c

  Others-set_jev : (t : Text) → Keeps OthersDb (set_jev_response report.id t)
  unfolding set_jev_response
  Others-set_jev t = transition-others _ _ _ (λ r. refl) _ c

  Others-attempts_now : Keeps OthersDb (attempts_now report.id)
  unfolding attempts_now ◌>>=◌
  Others-attempts_now = record { at = λ db h. h }

  Others-record_attempt : (e : ErrorText) → Keeps OthersDb (record_attempt_error report.id e)
  unfolding record_attempt_error
  Others-record_attempt e =
      Keeps-bind _ _ (transition-others _ _ _ (λ r. refl) _ c) λ _. Others-attempts_now

  Others-truncated : Keeps OthersDb (set_candidates_truncated report.id)
  unfolding set_candidates_truncated ◌>>=◌
  Others-truncated = record {
    at = λ db h. others-update_where report.id _ _ (λ r. refl) db.reports (λ r e. ground arith) ∙ h;
  }

  ruleset others_rules = (
    keeps_rules, Keeps-db, Others-mark_publishing, Others-mark_done, Others-mark_failed,
    Others-mark_needs_review, Others-set_jev, Others-record_attempt, Others-truncated, Keeps-call,
    Keeps-clock, Keeps-notify, Keeps-paused, Keeps-cache, Keeps-candidates, Keeps-get_details,
    Keeps-version_for, Keeps-images, Keeps-verdict,
  )

  Others-mark_truncated : (b : Bool) → Keeps Others (mark_truncated deps report.id b)
  Others-mark_truncated true = search others_rules depth 14
  Others-mark_truncated false = search others_rules depth 14

  Others-conclude :
      (version : Option Text) (media : List BugReportMedia) (v : ValidatedVerdict)
      → Keeps Others (conclude deps report version media v)
  Others-conclude version media valid_not_a_bug = search others_rules depth 14
  Others-conclude version media (valid_new _ _ _ _ _) = search others_rules depth 14
  Others-conclude version media (valid_open _ _ _) = search others_rules depth 14
  Others-conclude version media (valid_closed _ _ _) = search others_rules depth 14

  Others-after_verdict :
      (version : Option Text) (media : List BugReportMedia) (j : Judged)
      → Keeps Others (after_verdict deps report version media j)
  Others-after_verdict version media (judged v) = Others-conclude version media v
  Others-after_verdict version media (rejected e) = search others_rules depth 14

  Others-prepare : Keeps Others (prepare deps report)
  unfolding prepare
  Others-prepare = search (others_rules, Others-mark_truncated, Others-after_verdict) depth 14

  Others-publish_as :
      (ctx : ReportContext) (at : ℕ) (v : ValidatedVerdict)
      → Keeps Others (publish_as deps report ctx at v)
  unfolding publish_as
  Others-publish_as ctx at valid_not_a_bug = search others_rules depth 14
  Others-publish_as ctx at (valid_new _ _ _ _ _) = search others_rules depth 14
  Others-publish_as ctx at (valid_open _ _ _) = search others_rules depth 14
  Others-publish_as ctx at (valid_closed _ _ _) = search others_rules depth 14

  Others-publish :
      (ctx : ReportContext) (at : ℕ) (v : ValidatedVerdict)
      → Keeps Others (publish deps report ctx at v)
  unfolding publish
  Others-publish ctx at v = search (others_rules, Others-publish_as) depth 14

  Others-publish_failed : Keeps Others (publish_failed deps report)
  unfolding publish_failed
  Others-publish_failed = search others_rules depth 14

  Others-pause : (status : ℕ) (p : Option Pause) → Keeps Others (pause deps status p)
  Others-pause status none = search others_rules depth 14
  Others-pause status (some p) = search others_rules depth 14

  Others-refusal : (e : Failure) (o : Option ℕ) → Keeps Others (on_refusal deps report e o)
  Others-refusal e none = search others_rules depth 14
  Others-refusal e (some status) = search (others_rules, Others-pause) depth 14

  Others-publish_prepared : (p : Prepared) → Keeps Others (publish_prepared deps report p)
  Others-publish_prepared (finished_early b) = search others_rules depth 14
  Others-publish_prepared (to_publish v ctx at) =
      search (others_rules, Others-publish, Others-publish_failed) depth 14

  Others-prepare_failed : (e : Failure) → Keeps Others (prepare_failed deps report e)
  unfolding prepare_failed
  Others-prepare_failed e = Others-refusal e (credential_refusal e)

  process_report-Keeps : Keeps Others (process_report deps report)
  unfolding process_report
  process_report-Keeps =
      search (others_rules, Others-prepare, Others-prepare_failed, Others-publish_prepared) depth 14

-- Processing a report changes no row of another report, whether it returns or throws.
pub process_report-others :
    {W : Type 0} (deps : Deps W) (report : BugReportRow) (s : World W)
    → others report.id (process_report deps report s).1.db.reports ≡ others report.id s.db.reports
unfolding InDb
process_report-others deps report s =
    Keeps-state (process_report deps report)
      (process_report-Keeps deps report (others report.id s.db.reports)) s refl
