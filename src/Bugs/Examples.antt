-- ===== src/Bugs/Examples.antt =====
-- Tests of the bug report queue on a small outside, and the theorems at concrete inputs.
use warsaw_beer_bot.Base.{
  ℕ, ◌+◌, Bool, false, Option, none, some, List, [], ◌∷◌, map, ◌≡◌, refl, inl, arith,
}
use warsaw_beer_bot.Base.Decimal.{Text}
use warsaw_beer_bot.Base.Exec.{Result, ok, err, ◌>>=◌, catch}
use warsaw_beer_bot.Base.Sort.{insert_sorted, sort}
use warsaw_beer_bot.Report.{bot, wrong_beer}
use warsaw_beer_bot.Bugs.{
  BugReportRow, NewBugReport, ReportStatus, queued, publishing, done, needs_review, TemplateFields,
  RawVerdict, new_issue, duplicate_open, parser_bug, severity_2, effort_s, IssueDetail, opened,
  valid, valid_open,
}
use warsaw_beer_bot.Bugs.Errors.{credential_refusal, error_message, is_transient, Failure, object}
use warsaw_beer_bot.Bugs.Store.{
  attempts_now, count_processed_since, get_report, list_by_status, list_media,
  mark_deferred_notified, mark_done, mark_failed, mark_needs_review, mark_publishing,
  record_attempt_error, set_candidates_truncated, set_jev_response, transition, update_where,
}
use warsaw_beer_bot.Bugs.Store.Transitions.{others}
use warsaw_beer_bot.Bugs.Verdicts.{
  clamp_fields, issue_labels, related_from, related_issues, validate_verdict,
}
use warsaw_beer_bot.Bugs.Verdicts.Sound.{IsBacked, validate_verdict-IsBacked}
use warsaw_beer_bot.Bugs.Worker.{
  Deps, World, call, candidates, clock, get_details, images, notify, on_db, set_cache, set_paused,
  verdict,
}
use warsaw_beer_bot.Bugs.Worker.Process.{
  defer, drain, prepare, prepare_failed, process_report, publish, publish_as, publish_failed,
  recover, run_queue, run_once,
}
use warsaw_beer_bot.Bugs.Worker.Process.Changes.{Stands}
use warsaw_beer_bot.Bugs.Worker.Process.Settles.{Stood, process_report-Stood}
use warsaw_beer_bot.Bugs.Worker.Process.Others.{process_report-others}

abbrev a_report : NewBugReport
a_report = record {
  telegram_id = 7;
  chat_id = 7;
  status_message_id = none;
  locale = "uk";
  city = none;
  source = bot;
  category = wrong_beer;
  text = b'x' ∷ [];
  created_at = 1000;
}

abbrev row : ℕ → ReportStatus → BugReportRow
row id status = record {
  report = a_report;
  id = id;
  status = status;
  attempts = 0;
  last_error = none;
  candidates_truncated = false;
  deferred_notified = false;
  verdict = none;
  issue_number = none;
  processed_at = none;
  jev_json = none;
  related = none;
}

abbrev fields : TemplateFields
fields = record {
  title = b't' ∷ [];
  summary = [];
  «where» = [];
  subjects = [];
  expected = [];
  actual = [];
  steps = [];
  screen_evidence = [];
  new_evidence = [];
}

abbrev new_bug : RawVerdict
new_bug = record {
  fields = fields;
  verdict = some new_issue;
  issue_number = none;
  labels = some parser_bug ∷ none ∷ [];
  severity = some severity_2;
  effort = some effort_s;
  related = 5 ∷ 5 ∷ 9 ∷ [];
}

abbrev issue : ℕ → IssueDetail
issue n = record {
  candidate = record {
    number = n;
    title = [];
    state = opened;
    labels = [];
    created_at = 1;
    closed_at = none;
  };
  body = [];
  state_reason = none;
  comments = [];
}

abbrev busy : Failure
busy = object (record {
  message = [];
  status = some 503;
  name = none;
  ctor_name = none;
  is_type_error = false;
  cause = false;
  is_invalid_output = false;
})

-- The outside counts the seconds; the model answers `new_bug`, and GitHub gives the answer that is passed.
abbrev deps_with : Result Failure ℕ → Deps ℕ
deps_with created = record {
  select = λ i cs w. (
    ok (record {
      numbers = 5 ∷ [];
      truncated = false;
      response = record { model = "m"; probabilities = [] };
    }),
    w,
  );
  list_issues = λ w. (ok [], w);
  get_issue = λ n m w. (ok (issue n), w);
  create_issue = λ t b ls w. (created, w);
  comment_on_issue = λ n b w. (ok tt, w);
  judge = λ i w. (ok new_bug, w);
  read_file = λ p w. (err busy, w);
  notify = λ r o w. (err busy, w);
  latest_extension_version = λ w. (ok none, w);
  now = λ w. (w, w + 1000);
  day_start = λ t. 0;
  redact = λ t. t;
  trim = λ t. t;
  to_lower_case = λ t. t;
  stringify = λ r. [];
  issue_body = λ f c r. [];
  duplicate_comment = λ f c. [];
  daily_cap = 20;
  max_attempts = 3;
  candidate_cache_ttl_ms = 600000;
}

abbrev world : List BugReportRow → World ℕ
world rows = record {
  env = 5000;
  db = record { reports = rows; media = []; last_id = 9 };
  paused = none;
  running = false;
  cache = none;
}

abbrev two_reports : World ℕ
two_reports = world (row 3 queued ∷ row 4 publishing ∷ [])

abbrev statuses : World ℕ → List (ℕ × ReportStatus × Option ℕ)
statuses s = map (λ r. (r.id, r.status, r.issue_number)) s.db.reports

run_publishes :
    statuses (run_once (deps_with (ok 12)) two_reports).1
    ≡ (3, done, some 12) ∷ (4, needs_review, none) ∷ []
unfolding ◌>>=◌ catch insert_sorted sort credential_refusal error_message is_transient attempts_now
    count_processed_since get_report list_by_status list_media mark_deferred_notified mark_done
    mark_failed mark_needs_review mark_publishing record_attempt_error set_candidates_truncated
    set_jev_response transition update_where clamp_fields issue_labels related_from related_issues
    validate_verdict call candidates clock get_details images notify on_db set_cache set_paused
    verdict defer drain prepare prepare_failed process_report publish publish_as publish_failed
    recover run_queue run_once
run_publishes = refl

run_uncertain :
    statuses (run_once (deps_with (err busy)) two_reports).1
    ≡ (3, needs_review, none) ∷ (4, needs_review, none) ∷ []
unfolding ◌>>=◌ catch insert_sorted sort credential_refusal error_message is_transient attempts_now
    count_processed_since get_report list_by_status list_media mark_deferred_notified mark_done
    mark_failed mark_needs_review mark_publishing record_attempt_error set_candidates_truncated
    set_jev_response transition update_where clamp_fields issue_labels related_from related_issues
    validate_verdict call candidates clock get_details images notify on_db set_cache set_paused
    verdict defer drain prepare prepare_failed process_report publish publish_as publish_failed
    recover run_queue run_once
run_uncertain = refl

stands : Stands 3 queued 0 two_reports.db
unfolding Stands
stands = record { present = inl refl; every = (λ e. (refl, refl), (λ e. absurd (apart e), tt)) }
  where
    apart : ◌≡◌ {A = ℕ} 4 3 → ⊥
    apart e = omega (arith, e)

process_report-Stood_example :
    (b : Bool) × ((process_report (deps_with (ok 12)) (row 3 queued) two_reports).0 ≡ ok b)
    × Stood
        (deps_with (ok 12))
        (row 3 queued)
        0
        b
        (process_report (deps_with (ok 12)) (row 3 queued) two_reports).1
process_report-Stood_example =
    process_report-Stood (deps_with (ok 12)) (row 3 queued) 0 two_reports stands

process_report-others_example :
    others 3 (process_report (deps_with (err busy)) (row 3 queued) two_reports).1.db.reports
    ≡ others 3 two_reports.db.reports
process_report-others_example =
    process_report-others (deps_with (err busy)) (row 3 queued) two_reports

abbrev open_duplicate : RawVerdict
open_duplicate = record new_bug { verdict = some duplicate_open; issue_number = some 5 }

abbrev same : Text → Text
same t = t

is_duplicate :
    validate_verdict same same open_duplicate (issue 9 ∷ issue 5 ∷ []) bot
    ≡ valid (valid_open (issue 5) fields (9 ∷ []))
unfolding validate_verdict related_issues clamp_fields related_from
is_duplicate = refl

validate_verdict-IsBacked_example :
    IsBacked open_duplicate (issue 9 ∷ issue 5 ∷ []) (valid_open (issue 5) fields (9 ∷ []))
validate_verdict-IsBacked_example =
    validate_verdict-IsBacked same same open_duplicate (issue 9 ∷ issue 5 ∷ []) bot
      (valid_open (issue 5) fields (9 ∷ [])) is_duplicate
