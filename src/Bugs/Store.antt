-- ===== src/Bugs/Store.antt =====
-- src/storage/bug_reports.ts: the tables of reports and their media. An UPDATE counts the rows that
-- its WHERE names; a count of zero is an error for every change of a report's status.
pub mod Transitions
use Prim.Native.String.{String}
use warsaw_beer_bot.Base.{
  ℕ, suc, ◌+◌, Bool, true, false, ◌&&◌, ◌||◌, Option, none, some, List, [], ◌∷◌, ◌++◌, map, leb,
  ltb, ◌==◌, if◌then◌else◌, length, filter, find?,
}
use warsaw_beer_bot.Base.Decimal.{Text}
use warsaw_beer_bot.Base.Exec.{Exec, pure, raise, modify, ◌>>=◌, ◌>>◌}
use warsaw_beer_bot.Base.Sort.{sort}
use warsaw_beer_bot.Bugs.{
  ReportStatus, queued, publishing, done, failed, needs_review, Verdict, new_issue, duplicate_open,
  duplicate_closed, not_a_bug, NewBugReport, BugReportRow, BugReportMedia, BugReportSummary,
  ErrorText,
}
use warsaw_beer_bot.Bugs.Errors.{Failure, illegal_transition}

-- `last_id` is what AUTOINCREMENT remembers.
pub record Db : Type 0 where
  pub reports : List BugReportRow
  pub media : List BugReportMedia
  pub last_id : ℕ

abbrev pub same_status : ReportStatus → ReportStatus → Bool
same_status queued queued = true
same_status publishing publishing = true
same_status done done = true
same_status failed failed = true
same_status needs_review needs_review = true
same_status _ _ = false

abbrev queued_row : ℕ → NewBugReport → BugReportRow
queued_row id r = record {
  report = r;
  id = id;
  status = queued;
  attempts = 0;
  last_error = none;
  candidates_truncated = false;
  deferred_notified = false;
  verdict = none;
  issue_number = none;
  processed_at = none;
  jev_json = none;
  related = none;
}

unfoldable pub insert_report : NewBugReport → Db → ℕ × Db
insert_report r db =
    let id = suc db.last_id in
    (id, record db { reports = db.reports ++ queued_row id r ∷ []; last_id = id })

unfoldable pub get_report : ℕ → Db → Option BugReportRow
get_report id db = find? (λ r. r.id == id) db.reports

unfoldable pub list_by_status : ReportStatus → Db → List BugReportRow
list_by_status st db =
    sort (λ r s. leb r.id s.id) (filter (λ r. same_status r.status st) db.reports)

unfoldable pub update_where :
    (BugReportRow → Bool) → (BugReportRow → BugReportRow) → List BugReportRow → List BugReportRow
update_where p f [] = []
update_where p f (r ∷ rs) = (if p r then f r else r) ∷ update_where p f rs

abbrev status_of : Option BugReportRow → Option ReportStatus
status_of none = none
status_of (some r) = some r.status

abbrev pub assert_changed : ℕ → String → ℕ → Exec Db Failure Unit
assert_changed id to changes db =
    if changes == 0
    then raise (illegal_transition id (status_of (get_report id db)) to) db
    else pure tt db

-- An UPDATE of the report `id` in one of the statuses `allowed`.
abbrev pub named : ℕ → (ReportStatus → Bool) → BugReportRow → Bool
named id allowed r = (r.id == id) && allowed r.status

unfoldable pub transition :
    ℕ → (ReportStatus → Bool) → (BugReportRow → BugReportRow) → String → Exec Db Failure Unit
transition id allowed f to db =
    assert_changed id to (length (filter (named id allowed) db.reports))
      (record db { reports = update_where (named id allowed) f db.reports })

abbrev pub is_queued : ReportStatus → Bool
is_queued st = same_status st queued

abbrev pub is_publishing : ReportStatus → Bool
is_publishing st = same_status st publishing

abbrev pub is_unsettled : ReportStatus → Bool
is_unsettled st = is_queued st || is_publishing st

abbrev pub set_publishing : BugReportRow → BugReportRow
set_publishing r = record r { status = publishing }

abbrev pub set_done : Verdict → Option ℕ → ℕ → Option (List ℕ) → BugReportRow → BugReportRow
set_done v n at related r = record r {
  status = done;
  verdict = some v;
  issue_number = n;
  processed_at = some at;
  related = related;
}

abbrev pub set_failed : ErrorText → ℕ → BugReportRow → BugReportRow
set_failed error at r = record r {
  status = failed;
  last_error = some error;
  processed_at = some at;
}

abbrev pub set_needs_review : ℕ → BugReportRow → BugReportRow
set_needs_review at r = record r { status = needs_review; processed_at = some at }

abbrev pub add_attempt : ErrorText → BugReportRow → BugReportRow
add_attempt error r = record r { attempts = suc r.attempts; last_error = some error }

abbrev pub set_jev : Text → BugReportRow → BugReportRow
set_jev json r = record r { jev_json = some json }

unfoldable pub mark_publishing : ℕ → Exec Db Failure Unit
mark_publishing id = transition id is_queued set_publishing "publishing"

unfoldable pub mark_done : ℕ → Verdict → Option ℕ → ℕ → Option (List ℕ) → Exec Db Failure Unit
mark_done id v n at related = transition id is_unsettled (set_done v n at related) "done"

unfoldable pub mark_failed : ℕ → ErrorText → ℕ → Exec Db Failure Unit
mark_failed id error at = transition id is_queued (set_failed error at) "failed"

unfoldable pub mark_needs_review : ℕ → ℕ → Exec Db Failure Unit
mark_needs_review id at = transition id is_publishing (set_needs_review at) "needs_review"

abbrev pub attempts_of : Option BugReportRow → ℕ
attempts_of none = 0
attempts_of (some r) = r.attempts

unfoldable pub attempts_now : ℕ → Exec Db Failure ℕ
attempts_now id db = pure (attempts_of (get_report id db)) db

unfoldable pub record_attempt_error : ℕ → ErrorText → Exec Db Failure ℕ
record_attempt_error id error = do
  transition id is_queued (add_attempt error) "attempt_error"
  attempts_now id

unfoldable pub set_jev_response : ℕ → Text → Exec Db Failure Unit
set_jev_response id json = transition id is_queued (set_jev json) "jev_json"

abbrev pub update_report : ℕ → (BugReportRow → BugReportRow) → Exec Db Failure Unit
update_report id f =
    modify λ db. record db { reports = update_where (λ r. r.id == id) f db.reports }

unfoldable pub set_candidates_truncated : ℕ → Exec Db Failure Unit
set_candidates_truncated id = update_report id λ r. record r { candidates_truncated = true }

unfoldable pub mark_deferred_notified : ℕ → Exec Db Failure Unit
mark_deferred_notified id = update_report id λ r. record r { deferred_notified = true }

-- A comparison with NULL is not true.
abbrev pub at_least : ℕ → Option ℕ → Bool
at_least since none = false
at_least since (some t) = leb since t

unfoldable pub count_submitted_since : ℕ → ℕ → Db → ℕ
count_submitted_since telegram_id since db =
    length (filter (λ r. (r.telegram_id == telegram_id) && leb since r.created_at) db.reports)

unfoldable pub count_processed_since : ℕ → Db → ℕ
count_processed_since since db = length (filter (λ r. at_least since r.processed_at) db.reports)

abbrev same_verdict : Verdict → Option Verdict → Bool
same_verdict new_issue (some new_issue) = true
same_verdict duplicate_open (some duplicate_open) = true
same_verdict duplicate_closed (some duplicate_closed) = true
same_verdict not_a_bug (some not_a_bug) = true
same_verdict _ _ = false

abbrev processed_in : ReportStatus → ℕ → BugReportRow → Bool
processed_in st since r = same_status r.status st && at_least since r.processed_at

abbrev with_verdict : ℕ → Verdict → BugReportRow → Bool
with_verdict since v r = processed_in done since r && same_verdict v r.verdict

abbrev ids_of : List BugReportRow → List ℕ
ids_of rs = map (λ r. r.id) rs

unfoldable pub summarize_since : ℕ → Db → BugReportSummary
unfolding count_processed_since
summarize_since since db =
    let in_order = sort (λ r s. leb r.id s.id) db.reports in
    record {
      processed = count_processed_since since db;
      by_verdict = λ v. length (filter (with_verdict since v) db.reports);
      queued = length (filter (λ r. is_queued r.status) db.reports);
      needs_review = ids_of (filter (processed_in needs_review since) in_order);
      failed = ids_of (filter (processed_in failed since) in_order);
      closed_links =
          map (λ r. (r.id, r.issue_number)) (filter (with_verdict since duplicate_closed) in_order);
    }

unfoldable pub add_media : BugReportMedia → Db → Db
add_media m db = record db { media = db.media ++ m ∷ [] }

unfoldable pub list_media : ℕ → Db → List BugReportMedia
list_media report_id db =
    sort (λ m n. leb m.idx n.idx) (filter (λ m. m.report_id == report_id) db.media)

abbrev created_before : ℕ → Option BugReportRow → Bool
created_before before none = false
created_before before (some r) = ltb r.created_at before

abbrev is_none : Option ℕ → Bool
is_none none = true
is_none (some _) = false

abbrev by_report : BugReportMedia → BugReportMedia → Bool
by_report m n = ltb m.report_id n.report_id || ((m.report_id == n.report_id) && leb m.idx n.idx)

-- The join is on the primary key, so a file meets one report at most.
unfoldable pub list_prunable_media : ℕ → Db → List BugReportMedia
unfolding get_report
list_prunable_media before db = sort by_report (
    filter
      (λ m.
        ltb 0 m.bytes && is_none m.pruned_at && created_before before (get_report m.report_id db))
      db.media)

unfoldable pub mark_media_pruned : ℕ → ℕ → ℕ → Db → Db
mark_media_pruned report_id idx at db = record db {
  media =
      map
        (λ m.
          if (m.report_id == report_id) && (m.idx == idx)
          then record m { pruned_at = some at }
          else m)
        db.media;
}
