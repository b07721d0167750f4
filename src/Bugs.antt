-- ===== src/Bugs.antt =====
-- src/domain/bug-report-types.ts: the data of the bug report queue, from the row to the issue. The
-- dialogue that fills the queue is in Report. A text of a model or a user is the list of its code
-- points, a time is in milliseconds since the epoch, which orders instants as their ISO texts do.
pub mod Errors
pub mod Store
pub mod Verdicts
pub mod Examples
pub mod Worker
use Prim.Native.String.{String}
use warsaw_beer_bot.Base.{ℕ, Bool, Option, List, [], ◌∷◌}
use warsaw_beer_bot.Base.Decimal.{Text}
use warsaw_beer_bot.Report.{ReportSource, ReportCategory, MediaKind}

pub data AreaLabel : Type 0 where
  bug extension_bug parser_bug matcher_bug : AreaLabel

abbrev pub area_labels : List AreaLabel
area_labels = bug ∷ extension_bug ∷ parser_bug ∷ matcher_bug ∷ []

pub data Severity : Type 0 where
  severity_1 severity_2 severity_3 severity_4 : Severity

pub data Effort : Type 0 where
  effort_s effort_m effort_l : Effort

-- `new` of the source.
pub data Verdict : Type 0 where
  new_issue duplicate_open duplicate_closed not_a_bug : Verdict

pub data ReportStatus : Type 0 where
  queued publishing done failed needs_review : ReportStatus

pub record TemplateFields : Type 0 where
  pub title : Text
  pub summary : Text
  pub «where» : Text
  pub subjects : List Text
  pub expected : Text
  pub actual : Text
  pub steps : List Text
  pub screen_evidence : List Text
  pub new_evidence : Text

-- The answer of the model. A verdict, label, severity or effort outside its list is `none`.
pub record RawVerdict : Type 0 where
  pub fields : TemplateFields
  pub verdict : Option Verdict
  pub issue_number : Option ℕ
  pub labels : List (Option AreaLabel)
  pub severity : Option Severity
  pub effort : Option Effort
  pub related : List ℕ

pub data IssueState : Type 0 where
  opened closed : IssueState

pub record IssueCandidate : Type 0 where
  pub number : ℕ
  pub title : Text
  pub state : IssueState
  pub labels : List Text
  pub created_at : ℕ
  pub closed_at : Option ℕ

pub record IssueComment : Type 0 where
  pub created_at : ℕ
  pub body : Text

pub data StateReason : Type 0 where
  completed not_planned reopened duplicate : StateReason

pub record IssueDetail : Type 0 where
  pub candidate : IssueCandidate
  pub open candidate use *
  pub body : Text
  pub state_reason : Option StateReason
  pub comments : List IssueComment

pub record ReportContext : Type 0 where
  pub report_id : ℕ
  pub source : ReportSource
  pub category : ReportCategory
  pub locale : String
  pub city : Option Text
  pub latest_extension_version : Option Text
  pub media_stored : ℕ
  pub media_failed : ℕ

-- A label of a new issue; the last is USER_REPORT_LABEL.
pub data IssueLabel : Type 0 where
  area : AreaLabel → IssueLabel
  severity : Severity → IssueLabel
  effort : Effort → IssueLabel
  user_report : IssueLabel

pub data ValidatedVerdict : Type 0 where
  valid_new :
      TemplateFields → List IssueLabel → Severity → Effort → (related : List ℕ) → ValidatedVerdict
  valid_open valid_closed : IssueDetail → TemplateFields → (related : List ℕ) → ValidatedVerdict
  valid_not_a_bug : ValidatedVerdict

pub data Reason : Type 0 where
  unknown_verdict number_mismatch not_a_candidate state_mismatch : Reason
  invalid_severity invalid_effort empty_title : Reason

pub data ValidationResult : Type 0 where
  valid : ValidatedVerdict → ValidationResult
  invalid : Reason → ValidationResult

-- What `last_error` holds: the message of an error, the sentence of a reason, or the store's message.
pub data ErrorText : Type 0 where
  message : Text → ErrorText
  reason_text : Reason → ErrorText
  illegal_text : (id : ℕ) → (from : Option ReportStatus) → (to : String) → ErrorText

-- What the user is told.
pub data ReportOutcome : Type 0 where
  told_created told_open : (issue_number : ℕ) → ReportOutcome
  told_closed : (issue_number : ℕ) → (closed_at : Option ℕ) → (fixed : Bool) → ReportOutcome
  told_not_a_bug told_deferred told_needs_review told_failed : ReportOutcome

pub record NewBugReport : Type 0 where
  pub telegram_id : ℕ
  pub chat_id : ℕ
  pub status_message_id : Option ℕ
  pub locale : String
  pub city : Option Text
  pub source : ReportSource
  pub category : ReportCategory
  pub text : Text
  pub created_at : ℕ

pub record BugReportRow : Type 0 where
  pub report : NewBugReport
  pub open report use *
  pub id : ℕ
  pub status : ReportStatus
  pub attempts : ℕ
  pub last_error : Option ErrorText
  pub candidates_truncated : Bool
  pub deferred_notified : Bool
  pub verdict : Option Verdict
  pub issue_number : Option ℕ
  pub processed_at : Option ℕ
  pub jev_json : Option Text
  pub related : Option (List ℕ)

pub record BugReportMedia : Type 0 where
  pub report_id : ℕ
  pub idx : ℕ
  pub kind : MediaKind
  pub path : Text
  pub bytes : ℕ
  pub pruned_at : Option ℕ

pub record BugReportSummary : Type 0 where
  pub processed : ℕ
  pub by_verdict : Verdict → ℕ
  pub queued : ℕ
  pub needs_review : List ℕ
  pub failed : List ℕ
  pub closed_links : List (ℕ × Option ℕ)

pub record SelectInput : Type 0 where
  pub source : ReportSource
  pub category : ReportCategory
  pub text : Text

pub record JevResponse : Type 0 where
  pub model : String
  pub probabilities : List (Text × ℕ)

pub record SelectResult : Type 0 where
  pub numbers : List ℕ
  pub truncated : Bool
  pub response : JevResponse

pub record VerdictImage : Type 0 where
  pub mime : Text
  pub base64 : Text

pub record JudgeInput : Type 0 where
  pub source : ReportSource
  pub category : ReportCategory
  pub text : Text
  pub latest_extension_version : Option Text
  pub candidates : List IssueDetail
  pub images : List VerdictImage
