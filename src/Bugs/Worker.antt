-- ===== src/Bugs/Worker.antt =====
-- src/jobs/bug-report-worker.ts: one run over the queue of bug reports. GitHub, the two models, the
-- files, the clock and the message to the user are functions on an outer state `W`. Lines of the log
-- are left out, and a write that SQLite itself refuses is not modelled.
pub mod Calls
pub mod Process
use warsaw_beer_bot.Base.{
  ℕ, ◌-◌, Bool, true, false, ◌&&◌, Option, none, some, List, [], ◌∷◌, ◌++◌, map, leb, ltb, ◌==◌,
  if◌then◌else◌, length, filter,
}
use warsaw_beer_bot.Base.Decimal.{Text, same_text}
use warsaw_beer_bot.Base.Exec.{Result, ok, err, Exec, pure, raise, gets, modify, catch, ◌>>=◌, ◌>>◌}
use warsaw_beer_bot.Report.{ReportSource, bot, extension, MediaKind, photo, video}
use warsaw_beer_bot.Bugs.{
  IssueCandidate, IssueDetail, IssueLabel, severity, effort, StateReason, completed, TemplateFields,
  RawVerdict, ReportContext, ValidatedVerdict, valid_new, valid_open, valid_closed, valid_not_a_bug,
  ValidationResult, valid, invalid, ErrorText, reason_text, ReportOutcome, told_created, told_open,
  told_closed, told_not_a_bug, told_deferred, told_needs_review, told_failed, BugReportRow,
  BugReportMedia, SelectInput, JevResponse, SelectResult, VerdictImage, JudgeInput, queued,
  publishing, new_issue, duplicate_open, duplicate_closed, not_a_bug,
}
use warsaw_beer_bot.Bugs.Errors.{
  Failure, is_transient, credential_refusal, error_message, is_invalid_output,
}
use warsaw_beer_bot.Bugs.Store.{
  Db, list_by_status, list_media, mark_publishing, mark_done, mark_failed, mark_needs_review,
  record_attempt_error, set_jev_response, set_candidates_truncated, mark_deferred_notified,
  count_processed_since,
}
use warsaw_beer_bot.Bugs.Verdicts.{validate_verdict}

pub record Deps (W : Type 0) : Type 0 where
  pub select : SelectInput → List IssueCandidate → Exec W Failure SelectResult
  pub list_issues : Exec W Failure (List IssueCandidate)
  pub get_issue : (issue_number last_comments : ℕ) → Exec W Failure IssueDetail
  pub create_issue : (title body : Text) → List IssueLabel → Exec W Failure ℕ
  pub comment_on_issue : ℕ → Text → Exec W Failure Unit
  pub judge : JudgeInput → Exec W Failure RawVerdict
  pub read_file : Text → Exec W Failure Text  -- in base64
  pub notify : BugReportRow → ReportOutcome → Exec W Failure Unit
  pub latest_extension_version : Exec W Failure (Option Text)
  pub now : W → ℕ × W
  pub day_start : ℕ → ℕ  -- warsawDayStartUtc
  pub redact : Text → Text
  pub trim : Text → Text
  pub to_lower_case : Text → Text
  pub stringify : JevResponse → Text
  pub issue_body : TemplateFields → ReportContext → List ℕ → Text
  pub duplicate_comment : TemplateFields → ReportContext → Text
  pub daily_cap : ℕ
  pub max_attempts : ℕ
  pub candidate_cache_ttl_ms : ℕ

-- BUG_REPORT_PAUSED_KEY
pub record Pause : Type 0 where
  pub since : ℕ
  pub status : ℕ

pub record CandidateCache : Type 0 where
  pub issues : List IssueCandidate
  pub fetched_at : ℕ

pub record World (W : Type 0) : Type 0 where
  pub env : W
  pub db : Db
  pub paused : Option Pause
  pub running : Bool
  pub cache : Option CandidateCache

module _ {W : Type 0} where
  unfoldable pub set_paused : Option Pause → World W → World W
  set_paused p s = record s { paused = p }

  unfoldable pub set_cache : Option CandidateCache → World W → World W
  set_cache c s = record s { cache = c }

-- Whether a report's text after its last dot names an image.
abbrev last_part : Text → Text → Text
last_part part [] = part
last_part part (c ∷ s) = if c == b'.' then last_part [] s else last_part (part ++ c ∷ []) s

abbrev jpg : Text
jpg = b'j' ∷ b'p' ∷ b'g' ∷ []

abbrev jpeg : Text
jpeg = b'j' ∷ b'p' ∷ b'e' ∷ b'g' ∷ []

abbrev png : Text
png = b'p' ∷ b'n' ∷ b'g' ∷ []

abbrev webp : Text
webp = b'w' ∷ b'e' ∷ b'b' ∷ b'p' ∷ []

abbrev image_prefix : Text
image_prefix = b'i' ∷ b'm' ∷ b'a' ∷ b'g' ∷ b'e' ∷ b'/' ∷ []

abbrev is_photo : MediaKind → Bool
is_photo photo = true
is_photo video = false

abbrev is_null : Option ℕ → Bool
is_null none = true
is_null (some _) = false

abbrev pub is_extension : ReportSource → Bool
is_extension bot = false
is_extension extension = true

-- What a try of the judge comes to.
pub data Judged : Type 0 where
  judged : ValidatedVerdict → Judged
  rejected : ErrorText → Judged

-- Where the first part of a report's processing ends: with the report finished, or about to publish.
pub data Prepared : Type 0 where
  finished_early : Bool → Prepared
  to_publish : ValidatedVerdict → ReportContext → (processed_at : ℕ) → Prepared

module _ {W : Type 0} (deps : Deps W) where
  abbrev pub put_env : {A : Type 0} → World W → Result Failure A × W → Result Failure A × World W
  put_env s (r, w) = (r, record s { env = w })

  abbrev pub put_db : {A : Type 0} → World W → Result Failure A × Db → Result Failure A × World W
  put_db s (r, d) = (r, record s { db = d })

  -- A call of the outside, and a call of the store.
  unfoldable pub call : {A : Type 0} → Exec W Failure A → Exec (World W) Failure A
  call m s = put_env s (m s.env)

  abbrev pub put_clock : World W → ℕ × W → Result Failure ℕ × World W
  put_clock s (t, w) = (ok t, record s { env = w })

  unfoldable pub clock : Exec (World W) Failure ℕ
  clock s = put_clock s (deps.now s.env)

  unfoldable pub on_db : {A : Type 0} → Exec Db Failure A → Exec (World W) Failure A
  on_db m s = put_db s (m s.db)

  unfoldable pub notify : BugReportRow → ReportOutcome → Exec (World W) Failure Unit
  notify report outcome = catch (call (deps.notify report outcome)) λ _. pure tt

  abbrev fetch_candidates : ℕ → Exec (World W) Failure (List IssueCandidate)
  fetch_candidates now = do
    issues ← call deps.list_issues
    modify (set_cache (some (record { issues = issues; fetched_at = now })))
    pure issues

  abbrev cached_candidates :
      ℕ → Option CandidateCache → Exec (World W) Failure (List IssueCandidate)
  cached_candidates now none = fetch_candidates now
  cached_candidates now (some c) =
      if leb (now - c.fetched_at) deps.candidate_cache_ttl_ms
      then pure c.issues
      else fetch_candidates now

  unfoldable pub candidates : Exec (World W) Failure (List IssueCandidate)
  candidates = do now ← clock; cache ← gets λ s. s.cache; cached_candidates now cache

  abbrev image_mime : Text → Option Text
  image_mime path =
      let extension = last_part [] (deps.to_lower_case path) in
      if same_text extension jpg
      then some (image_prefix ++ jpeg)
      else if same_text extension jpeg
      then some (image_prefix ++ jpeg)
      else if same_text extension png
      then some (image_prefix ++ png)
      else if same_text extension webp
      then some (image_prefix ++ webp)
      else none

  abbrev mime_of : BugReportMedia → Option Text
  mime_of m =
      if is_photo m.kind && ltb 0 m.bytes && is_null m.pruned_at then image_mime m.path else none

  abbrev pub read_image : Text → Option Text → Exec (World W) Failure (List VerdictImage)
  read_image path none = pure []
  read_image path (some mime) =
      catch
        (do
          data64 ← call (deps.read_file path)
          pure (record { mime = mime; base64 = data64 } ∷ []))
        λ _. pure []

  unfoldable pub images : List BugReportMedia → Exec (World W) Failure (List VerdictImage)
  images [] = pure []
  images (m ∷ ms) = do image ← read_image m.path (mime_of m); rest ← images ms; pure (image ++ rest)

  abbrev judged_of : ValidationResult → Judged
  judged_of (valid v) = judged v
  judged_of (invalid r) = rejected (reason_text r)

  abbrev pub judge_once :
      JudgeInput → List IssueDetail → ReportSource → Exec (World W) Failure Judged
  judge_once input details source =
      catch
        (do
          raw ← call (deps.judge input)
          pure (judged_of (validate_verdict deps.redact deps.trim raw details source)))
        λ e. if is_invalid_output e then pure (rejected (error_message e)) else raise e

  abbrev pub judge_again : Exec (World W) Failure Judged → Judged → Exec (World W) Failure Judged
  judge_again again (judged v) = pure (judged v)
  judge_again again (rejected e) = again

  unfoldable pub verdict :
      JudgeInput → List IssueDetail → ReportSource → Exec (World W) Failure Judged
  verdict input details source = do
    first ← judge_once input details source
    judge_again (judge_once input details source) first

  abbrev pub finished : Exec (World W) Failure Bool
  finished = do modify (set_paused none); pure true

  unfoldable pub get_details : List ℕ → Exec (World W) Failure (List IssueDetail)
  get_details [] = pure []
  get_details (n ∷ ns) = do
    detail ← call (deps.get_issue n 3)
    rest ← get_details ns
    pure (detail ∷ rest)

  abbrev pub version_for : ReportSource → Exec (World W) Failure (Option Text)
  version_for bot = pure none
  version_for extension = call deps.latest_extension_version

  abbrev pub context : BugReportRow → Option Text → List BugReportMedia → ReportContext
  context report version media = record {
    report_id = report.id;
    source = report.source;
    category = report.category;
    locale = report.locale;
    city = report.city;
    latest_extension_version = version;
    media_stored = length (filter (λ m. ltb 0 m.bytes) media);
    media_failed = length (filter (λ m. m.bytes == 0) media);
  }

  abbrev pub mark_truncated : ℕ → Bool → Exec (World W) Failure Unit
  mark_truncated id true = on_db (set_candidates_truncated id)
  mark_truncated id false = pure tt
