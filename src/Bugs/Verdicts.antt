-- ===== src/Bugs/Verdicts.antt =====
-- src/domain/bug-report-verdict.ts: the check of the model's answer, with the fields as
-- bug-report-redact.ts and bug-report-template.ts clean them. The regular expressions of `redact`
-- and `String.prototype.trim` are parameters.
pub mod Bounds
pub mod Sound
use warsaw_beer_bot.Base.{
  ℕ, zero, suc, ◌-◌, Bool, true, false, not, ◌&&◌, ◌||◌, Option, none, some, List, [], ◌∷◌, ◌++◌,
  map, ltb, ◌==◌, if◌then◌else◌, length, filter, find?, any,
}
use warsaw_beer_bot.Base.{take}
use warsaw_beer_bot.Base.Decimal.{Text}
use warsaw_beer_bot.Report.{ReportSource, bot, extension}
use warsaw_beer_bot.Bugs.{
  AreaLabel, bug, extension_bug, parser_bug, matcher_bug, area_labels, Severity, Effort, Verdict,
  new_issue, duplicate_open, duplicate_closed, not_a_bug, TemplateFields, RawVerdict, IssueState,
  opened, closed, IssueDetail, IssueLabel, area, user_report, ValidatedVerdict, valid_new,
  valid_open, valid_closed, valid_not_a_bug, Reason, unknown_verdict, number_mismatch,
  not_a_candidate, state_mismatch, invalid_severity, invalid_effort, empty_title, ValidationResult,
  valid, invalid,
}

abbrev is_line_end : ℕ → Bool
is_line_end c = (c == 13) || (c == 10)

-- `replace(/[\r\n]+/g, ' ')`; the flag says that the code point before was a line end.
abbrev join_lines : Bool → Text → Text
join_lines after [] = []
join_lines after (c ∷ s) =
    let rest = join_lines (is_line_end c) s in
    if is_line_end c then if after then rest else b' ' ∷ rest else c ∷ rest

abbrev escape : Text → Text
escape [] = []
escape (c ∷ s) =
    let rest = escape s in
    if c == b'<'
    then b'&' ∷ b'l' ∷ b't' ∷ b';' ∷ rest
    else if c == b'>'
    then b'&' ∷ b'g' ∷ b't' ∷ b';' ∷ rest
    else c ∷ rest

abbrev ellipsis : ℕ
ellipsis = 0x2026

abbrev pub cut : ℕ → Text → Text
cut limit s = if ltb limit (length s) then take (limit - 1) s ++ ellipsis ∷ [] else s

abbrev is_empty {ℓ} : {A : Type ℓ} → List A → Bool
is_empty [] = true
is_empty (_ ∷ _) = false

abbrev pub nonempty : List Text → List Text
nonempty items = filter (λ s. not (is_empty s)) items

module _ (trim : Text → Text) where
  abbrev pub clamp : Bool → ℕ → Text → Text
  clamp multiline limit value =
      cut limit (escape (if multiline then trim value else join_lines false (trim value)))

  abbrev pub clamp_items : ℕ → List Text → List Text
  clamp_items limit items = map (clamp false limit) (take 5 (nonempty (map trim items)))

  unfoldable pub clamp_fields : TemplateFields → TemplateFields
  clamp_fields f = record {
    title = clamp false 100 f.title;
    summary = clamp true 300 f.summary;
    «where» = clamp false 200 f.«where»;
    subjects = clamp_items 100 f.subjects;
    expected = clamp false 200 f.expected;
    actual = clamp false 200 f.actual;
    steps = clamp_items 150 f.steps;
    screen_evidence = clamp_items 150 f.screen_evidence;
    new_evidence = clamp true 300 f.new_evidence;
  }

abbrev redact_fields : (Text → Text) → TemplateFields → TemplateFields
redact_fields redact f = record {
  title = redact f.title;
  summary = redact f.summary;
  «where» = redact f.«where»;
  subjects = map redact f.subjects;
  expected = redact f.expected;
  actual = redact f.actual;
  steps = map redact f.steps;
  screen_evidence = map redact f.screen_evidence;
  new_evidence = redact f.new_evidence;
}

abbrev pub is_number : Option ℕ → ℕ → Bool
is_number none n = false
is_number (some m) n = m == n

abbrev pub is_shown : List IssueDetail → ℕ → Bool
is_shown candidates n = any (λ c. c.number == n) candidates

-- The loop; `seen` is the result so far, the last one first.
unfoldable pub related_from : Option ℕ → List IssueDetail → (seen : List ℕ) → List ℕ → List ℕ
related_from own candidates seen [] = []
related_from own candidates seen (n ∷ ns) =
    let kept = n ∷ related_from own candidates (n ∷ seen) ns in
    let skipped = related_from own candidates seen ns in
    if is_shown candidates n && not (is_number own n) && not (any (λ m. m == n) seen)
    then kept
    else skipped

unfoldable pub related_issues : RawVerdict → List IssueDetail → List ℕ
unfolding related_from
related_issues raw candidates = take 3 (related_from raw.issue_number candidates [] raw.related)

abbrev same_area : AreaLabel → AreaLabel → Bool
same_area bug bug = true
same_area extension_bug extension_bug = true
same_area parser_bug parser_bug = true
same_area matcher_bug matcher_bug = true
same_area _ _ = false

abbrev is_area : AreaLabel → Option AreaLabel → Bool
is_area a none = false
is_area a (some b) = same_area a b

abbrev is_extension : ReportSource → Bool
is_extension bot = false
is_extension extension = true

-- The labels of the model, in the set before the fallback.
abbrev pub is_selected : ReportSource → List (Option AreaLabel) → AreaLabel → Bool
is_selected source labels a =
    any (is_area a) labels || (is_extension source && same_area a extension_bug)

unfoldable pub issue_labels : ReportSource → List (Option AreaLabel) → List IssueLabel
issue_labels source labels =
    let selected = filter (is_selected source labels) area_labels in
    map area (if is_empty selected then bug ∷ [] else selected) ++ user_report ∷ []

abbrev is_some {ℓ} : {A : Type ℓ} → Option A → Bool
is_some none = false
is_some (some _) = true

abbrev pub numbered : Option ℕ → List IssueDetail → Option IssueDetail
numbered none candidates = none
numbered (some n) candidates = find? (λ c. c.number == n) candidates

abbrev pub in_state : IssueState → IssueState → Bool
in_state opened opened = true
in_state closed closed = true
in_state _ _ = false

module _ (redact trim : Text → Text) where
  abbrev clean : RawVerdict → TemplateFields
  clean raw = clamp_fields trim (redact_fields redact raw.fields)

  abbrev validate_duplicate :
      (IssueDetail → TemplateFields → List ℕ → ValidatedVerdict)
      → IssueState
      → RawVerdict
      → List IssueDetail
      → Option IssueDetail
      → ValidationResult
  validate_duplicate into st raw candidates none = invalid not_a_candidate
  validate_duplicate into st raw candidates (some issue) =
      if in_state issue.state st
      then valid (into issue (clean raw) (related_issues raw candidates))
      else invalid state_mismatch

  abbrev validate_new :
      Option Severity
      → Option Effort
      → ReportSource
      → RawVerdict
      → List IssueDetail
      → ValidationResult
  validate_new none _ source raw candidates = invalid invalid_severity
  validate_new (some s) none source raw candidates = invalid invalid_effort
  validate_new (some s) (some e) source raw candidates =
      let fields = clean raw in
      if is_empty fields.title
      then invalid empty_title
      else valid
          (valid_new fields (issue_labels source raw.labels) s e (related_issues raw candidates))

  -- The verdict's own branch, after the check that only a duplicate has a number.
  abbrev pub validate_as :
      Option Verdict → RawVerdict → List IssueDetail → ReportSource → ValidationResult
  validate_as none raw candidates source = invalid unknown_verdict
  validate_as (some not_a_bug) raw candidates source =
      if is_some raw.issue_number then invalid number_mismatch else valid valid_not_a_bug
  validate_as (some new_issue) raw candidates source =
      if is_some raw.issue_number
      then invalid number_mismatch
      else validate_new raw.severity raw.effort source raw candidates
  validate_as (some duplicate_open) raw candidates source =
      if is_some raw.issue_number
      then validate_duplicate valid_open opened raw candidates
          (numbered raw.issue_number candidates)
      else invalid number_mismatch
  validate_as (some duplicate_closed) raw candidates source =
      if is_some raw.issue_number
      then validate_duplicate valid_closed closed raw candidates
          (numbered raw.issue_number candidates)
      else invalid number_mismatch

  unfoldable pub validate_verdict : RawVerdict → List IssueDetail → ReportSource → ValidationResult
  unfolding issue_labels related_issues clamp_fields
  validate_verdict raw candidates source = validate_as raw.verdict raw candidates source
