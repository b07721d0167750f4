-- ===== src/Bugs/Verdicts/Sound.antt =====
-- What a verdict that passed the check rests on: bug-report-verdict.ts.
use warsaw_beer_bot.Base.{
  ℕ, ◌≤◌, Bool, true, false, not, ◌&&◌, ◌||◌, Option, none, some, List, [], ◌∷◌, ◌++◌, ◌==◌, ◌≡◌,
  ◌≢◌, refl, sym, inl, inr, if◌then◌else◌, if-cases, Bool-cases, length, find?, filter, any, map,
  All, Any, AllPairs, length-take, All-take, AllPairs-take, arith, All-imp,
}
use warsaw_beer_bot.Base.Decimal.{Text}
use warsaw_beer_bot.Report.{ReportSource}
use warsaw_beer_bot.Bugs.{
  AreaLabel, bug, area_labels, Severity, Effort, Verdict, new_issue, duplicate_open,
  duplicate_closed, not_a_bug, RawVerdict, IssueState, opened, closed, IssueDetail, IssueLabel,
  area, user_report, ValidatedVerdict, valid_new, valid_open, valid_closed, valid_not_a_bug,
  ValidationResult, valid, invalid, TemplateFields,
}
use warsaw_beer_bot.Bugs.Verdicts.{
  is_number, is_shown, related_from, related_issues, is_selected, issue_labels, numbered, in_state,
  is_empty, is_some, clean, validate_duplicate, validate_new, validate_as, validate_verdict,
}
use warsaw_beer_bot.Bugs.Verdicts.Bounds.{IsClamped, clamp_fields-IsClamped}

-- Hints to other issues: at most three, all different, each shown to the model and not the
-- verdict's own.
pub record IsRelated (raw : RawVerdict) (candidates : List IssueDetail) (related : List ℕ)
    : Type 0 where
  pub few : length related ≤ 3
  pub distinct : AllPairs (λ m n. m ≢ n) related
  pub shown :
      All (λ n. (is_shown candidates n ≡ true) × (is_number raw.issue_number n ≡ false)) related

module _ (own : Option ℕ) (candidates : List IssueDetail) where
  Fresh : List ℕ → ℕ → Type 0
  Fresh seen n = any (λ m. m == n) seen ≡ false

  and_true : (a b c : Bool) → (a && not b && not c) ≡ true → (a ≡ true) × (b ≡ false) × (c ≡ false)
  and_true true false false h = (refl, refl, refl)
  and_true true true c h = cc
  and_true true false true h = cc
  and_true false b c h = cc

  Fresh-tail : (m : ℕ) (seen : List ℕ) (n : ℕ) → Fresh (m ∷ seen) n → Fresh seen n × (m ≢ n)
  unfolding Fresh
  Fresh-tail m seen n h = elim (Bool-cases (m == n)) [
    | inl e ↦ absurd (apart (rw e at h))
    | inr e ↦ (rw e at h, ground arith)
  ]
    where
      apart : (true || any (λ k. k == n) seen) ≡ false → ⊥
      apart k = cc

  related_from_lem :
      (seen ns : List ℕ)
      → All
          (λ n. ((is_shown candidates n ≡ true) × (is_number own n ≡ false)) × Fresh seen n)
          (related_from own candidates seen ns)
        × AllPairs (λ m n. m ≢ n) (related_from own candidates seen ns)
  unfolding related_from Fresh
  related_from_lem seen [] = (tt, tt)
  related_from_lem seen (n ∷ ns) =
      if-cases
        (λ r.
          All (λ k. ((is_shown candidates k ≡ true) × (is_number own k ≡ false)) × Fresh seen k) r
          × AllPairs (λ m k. m ≢ k) r)
        (is_shown candidates n && not (is_number own n) && not (any (λ m. m == n) seen)) _ _
        (λ e.
          let (all, pairs) = related_from_lem (n ∷ seen) ns in
          let (a, b, c) =
            and_true (is_shown candidates n) (is_number own n) (any (λ m. m == n) seen) e in
          (
            (((a, b), c), All-imp (λ k h. (h.0, (Fresh-tail n seen k h.1).0)) _ all),
            (All-imp (λ k h. (Fresh-tail n seen k h.1).1) _ all, pairs),
          ))
        λ e. related_from_lem seen ns

related_issues-IsRelated :
    (raw : RawVerdict) (candidates : List IssueDetail)
    → IsRelated raw candidates (related_issues raw candidates)
unfolding related_issues
related_issues-IsRelated raw candidates =
    let (all, pairs) = related_from_lem raw.issue_number candidates [] raw.related in
    record {
      few = length-take 3 _;
      distinct = AllPairs-take _ 3 _ pairs;
      shown = All-take _ 3 _ (All-imp (λ k h. h.0) _ all);
    }

IsArea : IssueLabel → Type 0
IsArea (area a) = Unit
IsArea _ = ⊥

IsUserReport : IssueLabel → Type 0
IsUserReport user_report = Unit
IsUserReport _ = ⊥

IsFrom : RawVerdict → List IssueDetail → IssueState → IssueDetail → Type 0
IsFrom raw candidates st issue =
    Any (λ c. c ≡ issue) candidates
    × (issue.state ≡ st)
    × (is_number raw.issue_number issue.number ≡ true)

-- What is published: it is of the kind that the model said, with clean fields; a new issue has a
-- title, an area and the mark of a user's report, and no number; a comment is on the candidate that
-- the model named, which is in the state that it said.
pub IsBacked : RawVerdict → List IssueDetail → ValidatedVerdict → Type 0
unfolding IsArea IsUserReport IsFrom
IsBacked raw candidates (valid_new fields labels s e related) =
    IsClamped fields
    × (fields.title ≢ [])
    × Any IsArea labels
    × Any IsUserReport labels
    × (raw.verdict ≡ some new_issue)
    × (raw.issue_number ≡ none)
    × (raw.severity ≡ some s)
    × (raw.effort ≡ some e)
    × IsRelated raw candidates related
IsBacked raw candidates (valid_open issue fields related) =
    IsClamped fields
    × (raw.verdict ≡ some duplicate_open)
    × IsFrom raw candidates opened issue
    × IsRelated raw candidates related
IsBacked raw candidates (valid_closed issue fields related) =
    IsClamped fields
    × (raw.verdict ≡ some duplicate_closed)
    × IsFrom raw candidates closed issue
    × IsRelated raw candidates related
IsBacked raw candidates valid_not_a_bug = (raw.verdict ≡ some not_a_bug) × (raw.issue_number ≡ none)

OnValid : (ValidatedVerdict → Type 0) → ValidationResult → Type 0
OnValid P (valid v) = P v
OnValid P (invalid r) = Unit

find?-lem :
    {A : Type 0} (p : A → Bool) (xs : List A) (x : A)
    → find? p xs ≡ some x
    → Any (λ y. y ≡ x) xs × (p x ≡ true)
find?-lem p [] x h = cc
find?-lem p (y ∷ ys) x h = elim (Bool-cases (p y)) [
  | inl e ↦ let same = first (rw e at h) in (inl same, rw (sym same) e)
  | inr e ↦ let (found, holds) = find?-lem p ys x (rw e at h) in (inr found, holds)
]
  where
    first : some y ≡ some x → y ≡ x
    first k = cc

in_state_lem : (a b : IssueState) → in_state a b ≡ true → a ≡ b
in_state_lem opened opened h = refl
in_state_lem closed closed h = refl
in_state_lem opened closed h = cc
in_state_lem closed opened h = cc

numbered_lem :
    (o : Option ℕ) (candidates : List IssueDetail) (issue : IssueDetail)
    → numbered o candidates ≡ some issue
    → Any (λ c. c ≡ issue) candidates × (is_number o issue.number ≡ true)
numbered_lem none candidates issue h = cc
numbered_lem (some n) candidates issue h =
    let (found, holds) = find?-lem (λ c. c.number == n) candidates issue h in (found, ground arith)

Any-user_report : (ls : List IssueLabel) → Any IsUserReport (ls ++ user_report ∷ [])
unfolding IsUserReport
Any-user_report [] = inl tt
Any-user_report (l ∷ ls) = inr (Any-user_report ls)

Any-area :
    (xs : List AreaLabel)
    → Any IsArea (map area (if is_empty xs then bug ∷ [] else xs) ++ user_report ∷ [])
unfolding IsArea
Any-area [] = inl tt
Any-area (a ∷ xs) = inl tt

title-ne-nil : (s : Text) → is_empty s ≡ false → s ≢ []
title-ne-nil [] h = cc
title-ne-nil (c ∷ s) h = cc

module _ (redact trim : Text → Text) (raw : RawVerdict) (candidates : List IssueDetail) where
  Sound : ValidationResult → Type 0
  unfolding OnValid
  Sound = OnValid (IsBacked raw candidates)

  duplicate_Sound :
      (into : IssueDetail → TemplateFields → List ℕ → ValidatedVerdict) (st : IssueState)
      (o : Option IssueDetail)
      → numbered raw.issue_number candidates ≡ o
      → ((issue : IssueDetail)
          → IsFrom raw candidates st issue
          → IsBacked raw candidates
              (into issue (clean redact trim raw) (related_issues raw candidates)))
      → Sound (validate_duplicate redact trim into st raw candidates o)
  unfolding Sound IsFrom
  duplicate_Sound into st none h k = tt
  duplicate_Sound into st (some issue) h k =
      if-cases Sound (in_state issue.state st) _ _
        (λ e.
          let (found, same) = numbered_lem raw.issue_number candidates issue h in
          k issue (found, in_state_lem issue.state st e, same))
        λ e. tt

  open_Sound :
      raw.verdict ≡ some duplicate_open
      → Sound (
          validate_duplicate redact trim valid_open opened raw candidates
            (numbered raw.issue_number candidates))
  unfolding IsBacked
  open_Sound said =
      duplicate_Sound valid_open opened _ refl
        λ issue h. (clamp_fields-IsClamped trim _, said, h, related_issues-IsRelated raw candidates)

  closed-Sound :
      raw.verdict ≡ some duplicate_closed
      → Sound (
          validate_duplicate redact trim valid_closed closed raw candidates
            (numbered raw.issue_number candidates))
  unfolding IsBacked
  closed-Sound said =
      duplicate_Sound valid_closed closed _ refl
        λ issue h. (clamp_fields-IsClamped trim _, said, h, related_issues-IsRelated raw candidates)

  new_Sound :
      (source : ReportSource) (s : Option Severity) (e : Option Effort)
      → raw.verdict ≡ some new_issue
      → raw.issue_number ≡ none
      → raw.severity ≡ s
      → raw.effort ≡ e
      → Sound (validate_new redact trim s e source raw candidates)
  unfolding IsBacked issue_labels Sound
  new_Sound source none e said free p q = tt
  new_Sound source (some s) none said free p q = tt
  new_Sound source (some s) (some e) said free p q =
      if-cases Sound (is_empty (clean redact trim raw).title) _ _ (λ k. tt)
        λ k. (
          clamp_fields-IsClamped trim _,
          title-ne-nil _ k,
          Any-area (filter (is_selected source raw.labels) area_labels),
          Any-user_report _,
          said,
          free,
          p,
          q,
          related_issues-IsRelated raw candidates,
        )

  is_some_lem : (o : Option ℕ) → is_some o ≡ false → o ≡ none
  is_some_lem none h = refl
  is_some_lem (some n) h = cc

  as_Sound :
      (source : ReportSource) (v : Option Verdict)
      → raw.verdict ≡ v
      → Sound (validate_as redact trim v raw candidates source)
  unfolding IsBacked Sound
  as_Sound source none said = tt
  as_Sound source (some not_a_bug) said =
      if-cases Sound (is_some raw.issue_number) _ _ (λ e. tt)
        λ e. (said, is_some_lem raw.issue_number e)
  as_Sound source (some new_issue) said =
      if-cases Sound (is_some raw.issue_number) _ _ (λ e. tt)
        λ e.
          new_Sound source raw.severity raw.effort said (is_some_lem raw.issue_number e) refl refl
  as_Sound source (some duplicate_open) said =
      if-cases Sound (is_some raw.issue_number) _ _ (λ e. open_Sound said) λ e. tt
  as_Sound source (some duplicate_closed) said =
      if-cases Sound (is_some raw.issue_number) _ _ (λ e. closed-Sound said) λ e. tt

  -- A verdict that passes the check is of the kind that the model gave, with fields within their limits
  -- and hints to at most three different issues that were shown. A duplicate is an issue that was
  -- shown, under the number that the model gave, and open or closed as the kind says; a new issue has
  -- no number, a title, an area label, the mark of a user's report, and the severity and the effort
  -- that the model gave; one that is not a bug has no number.
  pub validate_verdict-IsBacked :
      (source : ReportSource) (v : ValidatedVerdict)
      → validate_verdict redact trim raw candidates source ≡ valid v
      → IsBacked raw candidates v
  unfolding validate_verdict Sound
  validate_verdict-IsBacked source v h = at_valid (rw h at (as_Sound source raw.verdict refl))
    where
      at_valid : Sound (valid v) → IsBacked raw candidates v
      at_valid k = k
