-- ===== src/Bugs/Worker/Process/Settles.antt =====
-- Where a queued report stands after it was processed: bug-report-worker.ts.
use warsaw_beer_bot.Base.{
  ℕ, suc, ◌<◌, Bool, true, false, not, ◌||◌, Option, none, some, List, ◌≡◌, ◌≢◌, refl, arith, leb,
  ◌⊎◌, inl, inr,
}
use warsaw_beer_bot.Base.Decimal.{Text}
use warsaw_beer_bot.Base.Exec.{ok, pure, ◌>>=◌, ◌>>◌}
use warsaw_beer_bot.Base.Exec.Runs.{
  Runs, Runs-bind, Runs-pure, Runs-imp, Runs-if, Runs-given, Runs-returns, Runs-catch, Keeps,
  Keeps-gets,
}
use warsaw_beer_bot.Bugs.{
  BugReportRow, BugReportMedia, queued, publishing, ValidatedVerdict, valid_new, valid_open,
  valid_closed, valid_not_a_bug, ReportContext, ErrorText,
}
use warsaw_beer_bot.Bugs.Errors.{Failure, is_transient, credential_refusal, error_message}
use warsaw_beer_bot.Bugs.Store.{Db, mark_publishing}
use warsaw_beer_bot.Bugs.Worker.{
  Deps, World, Pause, clock, Judged, judged, rejected, Prepared, finished_early, to_publish, on_db,
  mark_truncated, set_paused,
}
use warsaw_beer_bot.Bugs.Worker.Calls.{
  InDb, Keeps-call, clock-Runs, Keeps-candidates, Keeps-get_details, Keeps-version_for,
  Keeps-images, Keeps-verdict,
}
use warsaw_beer_bot.Bugs.Worker.Process.{
  fail, conclude, after_verdict, prepare, publish_as, publish, publish_failed, pause, count_attempt,
  on_refusal, prepare_failed, publish_prepared, attempt, process_report,
}
use warsaw_beer_bot.Bugs.Worker.Process.Changes.{
  IsPublishable, Stands, Settled, jev_Queued, not_a_bug_Settled, done_Settled, review_Settled,
  publishing_Publishing, notify-Runs, finished-Runs, cache-Runs, failed_Settled, truncated-Runs,
  attempt-Runs,
}

module _ {W : Type 0} (deps : Deps W) (report : BugReportRow) (n : ℕ) where
  abbrev id : ℕ
  id = report.id

  abbrev Queued : Db → Type 0
  Queued = Stands id queued n

  abbrev Publishing : Db → Type 0
  Publishing = Stands id publishing n

  Early : Prepared → World W → Type 0
  Early (finished_early b) s = (b ≡ true) × InDb (Settled id) s
  Early (to_publish v ctx at) s = IsPublishable v × InDb Publishing s

  finished_early-Early :
      (b : Bool)
      → Runs {E = Failure}
          (λ s. (b ≡ true) × InDb (Settled id) s)
          (pure (finished_early b))
          (λ p s. Early p s)
          (λ _ s. InDb Queued s)
  unfolding Early
  finished_early-Early b = Runs-pure _ λ s h. h

  fail-Runs :
      {R : Failure → World W → Type 0} (m : ℕ) (e : ErrorText)
      → Runs
          (InDb (Stands id queued m))
          (fail deps report e)
          (λ b s. (b ≡ true) × InDb (Settled id) s)
          R
  fail-Runs m e =
      Runs-bind (λ _ s. InDb (Stands id queued m) s) (clock-Runs deps (Stands id queued m))
        λ now.
          Runs-bind (λ _ s. InDb (Settled id) s) (failed_Settled deps report n m e now)
            λ _.
              Runs-bind (λ _ s. InDb (Settled id) s) (notify-Runs deps report n (Settled id) _)
                λ _. finished-Runs deps report n (Settled id)

  to_publish-Runs :
      (v : ValidatedVerdict) (ctx : ReportContext)
      → IsPublishable v
      → Runs
          (InDb Queued)
          (do now ← clock deps; on_db deps (mark_publishing id); pure (to_publish v ctx now))
          (λ p s. Early p s)
          (λ _ s. InDb Queued s)
  unfolding Early
  to_publish-Runs v ctx k =
      Runs-bind (λ _ s. InDb Queued s) (clock-Runs deps Queued)
        λ now.
          Runs-bind (λ _ s. InDb Publishing s) (publishing_Publishing deps report n)
            λ _. Runs-pure _ λ s h. (k, h)

  conclude-Runs :
      (version : Option Text) (media : List BugReportMedia) (v : ValidatedVerdict)
      → Runs
          (InDb Queued)
          (conclude deps report version media v)
          (λ p s. Early p s)
          (λ _ s. InDb Queued s)
  conclude-Runs version media valid_not_a_bug =
      Runs-bind (λ _ s. InDb Queued s) (clock-Runs deps Queued)
        λ now.
          Runs-bind (λ _ s. InDb (Settled id) s) (not_a_bug_Settled deps report n _ _ now _)
            λ _.
              Runs-bind (λ _ s. InDb (Settled id) s) (notify-Runs deps report n (Settled id) _)
                λ _.
                  Runs-bind (λ b s. (b ≡ true) × InDb (Settled id) s)
                    (finished-Runs deps report n (Settled id)) λ b. finished_early-Early b
  conclude-Runs version media (valid_new f ls s e related) =
      to_publish-Runs (valid_new f ls s e related) _ tt
  conclude-Runs version media (valid_open i f related) =
      to_publish-Runs (valid_open i f related) _ tt
  conclude-Runs version media (valid_closed i f related) =
      to_publish-Runs (valid_closed i f related) _ tt

  after_verdict-Runs :
      (version : Option Text) (media : List BugReportMedia) (j : Judged)
      → Runs
          (InDb Queued)
          (after_verdict deps report version media j)
          (λ p s. Early p s)
          (λ _ s. InDb Queued s)
  after_verdict-Runs version media (judged v) = conclude-Runs version media v
  after_verdict-Runs version media (rejected e) =
      Runs-bind (λ b s. (b ≡ true) × InDb (Settled id) s) (fail-Runs n e)
        λ b. finished_early-Early b

  truncated_Queued : (b : Bool) → Keeps (InDb Queued) (mark_truncated deps id b)
  truncated_Queued true = truncated-Runs deps report n
  truncated_Queued false = Runs-pure _ λ s h. h

  prepare-Runs : Runs (InDb Queued) (prepare deps report) (λ p s. Early p s) (λ _ s. InDb Queued s)
  unfolding prepare
  prepare-Runs =
      Runs-bind (λ _ s. InDb Queued s) (Keeps-candidates deps Queued)
        λ issues.
          Runs-bind (λ _ s. InDb Queued s) (Keeps-call deps Queued _)
            λ selected.
              Runs-bind (λ _ s. InDb Queued s) (jev_Queued deps report n _)
                λ _.
                  Runs-bind (λ _ s. InDb Queued s) (truncated_Queued _)
                    λ _.
                      Runs-bind (λ _ s. InDb Queued s) (Keeps-get_details deps Queued _)
                        λ details.
                          Runs-bind (λ _ s. InDb Queued s) (Keeps-gets _)
                            λ media.
                              Runs-bind (λ _ s. InDb Queued s) (Keeps-version_for deps Queued _)
                                λ version.
                                  Runs-bind (λ _ s. InDb Queued s) (Keeps-images deps Queued _)
                                    λ shots.
                                      Runs-bind (λ _ s. InDb Queued s)
                                        (Keeps-verdict deps Queued _ _ _)
                                        λ answer. after_verdict-Runs version media answer

  publish_as-Runs :
      (ctx : ReportContext) (at : ℕ) (v : ValidatedVerdict)
      → IsPublishable v
      → Runs
          (InDb Publishing)
          (publish_as deps report ctx at v)
          (λ _ s. InDb (Settled id) s)
          (λ _ s. InDb Publishing s)
  unfolding publish_as
  publish_as-Runs ctx at (valid_new f ls s e related) k =
      Runs-bind (λ _ s. InDb Publishing s) (Keeps-call deps Publishing _)
        λ m.
          Runs-bind (λ _ s. InDb (Settled id) s) (done_Settled deps report n _ _ at _)
            λ _.
              Runs-bind (λ _ s. InDb (Settled id) s) (cache-Runs deps report n (Settled id) none)
                λ _. Runs-pure _ λ s h. h
  publish_as-Runs ctx at (valid_open i f related) k =
      Runs-bind (λ _ s. InDb Publishing s) (Keeps-call deps Publishing _)
        λ m.
          Runs-bind (λ _ s. InDb (Settled id) s) (done_Settled deps report n _ _ at _)
            λ _. Runs-pure _ λ s h. h
  publish_as-Runs ctx at (valid_closed i f related) k =
      Runs-bind (λ _ s. InDb Publishing s) (Keeps-call deps Publishing _)
        λ m.
          Runs-bind (λ _ s. InDb (Settled id) s) (done_Settled deps report n _ _ at _)
            λ _. Runs-pure _ λ s h. h
  publish_as-Runs ctx at valid_not_a_bug k = absurd k

  review-Runs :
      Runs
        (InDb Publishing)
        (publish_failed deps report)
        (λ b s. (b ≡ true) × InDb (Settled id) s)
        (λ _ _. ⊥)
  unfolding publish_failed
  review-Runs =
      Runs-bind (λ _ s. InDb Publishing s) (clock-Runs deps Publishing)
        λ now.
          Runs-bind (λ _ s. InDb (Settled id) s) (review_Settled deps report n now)
            λ _.
              Runs-bind (λ _ s. InDb (Settled id) s) (notify-Runs deps report n (Settled id) _)
                λ _. finished-Runs deps report n (Settled id)

  publish-Runs :
      (ctx : ReportContext) (at : ℕ) (v : ValidatedVerdict)
      → IsPublishable v
      → Runs
          (InDb Publishing)
          (publish deps report ctx at v)
          (λ b s. (b ≡ true) × InDb (Settled id) s)
          (λ _ s. InDb Publishing s)
  unfolding publish
  publish-Runs ctx at v k =
      Runs-bind (λ _ s. InDb (Settled id) s) (publish_as-Runs ctx at v k)
        λ o.
          Runs-bind (λ _ s. InDb (Settled id) s) (notify-Runs deps report n (Settled id) o)
            λ _. finished-Runs deps report n (Settled id)

  -- Where the report stands when its processing returns: settled, or in the queue with one more attempt
  -- and attempts left, or in the queue as it was, with the queue paused.
  pub Stood : Bool → World W → Type 0
  Stood true s = Settled report.id s.db
  Stood false s =
      (Stands report.id queued (suc n) s.db × (suc n < deps.max_attempts))
      ⊎ (Stands report.id queued n s.db × (s.paused ≢ none))

  pause-Runs :
      (status : ℕ) (o : Option Pause)
      → Runs
          (λ s. InDb Queued s × (s.paused ≡ o))
          (pause deps status o)
          (λ b s. Stood b s)
          (λ _ _. ⊥)
  unfolding ◌>>=◌ InDb Stood set_paused clock
  pause-Runs status none = record { at = λ s h. inr (h.0, cc) }
  pause-Runs status (some p) = record { at = λ s h. inr (h.0, rw (h.1) (cc)) }

  Stood-true : (b : Bool) (s : World W) → (b ≡ true) × InDb (Settled id) s → Stood b s
  unfolding InDb Stood
  Stood-true true s h = h.1
  Stood-true false s h = cc

  kept-Runs :
      suc n < deps.max_attempts
      → Runs {E = Failure}
          (InDb (Stands id queued (suc n)))
          (pure false)
          (λ b s. Stood b s)
          (λ _ _. ⊥)
  unfolding Stood InDb
  kept-Runs k = Runs-pure false λ s h. inl (h, k)

  count-Runs :
      (e : Failure) → Runs (InDb Queued) (count_attempt deps report e) (λ b s. Stood b s) (λ _ _. ⊥)
  count-Runs e =
      Runs-bind (λ a s. (a ≡ suc n) × InDb (Stands id queued (suc n)) s)
        (attempt-Runs deps report n (error_message e))
        λ a. Runs-given λ same.
          Runs-if (not (is_transient e) || leb deps.max_attempts a) _ _
            (λ over.
              Runs-imp (λ b t h. Stood-true b t h) (λ _ _ h. h)
                (fail-Runs (suc n) (error_message e)))
            λ under. kept-Runs (ground arith)

  refusal-Runs :
      (e : Failure) (o : Option ℕ)
      → Runs (InDb Queued) (on_refusal deps report e o) (λ b s. Stood b s) (λ _ _. ⊥)
  unfolding ◌>>=◌
  refusal-Runs e none = count-Runs e
  refusal-Runs e (some status) = record { at = λ s h. (pause-Runs status s.paused).at s (h, refl) }

  -- What the first part leaves: a report that is about to be published, or one that stands where it may.
  Ready : Prepared → World W → Type 0
  Ready (finished_early b) s = Stood b s
  Ready (to_publish v ctx at) s = IsPublishable v × InDb Publishing s

  Early-Ready : (p : Prepared) (s : World W) → Early p s → Ready p s
  unfolding Early Ready
  Early-Ready (finished_early b) s h = Stood-true b s h
  Early-Ready (to_publish v ctx at) s h = h

  attempt-Ready : Runs (InDb Queued) (attempt deps report) (λ p s. Ready p s) (λ _ _. ⊥)
  unfolding prepare_failed Ready
  attempt-Ready =
      Runs-catch (λ _ s. InDb Queued s) (Runs-imp Early-Ready (λ _ _ h. h) prepare-Runs)
        λ e.
          Runs-bind (λ b s. Stood b s) (refusal-Runs e (credential_refusal e))
            λ b. Runs-pure _ λ s h. h

  prepared_Stood :
      (p : Prepared)
      → Runs (λ s. Ready p s) (publish_prepared deps report p) (λ b s. Stood b s) (λ _ _. ⊥)
  unfolding Ready
  prepared_Stood (finished_early b) = Runs-pure b λ s h. h
  prepared_Stood (to_publish v ctx at) = Runs-given λ k.
      Runs-imp Stood-true (λ _ _ h. h)
        (Runs-catch (λ _ s. InDb Publishing s) (publish-Runs ctx at v k) λ e. review-Runs)

  process_report-Runs :
      Runs (InDb Queued) (process_report deps report) (λ b s. Stood b s) (λ _ _. ⊥)
  unfolding process_report
  process_report-Runs = Runs-bind (λ p s. Ready p s) attempt-Ready prepared_Stood

  -- Processing a report that is queued returns, whatever the calls outside throw. With `true` the report
  -- is settled; with `false` it is still queued, and either it has one more attempt and attempts left, or
  -- its attempts are as they were and the queue is paused.
  pub process_report-Stood :
      (s : World W)
      → Stands report.id queued n s.db
      → (b : Bool) × ((process_report deps report s).0 ≡ ok b)
        × Stood b (process_report deps report s).1
  unfolding InDb
  process_report-Stood s h = Runs-returns (process_report deps report) process_report-Runs s h
