-- ===== src/Bugs/Worker/Process/Changes.antt =====
-- Where each change of a report's row takes it, in the worker's state: bug-report-worker.ts.
use warsaw_beer_bot.Base.{
  find?, Any, All, inl, inr, ==_iff, if-cases, ◌==◌, ℕ, suc, Bool, true, Option, List, [], ◌∷◌, ◌≡◌,
  refl, ap,
}
use Prim.Native.String.{String}
use warsaw_beer_bot.Base.Decimal.{Text}
use warsaw_beer_bot.Base.Exec.{modify, ◌>>=◌}
use warsaw_beer_bot.Base.Exec.Runs.{Keeps, Runs-bind, Runs, Runs-pure, Runs-imp, Runs-catch}
use warsaw_beer_bot.Bugs.{
  BugReportRow, ReportStatus, queued, publishing, ValidatedVerdict, valid_not_a_bug, ReportOutcome,
  ErrorText, Verdict,
}
use warsaw_beer_bot.Bugs.Errors.{Failure}
use warsaw_beer_bot.Bugs.Store.{
  attempts_of, get_report, attempts_now, record_attempt_error, add_attempt,
  set_candidates_truncated, Db, transition, mark_publishing, mark_done, mark_failed,
  mark_needs_review, set_jev_response, set_publishing, set_done, set_failed, set_needs_review,
  set_jev, is_queued, is_publishing, is_unsettled,
}
use warsaw_beer_bot.Bugs.Store.Transitions.{update_report-Keeps, Holds, KeepsId, transition-Runs}
use warsaw_beer_bot.Bugs.Worker.{
  Deps, World, on_db, notify, finished, set_paused, set_cache, CandidateCache,
}
use warsaw_beer_bot.Bugs.Worker.Calls.{InDb, Keeps-db, on_db-Runs, Keeps-call}

abbrev pub IsSettled : ReportStatus → Type 0
IsSettled queued = ⊥
IsSettled publishing = ⊥
IsSettled _ = Unit

-- All but `not_a_bug` are published.
abbrev pub IsPublishable : ValidatedVerdict → Type 0
IsPublishable valid_not_a_bug = ⊥
IsPublishable _ = Unit

module _ (id : ℕ) where
  -- The report stands in the table in this status, after so many attempts.
  unfoldable pub Stands : ReportStatus → ℕ → Db → Type 0
  Stands st n db = Holds id (λ r. (r.status ≡ st) × (r.attempts ≡ n)) db.reports

  unfoldable pub Settled : Db → Type 0
  Settled db = Holds id (λ r. IsSettled r.status) db.reports

module _ {W : Type 0} (deps : Deps W) (report : BugReportRow) (n : ℕ) where
  abbrev pub id : ℕ
  id = report.id

  -- A change that the status allows, in the worker's state; it throws nothing.
  pub change :
      {R : Failure → World W → Type 0} (P Q : BugReportRow → Type 0) (allowed : ReportStatus → Bool)
      (f : BugReportRow → BugReportRow) (keeps : KeepsId f) (to : String)
      → ((r : BugReportRow) → P r → (allowed r.status ≡ true) × Q (f r))
      → Runs
          (InDb λ db. Holds id P db.reports)
          (on_db deps (transition id allowed f to))
          (λ _ s. InDb (λ db. Holds id Q db.reports) s)
          R
  unfolding InDb
  change P Q allowed f keeps to step =
      Runs-imp (λ a t h. h) (λ e t h. absurd h)
        (on_db-Runs deps (transition-Runs id allowed f keeps to P Q step))

  pub jev_Queued :
      (t : Text)
      → Runs
          (InDb (Stands id queued n))
          (on_db deps (set_jev_response id t))
          (λ _ s. InDb (Stands id queued n) s)
          (λ _ s. InDb (Stands id queued n) s)
  unfolding set_jev_response Stands
  jev_Queued t = change _ _ is_queued (set_jev t) (λ r. refl) _ λ r h. (rw (h.0) refl, h)

  pub failed_Settled :
      {R : Failure → World W → Type 0} (m : ℕ) (e : ErrorText) (at : ℕ)
      → Runs
          (InDb (Stands id queued m))
          (on_db deps (mark_failed id e at))
          (λ _ s. InDb (Settled id) s)
          R
  unfolding mark_failed Stands Settled
  failed_Settled m e at =
      change _ _ is_queued (set_failed e at) (λ r. refl) _ λ r h. (rw (h.0) refl, tt)

  pub not_a_bug_Settled :
      {R : Failure → World W → Type 0} (v : Verdict) (o : Option ℕ) (at : ℕ)
      (related : Option (List ℕ))
      → Runs
          (InDb (Stands id queued n))
          (on_db deps (mark_done id v o at related))
          (λ _ s. InDb (Settled id) s)
          R
  unfolding mark_done Stands Settled
  not_a_bug_Settled v o at related =
      change _ _ is_unsettled (set_done v o at related) (λ r. refl) _ λ r h. (rw (h.0) refl, tt)

  pub done_Settled :
      {R : Failure → World W → Type 0} (v : Verdict) (o : Option ℕ) (at : ℕ)
      (related : Option (List ℕ))
      → Runs
          (InDb (Stands id publishing n))
          (on_db deps (mark_done id v o at related))
          (λ _ s. InDb (Settled id) s)
          R
  unfolding mark_done Stands Settled
  done_Settled v o at related =
      change _ _ is_unsettled (set_done v o at related) (λ r. refl) _ λ r h. (rw (h.0) refl, tt)

  pub review_Settled :
      {R : Failure → World W → Type 0} (at : ℕ)
      → Runs
          (InDb (Stands id publishing n))
          (on_db deps (mark_needs_review id at))
          (λ _ s. InDb (Settled id) s)
          R
  unfolding mark_needs_review Stands Settled
  review_Settled at =
      change _ _ is_publishing (set_needs_review at) (λ r. refl) _ λ r h. (rw (h.0) refl, tt)

  pub publishing_Publishing :
      {R : Failure → World W → Type 0}
      → Runs
          (InDb (Stands id queued n))
          (on_db deps (mark_publishing id))
          (λ _ s. InDb (Stands id publishing n) s)
          R
  unfolding mark_publishing Stands
  publishing_Publishing =
      change _ _ is_queued set_publishing (λ r. refl) _ λ r h. (rw (h.0) refl, (refl, h.1))

  -- What every way to the end of a report does last.
  pub notify-Runs :
      {R : Failure → World W → Type 0} (P : Db → Type 0) (o : ReportOutcome)
      → Runs (InDb P) (notify deps report o) (λ _ s. InDb P s) R
  unfolding notify
  notify-Runs P o = Runs-catch (λ _ s. InDb P s) (Keeps-call deps P _) λ e. Runs-pure tt λ s h. h

  pub finished-Runs :
      {R : Failure → World W → Type 0} (P : Db → Type 0)
      → Runs (InDb P) (finished deps) (λ b s. (b ≡ true) × InDb P s) R
  unfolding ◌>>=◌ InDb set_paused
  finished-Runs P = record { at = λ s h. (refl, h) }

  pub cache-Runs :
      {R : Failure → World W → Type 0} (P : Db → Type 0) (c : Option CandidateCache)
      → Runs (InDb P) (modify (set_cache c)) (λ _ s. InDb P s) R
  unfolding ◌>>=◌ InDb set_cache
  cache-Runs P c = record { at = λ s h. h }

  pub truncated-Runs : Keeps (InDb (Stands id queued n)) (on_db deps (set_candidates_truncated id))
  unfolding set_candidates_truncated Stands
  truncated-Runs = Keeps-db deps (
      update_report-Keeps id (λ r. record r { candidates_truncated = true }) (λ r. refl) _ λ r h. h)

  attempts_Holds :
      (m : ℕ) (rows : List BugReportRow)
      → Any (λ r. r.id ≡ id) rows
      → All (λ r. r.id ≡ id → (r.status ≡ queued) × (r.attempts ≡ m)) rows
      → attempts_of (find? (λ r. r.id == id) rows) ≡ m
  attempts_Holds m [] h k = absurd h
  attempts_Holds m (r ∷ rows) (inl h) k = rw ((==_iff r.id id).1 h) ((k.0 h).1)
  attempts_Holds m (r ∷ rows) (inr h) k =
      if-cases (λ (o : Option BugReportRow). attempts_of o ≡ m) (r.id == id) _ _
        (λ e. (k.0 ((==_iff r.id id).0 e)).1) λ e. attempts_Holds m rows h k.1

  -- The number that is returned is the number in the table.
  pub attempt-Runs :
      {R : Failure → World W → Type 0} (e : ErrorText)
      → Runs
          (InDb (Stands id queued n))
          (on_db deps (record_attempt_error id e))
          (λ a s. (a ≡ suc n) × InDb (Stands id queued (suc n)) s)
          R
  unfolding record_attempt_error attempts_now get_report Stands InDb ◌>>=◌
  attempt-Runs e =
      Runs-imp (λ a t h. h) (λ e t h. absurd h)
        (on_db-Runs deps {Q = λ a db. (a ≡ suc n) × Stands id queued (suc n) db} (
          Runs-bind (λ _ db. Stands id queued (suc n) db)
            (transition-Runs id is_queued (add_attempt e) (λ r. refl) _
              (λ r. (r.status ≡ queued) × (r.attempts ≡ n)) _
              λ r h. (rw (h.0) refl, (h.0, ap suc h.1)))
            λ _. record { at = λ db h. (attempts_Holds (suc n) db.reports h.present h.every, h) }))
