-- ===== src/Bugs/Worker/Calls.antt =====
-- What the parts of a report's processing leave alone: bug-report-worker.ts.
use warsaw_beer_bot.Base.{ℕ, Option, none, some, List, [], ◌∷◌}
use warsaw_beer_bot.Base.Decimal.{Text}
use warsaw_beer_bot.Base.Exec.{Result, ok, err, Exec, modify, ◌>>=◌}
use warsaw_beer_bot.Base.Exec.Runs.{After, Runs, Keeps, Keeps-bind, Keeps-pure, keeps_rules}
use warsaw_beer_bot.Bugs.{BugReportRow, BugReportMedia, IssueDetail, ReportOutcome, JudgeInput}
use warsaw_beer_bot.Report.{ReportSource, bot, extension}
use warsaw_beer_bot.Bugs.Errors.{Failure}
use warsaw_beer_bot.Bugs.Store.{Db}
use warsaw_beer_bot.Bugs.Worker.{
  Deps, World, set_paused, set_cache, Pause, CandidateCache, Judged, judged, rejected, call, clock,
  on_db, notify, candidates, cached_candidates, images, read_image, verdict, judge_once,
  judge_again, get_details, version_for,
}

-- What holds of the tables.
unfoldable pub InDb : {W : Type 0} → (Db → Type 0) → World W → Type 0
InDb P s = P s.db

module _ {W : Type 0} (deps : Deps W) where
  After-put_env :
      {A : Type 0} (P : Db → Type 0) (s : World W) (r : Result Failure A) (w : W)
      → P s.db
      → After (λ _ t. P t.db) (λ _ t. P t.db) r (record s { env = w })
  After-put_env P s (ok a) w h = h
  After-put_env P s (err e) w h = h

  After-put_db :
      {A : Type 0} (Q : A → Db → Type 0) (R : Failure → Db → Type 0) (s : World W)
      (r : Result Failure A) (d : Db)
      → After Q R r d
      → After (λ a t. Q a t.db) (λ e t. R e t.db) r (record s { db = d })
  After-put_db Q R s (ok a) d h = h
  After-put_db Q R s (err e) d h = h

  pub on_db-Runs :
      {A : Type 0} {P : Db → Type 0} {Q : A → Db → Type 0} {R : Failure → Db → Type 0}
      {m : Exec Db Failure A}
      → Runs P m Q R
      → Runs (InDb P) (on_db deps m) (λ a s. InDb (Q a) s) (λ e s. InDb (R e) s)
  unfolding on_db InDb
  on_db-Runs {Q} {R} {m} k = record {
    at = λ s h. let (r, d) = m s.db in After-put_db Q R s r d (k.at s.db h);
  }

  -- The clock throws nothing.
  pub clock-Runs :
      {R : Failure → World W → Type 0} (P : Db → Type 0)
      → Runs (InDb P) (clock deps) (λ _ s. InDb P s) R
  unfolding clock InDb
  clock-Runs P = record { at = λ s h. h }

  pub Keeps-clock : (P : Db → Type 0) → Keeps (InDb P) (clock deps)
  Keeps-clock P = clock-Runs P

  pub Keeps-db :
      {A : Type 0} {P : Db → Type 0} {m : Exec Db Failure A}
      → Keeps P m
      → Keeps (InDb P) (on_db deps m)
  Keeps-db k = on_db-Runs k

  -- Nothing outside touches the tables.
  module _ (P : Db → Type 0) where
    pub Keeps-call : {A : Type 0} (m : Exec W Failure A) → Keeps (InDb P) (call deps m)
    unfolding call InDb
    Keeps-call m = record { at = λ s h. let (r, w) = m s.env in After-put_env P s r w h }

    pub Keeps-notify :
        (report : BugReportRow) (outcome : ReportOutcome)
        → Keeps (InDb P) (notify deps report outcome)
    unfolding notify
    Keeps-notify report outcome = search (keeps_rules, Keeps-call)

    pub Keeps-paused :
        (p : Option Pause) → Keeps (InDb {W = W} P) (modify {E = Failure} (set_paused {W = W} p))
    unfolding ◌>>=◌ InDb set_paused
    Keeps-paused p = record { at = λ s h. h }

    pub Keeps-cache :
        (c : Option CandidateCache)
        → Keeps (InDb {W = W} P) (modify {E = Failure} (set_cache {W = W} c))
    unfolding ◌>>=◌ InDb set_cache
    Keeps-cache c = record { at = λ s h. h }

    Keeps-cached :
        (now : ℕ) (c : Option CandidateCache) → Keeps (InDb P) (cached_candidates deps now c)
    Keeps-cached now none = search (keeps_rules, Keeps-call, Keeps-cache)
    Keeps-cached now (some c) = search (keeps_rules, Keeps-call, Keeps-cache)

    pub Keeps-candidates : Keeps (InDb P) (candidates deps)
    unfolding candidates
    Keeps-candidates = search (keeps_rules, Keeps-clock, Keeps-clock, Keeps-cached)

    pub Keeps-get_details : (ns : List ℕ) → Keeps (InDb P) (get_details deps ns)
    unfolding get_details
    Keeps-get_details [] = search keeps_rules
    Keeps-get_details (n ∷ ns) =
        Keeps-bind _ _ (Keeps-call _)
          λ detail. Keeps-bind _ _ (Keeps-get_details ns) λ rest. Keeps-pure _

    pub Keeps-version_for : (source : ReportSource) → Keeps (InDb P) (version_for deps source)
    Keeps-version_for bot = search keeps_rules
    Keeps-version_for extension = search (Keeps-call)

    Keeps-read_image :
        (path : Text) (mime : Option Text) → Keeps (InDb P) (read_image deps path mime)
    Keeps-read_image path none = search keeps_rules
    Keeps-read_image path (some mime) = search (keeps_rules, Keeps-call)

    pub Keeps-images : (media : List BugReportMedia) → Keeps (InDb P) (images deps media)
    unfolding images
    Keeps-images [] = search keeps_rules
    Keeps-images (m ∷ ms) =
        Keeps-bind _ _ (Keeps-read_image _ _)
          λ image. Keeps-bind _ _ (Keeps-images ms) λ rest. Keeps-pure _

    Keeps-judge_once :
        (input : JudgeInput) (details : List IssueDetail) (source : ReportSource)
        → Keeps (InDb P) (judge_once deps input details source)
    Keeps-judge_once input details source = search (keeps_rules, Keeps-call)

    Keeps-judge_again :
        (m : Exec (World W) Failure Judged) (j : Judged)
        → Keeps (InDb P) m
        → Keeps (InDb P) (judge_again deps m j)
    Keeps-judge_again m (judged v) k = search keeps_rules
    Keeps-judge_again m (rejected e) k = k

    pub Keeps-verdict :
        (input : JudgeInput) (details : List IssueDetail) (source : ReportSource)
        → Keeps (InDb P) (verdict deps input details source)
    unfolding verdict
    Keeps-verdict input details source = search (keeps_rules, Keeps-judge_once, Keeps-judge_again)
