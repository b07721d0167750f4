-- ===== src/Bugs/Store/Transitions.antt =====
-- What an UPDATE of one report does to that report and to the others.
use warsaw_beer_bot.Base.{
  ℕ, Bool, true, false, not, ◌&&◌, List, [], ◌∷◌, ◌==◌, ==_iff, ◌≡◌, refl, sym, ◌⊎◌, inl, inr,
  if-cases, Bool-cases, length, filter, All, All-imp, Any, arith, ◌∙◌,
}
use Prim.Native.String.{String}
use warsaw_beer_bot.Base.Exec.{Result, ◌>>=◌}
use warsaw_beer_bot.Base.Exec.Runs.{After, Runs, Keeps}
use warsaw_beer_bot.Bugs.{ReportStatus, BugReportRow}
use warsaw_beer_bot.Bugs.Errors.{Failure}
use warsaw_beer_bot.Bugs.Store.{Db, update_where, transition, named, assert_changed, update_report}

-- The report `id` is in the table, and what is there under that id satisfies `P`.
pub record Holds (id : ℕ) (P : BugReportRow → Type 0) (rows : List BugReportRow) : Type 0 where
  pub present : Any (λ r. r.id ≡ id) rows
  pub every : All (λ r. r.id ≡ id → P r) rows

-- The rows of the other reports.
pub others : ℕ → List BugReportRow → List BugReportRow
others id rows = filter (λ r. not (r.id == id)) rows

abbrev pub KeepsId : (BugReportRow → BugReportRow) → Type 0
KeepsId f = (r : BugReportRow) → (f r).id ≡ r.id

module _ (id : ℕ) (p : BugReportRow → Bool) (f : BugReportRow → BugReportRow)
    (keeps : KeepsId f) where
  Any-update_where :
      (rows : List BugReportRow)
      → Any (λ r. r.id ≡ id) rows
      → Any (λ r. r.id ≡ id) (update_where p f rows)
  unfolding update_where
  Any-update_where [] h = h
  Any-update_where (r ∷ rows) (inr h) = inr (Any-update_where rows h)
  Any-update_where (r ∷ rows) (inl h) =
      if-cases (λ (s : BugReportRow). (s.id ≡ id) ⊎ Any (λ r. r.id ≡ id) (update_where p f rows))
        (p r) _ _ (λ e. inl (rw (keeps r) h)) λ e. inl h

  All-update_where :
      (P Q : BugReportRow → Type 0) (rows : List BugReportRow)
      → ((r : BugReportRow) → r.id ≡ id → P r → (p r ≡ true) × Q (f r))
      → All (λ r. r.id ≡ id → P r) rows
      → All (λ r. r.id ≡ id → Q r) (update_where p f rows)
  unfolding update_where
  All-update_where P Q [] step h = tt
  All-update_where P Q (r ∷ rows) step h = (
    if-cases (λ (s : BugReportRow). s.id ≡ id → Q s) (p r) _ _
        (λ e k. (step r (rw (sym (keeps r)) k) (h.0 (rw (sym (keeps r)) k))).1)
        (λ e k. absurd (apart (rw e at (step r k (h.0 k)).0))),
    All-update_where P Q rows step h.1,
  )
    where
      apart : false ≡ true → ⊥
      apart k = cc

  pub others-update_where :
      (rows : List BugReportRow)
      → ((r : BugReportRow) → p r ≡ true → r.id ≡ id)
      → others id (update_where p f rows) ≡ others id rows
  unfolding update_where others
  others-update_where [] only = refl
  others-update_where (r ∷ rows) only = elim (Bool-cases (p r)) [
    | inl e ↦
        let there : (r.id == id) ≡ true = (==_iff r.id id).1 (only r e) in
        rw (e, keeps r, there, others-update_where rows only)
    | inr e ↦ rw (e, others-update_where rows only)
  ]

some-named :
    (id : ℕ) (allowed : ReportStatus → Bool) (rows : List BugReportRow)
    → Any (λ r. r.id ≡ id) rows
    → All (λ r. r.id ≡ id → allowed r.status ≡ true) rows
    → (length (filter (named id allowed) rows) == 0) ≡ false
some-named id allowed [] h k = absurd h
some-named id allowed (r ∷ rows) (inl h) k =
    let there : (r.id == id) ≡ true = (==_iff r.id id).1 h in rw (there, k.0 h) (ground arith)
some-named id allowed (r ∷ rows) (inr h) k =
    if-cases (λ (xs : List BugReportRow). (length xs == 0) ≡ false) (named id allowed r) _ _
      (λ e. ground arith) λ e. some-named id allowed rows h k.1

some_named_present :
    (id : ℕ) (allowed : ReportStatus → Bool) (P : BugReportRow → Type 0) (rows : List BugReportRow)
    → ((r : BugReportRow) → P r → allowed r.status ≡ true)
    → Holds id P rows
    → (length (filter (named id allowed) rows) == 0) ≡ false
some_named_present id allowed P rows may h =
    some-named id allowed rows h.present (All-imp (λ r k e. may r (k e)) rows h.every)

named_lem :
    (id : ℕ) (allowed : ReportStatus → Bool) (r : BugReportRow)
    → r.id ≡ id
    → allowed r.status ≡ true
    → named id allowed r ≡ true
named_lem id allowed r h k = let there : (r.id == id) ≡ true = (==_iff r.id id).1 h in rw (there, k)

named_id : (id : ℕ) (b : Bool) (r : BugReportRow) → ((r.id == id) && b) ≡ true → r.id ≡ id
named_id id b r h = ground arith

module _ (id : ℕ) (allowed : ReportStatus → Bool) (f : BugReportRow → BugReportRow)
    (keeps : KeepsId f) (to : String) where
  -- A change that the report's status allows is made, and nothing is thrown.
  pub transition-Runs :
      (P Q : BugReportRow → Type 0)
      → ((r : BugReportRow) → P r → (allowed r.status ≡ true) × Q (f r))
      → Runs
          (λ db. Holds id P db.reports)
          (transition id allowed f to)
          (λ _ db. Holds id Q db.reports)
          (λ _ _. ⊥)
  unfolding transition ◌>>=◌
  transition-Runs P Q step = record {
    at = λ db h.
        let found = some_named_present id allowed P db.reports (λ r k. (step r k).0) h in
        rw found (record {
          present = Any-update_where id (named id allowed) f keeps db.reports h.present;
          every =
              All-update_where id (named id allowed) f keeps P Q db.reports
                (λ r e k. (named_lem id allowed r e (step r k).0, (step r k).1)) h.every;
        });
  }

  After-assert_changed :
      (P : List BugReportRow → Type 0) (n : ℕ) (db : Db)
      → P db.reports
      → After
          (λ _ d. P d.reports)
          (λ _ d. P d.reports)
          (assert_changed id to n db).0
          (assert_changed id to n db).1
  unfolding ◌>>=◌
  After-assert_changed P n db h =
      if-cases
        (λ (b : Result Failure Unit × Db). After (λ _ d. P d.reports) (λ _ d. P d.reports) b.0 b.1)
        (n == 0) _ _ (λ e. h) λ e. h

  -- The other reports stay as they are.
  pub transition-others :
      (c : List BugReportRow) → Keeps (λ db. others id db.reports ≡ c) (transition id allowed f to)
  unfolding transition
  transition-others c = record {
    at = λ db h.
        After-assert_changed (λ rows. others id rows ≡ c) _ _
          (others-update_where id (named id allowed) f keeps db.reports
              (λ r e. named_id id (allowed r.status) r e)
            ∙ h);
  }

module _ (id : ℕ) (f : BugReportRow → BugReportRow) (keeps : KeepsId f) where
  -- An UPDATE by the id alone keeps what it keeps of the row.
  pub update_report-Keeps :
      (P : BugReportRow → Type 0)
      → ((r : BugReportRow) → P r → P (f r))
      → Keeps (λ db. Holds id P db.reports) (update_report id f)
  unfolding ◌>>=◌
  update_report-Keeps P step = record {
    at = λ db h. record {
      present = Any-update_where id (λ r. r.id == id) f keeps db.reports h.present;
      every =
          All-update_where id (λ r. r.id == id) f keeps P P db.reports
            (λ r e k. ((==_iff r.id id).1 e, step r k)) h.every;
    };
  }
