-- ===== src/Fest/Queue/Jobs.antt =====
-- Every glass of storage/fest_queue.ts has its print job, and every job its glass.
use Prim.Native.String.{String}
use warsaw_beer_bot.Base.{
  true, false, none, some, if-cases, ℕ, Bool, not, Option, List, [], ◌∷◌, ◌++◌, map, ◌==◌, ◌≡◌,
  refl, ap, sym, ◌∙◌, inl, inr, if◌then◌else◌, Bool-cases, filter, any,
}
use warsaw_beer_bot.Fest.Print.{is_own, set_status, mark_printed, mark_failed, requeue}
use warsaw_beer_bot.Fest.Queue.{
  Mark, QueueRow, PrintJob, QueueDb, new_job, new_row, next_id, TakeInput, is_mark, insert_glass,
  unless_duplicate, unless_recent, take_beer, drop_glass, remove_named, remove_found, remove_glass,
  mark_glass, unmark_glass,
}
use warsaw_beer_bot.Fest.Queue.Numbers.{map-last}
use warsaw_beer_bot.Fest.Queue.Runs.{
  Call, take_call, remove_call, mark_call, unmark_call, printed_call, requeue_call, failed_call,
  after, run,
}

-- The jobs are those of the glasses in the queue, one for each, in the order in which they were taken.
unfoldable pub IsServed : QueueDb → Type 0
IsServed db = map (λ j. j.queue_id) db.jobs ≡ map (λ r. r.id) db.queue

-- A deletion by a number deletes that number from the list of the numbers.
map-filter :
    {A : Type 0} (f : A → ℕ) (p : ℕ → Bool) (xs : List A)
    → map f (filter (λ x. p (f x)) xs) ≡ filter p (map f xs)
map-filter f p [] = refl
map-filter f p (x ∷ xs) = elim (Bool-cases (p (f x))) [
  | inl e ↦ rw e (ap (λ l. f x ∷ l) (map-filter f p xs))
  | inr e ↦ rw e (map-filter f p xs)
]

insert_glass-IsServed :
    (p : TakeInput) (db : QueueDb) → IsServed db → IsServed (insert_glass p db).0
unfolding IsServed
insert_glass-IsServed p db h =
    map-last (λ (j : PrintJob). j.queue_id) db.jobs (new_job db)
    ∙ ap (λ l. l ++ next_id db ∷ []) h
    ∙ sym (map-last (λ (r : QueueRow). r.id) db.queue (new_row p db))

drop_glass-IsServed : (row : QueueRow) (db : QueueDb) → IsServed db → IsServed (drop_glass row db)
unfolding IsServed
drop_glass-IsServed row db h =
    map-filter (λ (j : PrintJob). j.queue_id) (λ n. not (n == row.id)) db.jobs
    ∙ ap (filter (λ n. not (n == row.id))) h
    ∙ sym (map-filter (λ (r : QueueRow). r.id) (λ n. not (n == row.id)) db.queue)

-- A change of some jobs that keeps their glasses.
module _ (own : PrintJob → Bool) (set : PrintJob → PrintJob)
    (same : (j : PrintJob) → (set j).queue_id ≡ j.queue_id) where
  map-set :
      (js : List PrintJob)
      → map (λ j. j.queue_id) (map (λ j. if own j then set j else j) js) ≡ map (λ j. j.queue_id) js
  map-set [] = refl
  map-set (j ∷ js) = elim (Bool-cases (own j)) [
    | inl e ↦ rw (e, same j) (ap (λ l. j.queue_id ∷ l) (map-set js))
    | inr e ↦ rw e (ap (λ l. j.queue_id ∷ l) (map-set js))
  ]

set_status-IsServed :
    (set : PrintJob → PrintJob)
    → ((j : PrintJob) → (set j).queue_id ≡ j.queue_id)
    → (team queue_id : ℕ) (db : QueueDb) → IsServed db
    → IsServed (set_status set team queue_id db).0
unfolding IsServed
set_status-IsServed set same team queue_id db h =
    map-set (is_own team queue_id db) set same db.jobs ∙ h

take_beer-IsServed :
    (p : TakeInput) (duplicate_of : QueueDb → Option ℕ) (db : QueueDb) (old : Option QueueRow)
    → IsServed db
    → IsServed (unless_recent p duplicate_of db old).0
take_beer-IsServed p duplicate_of db (some r) h = h
take_beer-IsServed p duplicate_of db none h = by_duplicate (duplicate_of db)
  where
    by_duplicate : (d : Option ℕ) → IsServed (unless_duplicate p db d).0
    by_duplicate none = insert_glass-IsServed p db h
    by_duplicate (some n) = h

remove_glass-IsServed :
    (beer_name : ℕ → Option String) (team glass : ℕ) (db : QueueDb) (row : Option QueueRow)
    → IsServed db
    → IsServed (remove_found beer_name team glass db row).0
remove_glass-IsServed beer_name team glass db none h = h
remove_glass-IsServed beer_name team glass db (some row) h = by_name (beer_name row.beer_id)
  where
    by_name : (name : Option String) → IsServed (remove_named team glass db row name).0
    by_name none = h
    by_name (some name) = drop_glass-IsServed row db h

marks-IsServed :
    (db : QueueDb) (marks : List Mark) → IsServed db → IsServed (record db { marks = marks })
unfolding IsServed
marks-IsServed db marks h = h

mark_glass-IsServed :
    (queue_id telegram_id : ℕ) (db : QueueDb)
    → IsServed db
    → IsServed (mark_glass queue_id telegram_id db).0
unfolding mark_glass
mark_glass-IsServed queue_id telegram_id db h =
    if-cases kept (any (is_mark queue_id telegram_id) db.marks) (db, some false) _ (λ e. h)
      λ e.
        if-cases kept (not (any (λ r. r.id == queue_id) db.queue)) (db, none)
          (record db { marks = db.marks ++ _ ∷ [] }, some true) (λ f. h) λ f. marks-IsServed db _ h
  where
    kept : QueueDb × Option Bool → Type 0
    kept x = IsServed x.0

unmark_glass-IsServed :
    (queue_id telegram_id : ℕ) (db : QueueDb)
    → IsServed db
    → IsServed (unmark_glass queue_id telegram_id db).0
unfolding unmark_glass IsServed
unmark_glass-IsServed queue_id telegram_id db h = h

after-IsServed : (c : Call) (db : QueueDb) → IsServed db → IsServed (after c db)
unfolding after take_beer remove_glass mark_printed mark_failed requeue
after-IsServed (take_call p duplicate_of) db h = take_beer-IsServed p duplicate_of db _ h
after-IsServed (remove_call beer_name team glass) db h =
    remove_glass-IsServed beer_name team glass db _ h
after-IsServed (mark_call queue_id telegram_id) db h = mark_glass-IsServed queue_id telegram_id db h
after-IsServed (unmark_call queue_id telegram_id) db h =
    unmark_glass-IsServed queue_id telegram_id db h
after-IsServed (printed_call team queue_id) db h =
    set_status-IsServed _ (λ j. refl) team queue_id db h
after-IsServed (failed_call team queue_id error) db h =
    set_status-IsServed _ (λ j. refl) team queue_id db h
after-IsServed (requeue_call team queue_id) db h =
    set_status-IsServed _ (λ j. refl) team queue_id db h

-- Whatever calls the members and the stations make, in any order, provided that the print jobs of the
-- tables at the start are those of the glasses in the queue, one for each, they are so afterwards.
pub run-IsServed : (cs : List Call) (db : QueueDb) → IsServed db → IsServed (run cs db)
unfolding run
run-IsServed [] db h = h
run-IsServed (c ∷ cs) db h = run-IsServed cs (after c db) (after-IsServed c db h)
