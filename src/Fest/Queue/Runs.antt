-- ===== src/Fest/Queue/Runs.antt =====
-- Any sequence of the calls of storage/fest_queue.ts and of a print station's (storage/fest_print.ts),
-- each one a transaction.
use Prim.Native.String.{String}
use warsaw_beer_bot.Base.{
  not, ◌==◌, Bool-cases, inl, inr, any, ℕ, Option, none, some, List, [], ◌∷◌, ◌≡◌, refl, Any,
}
use warsaw_beer_bot.Base.Decimal.{Text}
use warsaw_beer_bot.Fest.Print.{set_status, mark_printed, mark_failed, requeue}
use warsaw_beer_bot.Fest.Queue.{
  PrintJob, is_mark, insert_glass, Mark, QueueRow, QueueDb, TakeInput, unless_duplicate,
  unless_recent, take_beer, glass_at, remove_named, remove_found, remove_glass, mark_glass,
  unmark_glass,
}
use warsaw_beer_bot.Fest.Queue.Numbers.{
  Issued, issued, Given, insert_glass-Given, IsNumbered, insert_glass-IsNumbered,
}
use warsaw_beer_bot.Fest.Queue.Cancelled.{drop_glass-Given, Any-find?, drop_glass-IsNumbered}

-- A call of the store, in the order in which the transactions are committed.
pub data Call : Type 0 where
  take_call : (p : TakeInput) → (duplicate_of : QueueDb → Option ℕ) → Call
  remove_call : (beer_name : ℕ → Option String) → (team glass : ℕ) → Call
  mark_call unmark_call : (queue_id telegram_id : ℕ) → Call
  printed_call requeue_call : (team queue_id : ℕ) → Call
  failed_call : (team queue_id : ℕ) → (error : Text) → Call

unfoldable pub after : Call → QueueDb → QueueDb
after (take_call p duplicate_of) db = (take_beer p duplicate_of db).0
after (remove_call beer_name team glass) db = (remove_glass beer_name team glass db).0
after (mark_call queue_id telegram_id) db = (mark_glass queue_id telegram_id db).0
after (unmark_call queue_id telegram_id) db = (unmark_glass queue_id telegram_id db).0
after (printed_call team queue_id) db = (mark_printed team queue_id db).0
after (failed_call team queue_id error) db = (mark_failed team queue_id error db).0
after (requeue_call team queue_id) db = (requeue team queue_id db).0

unfoldable pub run : List Call → QueueDb → QueueDb
run [] db = db
run (c ∷ cs) db = run cs (after c db)

-- A call keeps the numbers apart and keeps every number that has been given.
unfoldable pub Keeps : QueueDb → QueueDb → Type 0
Keeps db db' = IsNumbered db' × ((x : Issued) → Given x db → Given x db')

Keeps-same : (db : QueueDb) → IsNumbered db → Keeps db db
unfolding Keeps
Keeps-same db h = (h, λ x k. k)

insert_glass-Keeps : (p : TakeInput) (db : QueueDb) → IsNumbered db → Keeps db (insert_glass p db).0
unfolding Keeps
insert_glass-Keeps p db h = (insert_glass-IsNumbered p db h, insert_glass-Given p db)

take_beer-Keeps :
    (p : TakeInput) (duplicate_of : QueueDb → Option ℕ) (db : QueueDb) (old : Option QueueRow)
    → IsNumbered db
    → Keeps db (unless_recent p duplicate_of db old).0
take_beer-Keeps p duplicate_of db (some r) h = Keeps-same db h
take_beer-Keeps p duplicate_of db none h = by_duplicate (duplicate_of db)
  where
    inserted : Keeps db (insert_glass p db).0
    inserted = insert_glass-Keeps p db h

    by_duplicate : (d : Option ℕ) → Keeps db (unless_duplicate p db d).0
    by_duplicate none = inserted
    by_duplicate (some n) = Keeps-same db h

remove_named-Keeps :
    (team glass : ℕ) (db : QueueDb) (row : QueueRow) (name : Option String)
    → Any (λ r. r ≡ row) db.queue
    → IsNumbered db
    → Keeps db (remove_named team glass db row name).0
unfolding Keeps
remove_named-Keeps team glass db row none k h = (h, λ x g. g)
remove_named-Keeps team glass db row (some name) k h =
    (drop_glass-IsNumbered row db k h, drop_glass-Given row db k h)

remove_found-Keeps :
    (beer_name : ℕ → Option String) (team glass : ℕ) (db : QueueDb) (row : Option QueueRow)
    → glass_at team glass db ≡ row
    → IsNumbered db
    → Keeps db (remove_found beer_name team glass db row).0
remove_found-Keeps beer_name team glass db none e h = Keeps-same db h
remove_found-Keeps beer_name team glass db (some row) e h =
    remove_named-Keeps team glass db row (beer_name row.beer_id) (Any-find? _ row db.queue e) h

-- The members' marks are in a table of their own.
marks-Keeps :
    (db : QueueDb) (marks : List Mark) → IsNumbered db → Keeps db (record db { marks = marks })
unfolding Keeps IsNumbered Given issued
marks-Keeps db marks h = (h, λ x k. k)

set_status-Keeps :
    (set : PrintJob → PrintJob) (team queue_id : ℕ) (db : QueueDb)
    → IsNumbered db
    → Keeps db (set_status set team queue_id db).0
unfolding Keeps IsNumbered Given issued
set_status-Keeps set team queue_id db h = (h, λ x k. k)

mark_glass-Keeps :
    (queue_id telegram_id : ℕ) (db : QueueDb)
    → IsNumbered db
    → Keeps db (mark_glass queue_id telegram_id db).0
unfolding mark_glass
mark_glass-Keeps queue_id telegram_id db h =
    elim (Bool-cases (any (is_mark queue_id telegram_id) db.marks)) [
      | inl e ↦ rw e (Keeps-same db h)
      | inr e ↦ elim (Bool-cases (not (any (λ r. r.id == queue_id) db.queue))) [
        | inl f ↦ rw (e, f) (Keeps-same db h)
        | inr f ↦ rw (e, f) (marks-Keeps db _ h)
      ]
    ]

after-Keeps : (c : Call) (db : QueueDb) → IsNumbered db → Keeps db (after c db)
unfolding after take_beer remove_glass unmark_glass mark_printed mark_failed requeue
after-Keeps (take_call p duplicate_of) db h = take_beer-Keeps p duplicate_of db _ h
after-Keeps (remove_call beer_name team glass) db h =
    remove_found-Keeps beer_name team glass db _ refl h
after-Keeps (mark_call queue_id telegram_id) db h = mark_glass-Keeps queue_id telegram_id db h
after-Keeps (unmark_call queue_id telegram_id) db h = marks-Keeps db _ h
after-Keeps (printed_call team queue_id) db h = set_status-Keeps _ team queue_id db h
after-Keeps (failed_call team queue_id error) db h = set_status-Keeps _ team queue_id db h
after-Keeps (requeue_call team queue_id) db h = set_status-Keeps _ team queue_id db h

-- Whatever calls the members and the stations make, in any order, provided that no two glasses of the tables at the start,
-- open or cancelled, share a row id or a number within their team, none do afterwards, and every row id
-- and number given by then is still in the tables; so none of them is ever given to another glass.
pub run-Keeps : (cs : List Call) (db : QueueDb) → IsNumbered db → Keeps db (run cs db)
unfolding run Keeps
run-Keeps [] db h = (h, λ x k. k)
run-Keeps (c ∷ cs) db h = (
  (run-Keeps cs (after c db) (after-Keeps c db h).0).0,
  λ x k. (run-Keeps cs (after c db) (after-Keeps c db h).0).1 x ((after-Keeps c db h).1 x k),
)
