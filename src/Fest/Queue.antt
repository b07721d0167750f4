-- ===== src/Fest/Queue.antt =====
-- src/storage/fest_queue.ts: the glasses of a team, their print jobs, the glasses that were cancelled and
-- the members' own marks. A time is in milliseconds. Deleting a glass takes its job and its marks along.
pub mod Numbers
pub mod Cancelled
pub mod Runs
pub mod Jobs
mod Examples
use Prim.Native.String.{String}
use warsaw_beer_bot.Base.{
  ℕ, suc, ◌+◌, ◌-◌, ◌*◌, Bool, true, false, not, ◌&&◌, ◌||◌, Option, none, some, List, [], ◌∷◌,
  ◌++◌, map, leb, ltb, ◌==◌, if◌then◌else◌, find?, filter, any, max,
}
use warsaw_beer_bot.Base.Sort.{sort}
use warsaw_beer_bot.Base.Decimal.{Text}

pub record QueueRow : Type 0 where
  pub id : ℕ
  pub team_id : ℕ
  pub glass_no : ℕ
  pub beer_id : ℕ
  pub added_by : ℕ
  pub added_at : ℕ

pub data JobStatus : Type 0 where
  queued printed failed : JobStatus

pub record PrintJob : Type 0 where
  pub queue_id : ℕ
  pub status : JobStatus
  pub attempts : ℕ
  pub error : Option Text

-- A row of fest_glass_removed.
pub record Removed : Type 0 where
  pub team_id : ℕ
  pub glass_no : ℕ
  pub queue_id : ℕ

pub record Mark : Type 0 where
  pub queue_id : ℕ
  pub telegram_id : ℕ

pub record QueueDb : Type 0 where
  pub queue : List QueueRow
  pub jobs : List PrintJob
  pub removed : List Removed
  pub marks : List Mark

abbrev pub repeat_tap_ms : ℕ
repeat_tap_ms = 30 * 1000

pub data TakeResult : Type 0 where
  taken : (id glass_no : ℕ) → (repeated : Bool) → TakeResult
  duplicate : (glass_no : ℕ) → TakeResult

pub record TakeInput : Type 0 where
  pub team_id : ℕ
  pub beer_id : ℕ
  pub added_by : ℕ
  pub at : ℕ

abbrev pub greatest : List ℕ → ℕ
greatest [] = 0
greatest (x ∷ xs) = max x (greatest xs)

abbrev pub next_glass : ℕ → QueueDb → ℕ
next_glass team db = suc (
    max (greatest (map (λ r. r.glass_no) (filter (λ r. r.team_id == team) db.queue)))
      (greatest (map (λ r. r.glass_no) (filter (λ r. r.team_id == team) db.removed))))

abbrev pub next_id : QueueDb → ℕ
next_id db =
    suc (max (greatest (map (λ r. r.id) db.queue)) (greatest (map (λ r. r.queue_id) db.removed)))

abbrev same_tap : TakeInput → QueueRow → Bool
same_tap p r =
    r.team_id == p.team_id
    && r.beer_id == p.beer_id
    && r.added_by == p.added_by
    && leb (p.at - repeat_tap_ms) r.added_at
    && leb r.added_at p.at

abbrev first_of : List QueueRow → Option QueueRow
first_of [] = none
first_of (r ∷ rs) = some r

-- The newest of the taps that this one repeats.
abbrev recent : TakeInput → QueueDb → Option QueueRow
recent p db = first_of (sort (λ a b. leb b.glass_no a.glass_no) (filter (same_tap p) db.queue))

-- The numbers of cancelled glasses are counted too, so that none is given again.
abbrev pub new_row : TakeInput → QueueDb → QueueRow
new_row p db = record {
  id = next_id db;
  team_id = p.team_id;
  glass_no = next_glass p.team_id db;
  beer_id = p.beer_id;
  added_by = p.added_by;
  added_at = p.at;
}

abbrev pub new_job : QueueDb → PrintJob
new_job db = record { queue_id = next_id db; status = queued; attempts = 0; error = none }

abbrev pub insert_glass : TakeInput → QueueDb → QueueDb × TakeResult
insert_glass p db = (
  record db { queue = db.queue ++ new_row p db ∷ []; jobs = db.jobs ++ new_job db ∷ [] },
  taken (next_id db) (next_glass p.team_id db) false,
)

abbrev pub unless_duplicate : TakeInput → QueueDb → Option ℕ → QueueDb × TakeResult
unless_duplicate p db none = insert_glass p db
unless_duplicate p db (some glass_no) = (db, duplicate glass_no)

abbrev pub unless_recent :
    TakeInput → (QueueDb → Option ℕ) → QueueDb → Option QueueRow → QueueDb × TakeResult
unless_recent p duplicate_of db none = unless_duplicate p db (duplicate_of db)
unless_recent p duplicate_of db (some r) = (db, taken r.id r.glass_no true)

unfoldable pub take_beer :
    TakeInput → (duplicate_of : QueueDb → Option ℕ) → QueueDb → QueueDb × TakeResult
take_beer p duplicate_of db = unless_recent p duplicate_of db (recent p db)

unfoldable pub queue_for : QueueDb → ℕ → List QueueRow
queue_for db team =
    sort (λ a b. leb a.glass_no b.glass_no) (filter (λ r. r.team_id == team) db.queue)

pub data RemoveGlassResult : Type 0 where
  was_removed : (name : String) → (was_printed : Bool) → RemoveGlassResult
  already missing : RemoveGlassResult

abbrev is_printed : Option PrintJob → Bool
is_printed none = false
is_printed (some j) = has_printed j.status
  where
    has_printed : JobStatus → Bool
    has_printed printed = true
    has_printed _ = false

abbrev pub glass_at : ℕ → ℕ → QueueDb → Option QueueRow
glass_at team glass db = find? (λ r. r.team_id == team && r.glass_no == glass) db.queue

abbrev pub drop_glass : QueueRow → QueueDb → QueueDb
drop_glass row db = record {
  queue = filter (λ r. not (r.id == row.id)) db.queue;
  jobs = filter (λ j. not (j.queue_id == row.id)) db.jobs;
  removed =
      db.removed
      ++ record { team_id = row.team_id; glass_no = row.glass_no; queue_id = row.id } ∷ [];
  marks = filter (λ k. not (k.queue_id == row.id)) db.marks;
}

abbrev pub not_there : ℕ → ℕ → QueueDb → QueueDb × RemoveGlassResult
not_there team glass db = (
  db,
  if any (λ r. r.team_id == team && r.glass_no == glass) db.removed then already else missing,
)

-- The row joins the beer's name, so a glass of a beer that is gone is not found.
abbrev pub remove_named : ℕ → ℕ → QueueDb → QueueRow → Option String → QueueDb × RemoveGlassResult
remove_named team glass db row none = not_there team glass db
remove_named team glass db row (some name) =
    (drop_glass row db, was_removed name (is_printed (find? (λ j. j.queue_id == row.id) db.jobs)))

abbrev pub remove_found :
    (ℕ → Option String) → ℕ → ℕ → QueueDb → Option QueueRow → QueueDb × RemoveGlassResult
remove_found beer_name team glass db none = not_there team glass db
remove_found beer_name team glass db (some row) =
    remove_named team glass db row (beer_name row.beer_id)

unfoldable pub remove_glass :
    (beer_name : ℕ → Option String) → (team glass : ℕ) → QueueDb → QueueDb × RemoveGlassResult
remove_glass beer_name team glass db = remove_found beer_name team glass db (glass_at team glass db)

abbrev pub is_mark : ℕ → ℕ → Mark → Bool
is_mark queue_id telegram_id k = k.queue_id == queue_id && k.telegram_id == telegram_id

-- `INSERT OR IGNORE` gives whether a row was added. It does not ignore the foreign key: for a glass that
-- is not in the queue it throws, here `none`.
unfoldable pub mark_glass : (queue_id telegram_id : ℕ) → QueueDb → QueueDb × Option Bool
mark_glass queue_id telegram_id db =
    if any (is_mark queue_id telegram_id) db.marks
    then (db, some false)
    else if not (any (λ r. r.id == queue_id) db.queue)
    then (db, none)
    else (
      record db {
        marks = db.marks ++ record { queue_id = queue_id; telegram_id = telegram_id } ∷ [];
      },
      some true,
    )

unfoldable pub unmark_glass : (queue_id telegram_id : ℕ) → QueueDb → QueueDb × Bool
unmark_glass queue_id telegram_id db = (
  record db { marks = filter (λ k. not (is_mark queue_id telegram_id k)) db.marks },
  any (is_mark queue_id telegram_id) db.marks,
)

abbrev mark_order : Mark → Mark → Bool
mark_order a b =
    ltb a.queue_id b.queue_id || (a.queue_id == b.queue_id && leb a.telegram_id b.telegram_id)

unfoldable pub glass_marks : QueueDb → ℕ → List Mark
glass_marks db team =
    sort mark_order
      (filter (λ k. any (λ r. r.id == k.queue_id && r.team_id == team) db.queue) db.marks)
