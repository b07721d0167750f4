-- ===== src/Fest/Closure.antt =====
-- src/domain/fest/closure.ts: which glasses of the queue a member has closed. Times are milliseconds
-- since the epoch; ids are only compared, and stand as numbers.
pub mod Judging
pub mod Glasses
use warsaw_beer_bot.Base.{
  ℕ, ◌+◌, ◌*◌, Bool, true, false, not, ◌&&◌, ◌||◌, Option, none, some, List, [], ◌∷◌, map, leb, ltb,
  ◌==◌, if◌then◌else◌, filter, find?, any,
}
use warsaw_beer_bot.Base.Sort.{sort}

abbrev pub close_slack_ms : ℕ
close_slack_ms = 10 * 60 * 1000

pub record ClosureItem : Type 0 where
  pub id : ℕ
  pub beer_id : ℕ
  pub added_at : ℕ
  pub expected : List ℕ
  pub marked : List ℕ

pub record ClosureCheckin : Type 0 where
  pub telegram_id : ℕ
  pub beer_id : ℕ
  pub checkin_id : ℕ
  pub checkin_at : ℕ

-- How a glass is closed for a member; `not_yet` is the null of the source.
pub data Closure : Type 0 where
  by_checkin : ℕ → Closure
  by_mark not_yet : Closure

abbrev pub includes : ℕ → List ℕ → Bool
includes x l = any (λ y. y == x) l

-- In the order of the queue: by time, then by id.
abbrev pub queued_before : ClosureItem → ClosureItem → Bool
queued_before a b = ltb a.added_at b.added_at || ((a.added_at == b.added_at) && leb a.id b.id)

abbrev pub suits : List ℕ → ClosureItem → ClosureCheckin → Bool
suits used item c =
    not (includes c.checkin_id used)
    && ((c.beer_id == item.beer_id) && leb item.added_at (c.checkin_at + close_slack_ms))

abbrev pub of_hit : Option ClosureCheckin → Closure
of_hit none = not_yet
of_hit (some c) = by_checkin c.checkin_id

-- What a glass gets; `none` for one that does not wait for the member.
unfoldable pub closure_of : ℕ → List ClosureCheckin → List ℕ → ClosureItem → Option Closure
closure_of m own used item =
    if not (includes m item.expected)
    then none
    else if includes m item.marked
    then some by_mark
    else some (of_hit (find? (suits used item) own))

abbrev pub used_after : Option Closure → List ℕ → List ℕ
used_after (some (by_checkin id)) used = id ∷ used
used_after _ used = used

abbrev pub entry : ClosureItem → Option Closure → List (ℕ × Closure) → List (ℕ × Closure)
entry item none l = l
entry item (some c) l = (item.id, c) ∷ l

-- The entries of a member, in the order of the queue.
unfoldable pub close_items :
    ℕ → List ClosureCheckin → List ℕ → List ClosureItem → List (ℕ × Closure)
unfolding closure_of
close_items m own used [] = []
close_items m own used (item ∷ l) =
    let closed = closure_of m own used item in
    entry item closed (close_items m own (used_after closed used) l)

abbrev pub own_checkins : ℕ → List ClosureCheckin → List ClosureCheckin
own_checkins m checkins =
    sort (λ a b. leb a.checkin_at b.checkin_at) (filter (λ c. c.telegram_id == m) checkins)

unfoldable pub close_member : List ClosureItem → List ClosureCheckin → ℕ → List (ℕ × Closure)
unfolding close_items
close_member items checkins m =
    close_items m (own_checkins m checkins) [] (sort queued_before items)

-- For each member the entries that are set for them, by the id of the glass.
unfoldable pub close_queue :
    List ClosureItem → List ℕ → List ClosureCheckin → List (ℕ × List (ℕ × Closure))
unfolding close_member
close_queue items member_ids checkins = map (λ m. (m, close_member items checkins m)) member_ids
