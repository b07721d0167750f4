-- ===== src/Fest/Presence.antt =====
-- src/domain/fest/presence.ts: who is at the table, and when. Times are milliseconds since the epoch,
-- at least an hour of them. The intervals are listed with their members in the order in which they
-- are added.
pub mod Intervals
use warsaw_beer_bot.Base.{
  ℕ, ◌+◌, ◌-◌, ◌*◌, Bool, true, false, not, ◌&&◌, ◌||◌, Option, none, some, List, [], ◌∷◌, ◌++◌,
  map, leb, ltb, ◌==◌, if◌then◌else◌, filter, find?, any,
}
use warsaw_beer_bot.Base.Sort.{sort}

abbrev pub table_ms : ℕ
table_ms = 40 * 60 * 1000

abbrev pub session_lead_ms : ℕ
session_lead_ms = 60 * 60 * 1000

pub record FestSession : Type 0 where
  pub start_at : ℕ
  pub end_at : ℕ

pub data EventKind : Type 0 where
  start end : EventKind

pub data EventSource : Type 0 where
  explicit take checkin : EventSource

pub record PresenceEvent : Type 0 where
  pub telegram_id : ℕ
  pub kind : EventKind
  pub source : EventSource
  pub at : ℕ

-- An interval of a member.
pub record Interval : Type 0 where
  pub member : ℕ
  pub from : ℕ
  pub to : ℕ

abbrev pub interval : ℕ → ℕ → ℕ → Interval
interval m from to = record { member = m; from = from; to = to }

-- The intervals added, those that are open with the end of their session, and the ends that hold
-- against check-ins, as intervals from 0.
pub record Presence : Type 0 where
  pub out : List Interval
  pub opened : List Interval
  pub ended : List Interval

abbrev pub of_member : ℕ → List Interval → Option Interval
of_member m l = find? (λ i. i.member == m) l

abbrev pub without : ℕ → List Interval → List Interval
without m l = filter (λ i. not (i.member == m)) l

abbrev pub end_of : Option FestSession → Option ℕ
end_of none = none
end_of (some s) = some s.end_at

abbrev pub session_end : List FestSession → ℕ → Option ℕ
session_end sessions t =
    end_of (find? (λ s. leb s.start_at (t + session_lead_ms) && leb t s.end_at) sessions)

-- What is over at an event's time, before the event.
abbrev pub close_current : ℕ → Option Interval → Presence → Presence
close_current t none p = p
close_current t (some i) p =
    if ltb i.to t
    then record { out = p.out ++ (i ∷ []); opened = without i.member p.opened; ended = p.ended }
    else p

abbrev pub forget_end : ℕ → Option Interval → Presence → Presence
forget_end t none p = p
forget_end t (some i) p =
    if ltb i.to t
    then record { out = p.out; opened = p.opened; ended = without i.member p.ended }
    else p

abbrev pub close_still : ℕ → Option Interval → Presence → Presence
close_still t none p = p
close_still t (some i) p = record {
  out = p.out ++ (interval i.member i.from t ∷ []);
  opened = without i.member p.opened;
  ended = p.ended;
}

abbrev pub hold_end : ℕ → EventSource → Option ℕ → Presence → Presence
hold_end m explicit (some until) p = record {
  out = p.out;
  opened = p.opened;
  ended = interval m 0 until ∷ without m p.ended;
}
hold_end m _ _ p = p

abbrev pub is_checkin : EventSource → Bool
is_checkin checkin = true
is_checkin _ = false

abbrev pub is_some : Option Interval → Bool
is_some none = false
is_some (some i) = true

abbrev pub begin_at : ℕ → ℕ → Option ℕ → Presence → Presence
begin_at m t none p = record {
  out = p.out ++ (interval m t t ∷ []);
  opened = p.opened;
  ended = p.ended;
}
begin_at m t (some until) p = record {
  out = p.out;
  opened = p.opened ++ (interval m t until ∷ []);
  ended = p.ended;
}

abbrev pub take_event : List FestSession → PresenceEvent → EventKind → Presence → Presence
take_event sessions e end p =
    hold_end e.telegram_id e.source (session_end sessions e.at)
      (close_still e.at (of_member e.telegram_id p.opened) p)
take_event sessions e start p =
    if is_some (of_member e.telegram_id p.opened)
    then p
    else if is_checkin e.source && is_some (of_member e.telegram_id p.ended)
    then p
    else begin_at e.telegram_id e.at (session_end sessions e.at) p

abbrev pub settled : PresenceEvent → Presence → Presence
settled e p =
    let q = close_current e.at (of_member e.telegram_id p.opened) p in
    forget_end e.at (of_member e.telegram_id q.ended) q

unfoldable pub step_presence : List FestSession → PresenceEvent → Presence → Presence
step_presence sessions e p = take_event sessions e e.kind (settled e p)

abbrev pub is_end : EventKind → Bool
is_end start = false
is_end end = true

-- By time; at one time a start before an end.
abbrev pub before : PresenceEvent → PresenceEvent → Bool
before a b = ltb a.at b.at || ((a.at == b.at) && (not (is_end a.kind) || is_end b.kind))

unfoldable pub run_events : List FestSession → List PresenceEvent → Presence → Presence
unfolding step_presence
run_events sessions [] p = p
run_events sessions (e ∷ l) p = run_events sessions l (step_presence sessions e p)

abbrev pub no_presence : Presence
no_presence = record { out = []; opened = []; ended = [] }

unfoldable pub presence_intervals : List PresenceEvent → List FestSession → List Interval
unfolding run_events
presence_intervals events sessions =
    let p = run_events sessions (sort before events) no_presence in p.out ++ p.opened

-- Whether a member is expected on a glass.
unfoldable pub is_expected : List Interval → ℕ → ℕ → Bool
is_expected intervals added_at m =
    any (λ i. (i.member == m) && (leb i.from (added_at + table_ms) && leb added_at i.to)) intervals
