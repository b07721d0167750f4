-- ===== src/Fest/Queue/Examples.antt =====
-- The glasses of a team at concrete inputs.
use warsaw_beer_bot.Base.{
  ◌++◌, map, Option, ℕ, true, false, none, some, List, [], ◌∷◌, map, ◌≡◌, refl, ◌==◌, if◌then◌else◌,
}
use Prim.Native.String.{String}
use warsaw_beer_bot.Base.Sort.{sort}
use warsaw_beer_bot.Fest.Queue.{
  QueueDb, TakeInput, taken, duplicate, was_removed, already, missing, take_beer, remove_glass,
  queue_for, mark_glass, glass_marks,
}
use warsaw_beer_bot.Fest.Queue.Numbers.{issued, IsNumbered}
use warsaw_beer_bot.Fest.Print.{
  Station, pending_jobs, mark_failed, mark_printed, station_team, create_station,
}
use warsaw_beer_bot.Fest.Queue.Jobs.{IsServed, run-IsServed}
use warsaw_beer_bot.Fest.Queue.Runs.{
  failed_call, printed_call, Call, take_call, remove_call, mark_call, after, run, Keeps, run-Keeps,
}

abbrev empty : QueueDb
empty = record { queue = []; jobs = []; removed = []; marks = [] }

abbrev tap : ℕ → ℕ → TakeInput
tap beer at = record { team_id = 1; beer_id = beer; added_by = 7; at = at }

abbrev by_name : ℕ → Option String
by_name beer = if beer == 9 then none else some "Pils"

-- The second glass is cancelled, and its number is not given to the third.
abbrev calls : List Call
calls =
    take_call (tap 4 100000) (λ db. none)
    ∷ take_call (tap 5 101000) (λ db. none)
    ∷ remove_call by_name 1 2
    ∷ mark_call 1 7
    ∷ take_call (tap 6 102000) (λ db. none)
    ∷ []

third_glass :
    map {B = ℕ × ℕ × ℕ} (λ r. (r.id, r.glass_no, r.beer_id)) (queue_for (run calls empty) 1)
    ≡ (1, 1, 4) ∷ (3, 3, 6) ∷ []
unfolding queue_for run after take_beer remove_glass mark_glass sort
third_glass = refl

repeated_tap : (take_beer (tap 4 130000) (λ db. none) (run calls empty)).1 ≡ taken 1 1 true
unfolding run after take_beer remove_glass mark_glass sort
repeated_tap = refl

later_tap : (take_beer (tap 4 130001) (λ db. some 1) (run calls empty)).1 ≡ duplicate 1
unfolding run after take_beer remove_glass mark_glass sort
later_tap = refl

removed_twice : (remove_glass by_name 1 2 (run calls empty)).1 ≡ already
unfolding run after take_beer remove_glass mark_glass sort
removed_twice = refl

never_there : (remove_glass by_name 1 8 (run calls empty)).1 ≡ missing
unfolding run after take_beer remove_glass mark_glass sort
never_there = refl

not_printed : (remove_glass by_name 1 3 (run calls empty)).1 ≡ was_removed "Pils" false
unfolding run after take_beer remove_glass mark_glass sort
not_printed = refl

one_mark :
    map {B = ℕ × ℕ} (λ k. (k.queue_id, k.telegram_id)) (glass_marks (run calls empty) 1)
    ≡ (1, 7) ∷ []
unfolding run after take_beer remove_glass mark_glass sort glass_marks
one_mark = refl

-- A label that fails is offered to the station again, to the team's own station only.
after_failure :
    map {B = ℕ × ℕ × ℕ}
      (λ l. (l.id, l.glass_no, l.attempts))
      (pending_jobs
        (λ beer. some ("Pils", "Brew"))
        (λ team user. none)
        (run (calls ++ failed_call 1 3 (1 ∷ []) ∷ printed_call 1 1 ∷ printed_call 2 3 ∷ []) empty)
        1)
    ≡ (3, 3, 1) ∷ []
unfolding run after take_beer remove_glass mark_glass sort mark_failed mark_printed pending_jobs
after_failure = refl

unknown_glass : (mark_glass 2 7 (run calls empty)).1 ≡ none
unfolding run after take_beer remove_glass mark_glass sort
unknown_glass = refl

second_mark : (mark_glass 1 7 (run calls empty)).1 ≡ some false
unfolding run after take_beer remove_glass mark_glass sort
second_mark = refl

empty-IsServed : IsServed empty
unfolding IsServed
empty-IsServed = refl

run-IsServed_example : IsServed (run calls empty)
run-IsServed_example = run-IsServed calls empty empty-IsServed

empty-IsNumbered : IsNumbered empty
unfolding IsNumbered issued
empty-IsNumbered = tt

run-Keeps_example : Keeps empty (run calls empty)
run-Keeps_example = run-Keeps calls empty empty-IsNumbered

-- A token opens its team until it expires.
abbrev stations : List Station
stations =
    create_station (λ t. t) "key"
      (record { team_id = 1; created_by = 7; now = 10; expires_at = 20 }) []

live_token : station_team (λ t. t) stations "key" 19 ≡ some 1
unfolding station_team create_station
live_token = refl

expired_token : station_team (λ t. t) stations "key" 20 ≡ none
unfolding station_team create_station
expired_token = refl
