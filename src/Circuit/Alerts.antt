-- ===== src/Circuit/Alerts.antt =====
-- The alerts of a run of the breaker.
use warsaw_beer_bot.Base.{Bool, true, false, not, List, ◌++◌, [], ◌∷◌}
use warsaw_beer_bot.Circuit.{
  CircuitState, closed, «open», half_open, Alert, trip, recover, Breaker, CircuitOptions, elapsed,
  is_closed, when, state_after, trips, after_block, can_attempt, on_result,
}
use warsaw_beer_bot.Circuit.Runs.{Call, attempt, result, Seen, answer, alerted, step, run}

abbrev pub alerts_of : List Seen → List Alert
alerts_of [] = []
alerts_of (answer b state ∷ l) = alerts_of l
alerts_of (alerted alerts state ∷ l) = alerts ++ alerts_of l

-- The alerts alternate; the first one is `trip` after `false`, `recover` after `true`.
abbrev pub Alternate : Bool → List Alert → Type 0
Alternate tripped [] = Unit
Alternate false (trip ∷ l) = Alternate true l
Alternate true (recover ∷ l) = Alternate false l
Alternate _ _ = ⊥

step-Alternate :
    (o : CircuitOptions) (c : Call) (b : Breaker) (l : List Seen)
    → Alternate (not (is_closed (step o c b).0.state)) (alerts_of l)
    → Alternate (not (is_closed b.state)) (alerts_of ((step o c b).1 ∷ l))
unfolding step can_attempt on_result
step-Alternate o (attempt now) b l h = by_state (elapsed o.cooldown_ms now b.opened_at) b.state h
  where
    by_state :
        (over : Bool) (s : CircuitState)
        → Alternate (not (is_closed (state_after over s))) (alerts_of l)
        → Alternate (not (is_closed s)) (alerts_of l)
    by_state over closed h = h
    by_state over half_open h = h
    by_state true «open» h = h
    by_state false «open» h = h
step-Alternate o (result true now) b l h = by_trip (trips o b) b h
  where
    by_closed :
        (s : CircuitState)
        → Alternate true (alerts_of l)
        → Alternate (not (is_closed s)) (when (is_closed s) trip ++ alerts_of l)
    by_closed closed h = h
    by_closed «open» h = h
    by_closed half_open h = h

    by_trip :
        (tripping : Bool) (b : Breaker)
        → Alternate (not (is_closed (after_block tripping now b).0.state)) (alerts_of l)
        → Alternate (not (is_closed b.state)) ((after_block tripping now b).1 ++ alerts_of l)
    by_trip true b h = by_closed b.state h
    by_trip false b h = h
step-Alternate o (result false now) b l h = by_state b.state h
  where
    by_state :
        (s : CircuitState)
        → Alternate false (alerts_of l)
        → Alternate (not (is_closed s)) (when (not (is_closed s)) recover ++ alerts_of l)
    by_state closed h = h
    by_state «open» h = h
    by_state half_open h = h

-- In any run the alerts alternate: from a closed state with a trip first, from another one with a
-- recovery without one, and no trip before the recovery.
pub run-Alternate :
    (o : CircuitOptions) (calls : List Call) (b : Breaker)
    → Alternate (not (is_closed b.state)) (alerts_of (run (step o) calls b).1)
unfolding run
run-Alternate o [] b = tt
run-Alternate o (c ∷ calls) b = step-Alternate o c b _ (run-Alternate o calls (step o c b).0)
