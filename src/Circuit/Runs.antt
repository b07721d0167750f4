-- ===== src/Circuit/Runs.antt =====
-- Runs of a circuit breaker: the calls of its methods, in order.
use warsaw_beer_bot.Base.{ℕ, Bool, List, [], ◌∷◌}
use warsaw_beer_bot.Circuit.{
  CircuitState, Alert, Breaker, CircuitOptions, can_attempt, on_result, Clock, Persistent,
  persistent_can_attempt, persistent_on_result,
}

pub data Call : Type 0 where
  attempt : ℕ → Call
  result : Bool → ℕ → Call

-- What a call shows to the outside: an answer, or alerts; and the property `state` after it.
pub data Seen : Type 0 where
  answer : Bool → CircuitState → Seen
  alerted : List Alert → CircuitState → Seen

abbrev pub seen_answer : {S : Type 0} → (S → CircuitState) → S × Bool → S × Seen
seen_answer state (s, b) = (s, answer b (state s))

abbrev pub seen_alerts : {S : Type 0} → (S → CircuitState) → S × List Alert → S × Seen
seen_alerts state (s, alerts) = (s, alerted alerts (state s))

unfoldable pub step : CircuitOptions → Call → Breaker → Breaker × Seen
step o (attempt now) b = seen_answer (λ c. c.state) (can_attempt o now b)
step o (result blocked now) b = seen_alerts (λ c. c.state) (on_result o blocked now b)

unfoldable pub persistent_step :
    {Stamp : Type 0}
    → (clock : Clock Stamp) → CircuitOptions
    → Call
    → Persistent clock
    → Persistent clock × Seen
persistent_step clock o (attempt now) s =
    seen_answer (λ c. c.memory.state) (persistent_can_attempt clock o now s)
persistent_step clock o (result blocked now) s =
    seen_alerts (λ c. c.memory.state) (persistent_on_result clock o blocked now s)

unfoldable pub run : {S : Type 0} → (Call → S → S × Seen) → List Call → S → S × List Seen
run f [] s = (s, [])
run f (c ∷ calls) s = let r = f c s in let rest = run f calls r.0 in (rest.0, r.1 ∷ rest.1)
