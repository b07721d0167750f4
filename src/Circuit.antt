-- ===== src/Circuit.antt =====
-- src/domain/untappd-circuit.ts: the circuit breakers in front of Untappd. Times are milliseconds
-- since the epoch. An operation returns the new state of the breaker, its answer and the alerts it
-- has raised; the table job_state is a function from keys to texts.
pub mod Runs
pub mod Alerts
pub mod Persistence
use warsaw_beer_bot.Base.{
  ℕ, zero, suc, ◌+◌, Bool, true, false, not, ◌&&◌, ◌||◌, Option, none, some, List, [], ◌∷◌, leb,
  ltb, if◌then◌else◌,
}

pub data CircuitState : Type 0 where
  closed «open» half_open : CircuitState

pub data Alert : Type 0 where
  trip recover : Alert

-- A number that may be below 0: the difference of its two parts.
pub record Instant : Type 0 where
  pub plus : ℕ
  pub minus : ℕ

abbrev pub instant : ℕ → Instant
instant t = record { plus = t; minus = 0 }

-- `now - openedAt >= cooldownMs`.
abbrev pub elapsed : ℕ → ℕ → Instant → Bool
elapsed cooldown now opened_at = leb (opened_at.plus + cooldown) (now + opened_at.minus)

-- The variables that the methods of a breaker share.
pub record Breaker : Type 0 where
  pub state : CircuitState
  pub opened_at : Instant
  pub consecutive_blocks : ℕ

abbrev pub new_breaker : Breaker
new_breaker = record { state = closed; opened_at = instant 0; consecutive_blocks = 0 }

-- `cooldownMs` and `blockThreshold ?? 1`.
pub record CircuitOptions : Type 0 where
  pub cooldown_ms : ℕ
  pub block_threshold : ℕ

abbrev pub is_closed : CircuitState → Bool
is_closed closed = true
is_closed _ = false

abbrev pub is_half_open : CircuitState → Bool
is_half_open half_open = true
is_half_open _ = false

abbrev pub is_open : CircuitState → Bool
is_open «open» = true
is_open _ = false

abbrev pub state_after : Bool → CircuitState → CircuitState
state_after over «open» = if over then half_open else «open»
state_after over s = s

-- The state after the `if` of `canAttempt`, and its answer.
abbrev pub probe : Bool → Breaker → Breaker × Bool
probe over b =
    let s = state_after over b.state in
    (
      record { state = s; opened_at = b.opened_at; consecutive_blocks = b.consecutive_blocks },
      not (is_open s),
    )

unfoldable pub can_attempt : CircuitOptions → ℕ → Breaker → Breaker × Bool
can_attempt o now b = probe (elapsed o.cooldown_ms now b.opened_at) b

abbrev pub trips : CircuitOptions → Breaker → Bool
trips o b = is_half_open b.state || leb o.block_threshold (suc b.consecutive_blocks)

abbrev pub when : Bool → Alert → List Alert
when b alert = if b then alert ∷ [] else []

abbrev pub after_block : Bool → ℕ → Breaker → Breaker × List Alert
after_block true now b = (
  record { state = «open»; opened_at = instant now; consecutive_blocks = suc b.consecutive_blocks },
  when (is_closed b.state) trip,
)
after_block false now b = (
  record {
    state = b.state;
    opened_at = b.opened_at;
    consecutive_blocks = suc b.consecutive_blocks;
  },
  [],
)

unfoldable pub on_result : CircuitOptions → Bool → ℕ → Breaker → Breaker × List Alert
on_result o true now b = after_block (trips o b) now b
on_result o false now b = (new_breaker, when (not (is_closed b.state)) recover)

-- `Date.parse` of a text that is not empty, with `none` for NaN, and `toISOString`.
pub record Clock (Stamp : Type 0) : Type 0 where
  pub parse : Stamp → Option ℕ
  pub is_empty : Stamp → Bool
  pub to_iso : ℕ → Stamp

module _ {Stamp : Type 0} (clock : Clock Stamp) where
  abbrev pub parse_timestamp : Option Stamp → Option ℕ
  parse_timestamp none = none
  parse_timestamp (some value) = if clock.is_empty value then none else clock.parse value

  abbrev pub later_than : ℕ → Option ℕ → Bool
  later_than now none = false
  later_than now (some open_until) = ltb now open_until

  unfoldable pub is_circuit_open : Option Stamp → ℕ → Bool
  is_circuit_open stored now = later_than now (parse_timestamp stored)

  -- The row of the breaker's key in `job_state`, and the variables.
  pub record Persistent : Type 0 where
    pub row : Option Stamp
    pub memory : Breaker

  abbrev pub with_row : Option Stamp → Breaker × Bool → Persistent × Bool
  with_row row (b, answer) = (record { row = row; memory = b }, answer)

  -- `openedAt = openUntil - cooldownMs`.
  abbrev pub reopened : CircuitOptions → CircuitState → ℕ → Breaker → Breaker
  reopened o state open_until b = record {
    state = state;
    opened_at = record { plus = open_until; minus = o.cooldown_ms };
    consecutive_blocks = b.consecutive_blocks;
  }

  -- With no readable time an empty text stays and an unreadable one is deleted.
  abbrev pub tidy : Option Stamp → Option Stamp
  tidy none = none
  tidy (some value) = if clock.is_empty value then some value else none

  abbrev pub attempt_with : CircuitOptions → ℕ → Persistent → Option ℕ → Persistent × Bool
  attempt_with o now s none = with_row (tidy s.row) (can_attempt o now s.memory)
  attempt_with o now s (some open_until) =
      if ltb now open_until
      then (record { row = s.row; memory = reopened o «open» open_until s.memory }, false)
      else (record { row = none; memory = reopened o half_open open_until s.memory }, true)

  unfoldable pub persistent_can_attempt : CircuitOptions → ℕ → Persistent → Persistent × Bool
  persistent_can_attempt o now s = attempt_with o now s (parse_timestamp s.row)

  abbrev pub with_alerts : Option Stamp → Breaker × List Alert → Persistent × List Alert
  with_alerts row (b, alerts) = (record { row = row; memory = b }, alerts)

  unfoldable pub persistent_on_result :
      CircuitOptions → Bool → ℕ → Persistent → Persistent × List Alert
  persistent_on_result o true now s =
      with_alerts (if trips o s.memory then some (clock.to_iso (now + o.cooldown_ms)) else s.row)
        (on_result o true now s.memory)
  persistent_on_result o false now s = with_alerts none (on_result o false now s.memory)
