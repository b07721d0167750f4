-- ===== src/Retry.antt =====
-- src/storage/busy-retry.ts: an operation that is tried again while SQLite is busy.
pub mod Attempts
use warsaw_beer_bot.Base.{ℕ, zero, suc, ◌*◌, ◌^◌, Bool, Option, none, some, ltb, if◌then◌else◌}

-- What a call of `fn` comes to; `busy` is an error that `isBusyError` accepts.
pub data Tried (A E : Type 0) : Type 0 where
  returned : A → Tried A E
  busy failed : E → Tried A E

-- The result; `threw none` is the throw of `undefined`, with no attempts.
pub data Outcome (A E : Type 0) : Type 0 where
  gave : A → Outcome A E
  threw : Option E → Outcome A E

module _ {W A E : Type 0} (fn : W → W × Tried A E) (sleep : ℕ → W → W) (base_delay_ms : ℕ) where
  abbrev pub pause : ℕ → ℕ → W → W
  pause zero i w = w
  pause (suc left) i w = sleep (base_delay_ms * 2 ^ i) w

  abbrev pub after_try :
      (ℕ → Option E → W → W × Outcome A E) → ℕ → ℕ → W × Tried A E → W × Outcome A E
  after_try next left i (w, returned a) = (w, gave a)
  after_try next left i (w, failed e) = (w, threw (some e))
  after_try next left i (w, busy e) = next (suc i) (some e) (pause left i w)

  -- The loop, on the attempts that are left; `i` have been made.
  unfoldable pub retry_from : ℕ → ℕ → Option E → W → W × Outcome A E
  retry_from zero i last w = (w, threw last)
  retry_from (suc left) i last w = after_try (λ j e w1. retry_from left j e w1) left i (fn w)

  unfoldable pub with_busy_retry : ℕ → W → W × Outcome A E
  unfolding retry_from
  with_busy_retry attempts w = retry_from attempts 0 none w
