-- ===== src/Circuit/Persistence.antt =====
-- The persistent breaker against the one in memory.
use warsaw_beer_bot.Base.{
  ℕ, suc, ◌+◌, ◌≡◌, refl, sym, ap, ◌∙◌, Bool, true, false, not, none, some, List, [], ◌∷◌, leb, ltb,
  Bool-cases, inl, inr, arith,
}
use warsaw_beer_bot.Circuit.{
  CircuitState, closed, «open», half_open, Breaker, new_breaker, CircuitOptions, Instant, instant,
  can_attempt, on_result, trip, Clock, is_circuit_open, Persistent, persistent_can_attempt,
  persistent_on_result,
}
use warsaw_beer_bot.Circuit.Runs.{
  Call, attempt, result, Seen, answer, alerted, step, persistent_step, run,
}

-- A stored time reads back, and its text is not empty.
abbrev pub ReadsBack : {Stamp : Type 0} → Clock Stamp → Type 0
ReadsBack clock =
    (t : ℕ) → (clock.is_empty (clock.to_iso t) ≡ false) × (clock.parse (clock.to_iso t) ≡ some t)

-- The states that correspond: open since a time, with the end of the cooldown in the row, or not
-- «open», with no row.
data Pair : Type 0 where
  opened : Instant → ℕ → ℕ → Pair
  probing at_rest : Instant → Instant → ℕ → Pair

abbrev breaker : CircuitState → Instant → ℕ → Breaker
breaker state t n = record { state = state; opened_at = t; consecutive_blocks = n }

abbrev in_memory : Pair → Breaker
in_memory (opened u n t) = breaker «open» (instant t) n
in_memory (probing u v n) = breaker half_open v n
in_memory (at_rest u v n) = breaker closed v n

module _ {Stamp : Type 0} (clock : Clock Stamp) (o : CircuitOptions) where
  abbrev persisted : Pair → Persistent clock
  persisted (opened u n t) = record {
    row = some (clock.to_iso (t + o.cooldown_ms));
    memory = breaker «open» u n;
  }
  persisted (probing u v n) = record { row = none; memory = breaker half_open u n }
  persisted (at_rest u v n) = record { row = none; memory = breaker closed u n }

  abbrev Goes : Call → Pair → Type 0
  Goes c k =
      (k1 : Pair) × (seen : Seen) × (persistent_step clock o c (persisted k) ≡ (persisted k1, seen))
      × (step o c (in_memory k) ≡ (in_memory k1, seen))

  attempt-Goes : (now : ℕ) (k : Pair) → ReadsBack clock → Goes (attempt now) k
  unfolding step persistent_step can_attempt persistent_can_attempt
  attempt-Goes now (probing u v n) h = (probing u v n, answer true half_open, refl, refl)
  attempt-Goes now (at_rest u v n) h = (at_rest u v n, answer true closed, refl, refl)
  attempt-Goes now (opened u n t) h = elim (Bool-cases (ltb now (t + o.cooldown_ms))) [
    | inl e ↦ (
      opened record { plus = t + o.cooldown_ms; minus = o.cooldown_ms } n t,
      answer false «open»,
      rw ((h (t + o.cooldown_ms)).0, (h (t + o.cooldown_ms)).1, e) refl,
      rw (not_over e) refl,
    )
    | inr e ↦ (
      probing record { plus = t + o.cooldown_ms; minus = o.cooldown_ms } (instant t) n,
      answer true half_open,
      rw ((h (t + o.cooldown_ms)).0, (h (t + o.cooldown_ms)).1, e) refl,
      rw (over e) refl,
    )
  ]
    where
      not_over : ltb now (t + o.cooldown_ms) ≡ true → leb (t + o.cooldown_ms) (now + 0) ≡ false
      not_over e = ground arith

      over : ltb now (t + o.cooldown_ms) ≡ false → leb (t + o.cooldown_ms) (now + 0) ≡ true
      over e = ground arith

  result-Goes : (blocked : Bool) (now : ℕ) (k : Pair) → Goes (result blocked now) k
  unfolding step persistent_step on_result persistent_on_result
  result-Goes false now (opened u n t) = (at_rest (instant 0) (instant 0) 0, _, refl, refl)
  result-Goes false now (probing u v n) = (at_rest (instant 0) (instant 0) 0, _, refl, refl)
  result-Goes false now (at_rest u v n) = (at_rest (instant 0) (instant 0) 0, _, refl, refl)
  result-Goes true now (probing u v n) = (opened (instant now) (suc n) now, _, refl, refl)
  result-Goes true now (opened u n t) = elim (Bool-cases (leb o.block_threshold (suc n))) [
    | inl e ↦ (opened (instant now) (suc n) now, alerted [] «open», rw e refl, rw e refl)
    | inr e ↦ (opened u (suc n) t, alerted [] «open», rw e refl, rw e refl)
  ]
  result-Goes true now (at_rest u v n) = elim (Bool-cases (leb o.block_threshold (suc n))) [
    | inl e ↦ (opened (instant now) (suc n) now, alerted (trip ∷ []) «open», rw e refl, rw e refl)
    | inr e ↦ (at_rest u v (suc n), alerted [] closed, rw e refl, rw e refl)
  ]

  call-Goes : (c : Call) (k : Pair) → ReadsBack clock → Goes c k
  call-Goes (attempt now) k h = attempt-Goes now k h
  call-Goes (result blocked now) k h = result-Goes blocked now k

  pair_run :
      (calls : List Call) (k : Pair)
      → ReadsBack clock
      → (k1 : Pair) × (seen : List Seen) × (run (persistent_step clock o) calls (persisted k)
          ≡ (persisted k1, seen))
        × (run (step o) calls (in_memory k) ≡ (in_memory k1, seen))
  unfolding run
  pair_run [] k h = (k, [], refl, refl)
  pair_run (c ∷ calls) k h =
      let (k1, seen, e, f) = call-Goes c k h in
      let (k2, rest, g, i) = pair_run calls k1 h in
      (k2, seen ∷ rest, rw (e, g) refl, rw (f, i) refl)

  -- With no row at the start, the persistent breaker and the one in memory show the same answers,
  -- alerts and states on every sequence of calls, whatever the times of the calls. The hypothesis is
  -- on the clock: a stored time reads back.
  pub persistent_run :
      (calls : List Call)
      → ReadsBack clock
      → (run (persistent_step clock o) calls record { row = none; memory = new_breaker }).1
        ≡ (run (step o) calls new_breaker).1
  persistent_run calls h =
      let (k1, seen, e, f) = pair_run calls (at_rest (instant 0) (instant 0) 0) h in
      ap (λ r. r.1) e ∙ sym (ap (λ r. r.1) f)

  restart-pair :
      (now : ℕ) (k : Pair)
      → ReadsBack clock
      → (persistent_can_attempt clock o now
          record { row = (persisted k).row; memory = new_breaker }).1
        ≡ (persistent_can_attempt clock o now (persisted k)).1
  unfolding persistent_can_attempt can_attempt
  restart-pair now (probing u v n) h = refl
  restart-pair now (at_rest u v n) h = refl
  restart-pair now (opened u n t) h =
      rw ((h (t + o.cooldown_ms)).0, (h (t + o.cooldown_ms)).1)
        (elim (Bool-cases (ltb now (t + o.cooldown_ms))) [ inl e ↦ rw e refl | inr e ↦ rw e refl ])

  read_only-pair :
      (now : ℕ) (k : Pair)
      → ReadsBack clock
      → is_circuit_open clock (persisted k).row now
        ≡ not (persistent_can_attempt clock o now (persisted k)).1
  unfolding persistent_can_attempt can_attempt is_circuit_open
  read_only-pair now (probing u v n) h = refl
  read_only-pair now (at_rest u v n) h = refl
  read_only-pair now (opened u n t) h =
      rw ((h (t + o.cooldown_ms)).0, (h (t + o.cooldown_ms)).1)
        (elim (Bool-cases (ltb now (t + o.cooldown_ms))) [ inl e ↦ rw e refl | inr e ↦ rw e refl ])

  -- After any run from an empty row: a process that starts anew with the row that was left answers
  -- the next attempt as the process that goes on would, and the read-only check says open exactly
  -- when that attempt is refused. The hypothesis is on the clock: a stored time reads back.
  pub restart-same_answer :
      (calls : List Call) (now : ℕ)
      → ReadsBack clock
      → let s =
          (run (persistent_step clock o) calls record { row = none; memory = new_breaker }).0 in
        ((persistent_can_attempt clock o now record { row = s.row; memory = new_breaker }).1
          ≡ (persistent_can_attempt clock o now s).1)
        × (is_circuit_open clock s.row now ≡ not (persistent_can_attempt clock o now s).1)
  restart-same_answer calls now h =
      let (k1, seen, e, f) = pair_run calls (at_rest (instant 0) (instant 0) 0) h in
      let ends = ap (λ r. r.0) e in rw ends (restart-pair now k1 h, read_only-pair now k1 h)
