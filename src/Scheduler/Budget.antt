-- ===== src/Scheduler/Budget.antt =====
-- How many requests the silent synchronisation makes on one local date.
use warsaw_beer_bot.Base.{
  ℕ, ◌+◌, ◌-◌, ◌*◌, ◌≤◌, ◌≡◌, refl, Bool, false, not, ◌&&◌, ◌||◌, Option, none, some, List, [], ◌∷◌,
  leb, ◌==◌, ==_refl, if-cases, if◌then◌else◌, Bool-cases, inl, inr, arith,
}
use warsaw_beer_bot.Sync.Walk.{SyncOutcome}
use warsaw_beer_bot.Scheduler.{
  SyncIntent, Store, silent_budget, max_checks_per_day, is_manual, reserve, before_fetch,
  write_intent, remove_intent, start_manual, stop_sync, check, CheckResult, count_of, has_intent,
  is_paused, end_with, end_step, settle, resume_with, resume, is_capped_or_gap, is_other, spent,
  intent_max_age_ms,
}

-- The calls of a local date: a request that a step asks for, a press, a stop, an automatic check, the
-- end of a step, a start of the worker.
pub data Action : Type 0 where
  fetch : Action
  press : (new_id now : ℕ) → Action
  halt : Bool → Action
  auto_check : (permission token loops : Bool) → (new_id now : ℕ) → Action
  end : SyncOutcome → SyncIntent → Bool → ℕ → Bool → Action
  wake : (loops permission token : Bool) → ℕ → Action

abbrev is_silent : Option SyncIntent → Bool
is_silent none = false
is_silent (some i) = not (is_manual i.kind)

-- The store after a call, and the silent requests that it lets out: one or none.
unfoldable pub act : ℕ → Action → Store → Store × ℕ
act today fetch s = let r = before_fetch s in (r.0, if r.1 && is_silent s.intent then 1 else 0)
act today (press new_id now) s = (start_manual new_id now s, 0)
act today (halt loops) s = ((stop_sync loops s).0, 0)
act today (auto_check permission token loops new_id now) s =
    ((check permission token loops new_id now today s).0, 0)
act today (end o i aborted midnight stored) s = (end_step o i aborted midnight stored s, 0)
act today (wake loops permission token now) s = ((resume loops permission token now s).0, 0)

unfoldable pub silent_requests : ℕ → List Action → Store → ℕ
unfolding act
silent_requests today [] s = 0
silent_requests today (a ∷ l) s = let r = act today a s in r.1 + silent_requests today l r.0

-- What is left of a silent intent's budget, and with it of the day's.
abbrev pub left : Option SyncIntent → ℕ
left none = 0
left (some i) = if is_manual i.kind then 0 else silent_budget - i.silent_pages_used

abbrev pub day_left : ℕ → Store → ℕ
day_left today s = left s.intent + silent_budget * (max_checks_per_day - count_of today s.checks)

module _ (today : ℕ) where
  abbrev Pays : ℕ → Store → Store → Type 0
  Pays n before after = n + day_left today after ≤ day_left today before

  stays : (s : Store) → Pays 0 s s
  stays s = ground arith

  fetch-Pays : (s : Store) → Pays (act today fetch s).1 s (act today fetch s).0
  unfolding act before_fetch write_intent
  fetch-Pays s = by_intent s.intent refl
    where
      paid :
          (i : SyncIntent)
          → s.intent ≡ some i
          → is_manual i.kind ≡ false
          → leb silent_budget i.silent_pages_used ≡ false
          → Pays 1 s (write_intent (spent i) s)
      paid i e f g = rw (e, f) (ground arith)

      by_intent :
          (i : Option SyncIntent)
          → s.intent ≡ i
          → Pays (if (reserve i s).1 && is_silent i then 1 else 0) s (reserve i s).0
      by_intent none e = stays s
      by_intent (some i) e = elim (Bool-cases (is_manual i.kind)) [
        | inl f ↦ rw f (stays s)
        | inr f ↦ rw f (elim (Bool-cases (leb silent_budget i.silent_pages_used)) [
          | inl g ↦ rw g (stays s)
          | inr g ↦ rw g (paid i e f g)
        ])
      ]

  check-Pays :
      (permission token loops : Bool) (new_id now : ℕ) (s : Store)
      → Pays 0 s (check permission token loops new_id now today s).0
  unfolding check write_intent
  check-Pays permission token loops new_id now s =
      if-cases P (not permission) _ _ (λ _. stays s)
        λ _.
          if-cases P (not token) _ _ (λ _. stays s)
            λ _.
              if-cases P (loops || has_intent s.intent) _ _ (λ _. stays s)
                λ idle.
                  if-cases P (is_paused now s.pause) _ _ (λ _. stays s)
                    λ _.
                      if-cases P (leb max_checks_per_day (count_of today s.checks)) _ _
                        (λ _. stays s) λ few. rw (==_refl today) (ground arith)
    where
      P : Store × CheckResult → Type 0
      P r = Pays 0 s r.0

  end-Pays :
      (o : SyncOutcome) (i : SyncIntent) (aborted : Bool) (midnight : ℕ) (stored : Bool) (s : Store)
      → Pays 0 s (end_step o i aborted midnight stored s)
  unfolding end_step settle remove_intent
  end-Pays o i aborted midnight stored s = by_after s.intent
    where
      by_after :
          (after : Option SyncIntent) → Pays 0 s (end_with o i aborted midnight stored s after)
      by_after none = ground arith
      by_after (some j) =
          if-cases (Pays 0 s) (aborted && not (j.id == i.id)) _ _ (λ _. ground arith)
            λ _.
              if-cases (Pays 0 s) (is_capped_or_gap o.status && is_manual j.kind) _ _ (λ _. stays s)
                λ _.
                  if-cases (Pays 0 s) (is_other j.id s.intent) _ _ (λ _. stays s) λ _. ground arith

  wake-Pays :
      (loops permission token : Bool) (now : ℕ) (s : Store)
      → Pays 0 s (resume loops permission token now s).0
  unfolding resume remove_intent
  wake-Pays loops permission token now s =
      if-cases P loops _ _ (λ _. stays s) λ _. by_intent s.intent
    where
      P : Store × Bool → Type 0
      P r = Pays 0 s r.0

      by_intent : (i : Option SyncIntent) → Pays 0 s (resume_with permission token now s i).0
      by_intent none = ground arith
      by_intent (some i) =
          if-cases P (leb (i.started_at + intent_max_age_ms) now) _ _ (λ _. ground arith)
            λ _. if-cases P (not token || not permission) _ _ (λ _. ground arith) λ _. ground arith

  act-Pays : (a : Action) (s : Store) → Pays (act today a s).1 s (act today a s).0
  unfolding act start_manual write_intent stop_sync remove_intent
  act-Pays fetch s = fetch-Pays s
  act-Pays (press new_id now) s = ground arith
  act-Pays (halt loops) s = ground arith
  act-Pays (auto_check permission token loops new_id now) s =
      check-Pays permission token loops new_id now s
  act-Pays (end o i aborted midnight stored) s = end-Pays o i aborted midnight stored s
  act-Pays (wake loops permission token now) s = wake-Pays loops permission token now s

  -- Whatever is called on a local date, in whatever order, with restarts of the worker between: the
  -- silent requests are at most what is left of the intent's budget of ten and of the day's four
  -- checks, with ten requests for each. With no intent and no check yet, these are 40.
  pub silent_requests-le :
      (l : List Action) (s : Store) → silent_requests today l s ≤ day_left today s
  unfolding silent_requests
  silent_requests-le [] s = ground arith
  silent_requests-le (a ∷ l) s =
      ground (arith, act-Pays a s, silent_requests-le l (act today a s).0)
