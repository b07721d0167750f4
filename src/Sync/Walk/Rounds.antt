-- ===== src/Sync/Walk/Rounds.antt =====
-- What one round of the walk asks for, and where its answer comes from.
use Prim.Native.String.{String}
use warsaw_beer_bot.Base.{ℕ, ◌≡◌, refl, ap, ◌∙◌, ◌⊎◌, inl, inr, Bool, Option, ◌∷◌}
use warsaw_beer_bot.Base.Decimal.{Text}
use warsaw_beer_bot.Sync.Walk.{
  Deps, Answer, returned, threw, PageAnswer, Phase, stop, go, M, page_round, ◌>>=◌, not_aborted,
  call, ask, continue, answered, allowance, unless_capped, check_session, fetch_status,
  submit_status,
}
use warsaw_beer_bot.Sync.Walk.Requests.{Log, logged}

module _ {W Html : Type 0} (deps : Deps W Html) (c : Option Text) (revision : ℕ) (log : Log) where
  -- A round asks for its page at most once; with an answer it has asked, and the answer is that of
  -- the submitted page.
  abbrev pub RoundOf : W × Log → Phase PageAnswer → Type 0
  RoundOf s (stop status) = (s.1 ≡ log) ⊎ (s.1 ≡ c ∷ log)
  RoundOf s (go a) =
      (s.1 ≡ c ∷ log)
      × ((html : Html) × (w : W) × ((deps.submit_page html c revision w).1 ≡ returned a))

  abbrev pub Round : (W × Log) × Phase PageAnswer → Type 0
  Round r = RoundOf r.0 r.1

  -- After a part that leaves the log alone.
  bind_keep :
      {A : Type 0} (current : Log) (m : M (logged deps) A) (f : A → M (logged deps) PageAnswer)
      → (current ≡ log) ⊎ (current ≡ c ∷ log)
      → ((s : W × Log) → (m s).0.1 ≡ s.1)
      → ((a : A) (s : W × Log) → s.1 ≡ current → Round (f a s))
      → (s : W × Log) → s.1 ≡ current
      → Round ((◌>>=◌ (logged deps) m f) s)
  bind_keep {A} current m f known keeps later s e = split (m s) (keeps s ∙ e)
    where
      split : (p : (W × Log) × Phase A) → p.0.1 ≡ current → Round (continue (logged deps) f p)
      split (t, stop st) kept = elim known [ inl k ↦ inl (kept ∙ k) | inr k ↦ inr (kept ∙ k) ]
      split (t, go a) kept = later a t kept

  ask-log : (s : W × Log) → (ask (logged deps) s).0.1 ≡ s.1
  ask-log s = go_on ((logged deps).before_fetch s)
    where
      go_on : (p : (W × Log) × Answer Bool) → (allowance (logged deps) p).0.1 ≡ p.0.1
      go_on (t, returned allowed) = refl
      go_on (t, threw code) = refl

  fetch_then :
      (username : String) (f : Html → M (logged deps) PageAnswer)
      → ((html : Html) (s : W × Log) → s.1 ≡ c ∷ log → Round (f html s))
      → (s : W × Log) → s.1 ≡ log
      → Round (
          (◌>>=◌
              (logged deps)
              (call (logged deps) fetch_status ((logged deps).fetch_feed username c))
              f)
            s)
  fetch_then username f later s e =
      go_on ((logged deps).fetch_feed username c s) (ap (λ l. c ∷ l) e)
    where
      go_on :
          (p : (W × Log) × Answer Html)
          → p.0.1 ≡ c ∷ log
          → Round (continue (logged deps) f (answered (logged deps) fetch_status p))
      go_on (t, returned html) h = later html t h
      go_on (t, threw code) h = inr h

  submit_last :
      (html : Html) (s : W × Log)
      → s.1 ≡ c ∷ log
      → Round (call (logged deps) submit_status ((logged deps).submit_page html c revision) s)
  submit_last html s e = go_on ((logged deps).submit_page html c revision s) e refl
    where
      go_on :
          (p : (W × Log) × Answer PageAnswer)
          → p.0.1 ≡ c ∷ log
          → (deps.submit_page html c revision s.0).1 ≡ p.1
          → Round (answered (logged deps) submit_status p)
      go_on (t, returned a) h k = (h, (html, s.0, k))
      go_on (t, threw code) h k = inr h

  -- The parts of a round, from the last.
  abbrev L : Deps (W × Log) Html
  L = logged deps

  abbrev last_part : Html → M L PageAnswer
  last_part html = call L submit_status (L.submit_page html c revision)

  abbrev session_part : String → Html → M L PageAnswer
  session_part username html = ◌>>=◌ L (check_session L username c html) (λ _. last_part html)

  abbrev page_part : String → Html → M L PageAnswer
  page_part username html = ◌>>=◌ L (not_aborted L) (λ _. session_part username html)

  abbrev fetch_part : String → M L PageAnswer
  fetch_part username = ◌>>=◌ L (call L fetch_status (L.fetch_feed username c)) (page_part username)

  abbrev signal_part : String → M L PageAnswer
  signal_part username = ◌>>=◌ L (not_aborted L) (λ _. fetch_part username)

  abbrev budget_part : String → Bool → M L PageAnswer
  budget_part username allowed = ◌>>=◌ L (unless_capped L allowed) (λ _. signal_part username)

  abbrev ask_part : String → M L PageAnswer
  ask_part username = ◌>>=◌ L (ask L) (budget_part username)

  pub page_round-Round :
      (username : String) (s : W × Log)
      → s.1 ≡ log
      → Round (page_round (logged deps) username revision c s)
  unfolding page_round
  page_round-Round username =
      bind_keep log (not_aborted L) (λ _. ask_part username) (inl refl) (λ s. refl)
        λ _. bind_keep log (ask L) (budget_part username) (inl refl) ask-log λ allowed.
          bind_keep log (unless_capped L allowed) (λ _. signal_part username) (inl refl) (λ s. refl)
            λ _.
              bind_keep log (not_aborted L) (λ _. fetch_part username) (inl refl) (λ s. refl)
                λ _. fetch_then username (page_part username) λ html.
                  bind_keep (c ∷ log) (not_aborted L) (λ _. session_part username html) (inr refl)
                    (λ s. refl)
                    λ _.
                      bind_keep (c ∷ log) (check_session L username c html) (λ _. last_part html)
                        (inr refl) (λ s. refl) λ _. submit_last html
