-- ===== src/Sync/Walk/Requests.antt =====
-- The requests of a step: how many there are, and that they go down the feed.
use warsaw_beer_bot.Base.{ℕ, ◌<◌, ◌≡◌, Option, none, some, List, [], ◌∷◌}
use warsaw_beer_bot.Base.Decimal.{Text, decimal}
use warsaw_beer_bot.Sync.Walk.{Deps, returned, PageAnswer, step_to}

-- The cursors asked for, the last one first.
abbrev pub Log : Type 0
Log = List (Option Text)

module _ {W Html : Type 0} (deps : Deps W Html) where
  -- The same world, with a log of the requests to the feed.
  abbrev pub logged : Deps (W × Log) Html
  logged = record {
    get_state = λ s. let (w, r) = deps.get_state s.0 in ((w, s.1), r);
    fetch_feed = λ username c s. let (w, r) = deps.fetch_feed username c s.0 in ((w, c ∷ s.1), r);
    submit_page =
        λ html c revision s. let (w, r) = deps.submit_page html c revision s.0 in ((w, s.1), r);
    on_progress = λ p s. (deps.on_progress p s.0, s.1);
    sleep = λ s. (deps.sleep s.0, s.1);
    aborted = λ s. deps.aborted s.0;
    session_of = deps.session_of;
    before_fetch = λ s. let (w, r) = deps.before_fetch s.0 in ((w, s.1), r);
    stop_after = λ a pages s. deps.stop_after a pages s.0;
    is_block_page = deps.is_block_page;
    to_lower_case = deps.to_lower_case;
  }

  -- An answer to a page that was asked for with a cursor steps below the cursor.
  abbrev pub Descends : Type 0
  Descends =
      (html : Html) (c : Text) (revision : ℕ) (w : W) (a : PageAnswer) (t : Text)
      → (deps.submit_page html (some c) revision w).1 ≡ returned a
      → a.next_cursor ≡ step_to t
      → (n : ℕ) × (m : ℕ) × (decimal c ≡ some n) × (decimal t ≡ some m) × (m < n)

-- `next` may be asked for after `before`: with a cursor, and below the one before, if any.
abbrev pub Steps : Option Text → Option Text → Type 0
Steps none before = ⊥
Steps (some t) none = Unit
Steps (some t) (some c) = (n : ℕ) × (m : ℕ) × (decimal c ≡ some n) × (decimal t ≡ some m) × (m < n)

-- The first request has no cursor, and each later one steps below the one before it.
abbrev pub IsDescent : Log → Type 0
IsDescent [] = Unit
IsDescent (c ∷ []) = c ≡ none
IsDescent (t ∷ c ∷ log) = Steps t c × IsDescent (c ∷ log)
