-- ===== src/Sync/Walk/Descent.antt =====
-- The requests of a whole step.
use Prim.Native.String.{String}
use warsaw_beer_bot.Base.{ℕ, ◌≤◌, length}
use warsaw_beer_bot.Sync.Walk.{Deps}
use warsaw_beer_bot.Sync.Walk.Requests.{Log, Descends, IsDescent}

module _ {W Html : Type 0} (deps : Deps W Html) (descends : Descends deps) where
  -- What is claimed of the world that a part of the walk ends in.
  abbrev pub Ends : ℕ → Log → Type 0
  Ends most log = IsDescent log × (length log ≤ most)
