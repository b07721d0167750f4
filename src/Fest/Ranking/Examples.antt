-- ===== src/Fest/Ranking/Examples.antt =====
-- The sections of a menu at a concrete input.
use warsaw_beer_bot.Base.{
  ℕ, true, Option, none, some, List, [], ◌∷◌, map, ◌≡◌, refl, ◌==◌, if◌then◌else◌,
}
use warsaw_beer_bot.Base.Sort.{sort}
use warsaw_beer_bot.Fest.Eyes.{TapStatus, on_tap, not_seen}
use warsaw_beer_bot.Fest.Targets.{Target}
use warsaw_beer_bot.Fest.Ranking.{rank_sections}
use warsaw_beer_bot.Fest.Ranking.Sections.{IsRanking, rank_sections-IsRanking}

abbrev target : ℕ → ℕ → Target
target beer section = record {
  beer_id = beer;
  section = section ∷ [];
  reasons = [];
  rating = none;
  style = none;
}

abbrev menu : List Target
menu = target 1 5 ∷ target 2 6 ∷ target 3 5 ∷ target 4 7 ∷ []

-- Beer 4 is poured now, beer 2 was not seen, and of the others nothing is known.
abbrev status_of : ℕ → Option TapStatus
status_of beer =
    if beer == 4 then some (on_tap 100 2) else if beer == 2 then some not_seen else none

poured_first :
    map {B = ℕ × ℕ × List ℕ}
      (λ r. (r.on_taps, r.unknowns, map (λ t. t.beer_id) r.targets))
      (rank_sections (λ s t. true) menu status_of)
    ≡ (1, 0, 4 ∷ []) ∷ (0, 2, 1 ∷ 3 ∷ []) ∷ (0, 0, 2 ∷ []) ∷ []
unfolding rank_sections sort
poured_first = refl

rank_sections-IsRanking_example :
    IsRanking status_of menu (rank_sections (λ s t. true) menu status_of)
rank_sections-IsRanking_example = rank_sections-IsRanking (λ s t. true) menu status_of
