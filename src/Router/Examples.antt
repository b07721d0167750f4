-- ===== src/Router/Examples.antt =====
-- Tests of the route planner, and its theorems at concrete inputs.
use warsaw_beer_bot.Base.{
  arith, ltb, ◌==◌, ℕ, ◌+◌, ◌-◌, List, [], ◌∷◌, map, ◌≡◌, refl, ◌≤◌, ◌⊎◌, length, All,
}
use warsaw_beer_bot.Router.Cover.{Covers, greedy_set_cover-Covers}
use warsaw_beer_bot.Router.Moves.{IsStrict, IsImproved}
use warsaw_beer_bot.Router.Swaps.{local_swap_for_distance-IsImproved}
use warsaw_beer_bot.Router.{
  union, greedy_set_cover, best_from, cover_from, local_swap_for_distance, try_all, sweep_from,
  swap_while, build_route,
}
use warsaw_beer_bot.Router.Tours.{
  RoutePub, Metres, solve_tour, open_tsp, fill_dp, open_order, nearest_order,
  nearest_neighbour_two_opt,
}

abbrev at : ℕ → ℕ → List ℕ → RoutePub
at id lat interesting = record { id = id; lat = lat; lon = 0; interesting = interesting }

abbrev apart : RoutePub → RoutePub → ℕ
apart p q = (p.lat - q.lat) + (q.lat - p.lat)

-- Whole metres; no tour of the examples is as long as the number that stands for Infinity.
abbrev metres : Metres ℕ
metres = record {
  nothing = 0;
  infinity = 1000000;
  plus = λ a b. a + b;
  shorter = ltb;
  is_infinite = λ a. a == 1000000;
  clearly_shorter = ltb;
}

abbrev pubs : List RoutePub
pubs = at 1 0 (10 ∷ 11 ∷ []) ∷ at 2 50 (11 ∷ 12 ∷ 13 ∷ []) ∷ at 3 2 (12 ∷ 13 ∷ []) ∷ at 4 9 [] ∷ []

exact_order :
    (map (λ p. p.id) (open_tsp metres apart (at 1 5 [] ∷ at 2 0 [] ∷ at 3 9 [] ∷ [])).order)
    ≡ 3 ∷ 1 ∷ 2 ∷ []
unfolding open_tsp open_order fill_dp
exact_order = refl

near_order :
    (nearest_neighbour_two_opt metres apart (at 1 5 [] ∷ at 2 0 [] ∷ at 3 9 [] ∷ [])).distance ≡ 9
unfolding nearest_neighbour_two_opt nearest_order
near_order = refl

greedy_picks : map (λ p. p.id) (greedy_set_cover 4 pubs) ≡ 2 ∷ 1 ∷ []
unfolding greedy_set_cover best_from cover_from
greedy_picks = refl

swap_shortens : (build_route metres apart 4 pubs).distance_meters ≡ 2
unfolding build_route greedy_set_cover best_from cover_from local_swap_for_distance swap_while
    sweep_from try_all union solve_tour open_tsp open_order fill_dp
swap_shortens = refl

greedy_set_cover-Covers_example :
    (4 ≤ length (union (greedy_set_cover 4 pubs)))
    ⊎ All (Covers (union (greedy_set_cover 4 pubs))) pubs
greedy_set_cover-Covers_example = greedy_set_cover-Covers 4 pubs

metres-IsStrict : IsStrict metres
metres-IsStrict = record { irreflexive = λ a. ground arith; transitive = λ a b c h k. ground arith }

local_swap_for_distance-IsImproved_example :
    IsImproved metres apart 4
      (greedy_set_cover 4 pubs)
      pubs
      (local_swap_for_distance metres apart 4 (greedy_set_cover 4 pubs) pubs)
local_swap_for_distance-IsImproved_example =
    local_swap_for_distance-IsImproved metres apart 4 (greedy_set_cover 4 pubs) pubs metres-IsStrict
