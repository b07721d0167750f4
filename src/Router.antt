-- ===== src/Router.antt =====
-- src/domain/router.ts: which pubs to visit and in which order. A set of beers is the list of its
-- elements, each once. A distance is of any type with the operations that the code uses of a number
-- (`Metres`), and `opts.distance` is a parameter.
pub mod Tours
pub mod Cover
pub mod Selections
pub mod Moves
pub mod Swaps
pub mod Examples
use warsaw_beer_bot.Base.{
  ℕ, zero, suc, ◌+◌, ◌^◌, Bool, true, false, not, Option, none, some, List, [], ◌∷◌, ◌++◌, map, ltb,
  leb, ◌==◌, if◌then◌else◌, length, filter, any,
}
use warsaw_beer_bot.Router.Tours.{RoutePub, Metres, Tour, solve_tour}

pub record RouteResult (D : Type 0) : Type 0 where
  pub pub_ids : List ℕ
  pub covered_count : ℕ
  pub distance_meters : D

abbrev pub has : List ℕ → ℕ → Bool
has s x = any (λ y. y == x) s

-- `Set.prototype.add`
abbrev pub add : List ℕ → ℕ → List ℕ
add s x = if has s x then s else x ∷ s

abbrev pub add_all : List ℕ → List ℕ → List ℕ
add_all s [] = s
add_all s (x ∷ xs) = add_all (add s x) xs

abbrev pub union_from : List ℕ → List RoutePub → List ℕ
union_from s [] = s
union_from s (p ∷ ps) = union_from (add_all s p.interesting) ps

unfoldable pub union : List RoutePub → List ℕ
union pubs = union_from [] pubs

abbrev pub gain : List ℕ → RoutePub → ℕ
gain covered p = length (filter (λ x. not (has covered x)) p.interesting)

-- The best index and gain so far; the first of equals stays.
unfoldable pub best_from : List ℕ → List RoutePub → ℕ → ℕ × ℕ → ℕ × ℕ
best_from covered [] i best = best
best_from covered (p ∷ ps) i (idx, best) =
    best_from covered ps (suc i)
      (if ltb best (gain covered p) then (i, gain covered p) else (idx, best))

-- `remaining[idx]` and what `splice` leaves.
abbrev pub pick_at : ℕ → List RoutePub → Option (RoutePub × List RoutePub)
pick_at i [] = none
pick_at zero (p ∷ ps) = some (p, ps)
pick_at (suc i) (p ∷ ps) = Option_map (pick_at i ps)
  where
    Option_map : Option (RoutePub × List RoutePub) → Option (RoutePub × List RoutePub)
    Option_map none = none
    Option_map (some (q, rest)) = some (q, p ∷ rest)

abbrev pub Picked : Type 0
Picked = List RoutePub × List ℕ

module _ (n : ℕ) where
  -- The next round with the pub that was chosen.
  abbrev pub take_best :
      (List RoutePub → List ℕ → List RoutePub → Picked)
      → List RoutePub
      → List ℕ
      → Option (RoutePub × List RoutePub)
      → Picked
  take_best next picked covered none = (picked, covered)
  take_best next picked covered (some (chosen, rest)) =
      next (picked ++ chosen ∷ []) (add_all covered chosen.interesting) rest

  -- One round; the first of the remaining pubs has a gain above -1, so it is the first best.
  abbrev pub choose :
      (List RoutePub → List ℕ → List RoutePub → Picked)
      → List RoutePub
      → List ℕ
      → List RoutePub
      → Picked
  choose next picked covered [] = (picked, covered)
  choose next picked covered (p ∷ ps) =
      let (idx, best) = best_from covered ps 1 (0, gain covered p) in
      if best == 0 then (picked, covered) else take_best next picked covered (pick_at idx (p ∷ ps))

  -- The loop, on a bound of the rounds; each takes a pub away.
  unfoldable pub cover_from : ℕ → List RoutePub → List ℕ → List RoutePub → Picked
  unfolding best_from
  cover_from zero picked covered remaining = (picked, covered)
  cover_from (suc fuel) picked covered remaining =
      if leb n (length covered)
      then (picked, covered)
      else choose (λ ps c rest. cover_from fuel ps c rest) picked covered remaining

  unfoldable pub greedy_set_cover : List RoutePub → List RoutePub
  unfolding cover_from
  greedy_set_cover pubs = (cover_from (length pubs) [] [] pubs).0

abbrev pub set_at : ℕ → RoutePub → List RoutePub → List RoutePub
set_at i q [] = []
set_at zero q (p ∷ ps) = q ∷ ps
set_at (suc i) q (p ∷ ps) = p ∷ set_at i q ps

pub record Swap (D : Type 0) : Type 0 where
  pub best : List RoutePub
  pub best_dist : D
  pub improved : Bool

module _ {D : Type 0} (metres : Metres D) (distance : RoutePub → RoutePub → D) (n : ℕ) where
  abbrev pub tour_length : List RoutePub → D
  tour_length pubs = (solve_tour metres distance pubs).distance

  abbrev pub try_swap : ℕ → RoutePub → Swap D → Swap D
  try_swap i cand s =
      let trial = set_at i cand s.best in
      if any (λ p. p.id == cand.id) s.best
      then s
      else if ltb (length (union trial)) n
      then s
      else if metres.shorter (tour_length trial) s.best_dist
      then record { best = trial; best_dist = tour_length trial; improved = true }
      else s

  unfoldable pub try_all : ℕ → List RoutePub → Swap D → Swap D
  try_all i [] s = s
  try_all i (cand ∷ cands) s = try_all i cands (try_swap i cand s)

  -- `for (let i = 0; i < best.length; i++)`: the swaps keep the length.
  unfoldable pub sweep_from : ℕ → ℕ → List RoutePub → Swap D → Swap D
  unfolding try_all
  sweep_from zero i all s = s
  sweep_from (suc left) i all s = sweep_from left (suc i) all (try_all i all s)

  abbrev pub sweep : List RoutePub → Swap D → Swap D
  sweep all s = sweep_from (length s.best) 0 all (record s { improved = false })

  -- The loop, on a bound of the sweeps. Each but the last leaves a shorter tour than all before, so the
  -- bound is the number of selections: the lists of as many pubs as the first, from it and from `all`.
  unfoldable pub swap_while : ℕ → List RoutePub → Swap D → Swap D
  unfolding sweep_from
  swap_while zero all s = s
  swap_while (suc fuel) all s =
      let next = sweep all s in
      let rest = swap_while fuel all next in if next.improved then rest else next

  unfoldable pub local_swap_for_distance : List RoutePub → List RoutePub → List RoutePub
  unfolding swap_while
  local_swap_for_distance selected all =
      (swap_while (suc (length (selected ++ all) ^ length selected)) all
        (record { best = selected; best_dist = tour_length selected; improved = true })).best

  unfoldable pub build_route : List RoutePub → RouteResult D
  unfolding greedy_set_cover local_swap_for_distance union
  build_route pubs =
      let improved = local_swap_for_distance (greedy_set_cover n pubs) pubs in
      let tour = solve_tour metres distance improved in
      record {
        pub_ids = map (λ p. p.id) tour.order;
        covered_count = length (union improved);
        distance_meters = tour.distance;
      }
