-- ===== src/Router/Tours.antt =====
-- src/domain/router.ts: the order of the pubs on an open path, exact for few pubs (openTsp) and by
-- nearest neighbours and 2-opt for many. A table of the source is a list of rows; a pub is known by
-- its index. A distance is of any type with what the code uses of a number's operations (`Metres`);
-- where a distance to a pub is Infinity or no number, nothing is said (the source then pushes -1).
use warsaw_beer_bot.Base.{
  ℕ, zero, suc, ◌+◌, ◌-◌, ◌/◌, ◌%◌, ◌^◌, Bool, true, false, not, ◌&&◌, ◌||◌, Option, none, some,
  List, [], ◌∷◌, ◌++◌, leb, ◌==◌, if◌then◌else◌, length, any, take,
}

-- A pub; its place is left to the distance between two pubs.
pub record RoutePub : Type 0 where
  pub id : ℕ
  pub lat : ℕ
  pub lon : ℕ
  pub interesting : List ℕ

-- The operations on distances: 0, Infinity, `+`, `a < b`, `a === Infinity` and `a < b - 1e-9`.
pub record Metres (D : Type 0) : Type 0 where
  pub nothing : D
  pub infinity : D
  pub plus : D → D → D
  pub shorter : D → D → Bool
  pub is_infinite : D → Bool
  pub clearly_shorter : D → D → Bool

pub record Tour (D : Type 0) : Type 0 where
  pub order : List RoutePub
  pub distance : D

abbrev pub held_karp_max : ℕ
held_karp_max = 12

abbrev range_from : ℕ → ℕ → List ℕ
range_from i zero = []
range_from i (suc n) = i ∷ range_from (suc i) n

abbrev upto : ℕ → List ℕ
upto n = range_from 0 n

abbrev drop : ℕ → List ℕ → List ℕ
drop zero xs = xs
drop (suc n) [] = []
drop (suc n) (x ∷ xs) = drop n xs

abbrev reverse_onto : List ℕ → List ℕ → List ℕ
reverse_onto [] acc = acc
reverse_onto (x ∷ xs) acc = reverse_onto xs (x ∷ acc)

module _ {ℓ} {A : Type ℓ} where
  abbrev nth : A → ℕ → List A → A
  nth default i [] = default
  nth default zero (x ∷ xs) = x
  nth default (suc i) (x ∷ xs) = nth default i xs

  abbrev put_at : ℕ → A → List A → List A
  put_at i y [] = []
  put_at zero y (x ∷ xs) = y ∷ xs
  put_at (suc i) y (x ∷ xs) = x ∷ put_at i y xs

  abbrev replicate : ℕ → A → List A
  replicate zero x = []
  replicate (suc n) x = x ∷ replicate n x

abbrev fold {ℓ} : {A : Type ℓ} → (ℕ → A → A) → List ℕ → A → A
fold f [] a = a
fold f (i ∷ is) a = fold f is (f i a)

-- The pubs at the indices.
abbrev pick : List RoutePub → List ℕ → List RoutePub
pick pubs [] = []
pick pubs (i ∷ is) = nth_onto pubs i (pick pubs is)
  where
    nth_onto : List RoutePub → ℕ → List RoutePub → List RoutePub
    nth_onto [] i rest = rest
    nth_onto (p ∷ ps) zero rest = p ∷ rest
    nth_onto (p ∷ ps) (suc i) rest = nth_onto ps i rest

-- `mask & (1 << u)`
abbrev in_mask : ℕ → ℕ → Bool
in_mask mask u = mask / 2 ^ u % 2 == 1

-- `dp` and `parent`, by mask and then by the last node.
pub record Dp (D : Type 0) : Type 0 where
  pub dp : List (List D)
  pub parent : List (List (Option ℕ))

module _ {A : Type 0} (default : A) where
  abbrev cell : ℕ → ℕ → List (List A) → A
  cell mask u table = nth default u (nth [] mask table)

  abbrev put_cell : ℕ → ℕ → A → List (List A) → List (List A)
  put_cell mask u x table = put_at mask (put_at u x (nth [] mask table)) table

module _ {D : Type 0} (metres : Metres D) (dist : ℕ → ℕ → D) (n : ℕ) where
  abbrev relax : ℕ → ℕ → D → ℕ → Dp D → Dp D
  relax mask u d v t =
      let nm = mask + 2 ^ v in
      let nd = metres.plus d (dist u v) in
      if in_mask mask v
      then t
      else if metres.shorter nd (cell metres.infinity nm v t.dp)
      then record {
        dp = put_cell metres.infinity nm v nd t.dp;
        parent = put_cell none nm v (some u) t.parent;
      }
      else t

  abbrev visit : ℕ → ℕ → Dp D → Dp D
  visit mask u t =
      let d = cell metres.infinity mask u t.dp in
      if not (in_mask mask u) || metres.is_infinite d then t else fold (relax mask u d) (upto n) t

  abbrev start_dp : Dp D
  start_dp = record {
    dp =
        fold (λ i table. put_cell metres.infinity (2 ^ i) i metres.nothing table) (upto n)
          (replicate (2 ^ n) (replicate n metres.infinity));
    parent = replicate (2 ^ n) (replicate n none);
  }

  unfoldable pub fill_dp : Dp D
  fill_dp = fold (λ mask t. fold (visit mask) (upto n) t) (upto (2 ^ n)) start_dp

  abbrev better : Dp D → ℕ → D × ℕ → D × ℕ
  better t i (best, end_at) =
      let d = cell metres.infinity (2 ^ n - 1) i t.dp in
      if metres.shorter d best then (d, i) else (best, end_at)

  -- The way back along `parent`, at most one step for each node.
  abbrev back : ℕ → Dp D → ℕ → Option ℕ → List ℕ → List ℕ
  back zero t mask cur order = order
  back (suc left) t mask none order = order
  back (suc left) t mask (some cur) order =
      back left t (mask - 2 ^ cur) (cell none mask cur t.parent) (cur ∷ order)

  unfoldable pub open_order : List ℕ × D
  unfolding fill_dp
  open_order =
      let (best, end_at) = fold (better fill_dp) (upto n) (metres.infinity, 0) in
      (back n fill_dp (2 ^ n - 1) (some end_at) [], best)

  -- The sum so far, and the rest of the path after `i`.
  abbrev path_from : D → ℕ → List ℕ → D
  path_from s i [] = s
  path_from s i (j ∷ js) = path_from (metres.plus s (dist i j)) j js

  abbrev path_len : List ℕ → D
  path_len [] = metres.nothing
  path_len (i ∷ is) = path_from metres.nothing i is

  abbrev best_distance : Option (ℕ × D) → D
  best_distance none = metres.infinity
  best_distance (some (best, bd)) = bd

  abbrev nearer : List ℕ → ℕ → ℕ → Option (ℕ × D) → Option (ℕ × D)
  nearer visited cur j found =
      if not (any (λ k. k == j) visited) && metres.shorter (dist cur j) (best_distance found)
      then some (j, dist cur j)
      else found

  abbrev go_nearest : (ℕ → List ℕ → List ℕ) → List ℕ → Option (ℕ × D) → List ℕ
  go_nearest next order none = order
  go_nearest next order (some (best, bd)) = next best (best ∷ order)

  -- The rounds that are left; the nodes visited so far are those of `order`, which is kept reversed.
  abbrev nearest_from : ℕ → ℕ → List ℕ → List ℕ
  nearest_from zero cur order = order
  nearest_from (suc left) cur order =
      go_nearest (λ c o. nearest_from left c o) order (fold (nearer order cur) (upto n) none)

  -- The segment from `i` to `k` turned round.
  abbrev turned : ℕ → ℕ → List ℕ → List ℕ
  turned i k order = take i order ++ reverse_onto (drop i (take (suc k) order)) (drop (suc k) order)

  abbrev try_turn : ℕ → ℕ → List ℕ × Bool → List ℕ × Bool
  try_turn i k (order, improved) =
      let cand = turned i k order in
      if metres.clearly_shorter (path_len cand) (path_len order)
      then (cand, true)
      else (order, improved)

  abbrev turn_sweep : List ℕ → List ℕ × Bool
  turn_sweep order =
      fold (λ i s. fold (try_turn i) (range_from (suc i) (n - suc i)) s) (upto (n - 1))
        (order, false)

  abbrev go_turning : (List ℕ → List ℕ) → List ℕ × Bool → List ℕ
  go_turning next (order, true) = next order
  go_turning next (order, false) = order

  -- The sweeps that are left.
  abbrev two_opt : ℕ → List ℕ → List ℕ
  two_opt zero order = order
  two_opt (suc left) order = go_turning (λ o. two_opt left o) (turn_sweep order)

  unfoldable pub nearest_order : List ℕ × D
  nearest_order =
      let order = two_opt n (reverse_onto (nearest_from (n - 1) 0 (0 ∷ [])) []) in
      (order, path_len order)

module _ {D : Type 0} (metres : Metres D) (distance : RoutePub → RoutePub → D) where
  abbrev dist_of : List RoutePub → RoutePub → ℕ → ℕ → D
  dist_of pubs p i j = if i == j then metres.nothing else distance (nth p i pubs) (nth p j pubs)

  abbrev tour_by : ((ℕ → ℕ → D) → ℕ → List ℕ × D) → List RoutePub → Tour D
  tour_by solve [] = record { order = []; distance = metres.nothing }
  tour_by solve (p ∷ []) = record { order = p ∷ []; distance = metres.nothing }
  tour_by solve (p ∷ q ∷ ps) =
      let pubs = p ∷ q ∷ ps in
      let (order, d) = solve (dist_of pubs p) (length pubs) in
      record { order = pick pubs order; distance = d }

  unfoldable pub open_tsp : List RoutePub → Tour D
  unfolding open_order
  open_tsp pubs = tour_by (open_order metres) pubs

  unfoldable pub nearest_neighbour_two_opt : List RoutePub → Tour D
  unfolding nearest_order
  nearest_neighbour_two_opt pubs = tour_by (nearest_order metres) pubs

  unfoldable pub solve_tour : List RoutePub → Tour D
  unfolding open_tsp nearest_neighbour_two_opt
  solve_tour pubs =
      if leb (length pubs) held_karp_max then open_tsp pubs else nearest_neighbour_two_opt pubs
