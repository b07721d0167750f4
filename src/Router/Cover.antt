-- ===== src/Router/Cover.antt =====
-- The greedy choice reaches the number of beers that is asked for, or leaves no beer out: router.ts,
-- greedySetCover.
use warsaw_beer_bot.Base.{
  ℕ, zero, suc, ◌+◌, ◌≤◌, ◌<◌, Bool, true, false, not, ◌||◌, some, List, [], ◌∷◌, ◌++◌, ltb, leb,
  ◌==◌, ==_refl, ◌≡◌, refl, ap, sym, ◌∙◌, ◌⊎◌, inl, inr, if-cases, Bool-cases, arith, length,
  filter, All, All-imp,
}
use warsaw_beer_bot.Router.{
  has, add, add_all, union_from, union, gain, best_from, pick_at, Picked, cover_from,
  greedy_set_cover,
}
use warsaw_beer_bot.Router.Tours.{RoutePub}

abbrev Has : List ℕ → ℕ → Type 0
Has s x = has s x ≡ true

-- Every beer of the pub is in the set.
pub Covers : List ℕ → RoutePub → Type 0
Covers s p = All (λ x. has s x ≡ true) p.interesting

or_right : (a b : Bool) → b ≡ true → (a || b) ≡ true
or_right true b h = refl
or_right false b h = h

Has-add : (s : List ℕ) (x y : ℕ) → Has s y → Has (add s x) y
Has-add s x y h = if-cases (λ t. Has t y) (has s x) _ _ (λ e. h) λ e. or_right (x == y) _ h

Has-add_self : (s : List ℕ) (x : ℕ) → Has (add s x) x
Has-add_self s x =
    if-cases (λ t. Has t x) (has s x) _ _ (λ e. e) λ e. let here = ==_refl x in rw here

Has-add_all : (xs s : List ℕ) (y : ℕ) → Has s y → Has (add_all s xs) y
Has-add_all [] s y h = h
Has-add_all (x ∷ xs) s y h = Has-add_all xs (add s x) y (Has-add s x y h)

All-add_all : (xs s : List ℕ) → All (Has (add_all s xs)) xs
All-add_all [] s = tt
All-add_all (x ∷ xs) s = (Has-add_all xs (add s x) x (Has-add_self s x), All-add_all xs (add s x))

Covers-grown :
    (s t : List ℕ) → ((x : ℕ) → Has s x → Has t x) → (p : RoutePub) → Covers s p → Covers t p
unfolding Covers
Covers-grown s t more p h = All-imp more p.interesting h

no_gain : (s xs : List ℕ) → length (filter (λ x. not (has s x)) xs) ≡ 0 → All (Has s) xs
no_gain s [] h = tt
no_gain s (x ∷ xs) h = elim (Bool-cases (has s x)) [
  | inl e ↦ (e, no_gain s xs (rw e at h))
  | inr e ↦ absurd (ground (arith, rw e at h))
]

Covers-gain : (s : List ℕ) (p : RoutePub) → gain s p ≡ 0 → Covers s p
unfolding Covers
Covers-gain s p h = no_gain s p.interesting h

-- The index that is found lies in the list, and no pub gains more.
record IsBest (s : List ℕ) (ps : List RoutePub) (limit best : ℕ) (found : ℕ × ℕ) : Type 0 where
  inside : found.0 < limit
  above : best ≤ found.1
  most : All (λ p. gain s p ≤ found.1) ps

best_from_lem :
    (s : List ℕ) (ps : List RoutePub) (i idx best : ℕ)
    → idx < i
    → IsBest s ps (i + length ps) best (best_from s ps i (idx, best))
unfolding best_from
best_from_lem s [] i idx best h = record {
  inside = omega (arith, h);
  above = omega arith;
  most = tt;
}
best_from_lem s (p ∷ ps) i idx best h =
    if-cases
      (λ (b : ℕ × ℕ). IsBest s (p ∷ ps) (i + suc (length ps)) best (best_from s ps (suc i) b))
      (ltb best (gain s p)) _ _
      (λ e.
        let k = best_from_lem s ps (suc i) i (gain s p) (omega arith) in
        record {
          inside = omega (arith, k.inside);
          above = ground (arith, k.above);
          most = (k.above, k.most);
        })
      λ e.
        let k = best_from_lem s ps (suc i) idx best (omega (arith, h)) in
        record {
          inside = omega (arith, k.inside);
          above = k.above;
          most = (ground (arith, k.above), k.most);
        }

-- A pick inside the list leaves one pub fewer, and what holds of it and of the rest holds of all.
record IsPick (ps rest : List RoutePub) (q : RoutePub) : Type 1 where
  fewer : suc (length rest) ≡ length ps
  all : (P : RoutePub → Type 0) → P q → All P rest → All P ps

pick_at_lem :
    (i : ℕ) (ps : List RoutePub)
    → i < length ps
    → (q : RoutePub) × (rest : List RoutePub) × (pick_at i ps ≡ some (q, rest)) × IsPick ps rest q
pick_at_lem i [] h = absurd (ground (arith, h))
pick_at_lem zero (p ∷ ps) h = (p, ps, refl, record { fewer = refl; all = λ P a b. (a, b) })
pick_at_lem (suc i) (p ∷ ps) h =
    let (q, rest, found, k) = pick_at_lem i ps (ground (arith, h)) in
    (
      q,
      p ∷ rest,
      rw found refl,
      record { fewer = omega (arith, k.fewer); all = λ P a b. (b.0, k.all P a b.1) },
    )

union-append :
    (s : List ℕ) (ps : List RoutePub) (q : RoutePub)
    → union_from s (ps ++ q ∷ []) ≡ add_all (union_from s ps) q.interesting
union-append s [] q = refl
union-append s (p ∷ ps) q = union-append (add_all s p.interesting) ps q

union-picked :
    (ps : List RoutePub) (q : RoutePub) → union (ps ++ q ∷ []) ≡ add_all (union ps) q.interesting
unfolding union
union-picked ps q = union-append [] ps q

Covers-self : (s : List ℕ) (q : RoutePub) → Covers (add_all s q.interesting) q
unfolding Covers
Covers-self s q = All-add_all q.interesting s

module _ (n : ℕ) where
  -- Where the loop leaves off, for the pubs that were left when it began.
  record IsCover (covered : List ℕ) (remaining : List RoutePub) (r : Picked) : Type 0 where
    reached : (n ≤ length r.1) ⊎ All (Covers r.1) remaining
    is_union : r.1 ≡ union r.0
    more : (x : ℕ) → Has covered x → Has r.1 x

  -- The loop stops where enough is covered.
  enough :
      (picked : List RoutePub) (covered : List ℕ) (remaining : List RoutePub)
      → covered ≡ union picked
      → (n ≤ length covered) ⊎ All (Covers covered) remaining
      → IsCover covered remaining (picked, covered)
  enough picked covered remaining u h = record { reached = h; is_union = u; more = λ x k. k }

  nothing_left :
      (s : List ℕ) (ps : List RoutePub) (best : ℕ)
      → best ≡ 0
      → All (λ p. gain s p ≤ best) ps
      → All (Covers s) ps
  nothing_left s ps best h k = All-imp (λ p g. Covers-gain s p (omega (arith, h, g))) ps k

  -- A round that took `q` stands where the rounds after it leave off.
  picked_on :
      (covered : List ℕ) (ps rest : List RoutePub) (q : RoutePub)
      → IsPick ps rest q
      → (r : Picked) → IsCover (add_all covered q.interesting) rest r
      → IsCover covered ps r
  picked_on covered ps rest q k r c = record {
    reached = elim c.reached [
      | inl e ↦ inl e
      | inr a ↦ inr (k.all (Covers r.1) (Covers-grown _ _ c.more q (Covers-self covered q)) a)
    ];
    is_union = c.is_union;
    more = λ x h. c.more x (Has-add_all q.interesting covered x h);
  }

  cover_from-IsCover :
      (fuel : ℕ) (picked : List RoutePub) (covered : List ℕ) (remaining : List RoutePub)
      → length remaining ≤ fuel
      → covered ≡ union picked
      → IsCover covered remaining (cover_from n fuel picked covered remaining)
  unfolding cover_from
  cover_from-IsCover zero picked covered [] h u = enough picked covered [] u (inr tt)
  cover_from-IsCover zero picked covered (p ∷ ps) h u = absurd (ground (arith, h))
  cover_from-IsCover (suc fuel) picked covered [] h u =
      if-cases (IsCover covered []) (leb n (length covered)) _ _
        (λ e. enough picked covered [] u (inr tt)) λ e. enough picked covered [] u (inr tt)
  cover_from-IsCover (suc fuel) picked covered (p ∷ ps) h u =
      let b = best_from_lem covered ps 1 0 (gain covered p) (omega arith) in
      if-cases (IsCover covered (p ∷ ps)) (leb n (length covered)) _ _
        (λ e. enough picked covered (p ∷ ps) u (inl (ground arith)))
        λ e.
          if-cases (IsCover covered (p ∷ ps)) ((best_from covered ps 1 (0, gain covered p)).1 == 0)
            _ _
            (λ f.
              enough picked covered (p ∷ ps) u
                (inr (nothing_left covered (p ∷ ps) _ (ground (arith, f)) (b.above, b.most))))
            λ f.
              let (q, rest, found, k) =
                pick_at_lem (best_from covered ps 1 (0, gain covered p)).0 (p ∷ ps)
                  (omega (arith, b.inside)) in
              rw found (
                picked_on covered (p ∷ ps) rest q k _ (
                  cover_from-IsCover fuel (picked ++ q ∷ []) (add_all covered q.interesting) rest
                    (omega (arith, k.fewer, h))
                    (ap (λ c. add_all c q.interesting) u ∙ sym (union-picked picked q))))

  -- Either the pubs that were picked offer `n` beers, or they offer every beer that any pub offers.
  pub greedy_set_cover-Covers :
      (pubs : List RoutePub)
      → (n ≤ length (union (greedy_set_cover n pubs)))
        ⊎ All (Covers (union (greedy_set_cover n pubs))) pubs
  unfolding greedy_set_cover union
  greedy_set_cover-Covers pubs =
      let c = cover_from-IsCover (length pubs) [] [] pubs (omega arith) refl in
      elim c.reached [ inl e ↦ inl (rw (sym c.is_union) e) | inr a ↦ inr (rw (sym c.is_union) a) ]
