-- ===== src/Router/Swaps.antt =====
-- The swaps end, at a selection that no further swap makes shorter: router.ts, localSwapForDistance.
use warsaw_beer_bot.Base.{
  ℕ, zero, suc, ◌+◌, ◌^◌, ◌≤◌, ◌<◌, true, false, List, [], ◌∷◌, ◌++◌, ltb, ◌==◌, ◌≡◌, refl, ap, sym,
  subst, inl, inr, Bool-cases, arith, length, any, All, Any, filter,
}
use warsaw_beer_bot.Router.{
  union, set_at, Swap, tour_length, try_swap, try_all, sweep_from, sweep, swap_while,
  local_swap_for_distance,
}
use warsaw_beer_bot.Router.Tours.{RoutePub, Metres}
use warsaw_beer_bot.Router.Selections.{
  selections, length-selections, In, In-append_left, In-append_right, selections-Any, count_lt,
  length-filter_le,
}
use warsaw_beer_bot.Router.Moves.{
  IsStrict, differ, Stuck, Improved, IsImproved, IsKept, Moves, Moves-try_swap, Moves-try_all,
  Moves-sweep_from, Moves-unchanged, Moves-stays,
}

module _ {D : Type 0} (metres : Metres D) (distance : RoutePub → RoutePub → D) (n : ℕ)
    (selected all : List RoutePub) where
  abbrev Length : List RoutePub → D
  Length pubs = tour_length metres distance n pubs

  abbrev pool : List RoutePub
  pool = selected ++ all

  module _ (strict : IsStrict metres) where
    any_id : (id : ℕ) (l : List RoutePub) → any (λ p. p.id == id) l ≡ true → Any (λ p. p.id ≡ id) l
    any_id id [] e = cc
    any_id id (p ∷ l) e = elim (Bool-cases (p.id == id)) [
      | inl f ↦ inl (ground arith)
      | inr f ↦ inr (any_id id l (rw f at e))
    ]

    Stuck-try_swap :
        (i : ℕ) (cand : RoutePub) (s : Swap D)
        → s.best_dist ≡ Length s.best
        → (try_swap metres distance n i cand s).improved ≡ false
        → Stuck metres distance n selected all s.best i cand
    unfolding Stuck
    Stuck-try_swap i cand s m h =
        let trial = set_at i cand s.best in
        elim (Bool-cases (any (λ p. p.id == cand.id) s.best)) [
          | inl e ↦ inl (any_id cand.id s.best e)
          | inr e ↦ elim (Bool-cases (ltb (length (union trial)) n)) [
            | inl f ↦ inr (inl (ground arith))
            | inr f ↦ elim (Bool-cases (metres.shorter (Length trial) s.best_dist)) [
              | inl g ↦ absurd (differ refl (rw (e, f, g) at h))
              | inr g ↦ inr (inr (subst (λ d. metres.shorter (Length trial) d ≡ false) m g))
            ]
          ]
        ]

    Stuck-try_all :
        (i : ℕ) (cands : List RoutePub) (s : Swap D)
        → s.best_dist ≡ Length s.best
        → All (In pool) cands
        → (try_all metres distance n i cands s).improved ≡ false
        → All (Stuck metres distance n selected all s.best i) cands
    unfolding try_all
    Stuck-try_all i [] s m there h = tt
    Stuck-try_all i (cand ∷ cands) s m there h =
        let t = try_swap metres distance n i cand s in
        let first = Moves-try_swap metres distance n selected all strict i cand s there.0 in
        elim (Bool-cases t.improved) [
          | inl e ↦ absurd (
              differ
                (Moves-stays metres distance n selected all strict t _
                  (Moves-try_all metres distance n selected all strict i cands t there.1) e)
                h)
          | inr e ↦
              let same = Moves-unchanged metres distance n selected all strict s t first e in
              (
                Stuck-try_swap i cand s m e,
                subst (λ (x : Swap D). All (Stuck metres distance n selected all x.best i) cands)
                    same
                    (Stuck-try_all i cands t
                      (subst (λ (x : Swap D). x.best_dist ≡ Length x.best) (sym same) m) there.1 h),
              )
        ]

    Stuck-sweep_from :
        (left i : ℕ) (s : Swap D)
        → s.best_dist ≡ Length s.best
        → All (In pool) all
        → (sweep_from metres distance n left i all s).improved ≡ false
        → (j : ℕ) → i ≤ j
        → j < i + left
        → All (Stuck metres distance n selected all s.best j) all
    unfolding sweep_from
    Stuck-sweep_from zero i s m there h j low high = absurd (omega (arith, low, high))
    Stuck-sweep_from (suc left) i s m there h j low high =
        let t = try_all metres distance n i all s in
        elim (Bool-cases t.improved) [
          | inl e ↦ absurd (
              differ
                (Moves-stays metres distance n selected all strict t _
                  (Moves-sweep_from metres distance n selected all strict left (suc i) t there) e)
                h)
          | inr e ↦
              let same =
                Moves-unchanged metres distance n selected all strict s t
                  (Moves-try_all metres distance n selected all strict i all s there) e in
              elim (Bool-cases (i == j)) [
                | inl f ↦
                    subst (λ k. All (Stuck metres distance n selected all s.best k) all)
                      (ground arith) (Stuck-try_all i all s m there e)
                | inr f ↦
                    subst (λ (x : Swap D). All (Stuck metres distance n selected all x.best j) all)
                      same
                      (Stuck-sweep_from left (suc i) t
                        (subst (λ (x : Swap D). x.best_dist ≡ Length x.best) (sym same) m) there h j
                        (ground arith) (ground arith))
              ]
        ]

    -- The selections that are still shorter than the one of `s`.
    remaining : Swap D → ℕ
    remaining s =
        length
          (filter (λ l. metres.shorter (Length l) s.best_dist) (selections (length selected) pool))

    remaining_lt :
        (s t : Swap D)
        → IsKept metres distance n selected all t
        → metres.shorter t.best_dist s.best_dist ≡ true
        → remaining t < remaining s
    unfolding remaining
    remaining_lt s t k h =
        count_lt (λ l. metres.shorter (Length l) t.best_dist)
          (λ l. metres.shorter (Length l) s.best_dist)
          (λ l e. strict.transitive (Length l) t.best_dist s.best_dist e h) t.best _
          (subst (λ d. metres.shorter d t.best_dist ≡ false) k.measured
            (strict.irreflexive t.best_dist))
          (subst (λ d. metres.shorter d s.best_dist ≡ true) k.measured h)
          (subst (λ m. Any (λ l. l ≡ t.best) (selections m pool)) k.size
            (selections-Any pool t.best k.from_pool))

    lowered-IsKept :
        (s : Swap D)
        → IsKept metres distance n selected all s
        → IsKept metres distance n selected all (record s { improved = false })
    lowered-IsKept s k = record {
      measured = k.measured;
      size = k.size;
      from_pool = k.from_pool;
      improved = k.improved;
    }

    -- Where a sweep has changed nothing, it found every swap stuck.
    settled_at :
        (s : Swap D)
        → All (In pool) all
        → IsKept metres distance n selected all s
        → (sweep metres distance n all s).improved ≡ false
        → IsImproved metres distance n selected all (sweep metres distance n all s).best
    settled_at s there k h =
        let low = record s { improved = false } in
        let same =
          Moves-unchanged metres distance n selected all strict low (sweep metres distance n all s)
            (Moves-sweep_from metres distance n selected all strict (length s.best) 0 low there)
            h in
        subst (λ (x : Swap D). IsImproved metres distance n selected all x.best) (sym same)
          (record {
            settled = λ i below.
                Stuck-sweep_from (length s.best) 0 low k.measured there h i (omega arith)
                  (omega (arith, below));
            improved = k.improved;
            size = k.size;
            from_pool = k.from_pool;
          })

    -- A sweep that has found a swap leaves fewer selections.
    swept :
        (s : Swap D)
        → All (In pool) all
        → IsKept metres distance n selected all s
        → (sweep metres distance n all s).improved ≡ true
        → (remaining (sweep metres distance n all s) < remaining s)
          × IsKept metres distance n selected all (sweep metres distance n all s)
    unfolding Moves remaining
    swept s there k h =
        elim (Moves-sweep_from metres distance n selected all strict (length s.best) 0
          (record s { improved = false }) there) [
            | inl e ↦ absurd (differ h (ap (λ (x : Swap D). x.improved) e))
            | inr m ↦
                let kept = m.2 (lowered-IsKept s k) in
                (
                  remaining_lt (record s { improved = false }) (sweep metres distance n all s) kept
                      m.1,
                  kept,
                )
          ]

    swap_while-IsImproved :
        (fuel : ℕ) (s : Swap D)
        → All (In pool) all
        → remaining s < fuel
        → IsKept metres distance n selected all s
        → IsImproved metres distance n selected all (swap_while metres distance n fuel all s).best
    unfolding swap_while
    swap_while-IsImproved zero s there h k = absurd (omega arith)
    swap_while-IsImproved (suc fuel) s there h k =
        elim (Bool-cases (sweep metres distance n all s).improved) [
          | inl e ↦
              let (fewer, kept) = swept s there k e in
              rw e (
                swap_while-IsImproved fuel (sweep metres distance n all s) there
                  (omega (arith, fewer, h)) kept)
          | inr e ↦ rw e (settled_at s there k e)
        ]

    -- For distances whose `<` is irreflexive and transitive the loop of swaps ends: after it no swap of
    -- one selected pub for any other makes the tour shorter and keeps enough beers. What it gives is the first selection, or it covers at least `n` beers and
    -- its tour is shorter than the first; it has as many pubs, from the first selection and from `all`.
    pub local_swap_for_distance-IsImproved :
        IsImproved metres distance n selected all
          (local_swap_for_distance metres distance n selected all)
    unfolding local_swap_for_distance remaining Improved
    local_swap_for_distance-IsImproved =
        swap_while-IsImproved (suc (length pool ^ length selected))
          (record { best = selected; best_dist = Length selected; improved = true })
          (In-append_right selected all)
          (omega (
            arith,
            length-filter_le (λ l. metres.shorter (Length l) (Length selected))
                (selections (length selected) pool),
            length-selections (length selected) pool,
          ))
          (record {
            measured = refl;
            size = refl;
            from_pool = In-append_left selected all;
            improved = inl refl;
          })
