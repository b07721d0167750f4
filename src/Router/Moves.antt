-- ===== src/Router/Moves.antt =====
-- What a swap and a sweep of swaps change: router.ts, localSwapForDistance.
use warsaw_beer_bot.Base.{
  ℕ, zero, suc, ◌≤◌, ◌<◌, Bool, true, false, List, [], ◌∷◌, ◌++◌, ltb, ◌==◌, ◌≡◌, refl, ap, sym,
  ◌∙◌, subst, ◌⊎◌, inl, inr, if-cases, arith, length, any, All, Any,
}
use warsaw_beer_bot.Router.{union, set_at, Swap, tour_length, try_swap, try_all, sweep_from}
use warsaw_beer_bot.Router.Tours.{RoutePub, Metres}
use warsaw_beer_bot.Router.Selections.{In, length-set_at, In-set_at}

-- What `<` is on numbers, Infinity and NaN included.
pub record IsStrict {D : Type 0} (metres : Metres D) : Type 0 where
  pub irreflexive : (a : D) → metres.shorter a a ≡ false
  pub transitive :
      (a b c : D)
      → metres.shorter a b ≡ true
      → metres.shorter b c ≡ true
      → metres.shorter a c ≡ true

pub differ : {b : Bool} → b ≡ true → b ≡ false → ⊥
differ e f = cc

module _ {D : Type 0} (metres : Metres D) (distance : RoutePub → RoutePub → D) (n : ℕ)
    (selected all : List RoutePub) where
  abbrev Length : List RoutePub → D
  Length pubs = tour_length metres distance n pubs

  abbrev pool : List RoutePub
  pool = selected ++ all

  -- No swap of the pub at `i` for the candidate: it is selected already, too few beers are left, or the
  -- tour gets no shorter.
  unfoldable pub Stuck : List RoutePub → ℕ → RoutePub → Type 0
  Stuck best i cand =
      Any (λ p. p.id ≡ cand.id) best
      ⊎ (length (union (set_at i cand best)) < n)
      ⊎ (metres.shorter (Length (set_at i cand best)) (Length best) ≡ false)

  -- The first selection, or one that covers enough and whose tour is shorter.
  unfoldable pub Improved : List RoutePub → Type 0
  Improved best =
      (best ≡ selected)
      ⊎ (n ≤ length (union best)) × (metres.shorter (Length best) (Length selected) ≡ true)

  -- The selection after the swaps.
  pub record IsImproved (after : List RoutePub) : Type 0 where
    pub settled : (i : ℕ) → i < length after → All (Stuck after i) all
    pub improved : Improved after
    pub size : length after ≡ length selected
    pub from_pool : All (In pool) after

  pub record IsKept (s : Swap D) : Type 0 where
    pub measured : s.best_dist ≡ Length s.best
    pub size : length s.best ≡ length selected
    pub from_pool : All (In pool) s.best
    pub improved : Improved s.best

  -- From `s` to `t`: nothing has changed, or the tour is shorter.
  unfoldable pub Moves : Swap D → Swap D → Type 0
  Moves s t =
      (t ≡ s)
      ⊎ (t.improved ≡ true)
        × (metres.shorter t.best_dist s.best_dist ≡ true)
        × (IsKept s → IsKept t)

  Moves-refl : (s : Swap D) → Moves s s
  unfolding Moves
  Moves-refl s = inl refl

  module _ (strict : IsStrict metres) where
    Moves-trans : (s t u : Swap D) → Moves s t → Moves t u → Moves s u
    unfolding Moves
    Moves-trans s t u (inl e) k = subst (λ x. Moves x u) e k
    Moves-trans s t u (inr h) (inl e) = subst (λ x. Moves s x) (sym e) (inr h)
    Moves-trans s t u (inr (a, b, c)) (inr (d, e, f)) =
        inr (d, strict.transitive u.best_dist t.best_dist s.best_dist e b, λ k. f (c k))

    Improved-shorter :
        (s : Swap D) (l : List RoutePub)
        → IsKept s
        → n ≤ length (union l)
        → metres.shorter (Length l) s.best_dist ≡ true
        → Improved l
    unfolding Improved
    Improved-shorter s l k covers shorter = elim k.improved [
      | inl e ↦ inr (
        covers,
        subst (λ d. metres.shorter (Length l) d ≡ true) (k.measured ∙ ap Length e) shorter,
      )
      | inr h ↦ inr (
        covers,
        strict.transitive (Length l) (Length s.best) (Length selected)
            (subst (λ d. metres.shorter (Length l) d ≡ true) k.measured shorter) h.1,
      )
    ]

    pub Moves-try_swap :
        (i : ℕ) (cand : RoutePub) (s : Swap D)
        → In pool cand
        → Moves s (try_swap metres distance n i cand s)
    unfolding Moves
    Moves-try_swap i cand s there =
        let trial = set_at i cand s.best in
        if-cases (Moves s) (any (λ p. p.id == cand.id) s.best) _ _ (λ e. inl refl)
          λ e.
            if-cases (Moves s) (ltb (length (union trial)) n) _ _ (λ f. inl refl)
              λ f.
                if-cases (Moves s) (metres.shorter (Length trial) s.best_dist) _ _
                  (λ g. inr (
                    refl,
                    g,
                    λ k. record {
                      measured = refl;
                      size = length-set_at i cand s.best ∙ k.size;
                      from_pool = In-set_at pool i cand s.best there k.from_pool;
                      improved = Improved-shorter s trial k (ground arith) g;
                    },
                  ))
                  λ g. inl refl

    pub Moves-try_all :
        (i : ℕ) (cands : List RoutePub) (s : Swap D)
        → All (In pool) cands
        → Moves s (try_all metres distance n i cands s)
    unfolding try_all
    Moves-try_all i [] s h = Moves-refl s
    Moves-try_all i (cand ∷ cands) s h =
        Moves-trans s _ _ (Moves-try_swap i cand s h.0)
          (Moves-try_all i cands (try_swap metres distance n i cand s) h.1)

    pub Moves-sweep_from :
        (left i : ℕ) (s : Swap D)
        → All (In pool) all
        → Moves s (sweep_from metres distance n left i all s)
    unfolding sweep_from
    Moves-sweep_from zero i s h = Moves-refl s
    Moves-sweep_from (suc left) i s h =
        Moves-trans s _ _ (Moves-try_all i all s h)
          (Moves-sweep_from left (suc i) (try_all metres distance n i all s) h)

    -- Where the flag is down, nothing has changed.
    pub Moves-unchanged : (s t : Swap D) → Moves s t → t.improved ≡ false → t ≡ s
    unfolding Moves
    Moves-unchanged s t (inl e) f = e
    Moves-unchanged s t (inr h) f = absurd (differ h.0 f)

    pub Moves-stays : (s t : Swap D) → Moves s t → s.improved ≡ true → t.improved ≡ true
    unfolding Moves
    Moves-stays s t (inl e) f = ap (λ (x : Swap D). x.improved) e ∙ f
    Moves-stays s t (inr h) f = h.0
