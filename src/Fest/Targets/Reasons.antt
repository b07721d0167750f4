-- ===== src/Fest/Targets/Reasons.antt =====
-- Why a beer is a target.
use warsaw_beer_bot.Base.{
  ℕ, ◌≡◌, refl, ◌⊎◌, inl, inr, Bool, true, false, not, ◌&&◌, Option, none, some, List, [], ◌∷◌, all,
  All, if-cases,
}
use warsaw_beer_bot.Base.Decimal.{Text}
use warsaw_beer_bot.Fest.Targets.{
  TargetMenuItem, TargetCriteria, TargetReason, manual, Override, add, remove, Target,
  TargetsResult, has_any, is_none, reasons_of, put_target, place, untried_by, sift, compute_targets,
}

module _ (lower : Text → Text) (tried_by_member : List (ℕ → Bool)) (overrides : ℕ → Option Override)
    (criteria : TargetCriteria) where
  -- Nobody has had the beer.
  abbrev pub Untried : ℕ → Type 0
  Untried id = all (λ tried. not (tried id)) tried_by_member ≡ true

  abbrev pub Asked : Option Override → Type 0
  Asked (some add) = Unit
  Asked _ = ⊥

  abbrev pub Kept : Option Override → Type 0
  Kept (some remove) = ⊥
  Kept _ = Unit

  -- A target is not removed by hand, has a reason, and either nobody has had it or the one reason is
  -- that it was added by hand.
  abbrev pub Justified : Target → Type 0
  Justified t =
      Kept (overrides t.beer_id)
      × (has_any t.reasons ≡ true)
      × (Untried t.beer_id ⊎ (t.reasons ≡ manual ∷ []) × Asked (overrides t.beer_id))

  abbrev pub Unknown : TargetMenuItem → Type 0
  Unknown item =
      Kept (overrides item.beer_id) × Untried item.beer_id × (is_none item.rating_global ≡ true)

  abbrev pub IsSound : TargetsResult → Type 0
  IsSound r = All Justified r.targets × All Unknown r.unrated

  put_target-IsSound :
      (item : TargetMenuItem) (untried : Bool) (reasons : List TargetReason) (rest : TargetsResult)
      → untried_by lower tried_by_member item ≡ untried
      → Kept (overrides item.beer_id)
      → (untried ≡ false
          → has_any reasons ≡ true
          → (reasons ≡ manual ∷ []) × Asked (overrides item.beer_id))
      → IsSound rest
      → IsSound (put_target lower item untried reasons rest)
  put_target-IsSound item untried [] rest e k by_hand h = (
    h.0,
    if-cases (All Unknown) (untried && is_none item.rating_global) _ _
        (λ f. let (u, n) = parts untried _ e f in ((k, u, n), h.1)) (λ f. h.1),
  )
    where
      parts :
          (u b : Bool)
          → untried_by lower tried_by_member item ≡ u
          → (u && b) ≡ true
          → Untried item.beer_id × (b ≡ true)
      parts true b e f = (e, f)
      parts false b e f = cc
  put_target-IsSound item true (r ∷ reasons) rest e k by_hand h = (((k, refl, inl e), h.0), h.1)
  put_target-IsSound item false (r ∷ reasons) rest e k by_hand h =
      (((k, refl, inr (by_hand refl refl)), h.0), h.1)

  by_hand :
      (u : Bool) (o : Option Override) (item : TargetMenuItem)
      → u ≡ false
      → has_any (reasons_of lower criteria u o item) ≡ true
      → (reasons_of lower criteria u o item ≡ manual ∷ []) × Asked o
  by_hand true o item e h = cc
  by_hand false (some add) item e h = (refl, tt)
  by_hand false (some remove) item e h = cc
  by_hand false none item e h = cc

  place-IsSound :
      (item : TargetMenuItem) (o : Option Override) (rest : TargetsResult)
      → overrides item.beer_id ≡ o
      → IsSound rest
      → IsSound (place lower criteria (untried_by lower tried_by_member item) o item rest)
  place-IsSound item (some remove) rest e h = h
  place-IsSound item (some add) rest e h =
      put_target-IsSound item _ _ rest refl (rw e tt) (λ f g. rw e (by_hand _ (some add) item f g))
        h
  place-IsSound item none rest e h =
      put_target-IsSound item _ _ rest refl (rw e tt) (λ f g. rw e (by_hand _ none item f g)) h

  sift-IsSound :
      (menu : List TargetMenuItem) → IsSound (sift lower tried_by_member overrides criteria menu)
  unfolding sift
  sift-IsSound [] = (tt, tt)
  sift-IsSound (item ∷ menu) =
      place-IsSound item (overrides item.beer_id) _ refl (sift-IsSound menu)

  -- Every target was not removed by hand and has a reason, and nobody has had it unless its one
  -- reason is that it was added by hand. Every unrated beer was not removed, has no rating, and nobody
  -- has had it.
  pub compute_targets-IsSound :
      (menu : List TargetMenuItem)
      → IsSound (compute_targets lower menu tried_by_member overrides criteria)
  unfolding compute_targets
  compute_targets-IsSound menu =
      if-cases IsSound (has_any tried_by_member) _ _ (λ _. sift-IsSound menu) (λ _. (tt, tt))
