-- ===== src/Fest/Closure/Glasses.antt =====
-- One check-in proves one glass.
use warsaw_beer_bot.Base.{
  ℕ, ◌≡◌, refl, subst, inl, inr, true, false, ◌||◌, Option, none, some, List, [], ◌∷◌, ◌==◌,
  Bool-cases, All, All-imp, AllPairs, arith, ◌≢◌,
}
use warsaw_beer_bot.Base.Sort.{sort}
use warsaw_beer_bot.Fest.Closure.{
  ClosureItem, ClosureCheckin, Closure, by_checkin, by_mark, not_yet, includes, closure_of,
  used_after, entry, close_items, own_checkins, close_member, queued_before,
}
use warsaw_beer_bot.Fest.Closure.Judging.{Unused, Judged, closure_of_lem, Judged-Unused}

-- The check-ins that prove the glasses of a list of entries.
abbrev pub proofs : List (ℕ × Closure) → List ℕ
proofs [] = []
proofs ((id, by_checkin c) ∷ l) = c ∷ proofs l
proofs ((id, by_mark) ∷ l) = proofs l
proofs ((id, not_yet) ∷ l) = proofs l

module _ (m : ℕ) (own : List ClosureCheckin) where
  closure_of-Unused :
      (used : List ℕ) (item : ClosureItem) (c : ℕ)
      → closure_of m own used item ≡ some (by_checkin c)
      → Unused used c
  closure_of-Unused used item c e =
      Judged-Unused m own used item c
        (subst (Judged m own used item) e (closure_of_lem m own used item))

  proofs-Unused :
      (used : List ℕ) (items : List ClosureItem)
      → All (Unused used) (proofs (close_items m own used items))
        × AllPairs ◌≢◌ (proofs (close_items m own used items))
  unfolding close_items
  proofs-Unused used [] = (tt, tt)
  proofs-Unused used (item ∷ l) =
      by_closed (closure_of m own used item) (closure_of-Unused used item)
        (λ used1. proofs-Unused used1 l)
    where
      before : (c d : ℕ) → Unused (c ∷ used) d → Unused used d
      before c d k = elim (Bool-cases (c == d)) [
        | inl e ↦ absurd (apart (rw e at k))
        | inr e ↦ rw e at k
      ]
        where
          apart : (true || includes d used) ≡ false → ⊥
          apart i = cc

      other : (c d : ℕ) → Unused (c ∷ used) d → c ≢ d
      other c d k e = ground arith

      by_closed :
          (closed : Option Closure)
          → ((c : ℕ) → closed ≡ some (by_checkin c) → Unused used c)
          → ((used1 : List ℕ)
              → All (Unused used1) (proofs (close_items m own used1 l))
                × AllPairs ◌≢◌ (proofs (close_items m own used1 l)))
          → let l1 = proofs (entry item closed (close_items m own (used_after closed used) l)) in
            All (Unused used) l1 × AllPairs ◌≢◌ l1
      by_closed none h rest = rest used
      by_closed (some by_mark) h rest = rest used
      by_closed (some not_yet) h rest = rest used
      by_closed (some (by_checkin c)) h rest =
          let (fresh, distinct) = rest (c ∷ used) in
          (
            (h c refl, All-imp (λ d k. before c d k) _ fresh),
            (All-imp (λ d k. other c d k) _ fresh, distinct),
          )

-- One check-in proves one glass: among the entries that `closeQueue` sets for a member no check-in
-- occurs twice.
pub close_member-distinct :
    (items : List ClosureItem) (checkins : List ClosureCheckin) (m : ℕ)
    → AllPairs ◌≢◌ (proofs (close_member items checkins m))
unfolding close_member
close_member-distinct items checkins m =
    (proofs-Unused m (own_checkins m checkins) [] (sort queued_before items)).1
