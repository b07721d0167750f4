-- ===== src/Fest/Ranking/Tallies.antt =====
-- What a row of rankSections (src/domain/fest/ranking.ts) counts.
use warsaw_beer_bot.Base.{
  ==_iff, ℕ, suc, ◌<◌, Bool, true, false, Option, List, [], ◌∷◌, ◌++◌, ◌==◌, ◌≡◌, refl, ap, sym,
  ◌∙◌, inl, inr, if◌then◌else◌, Bool-cases, if-cases, filter, length, arith, All, All-append,
}
use warsaw_beer_bot.Base.Decimal.{Text, same_text}
use warsaw_beer_bot.Fest.Eyes.{TapStatus}
use warsaw_beer_bot.Fest.Targets.{Target}
use warsaw_beer_bot.Fest.Ranking.{
  SectionRank, or_unknown, is_on_tap, is_unknown, new_section, counted, add_target,
}

same_text_self : (s : Text) → same_text s s ≡ true
same_text_self [] = refl
same_text_self (a ∷ s) = rw ((==_iff a a).1 refl) (same_text_self s)

pub same_text_turned : (s t : Text) → same_text s t ≡ same_text t s
same_text_turned [] [] = refl
same_text_turned [] (b ∷ t) = refl
same_text_turned (a ∷ s) [] = refl
same_text_turned (a ∷ s) (b ∷ t) = elim (Bool-cases (a == b)) [
  | inl e ↦ rw (e, turned true e) (same_text_turned s t)
  | inr e ↦ rw (e, turned false e) refl
]
  where
    turned : (c : Bool) → a == b ≡ c → b == a ≡ c
    turned c e = ground (arith, e)

length-last : (xs : List Target) (t : Target) → length (xs ++ t ∷ []) ≡ suc (length xs)
length-last [] t = refl
length-last (x ∷ xs) t = ap suc (length-last xs t)

count-last :
    (p : Target → Bool) (xs : List Target) (t : Target)
    → length (filter p (xs ++ t ∷ []))
      ≡ (if p t then suc (length (filter p xs)) else length (filter p xs))
count-last p [] t =
    if-cases (λ (ys : List Target). length ys ≡ (if p t then 1 else 0)) (p t) _ _ (λ e. rw e refl)
      λ e. rw e refl
count-last p (x ∷ xs) t = elim (Bool-cases (p x)) [
  | inl e ↦ rw e (ap suc (count-last p xs t) ∙ pushed)
  | inr e ↦ rw e (count-last p xs t)
]
  where
    pushed :
        suc (if p t then suc (length (filter p xs)) else length (filter p xs))
        ≡ (if p t then suc (suc (length (filter p xs))) else suc (length (filter p xs)))
    pushed = elim (Bool-cases (p t)) [ inl e ↦ rw e refl | inr e ↦ rw e refl ]

module _ (status_of : ℕ → Option TapStatus) where
  abbrev pub status : Target → TapStatus
  status t = or_unknown (status_of t.beer_id)

  -- A row counts its targets, of which there is one at least, and all are of its section.
  pub record Tallied (r : SectionRank) : Type 0 where
    pub all : r.total ≡ length r.targets
    pub on_taps : r.on_taps ≡ length (filter (λ t. is_on_tap (status t)) r.targets)
    pub unknowns : r.unknowns ≡ length (filter (λ t. is_unknown (status t)) r.targets)
    pub some_target : 0 < r.total
    pub in_section : All (λ t. same_text r.section t.section ≡ true) r.targets

  -- The targets that a row has, it keeps, and the new one is in the row of its section.
  Counts : SectionRank → Type 0
  Counts r =
      (r.total ≡ length r.targets)
      × (r.on_taps ≡ length (filter (λ t. is_on_tap (status t)) r.targets))
      × (r.unknowns ≡ length (filter (λ t. is_unknown (status t)) r.targets))
      × All (λ t. same_text r.section t.section ≡ true) r.targets

  Tallied-counted :
      (t : Target) (r : SectionRank)
      → same_text r.section t.section ≡ true
      → Counts r
      → Tallied (counted t (status t) r)
  unfolding Counts
  Tallied-counted t r e (all, on, unknowns, inside) = record {
    all = ap suc all ∙ sym (length-last r.targets t);
    on_taps =
        ap (λ n. if is_on_tap (status t) then suc n else n) on ∙ sym (count-last _ r.targets t);
    unknowns =
        ap (λ n. if is_unknown (status t) then suc n else n) unknowns
        ∙ sym (count-last _ r.targets t);
    some_target = omega arith;
    in_section = All-append _ r.targets (t ∷ []) inside (e, tt);
  }

  Counts-Tallied : (r : SectionRank) → Tallied r → Counts r
  unfolding Counts
  Counts-Tallied r h = (h.all, h.on_taps, h.unknowns, h.in_section)

  Counts-new_section : (section : Text) → Counts (new_section section)
  unfolding Counts
  Counts-new_section section = (refl, refl, refl, tt)

  pub Tallied-add_target :
      (t : Target) (rows : List SectionRank)
      → All Tallied rows
      → All Tallied (add_target t (status t) rows)
  Tallied-add_target t [] h = (
    Tallied-counted t (new_section t.section) (same_text_self t.section)
        (Counts-new_section t.section),
    tt,
  )
  Tallied-add_target t (r ∷ rs) h = elim (Bool-cases (same_text r.section t.section)) [
    | inl e ↦ rw e (Tallied-counted t r e (Counts-Tallied r h.0), h.1)
    | inr e ↦ rw e (h.0, Tallied-add_target t rs h.1)
  ]
