-- ===== src/Fest/Ranking/Sections.antt =====
-- What rankSections (src/domain/fest/ranking.ts) lists, and in which order.
use warsaw_beer_bot.Base.{
  ℕ, ◌≤◌, Bool, true, false, Option, List, [], ◌∷◌, ◌≡◌, refl, ◌∙◌, inl, inr, Bool-cases, arith,
  All, All-imp, Any, Any-append_left, Any-append_right, AllPairs,
}
use warsaw_beer_bot.Base.Sort.{AllPairs-sort, All-sort, Any-sort, AllPairs-sort_symmetric}
use warsaw_beer_bot.Base.Decimal.{Text, same_text}
use warsaw_beer_bot.Fest.Eyes.{TapStatus}
use warsaw_beer_bot.Fest.Targets.{Target}
use warsaw_beer_bot.Fest.Ranking.Tallies.{same_text_turned, status, Tallied, Tallied-add_target}
use warsaw_beer_bot.Fest.Ranking.{SectionRank, add_target, by_section, ranked_before, rank_sections}

-- More targets poured now come first, then more of unknown state, then more of all.
unfoldable pub Before : SectionRank → SectionRank → Type 0
Before a b =
    (b.on_taps ≤ a.on_taps)
    × (a.on_taps ≡ b.on_taps
        → (b.unknowns ≤ a.unknowns) × (a.unknowns ≡ b.unknowns → b.total ≤ a.total))

module _ (locale_le : Text → Text → Bool) where
  Before-holds : (a b : SectionRank) → ranked_before locale_le a b ≡ true → Before a b
  unfolding Before
  Before-holds a b h = ground arith

  Before-turns : (a b : SectionRank) → ranked_before locale_le a b ≡ false → Before b a
  unfolding Before
  Before-turns a b h = ground arith

Before-trans : (a b c : SectionRank) → Before a b → Before b c → Before a c
unfolding Before
Before-trans a b c h k = ground arith

-- No two rows are of one section.
pub Different : SectionRank → SectionRank → Type 0
Different a b = same_text a.section b.section ≡ false

Different-turned : (a b : SectionRank) → Different a b → Different b a
unfolding Different
Different-turned a b h = same_text_turned b.section a.section ∙ h

Different-add_target :
    (t : Target) (status : TapStatus) (rows : List SectionRank)
    → AllPairs Different rows
    → AllPairs Different (add_target t status rows)
unfolding Different
Different-add_target t status [] h = (tt, tt)
Different-add_target t status (r ∷ rs) h = elim (Bool-cases (same_text r.section t.section)) [
  | inl e ↦ rw e h
  | inr e ↦ rw e (still r rs e h.0, Different-add_target t status rs h.1)
]
  where
    still :
        (r : SectionRank) (rs : List SectionRank)
        → same_text r.section t.section ≡ false
        → All (λ b. same_text r.section b.section ≡ false) rs
        → All (λ b. same_text r.section b.section ≡ false) (add_target t status rs)
    still r [] e k = (e, tt)
    still r (b ∷ bs) e k = elim (Bool-cases (same_text b.section t.section)) [
      | inl f ↦ rw f k
      | inr f ↦ rw f (k.0, still r bs e k.1)
    ]

-- A target of a row.
pub Listed : Target → SectionRank → Type 0
Listed t r = Any (λ u. u ≡ t) r.targets

Listed-added :
    (t : Target) (status : TapStatus) (rows : List SectionRank)
    → Any (Listed t) (add_target t status rows)
unfolding Listed
Listed-added t status [] = inl (inl refl)
Listed-added t status (r ∷ rs) = elim (Bool-cases (same_text r.section t.section)) [
  | inl e ↦ rw e (inl (Any-append_right _ r.targets _ (inl refl)))
  | inr e ↦ rw e (inr (Listed-added t status rs))
]

Listed-kept :
    (u t : Target) (status : TapStatus) (rows : List SectionRank)
    → Any (Listed u) rows
    → Any (Listed u) (add_target t status rows)
unfolding Listed
Listed-kept u t status [] k = absurd k
Listed-kept u t status (r ∷ rs) k = elim (Bool-cases (same_text r.section t.section)) [
  | inl e ↦ rw e (elim k [ inl a ↦ inl (Any-append_left _ r.targets _ a) | inr b ↦ inr b ])
  | inr e ↦ rw e (elim k [ inl a ↦ inl a | inr b ↦ inr (Listed-kept u t status rs b) ])
]

module _ (status_of : ℕ → Option TapStatus) where
  Tallied-by_section :
      (ts : List Target) (rows : List SectionRank)
      → All (Tallied status_of) rows
      → All (Tallied status_of) (by_section status_of ts rows)
  Tallied-by_section [] rows h = h
  Tallied-by_section (t ∷ ts) rows h =
      Tallied-by_section ts _ (Tallied-add_target status_of t rows h)

  Different-by_section :
      (ts : List Target) (rows : List SectionRank)
      → AllPairs Different rows
      → AllPairs Different (by_section status_of ts rows)
  Different-by_section [] rows h = h
  Different-by_section (t ∷ ts) rows h =
      Different-by_section ts _ (Different-add_target t (status status_of t) rows h)

  Listed-by_section_kept :
      (u : Target) (ts : List Target) (rows : List SectionRank)
      → Any (Listed u) rows
      → Any (Listed u) (by_section status_of ts rows)
  Listed-by_section_kept u [] rows k = k
  Listed-by_section_kept u (t ∷ ts) rows k =
      Listed-by_section_kept u ts _ (Listed-kept u t (status status_of t) rows k)

  Listed-by_section :
      (ts : List Target) (rows : List SectionRank)
      → All (λ t. Any (Listed t) (by_section status_of ts rows)) ts
  Listed-by_section [] rows = tt
  Listed-by_section (t ∷ ts) rows = (
    Listed-by_section_kept t ts _ (Listed-added t (status status_of t) rows),
    Listed-by_section ts _,
  )

  -- The rows are in order, count their targets, are of different sections, and hold every target.
  pub record IsRanking (targets : List Target) (rows : List SectionRank) : Type 0 where
    pub ordered : AllPairs Before rows
    pub tallied : All (Tallied status_of) rows
    pub different : AllPairs Different rows
    pub complete : All (λ t. Any (Listed t) rows) targets

-- Every target is in a row; the rows are of different sections, hold at least one target each, only those
-- of their section, and count them, those poured now and those of unknown state; and a row with more
-- targets poured now, then of unknown state, then of all, comes first. However sections are compared.
pub rank_sections-IsRanking :
    (locale_le : Text → Text → Bool) (targets : List Target) (status_of : ℕ → Option TapStatus)
    → IsRanking status_of targets (rank_sections locale_le targets status_of)
unfolding rank_sections
rank_sections-IsRanking locale_le targets status_of = record {
  ordered =
      AllPairs-sort le Before (Before-holds locale_le) (Before-turns locale_le) Before-trans rows;
  tallied = All-sort le (Tallied status_of) rows (Tallied-by_section status_of targets [] tt);
  different =
      AllPairs-sort_symmetric le Different Different-turned rows
        (Different-by_section status_of targets [] tt);
  complete =
      All-imp (λ t k. (Any-sort le (Listed t) rows).0 k) targets
        (Listed-by_section status_of targets []);
}
  where
    le : SectionRank → SectionRank → Bool
    le = ranked_before locale_le

    rows : List SectionRank
    rows = by_section status_of targets []
