-- ===== src/Fest/Ranking.antt =====
-- src/domain/fest/ranking.ts: the menu's sections, in the order in which to visit them. A Map keeps the order in
-- which its keys were added; `localeCompare` of two sections is a parameter.
pub mod Tallies
pub mod Sections
mod Examples
use warsaw_beer_bot.Base.{
  ℕ, suc, Bool, true, false, Option, none, some, List, [], ◌∷◌, ◌++◌, ltb, ◌==◌, if◌then◌else◌,
}
use warsaw_beer_bot.Base.Sort.{sort}
use warsaw_beer_bot.Base.Decimal.{Text, same_text}
use warsaw_beer_bot.Fest.Eyes.{TapStatus, on_tap, not_seen, unknown}
use warsaw_beer_bot.Fest.Targets.{Target}

pub record SectionRank : Type 0 where
  pub section : Text
  pub on_taps : ℕ
  pub unknowns : ℕ
  pub total : ℕ
  pub targets : List Target

abbrev pub or_unknown : Option TapStatus → TapStatus
or_unknown none = unknown
or_unknown (some s) = s

abbrev pub is_on_tap : TapStatus → Bool
is_on_tap (on_tap last_at count) = true
is_on_tap _ = false

abbrev pub is_unknown : TapStatus → Bool
is_unknown unknown = true
is_unknown _ = false

abbrev pub new_section : Text → SectionRank
new_section section = record {
  section = section;
  on_taps = 0;
  unknowns = 0;
  total = 0;
  targets = [];
}

abbrev pub counted : Target → TapStatus → SectionRank → SectionRank
counted t status row = record {
  section = row.section;
  on_taps = if is_on_tap status then suc row.on_taps else row.on_taps;
  unknowns = if is_unknown status then suc row.unknowns else row.unknowns;
  total = suc row.total;
  targets = row.targets ++ t ∷ [];
}

-- The row of the target's section, the new one at the end of the Map.
abbrev pub add_target : Target → TapStatus → List SectionRank → List SectionRank
add_target t status [] = counted t status (new_section t.section) ∷ []
add_target t status (r ∷ rs) =
    if same_text r.section t.section then counted t status r ∷ rs else r ∷ add_target t status rs

abbrev pub by_section : (ℕ → Option TapStatus) → List Target → List SectionRank → List SectionRank
by_section status_of [] rows = rows
by_section status_of (t ∷ ts) rows =
    by_section status_of ts (add_target t (or_unknown (status_of t.beer_id)) rows)

-- Whether the comparison of two rows is not positive.
abbrev pub ranked_before : (Text → Text → Bool) → SectionRank → SectionRank → Bool
ranked_before locale_le a b =
    if ltb b.on_taps a.on_taps
    then true
    else if ltb a.on_taps b.on_taps
    then false
    else if ltb b.unknowns a.unknowns
    then true
    else if ltb a.unknowns b.unknowns
    then false
    else if ltb b.total a.total
    then true
    else if ltb a.total b.total
    then false
    else locale_le a.section b.section

unfoldable pub rank_sections :
    (locale_le : Text → Text → Bool) → List Target → (ℕ → Option TapStatus) → List SectionRank
rank_sections locale_le targets status_of =
    sort (ranked_before locale_le) (by_section status_of targets [])
