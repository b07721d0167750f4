-- ===== src/Fest/Targets.antt =====
-- src/domain/fest/targets.ts: which beers of the menu are worth the queue. Ratings and strengths are
-- in hundredths.
pub mod Reasons
use warsaw_beer_bot.Base.{
  ℕ, Bool, true, false, not, ◌&&◌, ◌||◌, Option, none, some, List, [], ◌∷◌, ◌++◌, map, leb, ltb,
  ◌==◌, if◌then◌else◌, filter, any, all,
}
use warsaw_beer_bot.Base.Decimal.{Text}
use warsaw_beer_bot.Report.{trim}

pub record TargetMenuItem : Type 0 where
  pub beer_id : ℕ
  pub section : Text
  pub name : Text
  pub rating_global : Option ℕ
  pub style : Option Text
  pub abv : Option ℕ

pub record TargetCriteria : Type 0 where
  pub min_rating : ℕ
  pub min_abv : Option ℕ
  pub style_patterns : List Text
  pub name_patterns : List Text

pub data TargetReason : Type 0 where
  rating style abv name manual : TargetReason

pub data Override : Type 0 where
  add remove : Override

pub record Target : Type 0 where
  pub beer_id : ℕ
  pub section : Text
  pub reasons : List TargetReason
  pub rating : Option ℕ
  pub style : Option Text

pub record TargetsResult : Type 0 where
  pub targets : List Target
  pub unrated : List TargetMenuItem

abbrev pub has_any : {A : Type 0} → List A → Bool
has_any [] = false
has_any (x ∷ l) = true

abbrev pub starts_with : Text → Text → Bool
starts_with [] s = true
starts_with (c ∷ p) [] = false
starts_with (c ∷ p) (d ∷ s) = (c == d) && starts_with p s

-- `s.includes(p)`.
abbrev pub contains : Text → Text → Bool
contains s p = starts_with p s || later s p
  where
    later : Text → Text → Bool
    later [] q = false
    later (c ∷ t) q = starts_with q t || later t q

abbrev pub at_least : Option ℕ → ℕ → Bool
at_least none n = false
at_least (some r) n = leb n r

-- The strength against its threshold; 0 is an unknown strength.
abbrev pub strong : Option ℕ → Option ℕ → Bool
strong none a = false
strong (some least) none = false
strong (some least) (some a) = ltb 0 a && leb least a

abbrev pub when : Bool → TargetReason → List TargetReason
when b r = if b then r ∷ [] else []

abbrev pub is_add : Option Override → Bool
is_add (some add) = true
is_add _ = false

abbrev pub is_none : Option ℕ → Bool
is_none none = true
is_none (some n) = false

-- `lower` is `toLowerCase`.
module _ (lower : Text → Text) where
  abbrev pub lower_style : Option Text → Text
  lower_style none = lower []
  lower_style (some s) = lower s

  abbrev pub is_style : List Text → Option Text → Bool
  is_style patterns s =
      has_any (lower_style s) && any (contains (lower_style s)) (map lower patterns)

  abbrev pub is_name : List Text → Text → Bool
  is_name patterns s =
      any (contains (lower s)) (filter has_any (map (λ p. lower (trim p)) patterns))

  -- The reasons that need a beer that nobody has had.
  unfoldable pub automatic : TargetCriteria → TargetMenuItem → List TargetReason
  automatic criteria item =
      when (at_least item.rating_global criteria.min_rating) rating
      ++ (when (is_style criteria.style_patterns item.style) style
          ++ (when (strong criteria.min_abv item.abv) abv
              ++ when (is_name criteria.name_patterns item.name) name))

  abbrev pub reasons_of :
      TargetCriteria → Bool → Option Override → TargetMenuItem → List TargetReason
  reasons_of criteria untried o item =
      (if untried then automatic criteria item else []) ++ when (is_add o) manual

  abbrev pub put_target : TargetMenuItem → Bool → List TargetReason → TargetsResult → TargetsResult
  put_target item untried (r ∷ reasons) rest = record {
    targets =
        record {
          beer_id = item.beer_id;
          section = item.section;
          reasons = r ∷ reasons;
          rating = item.rating_global;
          style = item.style;
        }
        ∷ rest.targets;
    unrated = rest.unrated;
  }
  put_target item untried [] rest = record {
    targets = rest.targets;
    unrated = if untried && is_none item.rating_global then item ∷ rest.unrated else rest.unrated;
  }

  -- A menu item, before those after it.
  abbrev pub place :
      TargetCriteria → Bool → Option Override → TargetMenuItem → TargetsResult → TargetsResult
  place criteria untried (some remove) item rest = rest
  place criteria untried o item rest =
      put_target item untried (reasons_of criteria untried o item) rest

  abbrev pub untried_by : List (ℕ → Bool) → TargetMenuItem → Bool
  untried_by tried_by_member item = all (λ tried. not (tried item.beer_id)) tried_by_member

  abbrev pub nothing : TargetsResult
  nothing = record { targets = []; unrated = [] }

  unfoldable pub sift :
      List (ℕ → Bool) → (ℕ → Option Override) → TargetCriteria → List TargetMenuItem → TargetsResult
  sift tried_by_member overrides criteria [] = nothing
  sift tried_by_member overrides criteria (item ∷ menu) =
      place criteria (untried_by tried_by_member item) (overrides item.beer_id) item
        (sift tried_by_member overrides criteria menu)

  unfoldable pub compute_targets :
      List TargetMenuItem → List (ℕ → Bool) → (ℕ → Option Override) → TargetCriteria → TargetsResult
  unfolding sift
  compute_targets menu tried_by_member overrides criteria =
      if has_any tried_by_member then sift tried_by_member overrides criteria menu else nothing
