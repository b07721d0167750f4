-- ===== src/Filters.antt =====
-- src/domain/filters.ts: which taps are interesting, and in which order. Ratings and strengths are in
-- hundredths. Style families and lower case are parameters.
pub mod Interesting
use Prim.Native.String.{String}
use text.Mathlib.Text.{◌==◌ as str_eq}
use warsaw_beer_bot.Base.{
  ℕ, Bool, true, false, not, ◌&&◌, ◌||◌, Option, none, some, List, [], ◌∷◌, leb, ltb, ◌==◌,
  if◌then◌else◌, filter, any,
}
use warsaw_beer_bot.Base.Sort.{sort}

pub record TapView : Type 0 where
  pub beer_id : Option ℕ
  pub untappd_id : Option ℕ
  pub style : Option String
  pub abv : Option ℕ
  pub u_rating : Option ℕ

-- A field that is not there and one that is `null` are both `none`; no styles are the empty list.
pub record FilterOpts : Type 0 where
  pub styles : List String
  pub min_rating : Option ℕ
  pub abv_min : Option ℕ
  pub abv_max : Option ℕ
  pub require_untappd_match : Bool

abbrev pub is_some : Option ℕ → Bool
is_some none = false
is_some (some n) = true

abbrev pub or_zero : Option ℕ → ℕ
or_zero none = 0
or_zero (some n) = n

abbrev pub not_below : Option ℕ → ℕ → Bool
not_below none n = true
not_below (some least) n = leb least n

abbrev pub not_above : Option ℕ → ℕ → Bool
not_above none n = true
not_above (some most) n = leb n most

abbrev pub is_untried : (ℕ → Bool) → Option ℕ → Bool
is_untried tried none = false
is_untried tried (some id) = not (tried id)

-- `b[1] - a[1]`, and where they are equal by beer.
abbrev pub ranked_before : TapView → TapView → Bool
ranked_before a b =
    ltb (or_zero b.u_rating) (or_zero a.u_rating)
    || ((or_zero a.u_rating == or_zero b.u_rating) && leb (or_zero a.beer_id) (or_zero b.beer_id))

unfoldable pub rank_by_rating : List TapView → List TapView
rank_by_rating taps = sort ranked_before taps

module _ (family : Option String → String) (to_lower_case : String → String) where
  abbrev pub of_style : List String → Option String → Bool
  of_style [] s = true
  of_style (x ∷ styles) s =
      any (λ y. str_eq (to_lower_case y) (to_lower_case (family s))) (x ∷ styles)

  -- The test of `filterInteresting`.
  unfoldable pub is_interesting : (ℕ → Bool) → FilterOpts → TapView → Bool
  is_interesting tried o t =
      is_untried tried t.beer_id
      && (not (o.require_untappd_match && not (is_some t.untappd_id))
          && (not_below o.min_rating (or_zero t.u_rating)
              && (not_below o.abv_min (or_zero t.abv)
                  && (not_above o.abv_max (or_zero t.abv) && of_style o.styles t.style))))

  unfoldable pub filter_interesting : List TapView → (ℕ → Bool) → FilterOpts → List TapView
  unfolding is_interesting
  filter_interesting taps tried o = filter (is_interesting tried o) taps
