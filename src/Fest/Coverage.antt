-- ===== src/Fest/Coverage.antt =====
-- src/domain/fest/coverage.ts: the spans of a venue's feed that pages have proved. A time is the
-- number of milliseconds that `Date.parse` gives for its text.
pub mod Instants
use warsaw_beer_bot.Base.{
  ℕ, Bool, true, false, ◌&&◌, Option, none, some, List, [], ◌∷◌, leb, ltb, if◌then◌else◌, any, min,
  max,
}
use warsaw_beer_bot.Base.Sort.{sort}

pub record Span : Type 0 where
  pub from_at : ℕ
  pub to_at : ℕ

abbrev pub span : ℕ → ℕ → Span
span a b = record { from_at = a; to_at = b }

-- `none` for a text that is no time, as NaN.
pub record PageSpanInput : Type 0 where
  pub checkin_times : List (Option ℕ)
  pub cursor_at : Option (Option ℕ)
  pub fetched_at : Option ℕ
  pub now : Option ℕ

-- `Math.min` of two numbers, one of which may be NaN.
abbrev pub number_min : Option ℕ → Option ℕ → Option ℕ
number_min (some a) (some b) = some (min a b)
number_min _ _ = none

abbrev pub oldest_of : Option ℕ → List (Option ℕ) → Option ℕ
oldest_of t [] = t
oldest_of t (u ∷ l) = oldest_of (number_min t u) l

abbrev pub upper_of : PageSpanInput → Option (Option ℕ) → Option ℕ
upper_of p (some cursor_at) = number_min cursor_at p.now
upper_of p none = number_min p.fetched_at p.now

abbrev pub finite_span : Option ℕ → Option ℕ → Option Span
finite_span (some oldest) (some upper) = if ltb upper oldest then none else some (span oldest upper)
finite_span _ _ = none

abbrev pub span_of : PageSpanInput → List (Option ℕ) → Option Span
span_of p [] = none
span_of p (t ∷ l) = finite_span (oldest_of t l) (upper_of p p.cursor_at)

unfoldable pub page_span : PageSpanInput → Option Span
page_span p = span_of p p.checkin_times

-- The loop of `merged`, on the last interval put out and the spans that are left.
unfoldable pub merge_from : Span → List Span → List Span
merge_from last [] = last ∷ []
merge_from last (s ∷ l) =
    let meets = leb s.from_at last.to_at in
    let rest = merge_from (if meets then span last.from_at (max last.to_at s.to_at) else s) l in
    if meets then rest else last ∷ rest

abbrev pub merge_sorted : List Span → List Span
merge_sorted [] = []
merge_sorted (s ∷ l) = merge_from s l

unfoldable pub merged : List Span → List Span
unfolding merge_from
merged spans = merge_sorted (sort (λ a b. leb a.from_at b.from_at) spans)

unfoldable pub is_covered : List Span → ℕ → ℕ → Bool
unfolding merged
is_covered spans a b = any (λ m. leb m.from_at a && leb b m.to_at) (merged spans)

unfoldable pub touches : List Span → Span → Bool
touches spans s = any (λ x. leb x.from_at s.to_at && leb s.from_at x.to_at) spans
