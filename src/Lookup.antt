-- ===== src/Lookup.antt =====
-- src/domain/lookup-backoff.ts and rating-dominance.ts: when an orphan is looked up again, and which
-- of the search results is the one that is meant. Times are milliseconds since the epoch.
pub mod Backoff
pub mod Dominance
use warsaw_beer_bot.Base.{
  ℕ, zero, suc, ◌+◌, ◌-◌, ◌*◌, Bool, true, false, not, ◌&&◌, ◌||◌, Option, none, some, List, [],
  ◌∷◌, ◌++◌, leb, ltb, ◌==◌, if◌then◌else◌, length, map, filter, any,
}
use warsaw_beer_bot.Base.Sort.{sort}

abbrev pub backoff_hours : List ℕ
backoff_hours = 0 ∷ 72 ∷ 168 ∷ 728 ∷ []

abbrev pub last_or_nth : ℕ → ℕ → List ℕ → ℕ
last_or_nth n last [] = last
last_or_nth zero last (h ∷ l) = h
last_or_nth (suc n) last (h ∷ l) = last_or_nth n h l

-- The count of attempts is not negative.
unfoldable pub next_delay_hours : ℕ → ℕ
next_delay_hours count = last_or_nth count 0 backoff_hours

abbrev pub is_due : ℕ → Option ℕ → ℕ → Bool
is_due now none hours = true
is_due now (some lookup_at) hours = leb (lookup_at + hours * 3600000) now

unfoldable pub is_eligible : ℕ → Option ℕ → ℕ → Bool → Bool
unfolding next_delay_hours
is_eligible now lookup_at count recurring =
    if leb (length backoff_hours) count && not recurring
    then false
    else is_due now lookup_at (next_delay_hours count)

-- A search result. Strengths are in hundredths of a percent.
pub record SearchResult : Type 0 where
  pub bid : ℕ
  pub rating_count : Option ℕ
  pub abv : Option ℕ

abbrev pub dominance_ratio : ℕ
dominance_ratio = 5

abbrev pub flagship_min_ratings : ℕ
flagship_min_ratings = 1000

-- `Map` by bid: the last result of a bid, at the place of the first.
abbrev pub put_result : SearchResult → List SearchResult → List SearchResult
put_result r [] = r ∷ []
put_result r (x ∷ l) = let rest = put_result r l in if x.bid == r.bid then r ∷ l else x ∷ rest

abbrev pub unique_from : List SearchResult → List SearchResult → List SearchResult
unique_from seen [] = seen
unique_from seen (r ∷ l) = unique_from (put_result r seen) l

-- `ratingCount(r) ?? -1`, plus one.
abbrev pub rank : SearchResult → ℕ
rank r = elim r.rating_count [ none ↦ 0 | some n ↦ suc n ]

abbrev pub rivals : Option ℕ → ℕ → Bool
rivals none leader_count = false
rivals (some n) leader_count = ltb 0 n && ltb leader_count (dominance_ratio * n)

abbrev pub runner_up : List SearchResult → Option ℕ
runner_up [] = none
runner_up (r ∷ l) = r.rating_count

abbrev pub apart_by : ℕ → ℕ → ℕ
apart_by a b = (a - b) + (b - a)

abbrev pub contradicts : ℕ → Option ℕ → Option ℕ → Bool
contradicts tolerance (some abv) (some leader_abv) =
    ltb 0 leader_abv && ltb tolerance (apart_by leader_abv abv)
contradicts tolerance _ _ = false

abbrev pub led_by : ℕ → Option ℕ → SearchResult → List SearchResult → Option ℕ → Option SearchResult
led_by tolerance abv leader l none = none
led_by tolerance abv leader l (some count) =
    if ltb count flagship_min_ratings
    then none
    else if rivals (runner_up l) count
    then none
    else if contradicts tolerance abv leader.abv
    then none
    else some leader

abbrev pub of_ranked : ℕ → Option ℕ → List SearchResult → Option SearchResult
of_ranked tolerance abv [] = none
of_ranked tolerance abv (leader ∷ l) = led_by tolerance abv leader l leader.rating_count

-- `tolerance` is ABV_TOLERANCE of src/domain/matcher.ts.
unfoldable pub dominant_candidate : ℕ → List SearchResult → Option ℕ → Option SearchResult
dominant_candidate tolerance results abv =
    of_ranked tolerance abv (sort (λ a b. leb (rank b) (rank a)) (unique_from [] results))
