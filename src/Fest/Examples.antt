-- ===== src/Fest/Examples.antt =====
-- The festival's parts at concrete inputs.
use warsaw_beer_bot.Base.{
  ℕ, ◌+◌, ◌-◌, ◌≤◌, ◌<◌, ◌≡◌, ◌≢◌, refl, ◌↔◌, inr, true, false, none, some, List, [], ◌∷◌, All,
  AllPairs, arith,
}
use warsaw_beer_bot.Fest.Coverage.{Span, span, is_covered, merged, merge_from}
use warsaw_beer_bot.Base.Sort.{sort}
use warsaw_beer_bot.Fest.Coverage.Instants.{Watched, is_covered_iff}
use warsaw_beer_bot.Fest.Eyes as Eyes
use warsaw_beer_bot.Fest.Eyes.Gaps.{longest_gap-longest}
use warsaw_beer_bot.Fest.Eyes.Taps.{tap_status-not_seen}
use warsaw_beer_bot.Fest.Closure as Closure
use warsaw_beer_bot.Fest.Closure.Glasses.{proofs, close_member-distinct}
use warsaw_beer_bot.Fest.Closure.Judging.{IsOwn, Judged, closure_of-Judged}
use warsaw_beer_bot.Fest.Targets as Targets
use warsaw_beer_bot.Fest.Presence as Presence
use warsaw_beer_bot.Fest.Presence.Intervals.{Ordered, presence_intervals-Ordered}
use warsaw_beer_bot.Fest.Planning as Planning
use warsaw_beer_bot.Fest.Planning.Alerting.{IsPlan, plan_alerts-IsPlan}
use warsaw_beer_bot.Fest.Targets.Reasons.{IsSound, compute_targets-IsSound}

abbrev spans : List Span
spans = span 50 80 ∷ span 10 50 ∷ []

is_covered_iff_example :
    (is_covered spans 20 70 ≡ true) ↔ ((t : ℕ) → 20 ≤ t → t < 70 → Watched t spans)
is_covered_iff_example = is_covered_iff spans 20 70 (ground arith)

longest_gap-longest_example : 100 ≤ 80 + (Eyes.longest_gap spans record { from = 0; to = 100 }).ms
longest_gap-longest_example =
    longest_gap-longest spans record { from = 0; to = 100 } 80 100 (ground arith) (ground arith)
      (ground arith) (inr (ground arith), (inr (ground arith), tt))

abbrev one_venue : List ℕ
one_venue = 1 ∷ []

abbrev watched_spans : ℕ → List Span
watched_spans venue = span 0 5000000 ∷ []

abbrev other_beer : Eyes.TapCheckin
other_beer = record { bid = 8; checkin_at = 3900000 }

unseen : Eyes.tap_status 9 (other_beer ∷ []) watched_spans one_venue 4000000 ≡ Eyes.not_seen
unfolding Eyes.tap_status is_covered merged merge_from sort
unseen = refl

tap_status-not_seen_example :
    (one_venue ≢ [])
    × All
        (λ (c : Eyes.TapCheckin).
          c.bid ≡ 9 → 4000000 - 3600000 < c.checkin_at → c.checkin_at ≤ 4000000 → ⊥)
        (other_beer ∷ [])
    × All
        (λ v. (t : ℕ) → 4000000 - 3600000 ≤ t → t < 4000000 → Watched t (watched_spans v))
        one_venue
tap_status-not_seen_example =
    tap_status-not_seen 9 (other_beer ∷ []) watched_spans one_venue 4000000 (ground arith) unseen

abbrev glass : ℕ → Closure.ClosureItem
glass id = record { id = id; beer_id = 3; added_at = 1000000; expected = 7 ∷ []; marked = [] }

abbrev checkin : Closure.ClosureCheckin
checkin = record { telegram_id = 7; beer_id = 3; checkin_id = 44; checkin_at = 1200000 }

close_member-distinct_example :
    AllPairs ◌≢◌ (proofs (Closure.close_member (glass 1 ∷ glass 2 ∷ []) (checkin ∷ []) 7))
close_member-distinct_example = close_member-distinct (glass 1 ∷ glass 2 ∷ []) (checkin ∷ []) 7

closed :
    Closure.closure_of 7 (Closure.own_checkins 7 (checkin ∷ [])) (43 ∷ []) (glass 1)
    ≡ some (Closure.by_checkin 44)
unfolding Closure.closure_of sort
closed = refl

closure_of-Judged_example :
    IsOwn 7 (checkin ∷ []) (Closure.own_checkins 7 (checkin ∷ []))
    × Judged 7
        (Closure.own_checkins 7 (checkin ∷ []))
        (43 ∷ [])
        (glass 1)
        (Closure.closure_of 7 (Closure.own_checkins 7 (checkin ∷ [])) (43 ∷ []) (glass 1))
closure_of-Judged_example = closure_of-Judged 7 (checkin ∷ []) (43 ∷ []) (glass 1)

abbrev plain_item : Targets.TargetMenuItem
plain_item = record {
  beer_id = 5;
  section = [];
  name = 65 ∷ [];
  rating_global = some 410;
  style = none;
  abv = none;
}

abbrev criteria : Targets.TargetCriteria
criteria = record { min_rating = 400; min_abv = none; style_patterns = []; name_patterns = [] }

compute_targets-IsSound_example :
    IsSound
      (λ s. s)
      ((λ id. false) ∷ [])
      (λ id. none)
      criteria
      (Targets.compute_targets
        (λ s. s)
        (plain_item ∷ [])
        ((λ id. false) ∷ [])
        (λ id. none)
        criteria)
compute_targets-IsSound_example =
    compute_targets-IsSound (λ s. s) ((λ id. false) ∷ []) (λ id. none) criteria (plain_item ∷ [])

abbrev target : ℕ → ℕ → Planning.OnTapTarget
target id at = record { beer_id = id; first_at = some at; first_checkin_id = id }

plan_alerts-IsPlan_example :
    IsPlan
      (target 1 100 ∷ target 2 2000000 ∷ target 3 9000000 ∷ [])
      (λ id. false)
      2000000
      (Planning.plan_alerts
        (target 1 100 ∷ target 2 2000000 ∷ target 3 9000000 ∷ [])
        (λ id. false)
        2000000)
plan_alerts-IsPlan_example =
    plan_alerts-IsPlan (target 1 100 ∷ target 2 2000000 ∷ target 3 9000000 ∷ []) (λ id. false)
      2000000

abbrev arrival : Presence.PresenceEvent
arrival = record {
  telegram_id = 7;
  kind = Presence.start;
  source = Presence.explicit;
  at = 8000000;
}

presence_intervals-Ordered_example : All Ordered (
    Presence.presence_intervals
      (arrival ∷ [])
      (record { start_at = 7000000; end_at = 9000000 } ∷ []))
presence_intervals-Ordered_example =
    presence_intervals-Ordered (arrival ∷ []) (record { start_at = 7000000; end_at = 9000000 } ∷ [])
