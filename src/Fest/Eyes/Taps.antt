-- ===== src/Fest/Eyes/Taps.antt =====
-- What `tapStatus` answers.
use warsaw_beer_bot.Base.{
  ◌≢◌, ℕ, ◌-◌, ◌≤◌, ◌<◌, ◌≡◌, refl, sym, inl, inr, Bool, true, false, ◌&&◌, List, [], ◌∷◌, filter,
  Bool-cases, All, All-imp, all-All, subst, arith,
}
use warsaw_beer_bot.Fest.Coverage.{Span, is_covered}
use warsaw_beer_bot.Fest.Coverage.Instants.{Watched, is_covered_iff}
use warsaw_beer_bot.Fest.Eyes.{
  TapCheckin, TapStatus, on_tap, not_seen, unknown, tap_window_ms, is_hit, has_any, watched,
  status_of, tap_status,
}

-- The answer "not seen" is not the two others.
IsNotSeen : TapStatus → Type 0
IsNotSeen (on_tap t n) = ⊥
IsNotSeen not_seen = Unit
IsNotSeen unknown = ⊥

unhit_or_tapped :
    (p : TapCheckin → Bool) (l : List TapCheckin) (seen : Bool)
    → IsNotSeen (status_of (filter p l) seen)
    → All (λ c. p c ≡ false) l × (seen ≡ true)
unfolding IsNotSeen
unhit_or_tapped p [] true h = (tt, refl)
unhit_or_tapped p [] false h = absurd h
unhit_or_tapped p (c ∷ l) seen h = elim (Bool-cases (p c)) [
  | inl f ↦ absurd (rw f at h)
  | inr f ↦ let rest = unhit_or_tapped p l seen (rw f at h) in ((f, rest.0), rest.1)
]

hit_absurd :
    (bid now : ℕ) (c : TapCheckin)
    → is_hit bid now c ≡ false
    → c.bid ≡ bid
    → now - 3600000 < c.checkin_at
    → c.checkin_at ≤ now
    → ⊥
hit_absurd bid now c k same late early = ground arith

not_empty : (l : List ℕ) → has_any l ≡ true → l ≢ []
not_empty [] e = cc
not_empty (x ∷ l) e = cc

-- "Not seen" is proved: there is a venue, no check-in of the beer lies in the last hour, and the
-- spans of each venue cover every instant of that hour. The time is after the epoch.
pub tap_status-not_seen :
    (bid : ℕ) (checkins : List TapCheckin) (coverage_by_venue : ℕ → List Span) (venue_ids : List ℕ)
    (now : ℕ)
    → 0 < now
    → tap_status bid checkins coverage_by_venue venue_ids now ≡ not_seen
    → (venue_ids ≢ [])
      × All (λ c. c.bid ≡ bid → now - 3600000 < c.checkin_at → c.checkin_at ≤ now → ⊥) checkins
      × All (λ v. (t : ℕ) → now - 3600000 ≤ t → t < now → Watched t (coverage_by_venue v)) venue_ids
unfolding tap_status IsNotSeen
tap_status-not_seen bid checkins coverage_by_venue venue_ids now h e =
    let (unhit, seen) =
      unhit_or_tapped (is_hit bid now) checkins (watched coverage_by_venue venue_ids now)
        (subst IsNotSeen (sym e) tt) in
    let (some_venue, covered) = both (has_any venue_ids) _ seen in
    (
      not_empty venue_ids some_venue,
      All-imp (λ c k same late early. hit_absurd bid now c k same late early) checkins unhit,
      All-imp
          (λ v k.
            (is_covered_iff (coverage_by_venue v) (now - tap_window_ms) now (ground arith)).0 k)
          venue_ids
          (all-All (λ v. is_covered (coverage_by_venue v) (now - tap_window_ms) now) venue_ids
            covered),
    )
  where
    both : (a b : Bool) → (a && b) ≡ true → (a ≡ true) × (b ≡ true)
    both true b k = (refl, k)
    both false b k = cc
