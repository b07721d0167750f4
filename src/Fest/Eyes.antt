-- ===== src/Fest/Eyes.antt =====
-- src/domain/fest/eye-health.ts and tap-status.ts: how long a venue has gone unwatched, and whether
-- a beer is on tap. Times are milliseconds since the epoch, at least an hour of them.
pub mod Gaps
pub mod Taps
use warsaw_beer_bot.Base.{
  ℕ, suc, ◌-◌, ◌*◌, Bool, true, false, not, ◌&&◌, ◌||◌, Option, none, some, List, [], ◌∷◌, leb, ltb,
  ◌==◌, if◌then◌else◌, min, max, filter, all, length,
}
use warsaw_beer_bot.Fest.Coverage.{Span, merged, is_covered}

pub record Window : Type 0 where
  pub from : ℕ
  pub to : ℕ

pub record Gap : Type 0 where
  pub ms : ℕ
  pub from : ℕ

abbrev pub gap : ℕ → ℕ → Gap
gap ms from = record { ms = ms; from = from }

-- `next - cursor > best.ms ? { ms: next - cursor, from: cursor } : best`.
abbrev pub longer : Gap → ℕ → ℕ → Gap
longer best cursor next = if ltb best.ms (next - cursor) then gap (next - cursor) cursor else best

-- The loop of `longestGap`; a span that ends before the cursor changes nothing.
pub gap_from : Window → Gap → ℕ → List Span → Gap
gap_from w best cursor [] = longer best cursor w.to
gap_from w best cursor (m ∷ l) =
    let skipped = leb m.to_at cursor in
    let best1 = if skipped then best else longer best cursor m.from_at in
    let cursor1 = if skipped then cursor else max cursor m.to_at in
    let rest = gap_from w best1 cursor1 l in
    if skipped
    then rest
    else if leb w.to m.from_at
    then longer best cursor w.to
    else if leb w.to cursor1
    then best1
    else rest

unfoldable pub longest_gap : List Span → Window → Gap
unfolding gap_from
longest_gap spans w = gap_from w (gap 0 w.from) w.from (merged spans)

abbrev pub last_covered : ℕ → ℕ → List Span → ℕ
last_covered now last [] = last
last_covered now last (s ∷ l) =
    let to = min s.to_at now in
    last_covered now (if leb s.from_at now && ltb last to then to else last) l

unfoldable pub blind_ms : List Span → Window → ℕ → ℕ
blind_ms spans session now =
    if ltb now session.from || ltb session.to now
    then 0
    else now - last_covered now session.from spans

abbrev pub tap_window_ms : ℕ
tap_window_ms = 60 * 60 * 1000

pub record TapCheckin : Type 0 where
  pub bid : ℕ
  pub checkin_at : ℕ

-- The texts of `checkin_at` have one form, in which they are in the order of their times.
pub data TapStatus : Type 0 where
  on_tap : (last_at count : ℕ) → TapStatus
  not_seen unknown : TapStatus

abbrev pub is_hit : ℕ → ℕ → TapCheckin → Bool
is_hit bid now c =
    (c.bid == bid) && (ltb (now - tap_window_ms) c.checkin_at && leb c.checkin_at now)

abbrev pub latest : ℕ → List TapCheckin → ℕ
latest t [] = t
latest t (c ∷ l) = latest (if ltb t c.checkin_at then c.checkin_at else t) l

abbrev pub has_any : {A : Type 0} → List A → Bool
has_any [] = false
has_any (x ∷ l) = true

abbrev pub watched : (ℕ → List Span) → List ℕ → ℕ → Bool
watched coverage_by_venue venue_ids now =
    has_any venue_ids
    && all (λ v. is_covered (coverage_by_venue v) (now - tap_window_ms) now) venue_ids

abbrev pub status_of : List TapCheckin → Bool → TapStatus
status_of (c ∷ hits) seen = on_tap (latest c.checkin_at (c ∷ hits)) (length (c ∷ hits))
status_of [] seen = if seen then not_seen else unknown

-- A venue with no coverage has the empty list.
unfoldable pub tap_status : ℕ → List TapCheckin → (ℕ → List Span) → List ℕ → ℕ → TapStatus
tap_status bid checkins coverage_by_venue venue_ids now =
    status_of (filter (is_hit bid now) checkins) (watched coverage_by_venue venue_ids now)
