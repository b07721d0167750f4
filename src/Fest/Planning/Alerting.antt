-- ===== src/Fest/Planning/Alerting.antt =====
-- What is announced, where, and in which order.
use warsaw_beer_bot.Base.{
  Any-filter_iff, ℕ, ◌+◌, ◌≤◌, ◌<◌, ◌≡◌, refl, ap, ◌↔◌, Bool, true, false, not, ◌&&◌, Option, none,
  some, List, [], ◌∷◌, filter, All-imp, Any, AllPairs, AllPairs-filter, arith,
}
use warsaw_beer_bot.Base.Sort.{Any-sort, AllPairs-sort}
use warsaw_beer_bot.Fest.Planning.{
  OnTapTarget, AlertPlan, plausible, is_fresh, due_alerts, plan_alerts, announced_before, at_time,
}

-- A first check-in at a time, which is at most five minutes ahead of `now`; of the last fifteen
-- minutes; and older than that.
pub Plausible : ℕ → Option ℕ → Type 0
Plausible now o = (at : ℕ) × (o ≡ some at) × (at ≤ now + 300000)

pub IsNews : ℕ → Option ℕ → Type 0
IsNews now o = (at : ℕ) × (o ≡ some at) × (now ≤ at + 900000)

pub IsOld : ℕ → Option ℕ → Type 0
IsOld now o = (at : ℕ) × (o ≡ some at) × (at + 900000 < now)

-- One of the targets on tap that was not announced before and is plausible.
pub Due : List OnTapTarget → (ℕ → Bool) → ℕ → OnTapTarget → Type 0
Due on_tap sent now t =
    Any (λ u. u ≡ t) on_tap × (sent t.beer_id ≡ false) × Plausible now t.first_at

-- The earlier first check-in stands first, and of equal ones the beer with the lower id.
pub Earlier : OnTapTarget → OnTapTarget → Type 0
Earlier a b =
    (s t : ℕ)
    → a.first_at ≡ some s
    → b.first_at ≡ some t
    → (s ≤ t) × (s ≡ t → a.beer_id ≤ b.beer_id)

some-injective : (a b : ℕ) → some a ≡ some b → a ≡ b
some-injective a b e = cc

and_iff : (a b : Bool) → ((not a && b) ≡ true) ↔ ((a ≡ false) × (b ≡ true))
and_iff true b = (λ e. cc, λ h. cc)
and_iff false b = (λ e. (refl, e), λ h. h.1)

plausible_iff : (now : ℕ) (o : Option ℕ) → (plausible now o ≡ true) ↔ Plausible now o
unfolding Plausible
plausible_iff now none = (λ e. cc, λ h. cc)
plausible_iff now (some at) = (
  λ e. (at, refl, ground arith),
  λ h. let same = some-injective at h.0 h.1 in let late = h.2 in ground arith,
)

is_fresh_iff : (now : ℕ) (o : Option ℕ) → (is_fresh now o ≡ true) ↔ IsNews now o
unfolding IsNews
is_fresh_iff now none = (λ e. cc, λ h. cc)
is_fresh_iff now (some at) = (
  λ e. (at, refl, ground arith),
  λ h. let same = some-injective at h.0 h.1 in let late = h.2 in ground arith,
)

-- A plausible target is fresh or old.
not_fresh_iff :
    (now : ℕ) (o : Option ℕ) → Plausible now o → (not (is_fresh now o) ≡ true) ↔ IsOld now o
unfolding Plausible IsOld
not_fresh_iff now none k = cc
not_fresh_iff now (some at) k = (
  λ e. (at, refl, ground arith),
  λ h. let same = some-injective at h.0 h.1 in let late = h.2 in ground arith,
)

due_alerts_iff :
    (on_tap : List OnTapTarget) (sent : ℕ → Bool) (now : ℕ) (t : OnTapTarget)
    → Any (λ u. u ≡ t) (due_alerts on_tap sent now) ↔ Due on_tap sent now t
unfolding Due
due_alerts_iff on_tap sent now t =
    let p = λ (u : OnTapTarget). not (sent u.beer_id) && plausible now u.first_at in
    let (to, from) = Any-filter_iff p t on_tap in
    let (into, back) = Any-sort announced_before (λ u. u ≡ t) (filter p on_tap) in
    let (split, join) = and_iff (sent t.beer_id) (plausible now t.first_at) in
    let (read, write) = plausible_iff now t.first_at in
    (
      λ h. let k = to (back h) in ((k.0, (split k.1).0, read (split k.1).1)),
      λ h. into (from (h.0, join (h.1, write h.2))),
    )

-- The same, over the times that the sort compares.
Sorted : OnTapTarget → OnTapTarget → Type 0
Sorted a b =
    (at_time a.first_at ≤ at_time b.first_at)
    × (at_time a.first_at ≡ at_time b.first_at → a.beer_id ≤ b.beer_id)

Sorted-holds : (a b : OnTapTarget) → announced_before a b ≡ true → Sorted a b
unfolding Sorted
Sorted-holds a b e = ground arith

Sorted-turns : (a b : OnTapTarget) → announced_before a b ≡ false → Sorted b a
unfolding Sorted
Sorted-turns a b e = ground arith

Sorted-trans : (a b c : OnTapTarget) → Sorted a b → Sorted b c → Sorted a c
unfolding Sorted
Sorted-trans a b c h k = ground arith

Sorted-Earlier : (a b : OnTapTarget) → Sorted a b → Earlier a b
unfolding Sorted Earlier
Sorted-Earlier a b h s t e f = let first = ap at_time e in let second = ap at_time f in ground arith

AllPairs-Earlier : (l : List OnTapTarget) → AllPairs Sorted l → AllPairs Earlier l
AllPairs-Earlier [] h = tt
AllPairs-Earlier (t ∷ l) h = (All-imp (λ u k. Sorted-Earlier t u k) l h.0, AllPairs-Earlier l h.1)

due_alerts-Earlier :
    (on_tap : List OnTapTarget) (sent : ℕ → Bool) (now : ℕ)
    → AllPairs Earlier (due_alerts on_tap sent now)
due_alerts-Earlier on_tap sent now =
    AllPairs-Earlier _
      (AllPairs-sort announced_before Sorted Sorted-holds Sorted-turns Sorted-trans _)

Due-Plausible :
    (on_tap : List OnTapTarget) (sent : ℕ → Bool) (now : ℕ) (t : OnTapTarget)
    → Due on_tap sent now t
    → Plausible now t.first_at
unfolding Due
Due-Plausible on_tap sent now t h = h.2

-- What is announced: as fresh exactly the due targets of the last fifteen minutes, as pouring exactly
-- the older ones, each in the order of the first check-ins.
pub record IsPlan (on_tap : List OnTapTarget) (sent : ℕ → Bool) (now : ℕ) (plan : AlertPlan)
    : Type 0 where
  pub fresh :
      (t : OnTapTarget)
      → Any (λ u. u ≡ t) plan.fresh ↔ (Due on_tap sent now t × IsNews now t.first_at)
  pub pouring :
      (t : OnTapTarget)
      → Any (λ u. u ≡ t) plan.pouring ↔ (Due on_tap sent now t × IsOld now t.first_at)
  pub in_order : AllPairs Earlier plan.fresh × AllPairs Earlier plan.pouring

-- A target is announced exactly where it is on tap, was not announced before, and its first check-in is
-- not more than five minutes ahead of the clock: as fresh where that is at most fifteen minutes old, as
-- already pouring where it is older. Each of the two lists is in the order of the first check-ins, of
-- equal ones the beer with the lower id first.
pub plan_alerts-IsPlan :
    (on_tap : List OnTapTarget) (sent : ℕ → Bool) (now : ℕ)
    → IsPlan on_tap sent now (plan_alerts on_tap sent now)
unfolding plan_alerts
plan_alerts-IsPlan on_tap sent now = record {
  fresh = λ t.
      let (to, from) =
        Any-filter_iff (λ (u : OnTapTarget). is_fresh now u.first_at) t
          (due_alerts on_tap sent now) in
      let (into, back) = due_alerts_iff on_tap sent now t in
      let (read, write) = is_fresh_iff now t.first_at in
      (λ h. (into (to h).0, read (to h).1), λ h. from (back h.0, write h.1));
  pouring = λ t.
      let (to, from) =
        Any-filter_iff (λ (u : OnTapTarget). not (is_fresh now u.first_at)) t
          (due_alerts on_tap sent now) in
      let (into, back) = due_alerts_iff on_tap sent now t in
      (
        λ h. (
          into (to h).0,
          (not_fresh_iff now t.first_at (plausible_of t (into (to h).0))).0 (to h).1,
        ),
        λ h. from (back h.0, (not_fresh_iff now t.first_at (plausible_of t h.0)).1 h.1),
      );
  in_order = (
    AllPairs-filter Earlier _ _ (due_alerts-Earlier on_tap sent now),
    AllPairs-filter Earlier _ _ (due_alerts-Earlier on_tap sent now),
  );
}
  where
    plausible_of : (t : OnTapTarget) → Due on_tap sent now t → Plausible now t.first_at
    plausible_of t h = Due-Plausible on_tap sent now t h
