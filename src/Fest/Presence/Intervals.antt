-- ===== src/Fest/Presence/Intervals.antt =====
-- The intervals are the right way round.
use warsaw_beer_bot.Base.{
  ℕ, ◌+◌, ◌≤◌, ◌≡◌, refl, inl, inr, Bool, true, false, not, ◌&&◌, ◌||◌, Option, none, some, List,
  [], ◌∷◌, leb, ltb, ◌==◌, find?, Bool-cases, All, All-imp, All-append, All-filter, AllPairs,
  if-cases, arith,
}
use warsaw_beer_bot.Base.Sort.{sort, AllPairs-sort}
use warsaw_beer_bot.Fest.Presence.{
  FestSession, EventKind, start, end, EventSource, explicit, PresenceEvent, Interval, interval,
  Presence, of_member, session_end, session_lead_ms, close_current, forget_end, close_still,
  hold_end, is_checkin, is_some, begin_at, take_event, settled, step_presence, is_end, before,
  run_events, no_presence, presence_intervals,
}

abbrev pub Ordered : Interval → Type 0
Ordered i = i.from ≤ i.to

-- At a time: an open interval has begun and its session ends after its beginning.
abbrev Sound : ℕ → Presence → Type 0
Sound t p = All Ordered p.out × All (λ i. Ordered i × (i.from ≤ t)) p.opened

Found : (Interval → Type 0) → Option Interval → Type 0
Found P none = Unit
Found P (some i) = P i

found :
    (P : Interval → Type 0) (p : Interval → Bool) (l : List Interval)
    → All P l
    → Found P (find? p l)
unfolding Found
found P p [] h = tt
found P p (i ∷ l) h = if-cases (Found P) (p i) _ _ (λ _. h.0) λ _. found P p l h.1

session_end-le :
    (sessions : List FestSession) (t : ℕ) (until : ℕ)
    → session_end sessions t ≡ some until
    → t ≤ until
session_end-le [] t until e = absurd (nothing e)
  where
    nothing : none ≡ some until → ⊥
    nothing k = cc
session_end-le (s ∷ l) t until e =
    elim (Bool-cases (leb s.start_at (t + session_lead_ms) && leb t s.end_at)) [
      | inl f ↦ let same : s.end_at ≡ until = injective _ _ (rw f at e) in ground arith
      | inr f ↦ session_end-le l t until (rw f at e)
    ]
  where
    injective : (a b : ℕ) → some a ≡ some b → a ≡ b
    injective a b k = cc

module _ (t : ℕ) where
  Open : Interval → Type 0
  Open i = Ordered i × (i.from ≤ t)

  close_current-Sound :
      (o : Option Interval) (p : Presence)
      → Found (λ i. Ordered i × (i.from ≤ t)) o
      → Sound t p
      → Sound t (close_current t o p)
  unfolding Found
  close_current-Sound none p h k = k
  close_current-Sound (some i) p h k =
      if-cases (Sound t) (ltb i.to t) _ _
        (λ _. (All-append Ordered p.out (i ∷ []) k.0 (h.0, tt), All-filter _ _ p.opened k.1))
        (λ _. k)

  close_still-Sound :
      (o : Option Interval) (p : Presence)
      → Found (λ i. Ordered i × (i.from ≤ t)) o
      → Sound t p
      → Sound t (close_still t o p)
  unfolding Found
  close_still-Sound none p h k = k
  close_still-Sound (some i) p h k = (
    All-append Ordered p.out (interval i.member i.from t ∷ []) k.0 (h.1, tt),
    All-filter _ _ p.opened k.1,
  )

  forget_end-Sound : (o : Option Interval) (p : Presence) → Sound t p → Sound t (forget_end t o p)
  forget_end-Sound none p k = k
  forget_end-Sound (some i) p k = if-cases (Sound t) (ltb i.to t) _ _ (λ _. k) (λ _. k)

  hold_end-Sound :
      (m : ℕ) (s : EventSource) (o : Option ℕ) (p : Presence)
      → Sound t p
      → Sound t (hold_end m s o p)
  hold_end-Sound m explicit none p k = k
  hold_end-Sound m explicit (some until) p k = k
  hold_end-Sound m EventSource.checkin o p k = k
  hold_end-Sound m EventSource.take o p k = k

  begin_at-Sound :
      (m : ℕ) (o : Option ℕ) (p : Presence)
      → ((until : ℕ) → o ≡ some until → t ≤ until)
      → Sound t p
      → Sound t (begin_at m t o p)
  begin_at-Sound m none p h k =
      (All-append Ordered p.out (interval m t t ∷ []) k.0 (ground arith, tt), k.1)
  begin_at-Sound m (some until) p h k =
      (k.0, All-append _ p.opened (interval m t until ∷ []) k.1 ((h until refl, ground arith), tt))

step_presence-Sound :
    (sessions : List FestSession) (e : PresenceEvent) (p : Presence)
    → Sound e.at p
    → Sound e.at (step_presence sessions e p)
unfolding step_presence
step_presence-Sound sessions e p k = by_kind e.kind
  where
    quiet : Sound e.at (settled e p)
    quiet = forget_end-Sound e.at _ _ (
        close_current-Sound e.at (of_member e.telegram_id p.opened) p
          (found _ (λ i. i.member == e.telegram_id) p.opened k.1) k)

    by_kind : (kind : EventKind) → Sound e.at (take_event sessions e kind (settled e p))
    by_kind end = hold_end-Sound e.at e.telegram_id e.source _ _ (
        close_still-Sound e.at (of_member e.telegram_id (settled e p).opened) (settled e p)
          (found _ (λ i. i.member == e.telegram_id) (settled e p).opened quiet.1) quiet)
    by_kind start =
        if-cases (Sound e.at) (is_some (of_member e.telegram_id (settled e p).opened)) _ _
          (λ _. quiet)
          λ _.
            if-cases (Sound e.at)
              (is_checkin e.source && is_some (of_member e.telegram_id (settled e p).ended)) _ _
              (λ _. quiet)
              λ _.
                begin_at-Sound e.at e.telegram_id (session_end sessions e.at) (settled e p)
                  (session_end-le sessions e.at) quiet

run_events-Sound :
    (sessions : List FestSession) (l : List PresenceEvent) (t : ℕ) (p : Presence)
    → AllPairs (λ a b. a.at ≤ b.at) l
    → All (λ e. t ≤ e.at) l
    → Sound t p
    → (u : ℕ) × Sound u (run_events sessions l p)
unfolding run_events
run_events-Sound sessions [] t p d a k = (t, k)
run_events-Sound sessions (e ∷ l) t p d a k =
    run_events-Sound sessions l e.at (step_presence sessions e p) d.1 d.0
      (step_presence-Sound sessions e p (k.0, All-imp (λ i h. (h.0, later i h.1)) p.opened k.1))
  where
    later : (i : Interval) → i.from ≤ t → i.from ≤ e.at
    later i h = ground (arith, a.0)

before-le : (a b : PresenceEvent) → before a b ≡ true → a.at ≤ b.at
before-le a b e = elim (Bool-cases (ltb a.at b.at)) [
  | inl f ↦ ground arith
  | inr f ↦ same (rw f at e)
]
  where
    same :
        (false || ((a.at == b.at) && (not (is_end a.kind) || is_end b.kind))) ≡ true → a.at ≤ b.at
    same k = elim (Bool-cases (a.at == b.at)) [
      | inl g ↦ ground arith
      | inr g ↦ absurd (apart (rw g at k))
    ]
      where
        apart : (false || (false && (not (is_end a.kind) || is_end b.kind))) ≡ true → ⊥
        apart i = cc

-- Every interval of presence ends no earlier than it begins, whatever the events and the sessions.
pub presence_intervals-Ordered :
    (events : List PresenceEvent) (sessions : List FestSession)
    → All Ordered (presence_intervals events sessions)
unfolding presence_intervals
presence_intervals-Ordered events sessions =
    let ascending =
      AllPairs-sort before (λ a b. a.at ≤ b.at) before-le not_before (λ a b c h k. (ground arith))
        events in
    let (u, sound) =
      run_events-Sound sessions (sort before events) 0 no_presence ascending (from_zero _)
        (tt, tt) in
    All-append Ordered _ _ sound.0 (All-imp (λ i h. h.0) _ sound.1)
  where
    not_before : (a b : PresenceEvent) → before a b ≡ false → b.at ≤ a.at
    not_before a b e = elim (Bool-cases (ltb a.at b.at)) [
      | inl f ↦ absurd (apart (rw f at e))
      | inr f ↦ ground arith
    ]
      where
        apart : (true || ((a.at == b.at) && (not (is_end a.kind) || is_end b.kind))) ≡ false → ⊥
        apart i = cc

    from_zero : (l : List PresenceEvent) → All (λ e. 0 ≤ e.at) l
    from_zero [] = tt
    from_zero (e ∷ l) = (ground arith, from_zero l)
