-- ===== src/Fest/Closure/Judging.antt =====
-- What closes a glass for a member: src/domain/fest/closure.ts.
use warsaw_beer_bot.Base.{
  ap, ◌↔◌, ◌++◌, filter, Any, Any-filter_iff, sym, ℕ, ◌+◌, ◌≤◌, ◌≡◌, refl, subst, inl, inr, Bool,
  true, false, not, ◌&&◌, Option, none, some, List, [], ◌∷◌, leb, ◌==◌, find?, Bool-cases, All,
  AllPairs, arith,
}
use warsaw_beer_bot.Base.Sort.{Any-sort, AllPairs-sort}
use warsaw_beer_bot.Fest.Closure.{
  ClosureItem, ClosureCheckin, Closure, by_checkin, by_mark, not_yet, includes, suits, of_hit,
  closure_of, own_checkins, close_slack_ms,
}

abbrev found_id : Option ClosureCheckin → Option ℕ
found_id none = none
found_id (some c) = some c.checkin_id

abbrev pub Unused : List ℕ → ℕ → Type 0
Unused used c = includes c used ≡ false

differs : (y x : ℕ) → y == x ≡ false → y ≡ x → ⊥
differs y x e k = ground arith

-- `includes` is membership.
includes_iff : (x : ℕ) (l : List ℕ) → (includes x l ≡ true) ↔ Any (λ y. y ≡ x) l
includes_iff x [] = (λ e. cc, λ h. absurd h)
includes_iff x (y ∷ l) =
    let (to, from) = includes_iff x l in
    elim (Bool-cases (y == x)) [
      | inl e ↦ rw e (λ h. inl (ground arith), λ h. refl)
      | inr e ↦
          rw e (λ h. inr (to h), λ h. elim h [ inl k ↦ absurd (differs y x e k) | inr k ↦ from k ])
    ]

apart : {b : Bool} → b ≡ false → b ≡ true → ⊥
apart e f = cc

not_includes : (x : ℕ) (l : List ℕ) → includes x l ≡ false → Any (λ y. y ≡ x) l → ⊥
not_includes x l e h = apart e ((includes_iff x l).1 h)

-- A check-in that proves a glass for a member: no other glass has used it, it is of the glass's beer,
-- and at most ten minutes before the glass was taken.
pub Proves : List ℕ → ClosureItem → ClosureCheckin → Type 0
Proves used item x =
    (Any (λ u. u ≡ x.checkin_id) used → ⊥)
    × (x.beer_id ≡ item.beer_id)
    × (item.added_at ≤ x.checkin_at + 600000)

-- The first of a list of check-ins that proves the glass is `c`; that none does is the empty `c`.
pub First : List ℕ → ClosureItem → List ClosureCheckin → Option ℕ → Type 0
First used item own none = All (λ x. Proves used item x → ⊥) own
First used item own (some c) =
    (before : List ClosureCheckin) × (x : ClosureCheckin) × (after : List ClosureCheckin) × (own
      ≡ before ++ x ∷ after)
    × (x.checkin_id ≡ c)
    × Proves used item x
    × All (λ y. Proves used item y → ⊥) before

suits_iff :
    (used : List ℕ) (item : ClosureItem) (x : ClosureCheckin)
    → (suits used item x ≡ true) ↔ Proves used item x
unfolding Proves
suits_iff used item x = (
  λ e.
      let (fresh, beer, time) =
        parts (includes x.checkin_id used) (x.beer_id == item.beer_id) _ e in
      (λ h. not_includes x.checkin_id used fresh h, ground arith, ground arith),
  λ h.
      join (includes x.checkin_id used) (x.beer_id == item.beer_id)
        (leb item.added_at (x.checkin_at + close_slack_ms)) (free h.0) (ground (arith, h.1))
        (ground (arith, h.2)),
)
  where
    parts : (a b c : Bool) → (not a && (b && c)) ≡ true → (a ≡ false) × (b ≡ true) × (c ≡ true)
    parts false true true k = (refl, refl, refl)
    parts false true false k = cc
    parts false false c k = cc
    parts true b c k = cc

    join : (a b c : Bool) → a ≡ false → b ≡ true → c ≡ true → (not a && (b && c)) ≡ true
    join a b c e f g = rw (e, f, g) refl

    free : (Any (λ u. u ≡ x.checkin_id) used → ⊥) → includes x.checkin_id used ≡ false
    free h = elim (Bool-cases (includes x.checkin_id used)) [
      | inl e ↦ absurd (h ((includes_iff x.checkin_id used).0 e))
      | inr e ↦ e
    ]

First-cons :
    (used : List ℕ) (item : ClosureItem) (y : ClosureCheckin) (l : List ClosureCheckin)
    (o : Option ℕ)
    → (Proves used item y → ⊥)
    → First used item l o
    → First used item (y ∷ l) o
unfolding First
First-cons used item y l none n h = (n, h)
First-cons used item y l (some c) n (before, x, after, split, same, proves, none_before) =
    (y ∷ before, x, after, ap (λ k. y ∷ k) split, same, proves, (n, none_before))

First-find? :
    (used : List ℕ) (item : ClosureItem) (own : List ClosureCheckin)
    → First used item own (found_id (find? (suits used item) own))
unfolding First
First-find? used item [] = tt
First-find? used item (y ∷ l) = elim (Bool-cases (suits used item y)) [
  | inl f ↦ rw f ([], y, l, refl, refl, (suits_iff used item y).0 f, tt)
  | inr f ↦ rw f (First-cons used item y l _ (no f) (First-find? used item l))
]
  where
    no : suits used item y ≡ false → Proves used item y → ⊥
    no f h = apart f ((suits_iff used item y).1 h)

-- What is set for a member `m`, whose check-ins are `own`: nothing where the glass does not wait for
-- them; else their mark, where they have one; else the first of their check-ins that proves the glass,
-- and that there is none yet only where none does.
pub Judged : ℕ → List ClosureCheckin → List ℕ → ClosureItem → Option Closure → Type 0
Judged m own used item none = Any (λ y. y ≡ m) item.expected → ⊥
Judged m own used item (some by_mark) =
    Any (λ y. y ≡ m) item.expected × Any (λ y. y ≡ m) item.marked
Judged m own used item (some not_yet) =
    Any (λ y. y ≡ m) item.expected × (Any (λ y. y ≡ m) item.marked → ⊥) × First used item own none
Judged m own used item (some (by_checkin c)) =
    Any (λ y. y ≡ m) item.expected
    × (Any (λ y. y ≡ m) item.marked → ⊥)
    × First used item own (some c)

Judged-hit :
    (m : ℕ) (own : List ClosureCheckin) (used : List ℕ) (item : ClosureItem)
    (hit : Option ClosureCheckin)
    → Any (λ y. y ≡ m) item.expected
    → (Any (λ y. y ≡ m) item.marked → ⊥)
    → First used item own (found_id hit)
    → Judged m own used item (some (of_hit hit))
unfolding Judged
Judged-hit m own used item none e n h = (e, n, h)
Judged-hit m own used item (some c) e n h = (e, n, h)

pub closure_of_lem :
    (m : ℕ) (own : List ClosureCheckin) (used : List ℕ) (item : ClosureItem)
    → Judged m own used item (closure_of m own used item)
unfolding closure_of Judged
closure_of_lem m own used item = elim (Bool-cases (includes m item.expected)) [
  | inr f ↦ rw f (not_includes m item.expected f)
  | inl f ↦ elim (Bool-cases (includes m item.marked)) [
    | inl g ↦ rw (f, g) ((includes_iff m item.expected).0 f, (includes_iff m item.marked).0 g)
    | inr g ↦
        rw (f, g)
          (Judged-hit m own used item (find? (suits used item) own)
            ((includes_iff m item.expected).0 f) (not_includes m item.marked g)
            (First-find? used item own))
  ]
]

pub Judged-Unused :
    (m : ℕ) (own : List ClosureCheckin) (used : List ℕ) (item : ClosureItem) (c : ℕ)
    → Judged m own used item (some (by_checkin c))
    → Unused used c
unfolding Judged First Proves
Judged-Unused m own used item c (expected, unmarked, (before, x, after, split, same, proves, n)) =
    elim (Bool-cases (includes c used)) [
      | inl e ↦
          absurd
            (proves.0 (subst (λ k. Any (λ u. u ≡ k) used) (sym same) ((includes_iff c used).0 e)))
      | inr e ↦ e
    ]

-- The check-ins of a member, and in the order of time.
pub record IsOwn (m : ℕ) (checkins own : List ClosureCheckin) : Type 0 where
  pub same :
      (c : ClosureCheckin)
      → Any (λ x. x ≡ c) own ↔ (Any (λ x. x ≡ c) checkins × (c.telegram_id ≡ m))
  pub in_order : AllPairs (λ a b. a.checkin_at ≤ b.checkin_at) own

own_checkins-IsOwn :
    (m : ℕ) (checkins : List ClosureCheckin) → IsOwn m checkins (own_checkins m checkins)
own_checkins-IsOwn m checkins = record {
  same = λ c.
      let (to, from) = Any-filter_iff (λ (x : ClosureCheckin). x.telegram_id == m) c checkins in
      let (into, back) =
        Any-sort by_time (λ x. x ≡ c) (filter (λ x. x.telegram_id == m) checkins) in
      (
        λ h. let k = to (back h) in (k.0, ground (arith, k.1)),
        λ h. into (from (h.0, ground (arith, h.1))),
      );
  in_order =
      AllPairs-sort by_time _ (λ a b e. ground arith) (λ a b e. ground arith)
        (λ a b c h k. omega (arith, h, k)) _;
}
  where
    by_time : ClosureCheckin → ClosureCheckin → Bool
    by_time a b = leb a.checkin_at b.checkin_at

-- For a member `m`, the ids `used` of check-ins that proved earlier glasses, and any glass: the check-ins
-- that are searched are those of `m`, all of them, in the order of time; and the glass gets nothing exactly
-- where it does not wait for `m`, else their mark where they have marked it, else the first check-in
-- of the same beer, not in `used` and at most ten minutes before the glass was taken, and that there is
-- none yet exactly where there is no such check-in.
pub closure_of-Judged :
    (m : ℕ) (checkins : List ClosureCheckin) (used : List ℕ) (item : ClosureItem)
    → IsOwn m checkins (own_checkins m checkins)
      × Judged m
          (own_checkins m checkins)
          used
          item
          (closure_of m (own_checkins m checkins) used item)
closure_of-Judged m checkins used item =
    (own_checkins-IsOwn m checkins, closure_of_lem m (own_checkins m checkins) used item)
