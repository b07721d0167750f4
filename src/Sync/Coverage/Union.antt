-- ===== src/Sync/Coverage/Union.antt =====
-- What the merged coverage covers: the ids of the new range and those covered before, no other.
use warsaw_beer_bot.Base.{
  ℕ, ◌≤◌, ◌≡◌, refl, ◌↔◌, ◌⊎◌, inl, inr, true, none, some, List, [], ◌∷◌, ◌++◌, filter, arith, All,
  Any, Any-append_left, Any-append_right, Any-append_split, Any-filter_sub, Any-filter_split,
  All-filter_self,
}
use warsaw_beer_bot.Base.Sort.{sort, Any-sort}
use warsaw_beer_bot.Sync.Coverage.{
  CoverageRange, Number, integer, not_integer, touches, newest_first, lower, upper, merge_range,
}
use warsaw_beer_bot.Sync.Coverage.Merge.{untouched, hull, merge_loop_lem}

abbrev pub Covers : ℕ → CoverageRange → Type 0
Covers id r = (r.from_id ≤ id) × (id ≤ r.to_id)

abbrev pub IsCovered : ℕ → List CoverageRange → Type 0
IsCovered id = Any (Covers id)

abbrev Touches : ℕ → ℕ → CoverageRange → Type 0
Touches from to r = touches from to r ≡ true

-- The hull only grows.
hull-Covers :
    (id lo hi : ℕ) (rs : List CoverageRange)
    → (lo ≤ id) × (id ≤ hi) ⊎ IsCovered id rs
    → Covers id (hull lo hi rs)
unfolding hull
hull-Covers id lo hi [] (inl h) = h
hull-Covers id lo hi [] (inr h) = absurd h
hull-Covers id lo hi (r ∷ rs) (inl h) =
    hull-Covers id (lower lo r) (upper hi r) rs (inl (ground arith))
hull-Covers id lo hi (r ∷ rs) (inr (inl h)) =
    hull-Covers id (lower lo r) (upper hi r) rs (inl (ground arith))
hull-Covers id lo hi (r ∷ rs) (inr (inr h)) = hull-Covers id (lower lo r) (upper hi r) rs (inr h)

-- Nothing else is in it: ranges that touch a common one leave no hole between them.
Covers-hull :
    (from to id lo hi : ℕ) (rs : List CoverageRange) (P : Type 0)
    → lo ≤ from
    → to ≤ hi
    → All (Touches from to) rs
    → (lo ≤ id → id ≤ hi → P)
    → (IsCovered id rs → P)
    → Covers id (hull lo hi rs)
    → P
unfolding hull
Covers-hull from to id lo hi [] P l h t known rest c = known c.0 c.1
Covers-hull from to id lo hi (r ∷ rs) P l h t known rest c =
    Covers-hull from to id (lower lo r) (upper hi r) rs P (ground arith) (ground arith) t.1
      (λ a b. split a b) (λ k. rest (inr k)) c
  where
    inside : lower lo r ≤ id → id ≤ upper hi r → ((lo ≤ id) × (id ≤ hi)) ⊎ Covers id r
    inside a b = ground (arith, t.0)

    split : lower lo r ≤ id → id ≤ upper hi r → P
    split a b = elim (inside a b) [ inl k ↦ known k.0 k.1 | inr k ↦ rest (inl k) ]

-- What `merge_range` returns when it does not throw.
pub merge_range_lem :
    (ranges : List CoverageRange) (from to : ℕ) (out : List CoverageRange)
    → merge_range ranges (integer from) (integer to) ≡ some out
    → (from ≤ to)
      × (out
          ≡ sort newest_first (
              filter (untouched from to) ranges
              ++ hull from to (filter (touches from to) ranges) ∷ []))
unfolding merge_range
merge_range_lem ranges from to out h =
    (ground arith, ground (arith, merge_loop_lem from to from to [] ranges))

module _ (ranges : List CoverageRange) (from to : ℕ) (out : List CoverageRange)
    (merged : merge_range ranges (integer from) (integer to) ≡ some out) (id : ℕ) where
  IsCovered-after : (from ≤ id) × (id ≤ to) ⊎ IsCovered id ranges → IsCovered id out
  IsCovered-after h = rw ((merge_range_lem ranges from to out merged).1) (
      (Any-sort newest_first (Covers id) _).0 (elim parts [
        | inl k ↦ Any-append_left (Covers id) kept _ k
        | inr k ↦ Any-append_right (Covers id) kept _ (inl k)
      ]))
    where
      kept : List CoverageRange
      kept = filter (untouched from to) ranges

      near : List CoverageRange
      near = filter (touches from to) ranges

      parts : IsCovered id kept ⊎ Covers id (hull from to near)
      parts = elim h [
        | inl k ↦ inr (hull-Covers id from to near (inl k))
        | inr k ↦ elim (Any-filter_split (Covers id) (touches from to) ranges k) [
          | inl a ↦ inr (hull-Covers id from to near (inr a))
          | inr b ↦ inl b
        ]
      ]

  IsCovered-before : IsCovered id out → (from ≤ id) × (id ≤ to) ⊎ IsCovered id ranges
  IsCovered-before h = elim (Any-append_split (Covers id) kept _ sorted) [
    | inl k ↦ inr (Any-filter_sub (Covers id) (untouched from to) ranges k)
    | inr (inl k) ↦
        Covers-hull from to id from to near _ (omega arith) (omega arith)
          (All-filter_self (touches from to) ranges) (λ a b. inl (a, b))
          (λ c. inr (Any-filter_sub (Covers id) (touches from to) ranges c)) k
    | inr (inr e) ↦ absurd e
  ]
    where
      kept : List CoverageRange
      kept = filter (untouched from to) ranges

      near : List CoverageRange
      near = filter (touches from to) ranges

      sorted : IsCovered id (kept ++ hull from to near ∷ [])
      sorted =
          (Any-sort newest_first (Covers id) _).1
            (rw ((merge_range_lem ranges from to out merged).1) at h)

  -- After a merge exactly the ids of the new range and those covered before are covered, whatever
  -- the ranges given.
  pub merge_range-IsCovered : IsCovered id out ↔ ((from ≤ id) × (id ≤ to) ⊎ IsCovered id ranges)
  merge_range-IsCovered = (IsCovered-before, IsCovered-after)

-- The arguments that `merge_range` does not throw on.
abbrev pub IsSpan : Number → Number → Type 0
IsSpan (integer from) (integer to) = from ≤ to
IsSpan _ _ = ⊥

-- `merge_range` throws exactly when an end is no integer or the ends are the wrong way round.
pub merge_range-eq-none_iff :
    (ranges : List CoverageRange) (from to : Number)
    → (merge_range ranges from to ≡ none) ↔ (¬ IsSpan from to)
unfolding merge_range
merge_range-eq-none_iff ranges (integer from) (integer to) = ground arith
merge_range-eq-none_iff ranges (integer from) not_integer = (λ e h. h, λ h. refl)
merge_range-eq-none_iff ranges not_integer to = (λ e h. h, λ h. refl)
