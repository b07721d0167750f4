-- ===== src/Fest/Coverage/Instants.antt =====
-- The coverage of a venue against the instants that its spans cover. The stretch from `t` to the
-- next millisecond stands for its instants.
use warsaw_beer_bot.Base.{
  ℕ, ◌≤◌, ◌<◌, ◌≡◌, refl, ◌↔◌, ◌⊎◌, inl, inr, Bool, true, false, ◌&&◌, List, [], ◌∷◌, leb, any, max,
  Bool-cases, All, All-imp, Any, AllPairs, arith,
}
use warsaw_beer_bot.Base.Sort.{sort, Any-sort, AllPairs-sort}
use warsaw_beer_bot.Fest.Coverage.{Span, span, merge_from, merge_sorted, merged, is_covered}

abbrev pub Holds : ℕ → Span → Type 0
Holds t s = (s.from_at ≤ t) × (t < s.to_at)

abbrev pub Watched : ℕ → List Span → Type 0
Watched t = Any (Holds t)

abbrev Before : Span → Span → Type 0
Before a b = a.from_at ≤ b.from_at

abbrev Apart : Span → Span → Type 0
Apart a b = a.to_at < b.from_at

merge_from_sound :
    (t : ℕ) (last : Span) (l : List Span)
    → Watched t (merge_from last l)
    → Holds t last ⊎ Watched t l
unfolding merge_from
merge_from_sound t last [] h = elim h [ inl k ↦ inl k | inr k ↦ absurd k ]
merge_from_sound t last (s ∷ l) h = elim (Bool-cases (leb s.from_at last.to_at)) [
  | inl e ↦ elim (merge_from_sound t (span last.from_at (max last.to_at s.to_at)) l (rw e at h)) [
    | inl k ↦ split (ground arith) k
    | inr k ↦ inr (inr k)
  ]
  | inr e ↦ elim (rw e at h) [ inl k ↦ inl k | inr k ↦ inr (merge_from_sound t s l k) ]
]
  where
    split :
        s.from_at ≤ last.to_at
        → Holds t (span last.from_at (max last.to_at s.to_at))
        → Holds t last ⊎ Watched t (s ∷ l)
    split e k = elim (Bool-cases (leb last.to_at t)) [
      | inl f ↦ inr (inl (ground arith))
      | inr f ↦ inl (ground arith)
    ]

merge_from_complete :
    (t : ℕ) (last : Span) (l : List Span)
    → All (Before last) l
    → AllPairs Before l
    → Holds t last ⊎ Watched t l
    → Watched t (merge_from last l)
unfolding merge_from
merge_from_complete t last [] a p (inl k) = inl k
merge_from_complete t last [] a p (inr k) = absurd k
merge_from_complete t last (s ∷ l) a p h = elim (Bool-cases (leb s.from_at last.to_at)) [
  | inl e ↦
      rw e (merge_from_complete t (span last.from_at (max last.to_at s.to_at)) l a.1 p.1 (joined h))
  | inr e ↦ rw e (kept (merge_from_complete t s l p.0 p.1) h)
]
  where
    joined :
        Holds t last ⊎ Watched t (s ∷ l)
        → Holds t (span last.from_at (max last.to_at s.to_at)) ⊎ Watched t l
    joined (inl k) = inl (ground arith)
    joined (inr (inl k)) = inl (ground arith)
    joined (inr (inr k)) = inr k

    kept :
        (Holds t s ⊎ Watched t l → Watched t (merge_from s l))
        → Holds t last ⊎ Watched t (s ∷ l)
        → Watched t (last ∷ merge_from s l)
    kept rest (inl k) = inl k
    kept rest (inr k) = inr (rest k)

-- The intervals put out start where the spans do, and end before the next one starts.
merge_from-After :
    (k : ℕ) (last : Span) (l : List Span)
    → k < last.from_at
    → All (λ s. k < s.from_at) l
    → All (λ s. k < s.from_at) (merge_from last l)
unfolding merge_from
merge_from-After k last [] h a = (h, tt)
merge_from-After k last (s ∷ l) h a = elim (Bool-cases (leb s.from_at last.to_at)) [
  | inl e ↦ rw e (merge_from-After k (span last.from_at (max last.to_at s.to_at)) l h a.1)
  | inr e ↦ rw e (h, merge_from-After k s l a.0 a.1)
]

merge_from-Apart :
    (last : Span) (l : List Span) → AllPairs Before l → AllPairs Apart (merge_from last l)
unfolding merge_from
merge_from-Apart last [] p = (tt, tt)
merge_from-Apart last (s ∷ l) p = elim (Bool-cases (leb s.from_at last.to_at)) [
  | inl e ↦ rw e (merge_from-Apart (span last.from_at (max last.to_at s.to_at)) l p.1)
  | inr e ↦ rw e (
    merge_from-After last.to_at s l (ground arith)
        (All-imp {P = Before s} (λ x k. later e x k) l p.0),
    merge_from-Apart s l p.1,
  )
]
  where
    later : leb s.from_at last.to_at ≡ false → (x : Span) → Before s x → last.to_at < x.from_at
    later e x k = ground arith

abbrev le_from : Span → Span → Bool
le_from a b = leb a.from_at b.from_at

sort-Ascends : (spans : List Span) → AllPairs Before (sort le_from spans)
sort-Ascends spans =
    AllPairs-sort le_from Before (λ a b e. ground arith) (λ a b e. ground arith)
      (λ a b c h k. ground arith) spans

-- Merging neither loses nor adds an instant.
pub merged-Watched : (t : ℕ) (spans : List Span) → Watched t (merged spans) ↔ Watched t spans
unfolding merged
merged-Watched t spans =
    let (to, from) = Any-sort le_from (Holds t) spans in
    (
      λ h. from (sound (sort le_from spans) h),
      λ h. complete (sort le_from spans) (sort-Ascends spans) (to h),
    )
  where
    sound : (l : List Span) → Watched t (merge_sorted l) → Watched t l
    sound [] h = h
    sound (s ∷ l) h = merge_from_sound t s l h

    complete : (l : List Span) → AllPairs Before l → Watched t l → Watched t (merge_sorted l)
    complete [] p h = h
    complete (s ∷ l) p h = merge_from_complete t s l p.0 p.1 h

pub merged-Apart : (spans : List Span) → AllPairs Apart (merged spans)
unfolding merged
merged-Apart spans = apart (sort le_from spans) (sort-Ascends spans)
  where
    apart : (l : List Span) → AllPairs Before l → AllPairs Apart (merge_sorted l)
    apart [] p = tt
    apart (s ∷ l) p = merge_from-Apart s l p.1

not_before : (k t : ℕ) (l : List Span) → t ≤ k → All (λ s. k < s.from_at) l → Watched t l → ⊥
not_before k t [] e h w = w
not_before k t (s ∷ l) e h (inl w) = ground arith
not_before k t (s ∷ l) e h (inr w) = not_before k t l e h.1 w

module _ (a b : ℕ) (ordered : a < b) where
  abbrev spans_all : Span → Bool
  spans_all m = leb m.from_at a && leb b m.to_at

  one-Watched : (l : List Span) → any spans_all l ≡ true → (t : ℕ) → a ≤ t → t < b → Watched t l
  one-Watched [] h t from to = absurd (ground arith)
  one-Watched (m ∷ l) h t from to = elim (Bool-cases (spans_all m)) [
    | inl e ↦ inl (ground arith)
    | inr e ↦ inr (one-Watched l (rw e at h) t from to)
  ]

  Watched-one :
      (l : List Span)
      → AllPairs Apart l
      → ((t : ℕ) → a ≤ t → t < b → Watched t l)
      → any spans_all l ≡ true
  Watched-one [] p h = absurd (h a (ground arith) ordered)
  Watched-one (m ∷ l) p h = elim (Bool-cases (spans_all m)) [
    | inl e ↦ rw e refl
    | inr e ↦ rw e (Watched-one l p.1 (others e))
  ]
    where
      others : spans_all m ≡ false → (t : ℕ) → a ≤ t → t < b → Watched t l
      others e t from to = elim (h t from to) [
        | inr k ↦ k
        | inl k ↦ elim (Bool-cases (leb b m.to_at)) [
          | inl f ↦ elim (h a (ground arith) ordered) [
            | inl g ↦ absurd (ground arith)
            | inr g ↦ absurd (not_before m.to_at a l (ground arith) p.0 g)
          ]
          | inr f ↦ elim (h m.to_at (ground arith) (ground arith)) [
            | inl g ↦ absurd (ground arith)
            | inr g ↦ absurd (not_before m.to_at m.to_at l (ground arith) p.0 g)
          ]
        ]
      ]

-- `isCovered` answers yes exactly when every instant of the stretch is in one of the spans. The
-- stretch is not empty; the spans are any, in any order.
pub is_covered_iff :
    (spans : List Span) (a b : ℕ)
    → a < b
    → (is_covered spans a b ≡ true) ↔ ((t : ℕ) → a ≤ t → t < b → Watched t spans)
unfolding is_covered
is_covered_iff spans a b h = (
  λ e t from to. (merged-Watched t spans).0 (one-Watched a b h (merged spans) e t from to),
  λ k.
      Watched-one a b h (merged spans) (merged-Apart spans)
        λ t from to. (merged-Watched t spans).1 (k t from to),
)
