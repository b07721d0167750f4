-- ===== src/Fest/Eyes/Gaps.antt =====
-- The longest stretch of a session that no span covers.
use warsaw_beer_bot.Base.{
  ℕ, ◌+◌, ◌-◌, ◌≤◌, ◌<◌, ◌≡◌, ◌⊎◌, inl, inr, true, List, [], ◌∷◌, leb, ltb, max, Bool-cases, All,
  arith,
}
use warsaw_beer_bot.Base.Sort.{sort, All-sort}
use warsaw_beer_bot.Fest.Coverage.{Span, span, merge_from, merge_sorted, merged}
use warsaw_beer_bot.Fest.Eyes.{Window, Gap, gap, longer, gap_from, longest_gap}

-- A span shows nothing of the stretch between two times.
abbrev pub Free : ℕ → ℕ → Span → Type 0
Free x y s = (y ≤ s.from_at) ⊎ (s.to_at ≤ x)

module _ (x y : ℕ) (apart : x < y) where
  merge_from-Free :
      (last : Span) (l : List Span)
      → Free x y last
      → All (Free x y) l
      → All (Free x y) (merge_from last l)
  unfolding merge_from
  merge_from-Free last [] h a = (h, tt)
  merge_from-Free last (s ∷ l) h a = elim (Bool-cases (leb s.from_at last.to_at)) [
    | inl e ↦
        rw e (merge_from-Free (span last.from_at (max last.to_at s.to_at)) l (joined e h a.0) a.1)
    | inr e ↦ rw e (h, merge_from-Free s l a.0 a.1)
  ]
    where
      joined :
          leb s.from_at last.to_at ≡ true
          → Free x y last
          → Free x y s
          → Free x y (span last.from_at (max last.to_at s.to_at))
      joined e (inl h) k = inl h
      joined e (inr h) (inl k) = absurd (ground arith)
      joined e (inr h) (inr k) = inr (ground arith)

  merged-Free : (spans : List Span) → All (Free x y) spans → All (Free x y) (merged spans)
  unfolding merged
  merged-Free spans h =
      of_sorted (sort (λ a b. leb a.from_at b.from_at) spans)
        (All-sort (λ a b. leb a.from_at b.from_at) (Free x y) spans h)
    where
      of_sorted : (l : List Span) → All (Free x y) l → All (Free x y) (merge_sorted l)
      of_sorted [] k = tt
      of_sorted (s ∷ l) k = merge_from-Free s l k.0 k.1

  -- What is known in the loop: the stretch is not longer than the best gap, or lies ahead.
  abbrev Ahead : Gap → ℕ → Type 0
  Ahead best cursor = (y ≤ x + best.ms) ⊎ (cursor ≤ x)

  longer-le :
      (best : Gap) (cursor next : ℕ)
      → y ≤ next
      → Ahead best cursor
      → y ≤ x + (longer best cursor next).ms
  longer-le best cursor next e h = elim (Bool-cases (ltb best.ms (next - cursor))) [
    | inl f ↦ rw f (elim h [ inl k ↦ ground arith | inr k ↦ ground arith ])
    | inr f ↦ rw f (elim h [ inl k ↦ k | inr k ↦ ground arith ])
  ]

  longer-ge : (best : Gap) (cursor next : ℕ) → best.ms ≤ (longer best cursor next).ms
  longer-ge best cursor next = elim (Bool-cases (ltb best.ms (next - cursor))) [
    | inl f ↦ rw f (ground arith)
    | inr f ↦ rw f (ground arith)
  ]

  gap_from-longest :
      (w : Window) (best : Gap) (cursor : ℕ) (l : List Span)
      → y ≤ w.to
      → All (Free x y) l
      → Ahead best cursor
      → y ≤ x + (gap_from w best cursor l).ms
  unfolding gap_from
  gap_from-longest w best cursor [] e a h = longer-le best cursor w.to e h
  gap_from-longest w best cursor (m ∷ l) e a h = elim (Bool-cases (leb m.to_at cursor)) [
    | inl f ↦ rw f (gap_from-longest w best cursor l e a.1 h)
    | inr f ↦ rw f (elim (Bool-cases (leb w.to m.from_at)) [
      | inl g ↦ rw g (longer-le best cursor w.to e h)
      | inr g ↦ rw g (elim (Bool-cases (leb w.to (max cursor m.to_at))) [
        | inl i ↦ rw i (reached i (passed a.0 h))
        | inr i ↦ rw i (
            gap_from-longest w (longer best cursor m.from_at) (max cursor m.to_at) l e a.1
              (passed a.0 h))
      ])
    ])
  ]
    where
      passed :
          Free x y m → Ahead best cursor → Ahead (longer best cursor m.from_at) (max cursor m.to_at)
      passed (inl k) h = inl (longer-le best cursor m.from_at k h)
      passed (inr k) (inl h) = inl (ground (arith, longer-ge best cursor m.from_at))
      passed (inr k) (inr h) = inr (ground arith)

      reached :
          leb w.to (max cursor m.to_at) ≡ true
          → Ahead (longer best cursor m.from_at) (max cursor m.to_at)
          → y ≤ x + (longer best cursor m.from_at).ms
      reached i (inl k) = k
      reached i (inr k) = absurd (ground arith)

-- No stretch of the window that every span leaves alone is longer than `longestGap` says. The
-- stretch is not empty; the spans are any, in any order.
pub longest_gap-longest :
    (spans : List Span) (w : Window) (x y : ℕ)
    → w.from ≤ x
    → x < y
    → y ≤ w.to
    → All (Free x y) spans
    → y ≤ x + (longest_gap spans w).ms
unfolding longest_gap
longest_gap-longest spans w x y h k e a =
    gap_from-longest x y k w (gap 0 w.from) w.from (merged spans) e (merged-Free x y k spans a)
      (inr h)
