-- ===== src/Sync/Guards/Acceptance.antt =====
-- Exactly which pages are accepted.
use warsaw_beer_bot.Base.{
  Any, ℕ, ◌<◌, ◌≡◌, ◌≢◌, refl, ◌↔◌, inl, inr, true, false, Option, none, some, List, [], ◌∷◌, ltb,
  ◌==◌, if◌then◌else◌, Bool-cases, arith,
}
use warsaw_beer_bot.Base.Decimal.{Text}
use warsaw_beer_bot.Sync.Guards.{
  above_known, CheckinFeedPage, PageVerdict, accept, min_of, includes, check_ids, ids_of,
  check_page,
}
use warsaw_beer_bot.Sync.Guards.Verdicts.{
  ReadsAs, ReadsAs-unique, includes-min_of, strictly_below, check_page-cases,
}

abbrev pub IsAccept : PageVerdict → Type 0
IsAccept (accept c ids oldest newest) = Unit
IsAccept _ = ⊥

-- What a page asked for with this cursor may hold: an id below the cursor, and not the cursor.
abbrev pub IsFragment : Option ℕ → List ℕ → Type 0
IsFragment none ids = ids ≢ []
IsFragment (some n) ids = Any (λ id. id < n) ids × (includes n ids ≡ false)

min_of-lt : (n m : ℕ) (xs : List ℕ) → Any (λ x. x < n) (m ∷ xs) → min_of m xs < n
min_of-lt n m [] (inl h) = h
min_of-lt n m [] (inr h) = absurd h
min_of-lt n m (x ∷ xs) (inl h) = min_of-lt n (if ltb x m then x else m) xs (inl (ground arith))
min_of-lt n m (x ∷ xs) (inr (inl h)) =
    min_of-lt n (if ltb x m then x else m) xs (inl (ground arith))
min_of-lt n m (x ∷ xs) (inr (inr h)) = min_of-lt n (if ltb x m then x else m) xs (inr h)

Any-lt : (m n : ℕ) (xs : List ℕ) → includes m xs ≡ true → m < n → Any (λ x. x < n) xs
Any-lt m n [] h l = cc
Any-lt m n (x ∷ xs) h l = elim (Bool-cases (x == m)) [
  | inl e ↦ inl (ground arith)
  | inr e ↦ inr (Any-lt m n xs (ground arith) l)
]

check_ids-IsAccept :
    (ids : List ℕ) (cursor known : Option ℕ)
    → IsAccept (check_ids ids cursor known) ↔ IsFragment cursor ids
unfolding check_ids
check_ids-IsAccept [] none known = (λ h. absurd h, λ h. absurd (h refl))
check_ids-IsAccept [] (some n) known = elim (Bool-cases (above_known (some n) known)) [
  | inl e ↦ rw e (λ h. absurd h, λ h. absurd h.0)
  | inr e ↦ rw e (λ h. absurd h, λ h. absurd h.0)
]
check_ids-IsAccept (id ∷ ids) none known = (λ h. cc, λ h. tt)
check_ids-IsAccept (id ∷ ids) (some n) known = (to, from)
  where
    to : IsAccept (check_ids (id ∷ ids) (some n) known) → IsFragment (some n) (id ∷ ids)
    to h = elim (Bool-cases (ltb n (min_of id ids))) [
      | inl e ↦ absurd (rw e at h)
      | inr e ↦ elim (Bool-cases (includes n (id ∷ ids))) [
        | inl f ↦ absurd (rw (e, f) at h)
        | inr f ↦ (
          Any-lt (min_of id ids) n (id ∷ ids) (includes-min_of _ id ids refl)
              (strictly_below id n ids e f),
          f,
        )
      ]
    ]

    from : IsFragment (some n) (id ∷ ids) → IsAccept (check_ids (id ∷ ids) (some n) known)
    from (low, out) =
        let below = min_of-lt n id ids low in
        let fits : ltb n (min_of id ids) ≡ false = ground arith in rw (fits, out) tt

-- A page is accepted exactly when its cursor could be read and it is a fragment of the feed below
-- it: with a cursor it holds an id below the cursor and not the cursor itself, with none it has rows.
-- Ids above the cursor do not matter.
pub check_page-IsAccept_iff :
    (page : CheckinFeedPage) (max_id : Option Text) (known : Option ℕ)
    → IsAccept (check_page page max_id known)
      ↔ ((cursor : Option ℕ) × ReadsAs max_id cursor × IsFragment cursor (ids_of page))
check_page-IsAccept_iff page max_id known = elim (check_page-cases page max_id known) [
  | inl (cursor, read, e) ↦ rw e (
    λ h. (cursor, read, (check_ids-IsAccept (ids_of page) cursor known).0 h),
    λ h.
        let same : h.0 ≡ cursor = ReadsAs-unique max_id h.0 cursor h.1 read in
        (check_ids-IsAccept (ids_of page) cursor known).1 (rw same at (h.2)),
  )
  | inr (unread, e) ↦ rw e (λ h. absurd h, λ h. absurd (unread h.0 h.1))
]
