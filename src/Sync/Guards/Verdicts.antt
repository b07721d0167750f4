-- ===== src/Sync/Guards/Verdicts.antt =====
-- When a page is accepted, and what an accepted page proves.
use warsaw_beer_bot.Base.{
  subst, ℕ, ◌≤◌, ◌<◌, ◌≡◌, ◌≢◌, refl, ◌⊎◌, inl, inr, true, false, Option, none, some, List, [], ◌∷◌,
  ltb, ◌==◌, if◌then◌else◌, Bool-cases, arith, All, All-and,
}
use warsaw_beer_bot.Base.Decimal.{Text, decimal}
use warsaw_beer_bot.Sync.Guards.{
  bad_cursor_for, cursor_format, CheckinFeedPage, PageVerdict, accept, Cursor, absent, at,
  malformed, parse_cursor, min_of, max_of, includes, above_cursor, contains_cursor, check_ids,
  ids_of, check_page,
}

min_of-le : (m : ℕ) (xs : List ℕ) → (min_of m xs ≤ m) × All (λ x. min_of m xs ≤ x) xs
min_of-le m [] = (omega arith, tt)
min_of-le m (x ∷ xs) =
    let (first, rest) = min_of-le (if ltb x m then x else m) xs in
    (ground arith, (ground arith, rest))

max_of-ge : (m : ℕ) (xs : List ℕ) → (m ≤ max_of m xs) × All (λ x. x ≤ max_of m xs) xs
max_of-ge m [] = (omega arith, tt)
max_of-ge m (x ∷ xs) =
    let (first, rest) = max_of-ge (if ltb m x then x else m) xs in
    (ground arith, (ground arith, rest))

includes-cons : (id m : ℕ) (xs : List ℕ) → includes id xs ≡ true → includes id (m ∷ xs) ≡ true
includes-cons id m xs h = ground arith

includes-head : (id : ℕ) (xs : List ℕ) → includes id (id ∷ xs) ≡ true
includes-head id xs = ground arith

-- The least id is one of the page's.
pub includes-min_of : (t m : ℕ) (xs : List ℕ) → t ≡ min_of m xs → includes t (m ∷ xs) ≡ true
includes-min_of t m [] h = ground arith
includes-min_of t m (x ∷ xs) h = elim (Bool-cases (ltb x m)) [
  | inl e ↦ includes-cons t m (x ∷ xs) (includes-min_of t x xs (rw e at h))
  | inr e ↦ skip (includes-min_of t m xs (rw e at h))
]
  where
    skip : includes t (m ∷ xs) ≡ true → includes t (m ∷ x ∷ xs) ≡ true
    skip h = ground arith

-- What an accepted page shows: its ids lie between `oldest` and `newest`, and a cursor is above
-- the oldest and no id of the page.
pub record IsProof (cursor : Option ℕ) (ids : List ℕ) (oldest newest : ℕ) : Type 0 where
  pub bounded : All (λ id. (oldest ≤ id) × (id ≤ newest)) ids
  pub below : (n : ℕ) → cursor ≡ some n → oldest < n
  pub excluded : (n : ℕ) → cursor ≡ some n → includes n ids ≡ false

pub strictly_below :
    (id n : ℕ) (ids : List ℕ)
    → ltb n (min_of id ids) ≡ false
    → includes n (id ∷ ids) ≡ false
    → min_of id ids < n
strictly_below id n ids low out = elim (Bool-cases (ltb (min_of id ids) n)) [
  | inl e ↦ ground arith
  | inr e ↦ absurd (clash (ground arith))
]
  where
    clash : n ≡ min_of id ids → ⊥
    clash e = cc (includes-min_of n id ids e)

IsProof-ids :
    (id : ℕ) (ids : List ℕ) (cursor : Option ℕ)
    → above_cursor (min_of id ids) cursor ≡ false
    → contains_cursor (id ∷ ids) cursor ≡ false
    → IsProof cursor (id ∷ ids) (min_of id ids) (max_of id ids)
IsProof-ids id ids cursor low out = record {
  bounded = (
    ((min_of-le id ids).0, (max_of-ge id ids).0),
    All-and _ _ ids (min_of-le id ids).1 (max_of-ge id ids).1,
  );
  below = below_of cursor low out;
  excluded = excluded_of cursor out;
}
  where
    below_of :
        (c : Option ℕ)
        → above_cursor (min_of id ids) c ≡ false
        → contains_cursor (id ∷ ids) c ≡ false
        → (n : ℕ) → c ≡ some n
        → min_of id ids < n
    below_of none l o n e = cc
    below_of (some m) l o n e = let same : m ≡ n = cc in rw (← same) (strictly_below id m ids l o)

    excluded_of :
        (c : Option ℕ)
        → contains_cursor (id ∷ ids) c ≡ false
        → (n : ℕ) → c ≡ some n
        → includes n (id ∷ ids) ≡ false
    excluded_of none o n e = cc
    excluded_of (some m) o n e = subst (λ k. includes k (id ∷ ids) ≡ false) (cc) o

check_ids-accept :
    (ids : List ℕ) (cursor known c : Option ℕ) (shown : List ℕ) (oldest newest : ℕ)
    → check_ids ids cursor known ≡ accept c shown oldest newest
    → (c ≡ cursor) × (shown ≡ ids) × (ids ≢ []) × IsProof cursor ids oldest newest
unfolding check_ids
check_ids-accept [] cursor known c shown oldest newest h = absurd (ground arith)
check_ids-accept (id ∷ ids) cursor known c shown oldest newest h =
    elim (Bool-cases (above_cursor (min_of id ids) cursor)) [
      | inl e ↦ absurd (ground arith)
      | inr e ↦ elim (Bool-cases (contains_cursor (id ∷ ids) cursor)) [
        | inl f ↦ absurd (ground arith)
        | inr f ↦
            let first : oldest ≡ min_of id ids = ground arith in
            let last : newest ≡ max_of id ids = ground arith in
            (ground arith, ground arith, cc, rw (first, last) (IsProof-ids id ids cursor e f))
      ]
    ]

-- The cursor that the checks see: `none` for an absent one, else a positive decimal number.
abbrev pub ReadsAs : Option Text → Option ℕ → Type 0
ReadsAs none cursor = cursor ≡ none
ReadsAs (some max_id) cursor = (n : ℕ) × (decimal max_id ≡ some n) × (0 < n) × (cursor ≡ some n)

pub ReadsAs-unique :
    (max_id : Option Text) (a b : Option ℕ) → ReadsAs max_id a → ReadsAs max_id b → a ≡ b
ReadsAs-unique none a b h k = cc
ReadsAs-unique (some max_id) a b h k = cc (h.1, h.3, k.1, k.3)

Parsed : Option Text → Cursor → Type 0
Parsed max_id absent = ReadsAs max_id none
Parsed max_id (at n) = ReadsAs max_id (some n)
Parsed max_id malformed = (cursor : Option ℕ) → ¬ ReadsAs max_id cursor

parse_cursor-Parsed : (max_id : Option Text) → Parsed max_id (parse_cursor max_id)
unfolding Parsed parse_cursor
parse_cursor-Parsed none = refl
parse_cursor-Parsed (some max_id) = go (decimal max_id) refl
  where
    positive :
        (n : ℕ)
        → decimal max_id ≡ some n
        → Parsed (some max_id) (if n == 0 then malformed else at n)
    positive n e = elim (Bool-cases (n == 0)) [
      | inl z ↦ rw z (λ cursor r. let same : r.0 ≡ n = cc (r.1) in ground (arith, r.2))
      | inr z ↦ rw z (n, e, ground arith, refl)
    ]

    go :
        (d : Option ℕ)
        → decimal max_id ≡ d
        → Parsed
            (some max_id)
            (elim d [ none ↦ malformed | some n ↦ if n == 0 then malformed else at n ])
    go none e = λ cursor r. cc (r.1)
    go (some n) e = positive n e

-- The rows of the page are judged exactly when the cursor could be read.
pub check_page-cases :
    (page : CheckinFeedPage) (max_id : Option Text) (known : Option ℕ)
    → ((cursor : Option ℕ) × ReadsAs max_id cursor
        × (check_page page max_id known ≡ check_ids (ids_of page) cursor known))
      ⊎ (((cursor : Option ℕ) → ¬ ReadsAs max_id cursor)
          × (check_page page max_id known ≡ bad_cursor_for cursor_format))
unfolding check_page
check_page-cases page max_id known = go (parse_cursor max_id) (parse_cursor-Parsed max_id)
  where
    verdict : Cursor → PageVerdict
    verdict c = elim c [
      | malformed ↦ bad_cursor_for cursor_format
      | absent ↦ check_ids (ids_of page) none known
      | at n ↦ check_ids (ids_of page) (some n) known
    ]

    go :
        (c : Cursor)
        → Parsed max_id c
        → ((cursor : Option ℕ) × ReadsAs max_id cursor
            × (verdict c ≡ check_ids (ids_of page) cursor known))
          ⊎ (((cursor : Option ℕ) → ¬ ReadsAs max_id cursor)
              × (verdict c ≡ bad_cursor_for cursor_format))
    go malformed p = inr (unfold Parsed in p, refl)
    go absent p = inl (none, unfold Parsed in p, refl)
    go (at n) p = inl (some n, unfold Parsed in p, refl)

-- An accepted page has rows and a cursor that could be read, and its ids are a proof: all lie
-- between `oldest` and `newest`, and a cursor lies above `oldest` and is no id of the page.
pub check_page-accept :
    (page : CheckinFeedPage) (max_id : Option Text) (known c : Option ℕ) (ids : List ℕ)
    (oldest newest : ℕ)
    → check_page page max_id known ≡ accept c ids oldest newest
    → ReadsAs max_id c × (ids ≡ ids_of page) × (ids ≢ []) × IsProof c ids oldest newest
check_page-accept page max_id known c ids oldest newest h =
    elim (check_page-cases page max_id known) [
      | inl (cursor, read, e) ↦
          let (same_c, same_ids, rows, proved) =
            check_ids-accept (ids_of page) cursor known c ids oldest newest (cc) in
          (rw same_c read, same_ids, rw same_ids rows, rw (same_c, same_ids) proved)
      | inr (unread, e) ↦ cc
    ]
