-- ===== src/Fest/Queue/Cancelled.antt =====
-- What storage/fest_queue.ts leaves behind of a cancelled glass: its number and its row id, apart from all others.
use warsaw_beer_bot.Base.{
  arith, ◌⊎◌, if-cases, Any-append_split, Any-append_left, Any-append_right, ℕ, Bool, true, not,
  none, some, List, [], ◌∷◌, ◌++◌, map, ◌==◌, ==_iff, ◌≡◌, ◌≢◌, refl, ap, sym, ◌∙◌, subst, inl, inr,
  Bool-cases, filter, find?, All, All-imp, All-append, All-filter_imp, Any, AllPairs,
}
use warsaw_beer_bot.Fest.Queue.{QueueRow, QueueDb, drop_glass}
use warsaw_beer_bot.Fest.Queue.Numbers.{
  Issued, issued, Given, of_row, of_removed, Apart, IsNumbered, Apart-sym, All-map, All-left,
  All-right, map-last,
}

All-unmap :
    (P : Issued → Type 0) (xs : List QueueRow) → All P (map of_row xs) → All (λ r. P (of_row r)) xs
All-unmap P [] h = tt
All-unmap P (x ∷ xs) h = (h.0, All-unmap P xs h.1)

append_assoc : (xs ys zs : List Issued) → (xs ++ ys) ++ zs ≡ xs ++ (ys ++ zs)
append_assoc [] ys zs = refl
append_assoc (x ∷ xs) ys zs = ap (λ l. x ∷ l) (append_assoc xs ys zs)

AllPairs-last :
    (n : Issued) (xs : List Issued)
    → AllPairs Apart xs
    → All (Apart n) xs
    → AllPairs Apart (xs ++ n ∷ [])
AllPairs-last n [] h k = (tt, tt)
AllPairs-last n (x ∷ xs) h k =
    (All-append (Apart x) xs (n ∷ []) h.0 (Apart-sym n x k.0, tt), AllPairs-last n xs h.1 k.1)

-- The glasses that a deletion keeps are as far apart as before.
module _ (p : QueueRow → Bool) (ys : List Issued) where
  All-kept :
      (P : Issued → Type 0) (q : List QueueRow)
      → All P (map of_row q ++ ys)
      → All P (map of_row (filter p q) ++ ys)
  All-kept P [] h = h
  All-kept P (r ∷ q) h = elim (Bool-cases (p r)) [
    | inl e ↦ rw e (h.0, All-kept P q h.1)
    | inr e ↦ rw e (All-kept P q h.1)
  ]

  AllPairs-kept :
      (q : List QueueRow)
      → AllPairs Apart (map of_row q ++ ys)
      → AllPairs Apart (map of_row (filter p q) ++ ys)
  AllPairs-kept [] h = h
  AllPairs-kept (r ∷ q) h = elim (Bool-cases (p r)) [
    | inl e ↦ rw e (All-kept (Apart (of_row r)) q h.0, AllPairs-kept q h.1)
    | inr e ↦ rw e (AllPairs-kept q h.1)
  ]

not-==_lem : (a b : ℕ) → not (a == b) ≡ true → a ≢ b
not-==_lem a b h e = absurd (not_true (rw ((==_iff a b).1 e) at h))
  where
    not_true : not true ≡ true → ⊥
    not_true k = cc

==-differ : (a b : ℕ) → a ≢ b → not (a == b) ≡ true
==-differ a b h = ground arith

-- A glass of the queue is apart from every other one, and from those that were cancelled.
module _ (row : QueueRow) (ys : List Issued) where
  cancelled-Apart :
      (q : List QueueRow)
      → Any (λ r. r ≡ row) q
      → AllPairs Apart (map of_row q ++ ys)
      → All (Apart (of_row row)) ys
  cancelled-Apart (r ∷ q) (inl e) h =
      subst (λ x. All (Apart (of_row x)) ys) e (All-right (Apart (of_row r)) (map of_row q) ys h.0)
  cancelled-Apart (r ∷ q) (inr k) h = cancelled-Apart q k h.1
  cancelled-Apart [] k h = absurd k

  Any-Apart :
      (P : Issued → Type 0) (q : List QueueRow)
      → Any (λ r. r ≡ row) q
      → All P (map of_row q ++ ys)
      → P (of_row row)
  Any-Apart P (r ∷ q) (inl e) h = subst (λ x. P (of_row x)) e h.0
  Any-Apart P (r ∷ q) (inr k) h = Any-Apart P q k h.1
  Any-Apart P [] k h = absurd k

  row_or_Apart :
      (q : List QueueRow)
      → Any (λ r. r ≡ row) q
      → AllPairs Apart (map of_row q ++ ys)
      → All (λ r. (r ≡ row) ⊎ Apart (of_row row) (of_row r)) q
  row_or_Apart (r ∷ q) (inl e) h = (
    inl e,
    All-imp (λ x d. inr (subst (λ y. Apart (of_row y) (of_row x)) e d)) q
        (All-unmap (Apart (of_row r)) q (All-left (Apart (of_row r)) (map of_row q) ys h.0)),
  )
  row_or_Apart (r ∷ q) (inr k) h = (
    inr (Apart-sym (of_row r) (of_row row) (Any-Apart (Apart (of_row r)) q k h.0)),
    row_or_Apart q k h.1,
  )
  row_or_Apart [] k h = absurd k

  others-Apart :
      (q : List QueueRow)
      → Any (λ r. r ≡ row) q
      → AllPairs Apart (map of_row q ++ ys)
      → All (λ r. not (r.id == row.id) ≡ true → Apart (of_row row) (of_row r)) q
  others-Apart q k h = All-imp (λ r c. of_case r c) q (row_or_Apart q k h)
    where
      of_case :
          (r : QueueRow)
          → (r ≡ row) ⊎ Apart (of_row row) (of_row r)
          → not (r.id == row.id) ≡ true
          → Apart (of_row row) (of_row r)
      of_case r (inl e) t = absurd (not-==_lem r.id row.id t (ap (λ (x : QueueRow). x.id) e))
      of_case r (inr d) t = d

  -- A number that had been given is that of the cancelled glass, or of one that is kept.
  kept_or_cancelled :
      (x : Issued) (q : List QueueRow)
      → All (λ r. (r ≡ row) ⊎ Apart (of_row row) (of_row r)) q
      → Any (λ y. y ≡ x) (map of_row q)
      → (of_row row ≡ x) ⊎ Any (λ y. y ≡ x) (map of_row (filter (λ r. not (r.id == row.id)) q))
  unfolding Apart
  kept_or_cancelled x (r ∷ q) (inl e, h) (inl k) = inl (ap of_row (sym e) ∙ k)
  kept_or_cancelled x (r ∷ q) (inr d, h) (inl k) =
      inr (rw (==-differ r.id row.id (λ e. d.0 (sym e))) (inl k))
  kept_or_cancelled x (r ∷ q) h (inr k) = elim (kept_or_cancelled x q h.1 k) [
    | inl e ↦ inl e
    | inr l ↦ inr (
        if-cases (λ (rs : List QueueRow). Any (λ y. y ≡ x) (map of_row rs)) (not (r.id == row.id)) _
          _ (λ e. inr l) λ e. l)
  ]
  kept_or_cancelled x [] h k = absurd k

pub Any-find? :
    (p : QueueRow → Bool) (row : QueueRow) (q : List QueueRow)
    → find? p q ≡ some row
    → Any (λ r. r ≡ row) q
Any-find? p row [] e = absurd (not_some e)
  where
    not_some : none ≡ some row → ⊥
    not_some k = cc
Any-find? p row (r ∷ q) e = elim (Bool-cases (p r)) [
  | inl f ↦ inl (same (rw f at e))
  | inr f ↦ inr (Any-find? p row q (rw f at e))
]
  where
    same : some r ≡ some row → r ≡ row
    same k = cc

abbrev others : QueueRow → QueueDb → List QueueRow
others row db = filter (λ r. not (r.id == row.id)) db.queue

module _ (row : QueueRow) (db : QueueDb) (found : Any (λ r. r ≡ row) db.queue)
    (h : AllPairs Apart (map of_row db.queue ++ map of_removed db.removed)) where
  relisted :
      map of_row (others row db) ++ map of_removed (drop_glass row db).removed
      ≡ (map of_row (others row db) ++ map of_removed db.removed) ++ of_row row ∷ []
  relisted =
      ap (λ l. map of_row (others row db) ++ l) (map-last of_removed db.removed _)
      ∙ sym
          (append_assoc (map of_row (others row db)) (map of_removed db.removed) (of_row row ∷ []))

  others_and_cancelled-Apart :
      All (Apart (of_row row)) (map of_row (others row db) ++ map of_removed db.removed)
  others_and_cancelled-Apart =
      All-append _ (map of_row (others row db)) (map of_removed db.removed)
        (All-map _ of_row (others row db)
          (All-filter_imp _ _ db.queue (others-Apart row _ db.queue found h)))
        (cancelled-Apart row _ db.queue found h)

  drop_glass_lem :
      AllPairs Apart (map of_row (others row db) ++ map of_removed (drop_glass row db).removed)
  drop_glass_lem =
      subst (AllPairs Apart) (sym relisted)
        (AllPairs-last (of_row row) _ (AllPairs-kept _ _ db.queue h) others_and_cancelled-Apart)

pub drop_glass-IsNumbered :
    (row : QueueRow) (db : QueueDb)
    → Any (λ r. r ≡ row) db.queue
    → IsNumbered db
    → IsNumbered (drop_glass row db)
unfolding IsNumbered issued
drop_glass-IsNumbered = drop_glass_lem

pub drop_glass-Given :
    (row : QueueRow) (db : QueueDb)
    → Any (λ r. r ≡ row) db.queue
    → IsNumbered db
    → (x : Issued) → Given x db
    → Given x (drop_glass row db)
unfolding IsNumbered issued Given
drop_glass-Given row db found h x k =
    elim (Any-append_split _ (map of_row db.queue) (map of_removed db.removed) k) [
      | inl q ↦
          elim (kept_or_cancelled row (map of_removed db.removed) x db.queue
            (row_or_Apart row _ db.queue found h) q) [
              | inl e ↦ Any-append_right _ (map of_row (others row db)) _ (
                  subst (Any (λ y. y ≡ x)) (sym (map-last of_removed db.removed _))
                    (Any-append_right _ (map of_removed db.removed) _ (inl e)))
              | inr l ↦ Any-append_left _ (map of_row (others row db)) _ l
            ]
      | inr q ↦ Any-append_right _ (map of_row (others row db)) _ (
          subst (Any (λ y. y ≡ x)) (sym (map-last of_removed db.removed _))
            (Any-append_left _ (map of_removed db.removed) _ q))
    ]
