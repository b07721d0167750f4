-- ===== src/Fest/Queue/Numbers.antt =====
-- A number that was given to a glass is never given again: storage/fest_queue.ts, over any sequence of
-- its calls.
use warsaw_beer_bot.Base.{
  Any, inl, inr, ℕ, ◌≤◌, ◌<◌, Bool, true, List, [], ◌∷◌, ◌++◌, map, ◌==◌, ==_iff, ◌≡◌, ◌≢◌, refl,
  ap, sym, subst, if-cases, filter, arith, All, All-imp, All-and, All-append, AllPairs,
}
use warsaw_beer_bot.Fest.Queue.{
  QueueRow, Removed, QueueDb, TakeInput, greatest, next_glass, next_id, new_row, insert_glass,
}

-- The numbers that a glass of the queue, or a cancelled one, has been given.
pub record Issued : Type 0 where
  pub number : ℕ
  pub team : ℕ
  pub glass : ℕ

abbrev pub of_row : QueueRow → Issued
of_row r = record { number = r.id; team = r.team_id; glass = r.glass_no }

abbrev pub of_removed : Removed → Issued
of_removed r = record { number = r.queue_id; team = r.team_id; glass = r.glass_no }

unfoldable pub issued : QueueDb → List Issued
issued db = map of_row db.queue ++ map of_removed db.removed

-- Two glasses have different rows, and in one team different numbers.
unfoldable pub Apart : Issued → Issued → Type 0
Apart a b = (a.number ≢ b.number) × (a.team ≡ b.team → a.glass ≢ b.glass)

unfoldable pub IsNumbered : QueueDb → Type 0
unfolding issued
IsNumbered db = AllPairs Apart (issued db)

-- This number has been given to a glass.
unfoldable pub Given : Issued → QueueDb → Type 0
unfolding issued
Given x db = Any (λ y. y ≡ x) (issued db)

pub Apart-sym : (a b : Issued) → Apart a b → Apart b a
unfolding Apart
Apart-sym a b h = (λ e. h.0 (sym e), λ t e. h.1 (sym t) (sym e))

pub All-map {κ} :
    {A B : Type 0} (P : B → Type κ) (f : A → B) (xs : List A)
    → All (λ x. P (f x)) xs
    → All P (map f xs)
All-map P f [] h = tt
All-map P f (x ∷ xs) h = (h.0, All-map P f xs h.1)

pub All-left : (P : Issued → Type 0) (xs ys : List Issued) → All P (xs ++ ys) → All P xs
All-left P [] ys h = tt
All-left P (x ∷ xs) ys h = (h.0, All-left P xs ys h.1)

pub All-right : (P : Issued → Type 0) (xs ys : List Issued) → All P (xs ++ ys) → All P ys
All-right P [] ys h = h
All-right P (x ∷ xs) ys h = All-right P xs ys h.1

-- A new glass is apart from every glass there was.
module _ {A : Type 0} (f : A → ℕ) where
  greatest_all : (xs : List A) → All (λ x. f x ≤ greatest (map f xs)) xs
  greatest_all [] = tt
  greatest_all (x ∷ xs) = (omega arith, All-imp (λ y h. omega (arith, h)) xs (greatest_all xs))

  greatest_grown :
      (p : A → Bool) (x : A) (xs : List A)
      → greatest (map f (filter p xs)) ≤ greatest (map f (filter p (x ∷ xs)))
  greatest_grown p x xs =
      if-cases (λ (ys : List A). greatest (map f (filter p xs)) ≤ greatest (map f ys)) (p x) _ _
        (λ e. omega arith) λ e. omega arith

  greatest_head :
      (p : A → Bool) (x : A) (xs : List A) → p x ≡ true → f x ≤ greatest (map f (filter p (x ∷ xs)))
  greatest_head p x xs e = rw e (omega arith)

  greatest_where :
      (p : A → Bool) (xs : List A) → All (λ x. p x ≡ true → f x ≤ greatest (map f (filter p xs))) xs
  greatest_where p [] = tt
  greatest_where p (x ∷ xs) = (
    greatest_head p x xs,
    All-imp (λ y h k. omega (arith, h k, greatest_grown p x xs)) xs (greatest_where p xs),
  )

module _ (team : ℕ) (db : QueueDb) where
  New : Issued → Type 0
  New x = (x.number < next_id db) × (x.team ≡ team → x.glass < next_glass team db)

  New-queue : All (λ r. New (of_row r)) db.queue
  unfolding New
  New-queue =
      All-imp (λ r h. (ground (arith, h.0), λ t. ground (arith, h.1 ((==_iff r.team_id team).1 t))))
        db.queue
        (All-and _ _ db.queue (greatest_all (λ r. r.id) db.queue)
          (greatest_where (λ r. r.glass_no) (λ r. r.team_id == team) db.queue))

  New-removed : All (λ r. New (of_removed r)) db.removed
  unfolding New
  New-removed =
      All-imp (λ r h. (ground (arith, h.0), λ t. ground (arith, h.1 ((==_iff r.team_id team).1 t))))
        db.removed
        (All-and _ _ db.removed (greatest_all (λ r. r.queue_id) db.removed)
          (greatest_where (λ r. r.glass_no) (λ r. r.team_id == team) db.removed))

-- Into the middle of a list whose entries it is apart from, on either side.
AllPairs-middle :
    (n : Issued) (xs ys : List Issued)
    → All (Apart n) xs
    → All (Apart n) ys
    → AllPairs Apart (xs ++ ys)
    → AllPairs Apart ((xs ++ n ∷ []) ++ ys)
AllPairs-middle n [] ys h k l = (k, l)
AllPairs-middle n (x ∷ xs) ys h k l = (
  All-append (Apart x) (xs ++ n ∷ []) ys
      (All-append (Apart x) xs (n ∷ []) (All-left (Apart x) xs ys l.0) (Apart-sym n x h.0, tt))
      (All-right (Apart x) xs ys l.0),
  AllPairs-middle n xs ys h.1 k l.1,
)

pub map-last :
    {A B : Type 0} (f : A → B) (xs : List A) (x : A) → map f (xs ++ x ∷ []) ≡ map f xs ++ f x ∷ []
map-last f [] x = refl
map-last f (y ∷ xs) x = ap (λ l. f y ∷ l) (map-last f xs x)

pub insert_glass-IsNumbered :
    (p : TakeInput) (db : QueueDb) → IsNumbered db → IsNumbered (insert_glass p db).0
unfolding IsNumbered Apart New
insert_glass-IsNumbered p db h =
    subst (λ l. AllPairs Apart (l ++ map of_removed db.removed))
      (sym (map-last of_row db.queue (new_row p db)))
      (AllPairs-middle (of_row (new_row p db)) (map of_row db.queue) (map of_removed db.removed)
        (All-map _ of_row db.queue
          (All-imp (λ r k. apart (of_row r) k) db.queue (New-queue p.team_id db)))
        (All-map _ of_removed db.removed
          (All-imp (λ r k. apart (of_removed r) k) db.removed (New-removed p.team_id db)))
        h)
  where
    apart : (x : Issued) → New p.team_id db x → Apart (of_row (new_row p db)) x
    apart x k = (λ e. omega (arith, k.0, e), λ t e. omega (arith, k.1 (sym t), e))

pub insert_glass-Given :
    (p : TakeInput) (db : QueueDb) (x : Issued) → Given x db → Given x (insert_glass p db).0
unfolding Given
insert_glass-Given p db x k =
    subst (λ l. Any (λ y. y ≡ x) (l ++ map of_removed db.removed))
      (sym (map-last of_row db.queue (new_row p db))) (Any-middle (map of_row db.queue) k)
  where
    Any-middle :
        (xs : List Issued)
        → Any (λ y. y ≡ x) (xs ++ map of_removed db.removed)
        → Any (λ y. y ≡ x) ((xs ++ of_row (new_row p db) ∷ []) ++ map of_removed db.removed)
    Any-middle [] m = inr m
    Any-middle (z ∷ zs) (inl m) = inl m
    Any-middle (z ∷ zs) (inr m) = inr (Any-middle zs m)
