-- ===== src/Router/Selections.antt =====
-- The selections that the swaps of router.ts can reach are finitely many, so distances that always get
-- shorter come to an end.
use warsaw_beer_bot.Base.{
  ℕ, zero, suc, ◌*◌, ◌^◌, ◌≤◌, ◌<◌, Bool, true, false, List, [], ◌∷◌, ◌++◌, map, ◌≡◌, refl, sym, ap,
  ◌∙◌, subst, inl, inr, length, length-append, filter, All, All-imp, Any, Any-append_left,
  Any-append_right, Bool-cases, arith,
}
use native.Mathlib.Numerals.{unary_clauses}
use native.Mathlib.Nat.{mul_comm, suc-mul}
use warsaw_beer_bot.Router.{set_at}
use warsaw_beer_bot.Router.Tours.{RoutePub}

abbrev with_pub : RoutePub → List (List RoutePub) → List (List RoutePub)
with_pub p ls = map (λ l. p ∷ l) ls

abbrev onto_all : List RoutePub → List (List RoutePub) → List (List RoutePub)
onto_all [] ls = []
onto_all (p ∷ ps) ls = with_pub p ls ++ onto_all ps ls

-- The lists of `k` pubs of the pool.
pub selections : ℕ → List RoutePub → List (List RoutePub)
selections zero pool = [] ∷ []
selections (suc k) pool = onto_all pool (selections k pool)

length-with_pub : (p : RoutePub) (ls : List (List RoutePub)) → length (with_pub p ls) ≡ length ls
length-with_pub p [] = refl
length-with_pub p (l ∷ ls) = ap suc (length-with_pub p ls)

length-onto_all :
    (ps : List RoutePub) (ls : List (List RoutePub))
    → length (onto_all ps ls) ≡ length ps * length ls
length-onto_all [] ls = omega arith
length-onto_all (p ∷ ps) ls =
    length-append (with_pub p ls) (onto_all ps ls)
    ∙ (let head = length-with_pub p ls in
        let tail = length-onto_all ps ls in
        let step = suc-mul (length ps) (length ls) in omega (arith, head, tail, step))

pub length-selections :
    (k : ℕ) (pool : List RoutePub) → length (selections k pool) ≡ length pool ^ k
unfolding selections
length-selections zero pool = simp unary_clauses refl
length-selections (suc k) pool =
    length-onto_all pool (selections k pool)
    ∙ (let rest = length-selections k pool in
        rw rest (simp unary_clauses (mul_comm (length pool) (length pool ^ k))))

Any-with_pub :
    (p : RoutePub) (l : List RoutePub) (ls : List (List RoutePub))
    → Any (λ m. m ≡ l) ls
    → Any (λ m. m ≡ p ∷ l) (with_pub p ls)
Any-with_pub p l (m ∷ ls) (inl e) = inl (ap (λ x. p ∷ x) e)
Any-with_pub p l (m ∷ ls) (inr h) = inr (Any-with_pub p l ls h)
Any-with_pub p l [] h = absurd h

Any-onto_all :
    (p : RoutePub) (l : List RoutePub) (ps : List RoutePub) (ls : List (List RoutePub))
    → Any (λ q. q ≡ p) ps
    → Any (λ m. m ≡ l) ls
    → Any (λ m. m ≡ p ∷ l) (onto_all ps ls)
Any-onto_all p l (q ∷ ps) ls (inl e) h =
    Any-append_left _ (with_pub q ls) _
      (subst (λ x. Any (λ m. m ≡ p ∷ l) (with_pub x ls)) (sym e) (Any-with_pub p l ls h))
Any-onto_all p l (q ∷ ps) ls (inr k) h =
    Any-append_right _ (with_pub q ls) _ (Any-onto_all p l ps ls k h)
Any-onto_all p l [] ls k h = absurd k

-- A pub of the pool.
pub In : List RoutePub → RoutePub → Type 0
In pool p = Any (λ q. q ≡ p) pool

pub selections-Any :
    (pool l : List RoutePub) → All (In pool) l → Any (λ m. m ≡ l) (selections (length l) pool)
unfolding selections In
selections-Any pool [] h = inl refl
selections-Any pool (p ∷ l) h =
    Any-onto_all p l pool (selections (length l) pool) h.0 (selections-Any pool l h.1)

pub length-set_at : (i : ℕ) (p : RoutePub) (l : List RoutePub) → length (set_at i p l) ≡ length l
length-set_at i p [] = refl
length-set_at zero p (q ∷ l) = refl
length-set_at (suc i) p (q ∷ l) = ap suc (length-set_at i p l)

pub In-set_at :
    (pool : List RoutePub) (i : ℕ) (p : RoutePub) (l : List RoutePub)
    → In pool p
    → All (In pool) l
    → All (In pool) (set_at i p l)
In-set_at pool i p [] h k = tt
In-set_at pool zero p (q ∷ l) h k = (h, k.1)
In-set_at pool (suc i) p (q ∷ l) h k = (k.0, In-set_at pool i p l h k.1)

-- A test that is stronger, and fails somewhere the other does not, passes fewer entries.
module _ {A : Type 0} (p q : A → Bool) (weaker : (x : A) → p x ≡ true → q x ≡ true) where
  count_le : (l : List A) → length (filter p l) ≤ length (filter q l)
  count_le [] = omega arith
  count_le (x ∷ l) = elim (Bool-cases (p x)) [
    | inl e ↦ let f = weaker x e in rw (e, f) (omega (arith, count_le l))
    | inr e ↦ elim (Bool-cases (q x)) [
      | inl f ↦ rw (e, f) (omega (arith, count_le l))
      | inr f ↦ rw (e, f) (count_le l)
    ]
  ]

  pub count_lt :
      (x : A) (l : List A)
      → p x ≡ false
      → q x ≡ true
      → Any (λ y. y ≡ x) l
      → length (filter p l) < length (filter q l)
  count_lt x [] e f h = absurd h
  count_lt x (y ∷ l) e f (inl k) =
      let d = subst (λ z. p z ≡ false) (sym k) e in
      let g = subst (λ z. q z ≡ true) (sym k) f in rw (d, g) (omega (arith, count_le l))
  count_lt x (y ∷ l) e f (inr k) = elim (Bool-cases (p y)) [
    | inl d ↦ let g = weaker y d in rw (d, g) (omega (arith, count_lt x l e f k))
    | inr d ↦ elim (Bool-cases (q y)) [
      | inl g ↦ rw (d, g) (omega (arith, count_lt x l e f k))
      | inr g ↦ rw (d, g) (count_lt x l e f k)
    ]
  ]

pub length-filter_le : {A : Type 0} (p : A → Bool) (l : List A) → length (filter p l) ≤ length l
length-filter_le p [] = omega arith
length-filter_le p (x ∷ l) = elim (Bool-cases (p x)) [
  | inl e ↦ rw e (omega (arith, length-filter_le p l))
  | inr e ↦ rw e (omega (arith, length-filter_le p l))
]

In-self : (l : List RoutePub) → All (In l) l
unfolding In
In-self [] = tt
In-self (p ∷ l) = (inl refl, All-imp (λ q k. inr k) l (In-self l))

pub In-append_left : (l m : List RoutePub) → All (In (l ++ m)) l
unfolding In
In-append_left l m = All-imp (λ p k. Any-append_left _ l m k) l (In-self l)

pub In-append_right : (l m : List RoutePub) → All (In (l ++ m)) m
unfolding In
In-append_right l m = All-imp (λ p k. Any-append_right _ l m k) m (In-self m)
