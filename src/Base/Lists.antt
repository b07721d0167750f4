-- ===== src/Base/Lists.antt =====
-- Lists over the native numbers, tests by Booleans, and predicates by recursion.
use Prim.Native.Nat.{ℕ, zero, suc, ◌+◌, ◌≤◌}
use mathlib.Core.Path.{◌≡◌, sym, subst}
use mathlib.Core.Logic.{◌⊎◌, ◌↔◌, inl, inr}
use mathlib.Core.Bool.{Bool, true, false, not, ◌&&◌, ◌||◌}
use mathlib.Core.Option.{Option, none, some}
use mathlib.Core.List.{List, [], ◌∷◌, ◌++◌}
use native.Mathlib.Omega.{arith}
use warsaw_beer_bot.Base.Tests.{if◌then◌else◌, Bool-cases}

module _ {ℓ} {A : Type ℓ} where
  abbrev pub length : List A → ℕ
  length [] = 0
  length (x ∷ xs) = suc (length xs)

  -- Array.prototype.filter, find, some and every.
  abbrev pub filter : (A → Bool) → List A → List A
  filter p [] = []
  filter p (x ∷ xs) = if p x then x ∷ filter p xs else filter p xs

  abbrev pub find? : (A → Bool) → List A → Option A
  find? p [] = none
  find? p (x ∷ xs) = if p x then some x else find? p xs

  abbrev pub any : (A → Bool) → List A → Bool
  any p [] = false
  any p (x ∷ xs) = p x || any p xs

  abbrev pub all : (A → Bool) → List A → Bool
  all p [] = true
  all p (x ∷ xs) = p x && all p xs

  -- `slice(0, n)`
  abbrev pub take : ℕ → List A → List A
  take zero xs = []
  take (suc n) [] = []
  take (suc n) (x ∷ xs) = x ∷ take n xs

  pub length-take : (n : ℕ) (xs : List A) → length (take n xs) ≤ n
  length-take zero xs = omega arith
  length-take (suc n) [] = omega arith
  length-take (suc n) (x ∷ xs) = omega (arith, length-take n xs)

  pub length-append : (xs ys : List A) → length (xs ++ ys) ≡ length xs + length ys
  length-append [] ys = omega arith
  length-append (x ∷ xs) ys = omega (arith, length-append xs ys)

module _ {ℓ κ} {A : Type ℓ} where
  -- Every entry satisfies `P`.
  abbrev pub All : (A → Type κ) → List A → Type κ
  All P [] = Unit
  All P (x ∷ xs) = P x × All P xs

  pub All-imp : {P Q : A → Type κ} (f : (x : A) → P x → Q x) (xs : List A) → All P xs → All Q xs
  All-imp f [] h = tt
  All-imp f (x ∷ xs) h = (f x h.0, All-imp f xs h.1)

  pub All-and : (P Q : A → Type κ) (xs : List A) → All P xs → All Q xs → All (λ x. P x × Q x) xs
  All-and P Q [] h k = tt
  All-and P Q (x ∷ xs) h k = ((h.0, k.0), All-and P Q xs h.1 k.1)

  pub All-append : (P : A → Type κ) (xs ys : List A) → All P xs → All P ys → All P (xs ++ ys)
  All-append P [] ys h k = k
  All-append P (x ∷ xs) ys h k = (h.0, All-append P xs ys h.1 k)

  pub All-filter : (P : A → Type κ) (p : A → Bool) (xs : List A) → All P xs → All P (filter p xs)
  All-filter P p [] h = tt
  All-filter P p (x ∷ xs) h = elim (Bool-cases (p x)) [
    | inl e ↦ rw e (h.0, All-filter P p xs h.1)
    | inr e ↦ rw e (All-filter P p xs h.1)
  ]

module _ {ℓ} {A : Type ℓ} where
  -- Some entry satisfies `P`, and which one is known.
  abbrev pub Any : (A → Type 0) → List A → Type 0
  Any P [] = ⊥
  Any P (x ∷ xs) = P x ⊎ Any P xs

  -- Every two entries, the earlier one first, are related.
  abbrev pub AllPairs : (A → A → Type 0) → List A → Type 0
  AllPairs R [] = Unit
  AllPairs R (x ∷ xs) = All (R x) xs × AllPairs R xs

  -- What the entries that pass a filter satisfy because they passed.
  pub All-filter_self : (p : A → Bool) (xs : List A) → All (λ x. p x ≡ true) (filter p xs)
  All-filter_self p [] = tt
  All-filter_self p (x ∷ xs) = elim (Bool-cases (p x)) [
    | inl e ↦ rw e (e, All-filter_self p xs)
    | inr e ↦ rw e (All-filter_self p xs)
  ]

  pub all-All : (p : A → Bool) (xs : List A) → all p xs ≡ true → All (λ x. p x ≡ true) xs
  all-All p [] e = tt
  all-All p (x ∷ xs) e = elim (Bool-cases (p x)) [
    | inl f ↦ (f, all-All p xs (rw f at e))
    | inr f ↦ absurd (apart (rw f at e))
  ]
    where
      apart : (false && all p xs) ≡ true → ⊥
      apart k = cc

  pub All-filter_imp :
      (P : A → Type 0) (p : A → Bool) (xs : List A)
      → All (λ x. p x ≡ true → P x) xs
      → All P (filter p xs)
  All-filter_imp P p [] h = tt
  All-filter_imp P p (x ∷ xs) h = elim (Bool-cases (p x)) [
    | inl e ↦ rw e (h.0 e, All-filter_imp P p xs h.1)
    | inr e ↦ rw e (All-filter_imp P p xs h.1)
  ]

  pub AllPairs-filter :
      (R : A → A → Type 0) (p : A → Bool) (xs : List A) → AllPairs R xs → AllPairs R (filter p xs)
  AllPairs-filter R p [] h = tt
  AllPairs-filter R p (x ∷ xs) h = elim (Bool-cases (p x)) [
    | inl e ↦ rw e (All-filter (R x) p xs h.0, AllPairs-filter R p xs h.1)
    | inr e ↦ rw e (AllPairs-filter R p xs h.1)
  ]

  pub Any-append_left : (P : A → Type 0) (xs ys : List A) → Any P xs → Any P (xs ++ ys)
  Any-append_left P (x ∷ xs) ys (inl h) = inl h
  Any-append_left P (x ∷ xs) ys (inr h) = inr (Any-append_left P xs ys h)
  Any-append_left P [] ys h = absurd h

  pub Any-append_right : (P : A → Type 0) (xs ys : List A) → Any P ys → Any P (xs ++ ys)
  Any-append_right P [] ys h = h
  Any-append_right P (x ∷ xs) ys h = inr (Any-append_right P xs ys h)

  pub Any-append_split : (P : A → Type 0) (xs ys : List A) → Any P (xs ++ ys) → Any P xs ⊎ Any P ys
  Any-append_split P [] ys h = inr h
  Any-append_split P (x ∷ xs) ys (inl h) = inl (inl h)
  Any-append_split P (x ∷ xs) ys (inr h) = elim (Any-append_split P xs ys h) [
    | inl k ↦ inl (inr k)
    | inr k ↦ inr k
  ]

  pub Any-filter_sub :
      (P : A → Type 0) (p : A → Bool) (xs : List A) → Any P (filter p xs) → Any P xs
  Any-filter_sub P p [] h = h
  Any-filter_sub P p (x ∷ xs) h = elim (Bool-cases (p x)) [
    | inl e ↦ elim (rw e at h) [ inl k ↦ inl k | inr k ↦ inr (Any-filter_sub P p xs k) ]
    | inr e ↦ inr (Any-filter_sub P p xs (rw e at h))
  ]

  -- An entry that satisfies `P` passes a filter or fails it.
  pub Any-filter_split :
      (P : A → Type 0) (p : A → Bool) (xs : List A)
      → Any P xs
      → Any P (filter p xs) ⊎ Any P (filter (λ x. not (p x)) xs)
  Any-filter_split P p [] h = inl h
  Any-filter_split P p (x ∷ xs) (inl h) = elim (Bool-cases (p x)) [
    | inl e ↦ rw e (inl (inl h))
    | inr e ↦ rw e (inr (inl h))
  ]
  Any-filter_split P p (x ∷ xs) (inr h) = elim (Bool-cases (p x)) [
    | inl e ↦ rw e (elim (Any-filter_split P p xs h) [ inl k ↦ inl (inr k) | inr k ↦ inr k ])
    | inr e ↦ rw e (elim (Any-filter_split P p xs h) [ inl k ↦ inl k | inr k ↦ inr (inr k) ])
  ]

module _ {ℓ} {A : Type ℓ} where
  pub All-take {κ} : (P : A → Type κ) (n : ℕ) (xs : List A) → All P xs → All P (take n xs)
  All-take P zero xs h = tt
  All-take P (suc n) [] h = tt
  All-take P (suc n) (x ∷ xs) h = (h.0, All-take P n xs h.1)

  pub AllPairs-take :
      (R : A → A → Type 0) (n : ℕ) (xs : List A) → AllPairs R xs → AllPairs R (take n xs)
  AllPairs-take R zero xs h = tt
  AllPairs-take R (suc n) [] h = tt
  AllPairs-take R (suc n) (x ∷ xs) h = (All-take (R x) n xs h.0, AllPairs-take R n xs h.1)

-- What passes a filter is in the list and passes the test.
pub Any-filter_iff :
    {A : Type 0} (p : A → Bool) (t : A) (l : List A)
    → Any (λ u. u ≡ t) (filter p l) ↔ (Any (λ u. u ≡ t) l × (p t ≡ true))
Any-filter_iff p t [] = (λ h. absurd h, λ h. absurd h.0)
Any-filter_iff p t (x ∷ xs) =
    let (to, from) = Any-filter_iff p t xs in
    elim (Bool-cases (p x)) [
      | inl e ↦ rw e (
        λ h. elim h [
          | inl k ↦ (inl k, subst (λ u. p u ≡ true) k e)
          | inr k ↦ (inr (to k).0, (to k).1)
        ],
        λ h. elim h.0 [ inl k ↦ inl k | inr k ↦ inr (from (k, h.1)) ],
      )
      | inr e ↦ rw e (
        λ h. (inr (to h).0, (to h).1),
        λ h. elim h.0 [
          | inl k ↦ absurd (apart (sym e) (subst (λ u. p u ≡ true) (sym k) h.1))
          | inr k ↦ from (k, h.1)
        ],
      )
    ]
  where
    apart : {b : Bool} → false ≡ b → b ≡ true → ⊥
    apart e f = cc
