-- ===== src/Base/Sort.antt =====
-- Array.prototype.sort: a stable sort by a comparison, here by insertion. `le x y` is the test that
-- `x` may stand before `y`, which for a comparator `cmp` is `cmp(x, y) <= 0`.
use mathlib.Core.Path.{◌≡◌}
use mathlib.Core.Bool.{Bool, true, false}
use mathlib.Core.Logic.{◌⊎◌, inl, inr, ◌↔◌}
use mathlib.Core.List.{List, [], ◌∷◌}
use warsaw_beer_bot.Base.Tests.{if◌then◌else◌, Bool-cases}
use warsaw_beer_bot.Base.Lists.{All, All-imp, Any, AllPairs}

module _ {ℓ} {A : Type ℓ} (le : A → A → Bool) where
  -- `x` before the first entry that it may precede.
  unfoldable pub insert_sorted : A → List A → List A
  insert_sorted x [] = x ∷ []
  insert_sorted x (y ∷ ys) = if le x y then x ∷ y ∷ ys else y ∷ insert_sorted x ys

  unfoldable pub sort : List A → List A
  unfolding insert_sorted
  sort [] = []
  sort (x ∷ xs) = insert_sorted x (sort xs)

  pub All-insert_sorted {κ} :
      (P : A → Type κ) (x : A) (ys : List A) → P x → All P ys → All P (insert_sorted x ys)
  unfolding insert_sorted
  All-insert_sorted P x [] h k = (h, tt)
  All-insert_sorted P x (y ∷ ys) h k = elim (Bool-cases (le x y)) [
    | inl e ↦ rw e (h, k)
    | inr e ↦ rw e (k.0, All-insert_sorted P x ys h k.1)
  ]

  pub All-sort {κ} : (P : A → Type κ) (xs : List A) → All P xs → All P (sort xs)
  unfolding sort
  All-sort P [] h = tt
  All-sort P (x ∷ xs) h = All-insert_sorted P x (sort xs) h.0 (All-sort P xs h.1)

  -- A relation that holds both ways round does not care about the order.
  pub AllPairs-insert_sorted :
      (R : A → A → Type 0) (sym_R : (a b : A) → R a b → R b a) (x : A) (ys : List A)
      → All (R x) ys
      → AllPairs R ys
      → AllPairs R (insert_sorted x ys)
  unfolding insert_sorted
  AllPairs-insert_sorted R sym_R x [] h k = (tt, tt)
  AllPairs-insert_sorted R sym_R x (y ∷ ys) h k = elim (Bool-cases (le x y)) [
    | inl e ↦ rw e (h, k)
    | inr e ↦ rw e (
      All-insert_sorted (R y) x ys (sym_R x y h.0) k.0,
      AllPairs-insert_sorted R sym_R x ys h.1 k.1,
    )
  ]

  pub AllPairs-sort_symmetric :
      (R : A → A → Type 0) (sym_R : (a b : A) → R a b → R b a) (xs : List A)
      → AllPairs R xs
      → AllPairs R (sort xs)
  unfolding sort
  AllPairs-sort_symmetric R sym_R [] h = tt
  AllPairs-sort_symmetric R sym_R (x ∷ xs) h =
      AllPairs-insert_sorted R sym_R x (sort xs) (All-sort (R x) xs h.0)
        (AllPairs-sort_symmetric R sym_R xs h.1)

module _ {ℓ} {A : Type ℓ} (le : A → A → Bool) (P : A → Type 0) where
  pub Any-insert_sorted : (x : A) (ys : List A) → P x ⊎ Any P ys → Any P (insert_sorted le x ys)
  unfolding insert_sorted
  Any-insert_sorted x [] h = h
  Any-insert_sorted x (y ∷ ys) h = elim (Bool-cases (le x y)) [
    | inl e ↦ rw e h
    | inr e ↦ rw e (elim h [
      | inl k ↦ inr (Any-insert_sorted x ys (inl k))
      | inr k ↦ elim k [ inl a ↦ inl a | inr b ↦ inr (Any-insert_sorted x ys (inr b)) ]
    ])
  ]

  pub Any-insert_sorted_split :
      (x : A) (ys : List A) → Any P (insert_sorted le x ys) → P x ⊎ Any P ys
  unfolding insert_sorted
  Any-insert_sorted_split x [] h = h
  Any-insert_sorted_split x (y ∷ ys) h = elim (Bool-cases (le x y)) [
    | inl e ↦ rw e at h
    | inr e ↦ elim (rw e at h) [
      | inl k ↦ inr (inl k)
      | inr k ↦ elim (Any-insert_sorted_split x ys k) [ inl a ↦ inl a | inr b ↦ inr (inr b) ]
    ]
  ]

  -- Sorting neither loses nor invents an entry.
  pub Any-sort : (xs : List A) → Any P xs ↔ Any P (sort le xs)
  unfolding sort
  Any-sort [] = (λ h. h, λ h. h)
  Any-sort (x ∷ xs) =
      let (to, from) = Any-sort xs in
      (
        λ h. Any-insert_sorted x (sort le xs) (elim h [ inl k ↦ inl k | inr k ↦ inr (to k) ]),
        λ h. elim (Any-insert_sorted_split x (sort le xs) h) [
          | inl k ↦ inl k
          | inr k ↦ inr (from k)
        ],
      )

-- A sorted list is in the order that its test decides.
module _ {ℓ} {A : Type ℓ} (le : A → A → Bool) (R : A → A → Type 0) where
  AllPairs-insert_ordered :
      ((a b : A) → le a b ≡ true → R a b)
      → ((a b : A) → le a b ≡ false → R b a)
      → ((a b c : A) → R a b → R b c → R a c)
      → (x : A) (ys : List A) → AllPairs R ys
      → AllPairs R (insert_sorted le x ys)
  unfolding insert_sorted
  AllPairs-insert_ordered holds turns trans x [] h = (tt, tt)
  AllPairs-insert_ordered holds turns trans x (y ∷ ys) h = elim (Bool-cases (le x y)) [
    | inl e ↦ rw e ((holds x y e, All-imp (λ z k. trans x y z (holds x y e) k) ys h.0), h)
    | inr e ↦ rw e (
      All-insert_sorted le (R y) x ys (turns x y e) h.0,
      AllPairs-insert_ordered holds turns trans x ys h.1,
    )
  ]

  pub AllPairs-sort :
      ((a b : A) → le a b ≡ true → R a b)
      → ((a b : A) → le a b ≡ false → R b a)
      → ((a b c : A) → R a b → R b c → R a c)
      → (xs : List A) → AllPairs R (sort le xs)
  unfolding sort
  AllPairs-sort holds turns trans [] = tt
  AllPairs-sort holds turns trans (x ∷ xs) =
      AllPairs-insert_ordered holds turns trans x (sort le xs) (AllPairs-sort holds turns trans xs)
