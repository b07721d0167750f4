-- ===== src/Retry/Attempts.antt =====
-- How often an operation is tried, and what comes of it.
use warsaw_beer_bot.Base.{
  ℕ, zero, suc, ◌+◌, ◌*◌, ◌^◌, ◌<◌, ◌≡◌, refl, Option, none, some, List, [], ◌∷◌, arith, subst, ◌∙◌,
}
use warsaw_beer_bot.Retry.{Tried, returned, busy, gave, retry_from, with_busy_retry}

-- A world that counts the calls; what a call comes to depends on its number.
module _ {A E : Type 0} (script : ℕ → Tried A E) (base : ℕ) where
  abbrev pub scripted : ℕ × List ℕ → (ℕ × List ℕ) × Tried A E
  scripted w = ((suc w.0, w.1), script w.0)

  abbrev pub noted : ℕ → ℕ × List ℕ → ℕ × List ℕ
  noted ms w = (w.0, ms ∷ w.1)

  -- The pauses after the attempts from `i` on, the last one first.
  abbrev pub pauses : ℕ → ℕ → List ℕ → List ℕ
  pauses zero i l = l
  pauses (suc n) i l = pauses n (suc i) (base * 2 ^ i ∷ l)

  retry-first :
      (n left i : ℕ) (last : Option E) (l : List ℕ) (a : A)
      → n < left
      → ((j : ℕ) → j < n → (e : E) × (script (i + j) ≡ busy e))
      → script (i + n) ≡ returned a
      → retry_from scripted noted base left i last (i, l) ≡ ((suc (i + n), pauses n i l), gave a)
  unfolding retry_from
  retry-first n zero i last l a h before e = absurd (ground arith)
  retry-first zero (suc left) i last l a h before e =
      let same : i + 0 ≡ i = ground arith in
      let now : script i ≡ returned a = subst (λ k. script k ≡ returned a) same e in
      rw (same, now) refl
  retry-first (suc n) (suc zero) i last l a h before e = absurd (ground arith)
  retry-first (suc n) (suc (suc left)) i last l a h before e =
      let (busy_with, fails) = before 0 (ground arith) in
      let same : i + 0 ≡ i = ground arith in
      let now : script i ≡ busy busy_with = subst (λ k. script k ≡ busy busy_with) same fails in
      let next : i + suc n ≡ suc i + n = ground arith in
      rw (now, next)
        (retry-first n (suc left) (suc i) (some busy_with) (base * 2 ^ i ∷ l) a (ground arith)
          (λ j k.
            let (f, g) = before (suc j) (ground arith) in
            let shifted : i + suc j ≡ suc i + j = ground arith in
            (f, subst (λ m. script m ≡ busy f) shifted g))
          (subst (λ m. script m ≡ returned a) next e))

  retry-exhausted :
      (left i : ℕ) (last : Option E) (l : List ℕ)
      → ((j : ℕ) → (e : E) × (script j ≡ busy e))
      → (retry_from scripted noted base left i last (i, l)).0.0 ≡ i + left
  unfolding retry_from
  retry-exhausted zero i last l h = ground arith
  retry-exhausted (suc zero) i last l h =
      let (e, f) = h i in let more : suc i ≡ i + 1 = ground arith in rw f more
  retry-exhausted (suc (suc left)) i last l h =
      let (e, f) = h i in
      let more : suc i + suc left ≡ i + suc (suc left) = ground arith in
      rw f (retry-exhausted (suc left) (suc i) (some e) (base * 2 ^ i ∷ l) h ∙ more)

  -- With `n` busy attempts first, and fewer than the attempts allowed, the operation's value is given
  -- after one call more, with the pauses doubled from the base delay on, one after each busy attempt.
  -- The hypotheses are on what the calls come to.
  pub with_busy_retry-first :
      (n attempts : ℕ) (a : A)
      → n < attempts
      → ((j : ℕ) → j < n → (e : E) × (script (0 + j) ≡ busy e))
      → script (0 + n) ≡ returned a
      → with_busy_retry scripted noted base attempts (0, [])
        ≡ ((suc (0 + n), pauses n 0 []), gave a)
  unfolding with_busy_retry
  with_busy_retry-first n attempts a h before e = retry-first n attempts 0 none [] a h before e

  -- With a busy database all the time, the operation is called as often as attempts are allowed.
  pub with_busy_retry-calls :
      (attempts : ℕ)
      → ((j : ℕ) → (e : E) × (script j ≡ busy e))
      → (with_busy_retry scripted noted base attempts (0, [])).0.0 ≡ 0 + attempts
  unfolding with_busy_retry
  with_busy_retry-calls attempts h = retry-exhausted attempts 0 none [] h
