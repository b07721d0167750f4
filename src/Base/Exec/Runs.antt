-- ===== src/Base/Exec/Runs.antt =====
-- What holds after an action, whether it returns or throws, one rule for each way to build it.
use mathlib.Core.Path.{◌≡◌, refl}
use mathlib.Core.Bool.{Bool, true, false}
use warsaw_beer_bot.Base.Tests.{if◌then◌else◌}
use warsaw_beer_bot.Base.Exec.{
  Result, ok, err, Exec, pure, raise, gets, catch, handle, continue, ◌>>=◌,
}

-- `Q` of the value and `R` of the error, each with the state that comes back.
abbrev pub After {ℓ} :
    {S E A : Type ℓ} → (A → S → Type ℓ) → (E → S → Type ℓ) → Result E A → S → Type ℓ
After Q R (ok a) s = Q a s
After Q R (err e) s = R e s

-- From a state in `P`, `m` returns into `Q` or throws into `R`.
pub record Runs {ℓ} {S E A : Type ℓ} (P : S → Type ℓ) (m : Exec S E A) (Q : A → S → Type ℓ)
    (R : E → S → Type ℓ) : Type ℓ where
  pub at : (s : S) → P s → After Q R (m s).0 (m s).1

module _ {ℓ} {S E A : Type ℓ} where
  After-imp :
      {Q T : A → S → Type ℓ} {R U : E → S → Type ℓ} (r : Result E A) (s : S)
      → ((a : A) (t : S) → Q a t → T a t)
      → ((e : E) (t : S) → R e t → U e t)
      → After Q R r s
      → After T U r s
  After-imp (ok a) s f g h = f a s h
  After-imp (err e) s f g h = g e s h

  After-handle :
      {Q : A → S → Type ℓ} {R U : E → S → Type ℓ} (h : E → Exec S E A) (r : Result E A) (s : S)
      → ((e : E) → Runs (R e) (h e) Q U)
      → After Q R r s
      → After Q U (handle h r s).0 (handle h r s).1
  After-handle h (ok a) s k p = p
  After-handle h (err e) s k p = (k e).at s p

module _ {ℓ} {S E A B : Type ℓ} where
  After-continue :
      {M : A → S → Type ℓ} {Q : B → S → Type ℓ} {R : E → S → Type ℓ} (r : Result E A) (s : S)
      (f : A → Exec S E B)
      → ((a : A) → Runs (M a) (f a) Q R)
      → After M R r s
      → After Q R (continue r f s).0 (continue r f s).1
  After-continue (ok a) s f k p = (k a).at s p
  After-continue (err e) s f k p = p

module _ {ℓ} {S E A : Type ℓ} {P : S → Type ℓ} where
  pub Runs-pure :
      {Q : A → S → Type ℓ} {R : E → S → Type ℓ} (a : A)
      → ((s : S) → P s → Q a s)
      → Runs P (pure a) Q R
  unfolding pure
  Runs-pure a h = record { at = h }

  pub Runs-raise :
      {Q : A → S → Type ℓ} {R : E → S → Type ℓ} (e : E)
      → ((s : S) → P s → R e s)
      → Runs P (raise e) Q R
  unfolding raise
  Runs-raise e h = record { at = h }

  pub Runs-if :
      {Q : A → S → Type ℓ} {R : E → S → Type ℓ} (b : Bool) (m n : Exec S E A)
      → (b ≡ true → Runs P m Q R)
      → (b ≡ false → Runs P n Q R)
      → Runs P (if b then m else n) Q R
  Runs-if true m n km kn = km refl
  Runs-if false m n km kn = kn refl

  pub Runs-imp :
      {Q T : A → S → Type ℓ} {R U : E → S → Type ℓ} {m : Exec S E A}
      → ((a : A) (t : S) → Q a t → T a t)
      → ((e : E) (t : S) → R e t → U e t)
      → Runs P m Q R
      → Runs P m T U
  Runs-imp {m} f g k = record { at = λ s h. let (r, t) = m s in After-imp r t f g (k.at s h) }

  pub Runs-catch :
      {Q : A → S → Type ℓ} (R : E → S → Type ℓ) {U : E → S → Type ℓ} {m : Exec S E A}
      {h : E → Exec S E A}
      → Runs P m Q R
      → ((e : E) → Runs (R e) (h e) Q U)
      → Runs P (catch m h) Q U
  unfolding catch
  Runs-catch R {m} {h} km kh = record {
    at = λ s p. let (r, t) = m s in After-handle h r t kh (km.at s p);
  }

module _ {ℓ} {S E A B : Type ℓ} {P : S → Type ℓ} where
  pub Runs-bind :
      (M : A → S → Type ℓ) {Q : B → S → Type ℓ} {R : E → S → Type ℓ} {m : Exec S E A}
      {f : A → Exec S E B}
      → Runs P m M R
      → ((a : A) → Runs (M a) (f a) Q R)
      → Runs P (m >>= f) Q R
  unfolding ◌>>=◌
  Runs-bind M {m} {f} km kf = record {
    at = λ s p. let (r, t) = m s in After-continue r t f kf (km.at s p);
  }

module _ {ℓ} {S E A : Type ℓ} {P : S → Type ℓ} where
  -- A fact that does not depend on the state may be used to choose the rule.
  pub Runs-given :
      {F : Type ℓ} {Q : A → S → Type ℓ} {R : E → S → Type ℓ} {m : Exec S E A}
      → (F → Runs P m Q R)
      → Runs (λ s. F × P s) m Q R
  Runs-given k = record { at = λ s h. (k h.0).at s h.1 }

-- `m` keeps `P`, whether it returns or throws.
abbrev pub Keeps {ℓ} : {S E A : Type ℓ} → (S → Type ℓ) → Exec S E A → Type ℓ
Keeps P m = Runs P m (λ _ s. P s) λ _ s. P s

module _ {ℓ} {S E A : Type ℓ} {P : S → Type ℓ} where
  pub Keeps-pure : (a : A) → Keeps {E = E} P (pure a)
  Keeps-pure a = Runs-pure a λ s h. h

  pub Keeps-raise : (e : E) → Keeps {A = A} P (raise e)
  Keeps-raise e = Runs-raise e λ s h. h

  pub Keeps-gets : (f : S → A) → Keeps {E = E} P (gets f)
  unfolding gets
  Keeps-gets f = record { at = λ s h. h }

  pub Keeps-if :
      (b : Bool) (m n : Exec S E A) → Keeps P m → Keeps P n → Keeps P (if b then m else n)
  Keeps-if b m n km kn = Runs-if b m n (λ _. km) λ _. kn

  pub Keeps-catch :
      (m : Exec S E A) (h : E → Exec S E A)
      → Keeps P m
      → ((e : E) → Keeps P (h e))
      → Keeps P (catch m h)
  Keeps-catch m h km kh = Runs-catch (λ _ s. P s) km kh

module _ {ℓ} {S E A B : Type ℓ} {P : S → Type ℓ} where
  pub Keeps-bind :
      (m : Exec S E A) (f : A → Exec S E B)
      → Keeps P m
      → ((a : A) → Keeps P (f a))
      → Keeps P (m >>= f)
  Keeps-bind m f km kf = Runs-bind (λ _ s. P s) km kf

pub ruleset keeps_rules = (Keeps-pure, Keeps-raise, Keeps-gets, Keeps-if, Keeps-catch, Keeps-bind)

module _ {ℓ} {S E A : Type ℓ} where
  After-state :
      (P : S → Type ℓ) (r : Result E A) (s : S) → After (λ _ t. P t) (λ _ t. P t) r s → P s
  After-state P (ok a) s h = h
  After-state P (err e) s h = h

  -- What is kept holds of the state that comes back.
  pub Keeps-state : {P : S → Type ℓ} (m : Exec S E A) → Keeps P m → (s : S) → P s → P (m s).1
  Keeps-state {P} m k s h = let (r, t) = m s in After-state P r t (k.at s h)

module _ {S E A : Type 0} where
  After-returns :
      (Q : A → S → Type 0) (r : Result E A) (s : S)
      → After Q (λ _ _. ⊥) r s
      → (a : A) × (r ≡ ok a) × Q a s
  After-returns Q (ok a) s h = (a, refl, h)
  After-returns Q (err e) s h = absurd h

  -- An action that cannot throw returns a value.
  pub Runs-returns :
      {P : S → Type 0} {Q : A → S → Type 0} (m : Exec S E A)
      → Runs P m Q (λ _ _. ⊥)
      → (s : S) → P s
      → (a : A) × ((m s).0 ≡ ok a) × Q a (m s).1
  Runs-returns {Q} m k s h = let (r, t) = m s in After-returns Q r t (k.at s h)
