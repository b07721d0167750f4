-- ===== src/Base/Decimal.antt =====
-- Decimal text: `String(n)` and `Number(s)` of a text that `/^\d+$/` accepts. A text is the list of
-- its character codes. `Number` is exact here; a double is exact below 2^53, where the ids lie.
use Prim.Native.Nat.{ℕ, zero, suc, ◌+◌, ◌-◌, ◌*◌, ◌/◌, ◌%◌, ◌<◌}
use mathlib.Core.Path.{◌≡◌, refl, ◌∙◌}
use mathlib.Core.Logic.{inl, inr, ◌≢◌}
use mathlib.Core.Bool.{Bool, true, false, ◌&&◌}
use mathlib.Core.Option.{Option, none, some}
use mathlib.Core.List.{List, [], ◌∷◌}
use native.Mathlib.Omega.{arith}
use warsaw_beer_bot.Base.Tests.{leb, ◌==◌, if◌then◌else◌, Bool-cases}

abbrev pub Text : Type 0
Text = List ℕ

abbrev pub same_text : Text → Text → Bool
same_text [] [] = true
same_text (a ∷ s) (b ∷ t) = (a == b) && same_text s t
same_text _ _ = false

abbrev is_digit : ℕ → Bool
is_digit c = leb b'0' c && leb c b'9'

value_from : ℕ → Text → Option ℕ
value_from acc [] = some acc
value_from acc (c ∷ s) =
    let rest = value_from (acc * 10 + (c - b'0')) s in if is_digit c then rest else none

-- `none` where `/^\d+$/` fails.
unfoldable pub decimal : Text → Option ℕ
unfolding value_from
decimal [] = none
decimal (c ∷ s) = value_from 0 (c ∷ s)

show_from : ℕ → ℕ → Text → Text
show_from zero n acc = acc
show_from (suc fuel) n acc =
    let digits = (b'0' + n % 10) ∷ acc in
    let rest = show_from fuel (n / 10) digits in if n / 10 == 0 then digits else rest

-- `String(n)`; a number has fewer digits than its own value and one.
unfoldable pub show : ℕ → Text
unfolding show_from
show n = show_from (suc n) n []

show-suffices : show 580 ≡ b'5' ∷ b'8' ∷ b'0' ∷ []
unfolding show
show-suffices = refl

value_from-digit :
    (acc d : ℕ) (s : Text) → d < 10 → value_from acc ((b'0' + d) ∷ s) ≡ value_from (acc * 10 + d) s
unfolding value_from
value_from-digit acc d s h =
    let digit : is_digit (b'0' + d) ≡ true = ground arith in
    let same : b'0' + d - b'0' ≡ d = omega arith in rw (digit, same)

value_from-show_from :
    (fuel n : ℕ) (s : Text) → n < fuel → value_from 0 (show_from fuel n s) ≡ value_from n s
unfolding show_from
value_from-show_from zero n s h = absurd (omega arith)
value_from-show_from (suc fuel) n s h = elim (Bool-cases (n / 10 == 0)) [
  | inl e ↦
      let same : 0 * 10 + n % 10 ≡ n = ground arith in
      rw (e, value_from-digit 0 (n % 10) s (omega arith), same)
  | inr e ↦
      let same : n / 10 * 10 + n % 10 ≡ n = omega arith in
      rw (
        e,
        value_from-show_from fuel (n / 10) ((b'0' + n % 10) ∷ s) (ground arith),
        value_from-digit (n / 10) (n % 10) s (omega arith),
        same,
      )
]

show_from-ne-nil : (fuel n c : ℕ) (s : Text) → show_from fuel n (c ∷ s) ≢ []
unfolding show_from
show_from-ne-nil zero n c s = cc
show_from-ne-nil (suc fuel) n c s = elim (Bool-cases (n / 10 == 0)) [
  | inl e ↦ rw e (cc)
  | inr e ↦ rw e (show_from-ne-nil fuel (n / 10) (b'0' + n % 10) (c ∷ s))
]

show-ne-nil : (n : ℕ) → show n ≢ []
unfolding show
show-ne-nil n = elim (Bool-cases (n / 10 == 0)) [
  | inl e ↦ rw e (cc)
  | inr e ↦ rw e (show_from-ne-nil n (n / 10) (b'0' + n % 10) [])
]

decimal_lem : (s : Text) → s ≢ [] → decimal s ≡ value_from 0 s
unfolding decimal
decimal_lem [] h = absurd (h refl)
decimal_lem (c ∷ s) h = refl

value_from-show : (n : ℕ) → value_from 0 (show n) ≡ value_from n []
unfolding show
value_from-show n = value_from-show_from (suc n) n [] (omega arith)

-- Reading the decimal text of a number gives the number.
pub decimal-show : (n : ℕ) → decimal (show n) ≡ some n
unfolding value_from
decimal-show n = decimal_lem (show n) (show-ne-nil n) ∙ value_from-show n
