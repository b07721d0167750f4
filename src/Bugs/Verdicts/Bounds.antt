-- ===== src/Bugs/Verdicts/Bounds.antt =====
-- The lengths of the fields that are published: bug-report-template.ts, clampFields.
use warsaw_beer_bot.Base.{
  Bool, true, false, ℕ, ◌≤◌, ◌-◌, List, [], ◌∷◌, map, length, length-append, take, length-take, All,
  if-cases, ltb, arith, ◌≡◌,
}
use warsaw_beer_bot.Base.Decimal.{Text}
use warsaw_beer_bot.Bugs.{TemplateFields}
use warsaw_beer_bot.Bugs.Verdicts.{cut, nonempty, clamp, clamp_items, clamp_fields}

length-cut : (limit : ℕ) (s : Text) → 1 ≤ limit → length (cut limit s) ≤ limit
length-cut limit s h =
    if-cases (λ t. length t ≤ limit) (ltb limit (length s)) _ _
      (λ e.
        omega (arith, length-append (take (limit - 1) s) (0x2026 ∷ []), length-take (limit - 1) s))
      λ e. ground arith

length-map {ℓ κ} :
    {A : Type ℓ} {B : Type κ} (f : A → B) (xs : List A) → length (map f xs) ≡ length xs
length-map f [] = omega arith
length-map f (x ∷ xs) = omega (arith, length-map f xs)

All-map :
    (P : Text → Type 0) (f : Text → Text) (xs : List Text)
    → ((s : Text) → P (f s))
    → All P (map f xs)
All-map P f [] h = tt
All-map P f (x ∷ xs) h = (h x, All-map P f xs h)

-- At most so many entries, each of at most so many code points.
pub record IsShort (most limit : ℕ) (items : List Text) : Type 0 where
  pub few : length items ≤ most
  pub short : All (λ s. length s ≤ limit) items

module _ (trim : Text → Text) where
  length-clamp :
      (multiline : Bool) (limit : ℕ) (s : Text)
      → 1 ≤ limit
      → length (clamp trim multiline limit s) ≤ limit
  length-clamp multiline limit s h = length-cut limit _ h

  clamp_items-IsShort :
      (limit : ℕ) (items : List Text) → 1 ≤ limit → IsShort 5 limit (clamp_items trim limit items)
  clamp_items-IsShort limit items h = record {
    few = omega (
      arith,
      length-map (clamp trim false limit) (take 5 (nonempty (map trim items))),
      length-take 5 (nonempty (map trim items)),
    );
    short =
        All-map (λ s. length s ≤ limit) (clamp trim false limit)
          (take 5 (nonempty (map trim items))) λ s. length-cut limit _ h;
  }

-- The limits that the types of the source give beside each field.
pub record IsClamped (f : TemplateFields) : Type 0 where
  pub title : length f.title ≤ 100
  pub summary : length f.summary ≤ 300
  pub «where» : length f.«where» ≤ 200
  pub subjects : IsShort 5 100 f.subjects
  pub expected : length f.expected ≤ 200
  pub actual : length f.actual ≤ 200
  pub steps : IsShort 5 150 f.steps
  pub screen_evidence : IsShort 5 150 f.screen_evidence
  pub new_evidence : length f.new_evidence ≤ 300

-- Every field that is published keeps the limit of its type, whatever the model wrote.
pub clamp_fields-IsClamped :
    (trim : Text → Text) (f : TemplateFields) → IsClamped (clamp_fields trim f)
unfolding clamp_fields
clamp_fields-IsClamped trim f = record {
  title = length-clamp trim false 100 f.title (omega arith);
  summary = length-clamp trim true 300 f.summary (omega arith);
  «where» = length-clamp trim false 200 f.«where» (omega arith);
  subjects = clamp_items-IsShort trim 100 f.subjects (omega arith);
  expected = length-clamp trim false 200 f.expected (omega arith);
  actual = length-clamp trim false 200 f.actual (omega arith);
  steps = clamp_items-IsShort trim 150 f.steps (omega arith);
  screen_evidence = clamp_items-IsShort trim 150 f.screen_evidence (omega arith);
  new_evidence = length-clamp trim true 300 f.new_evidence (omega arith);
}
