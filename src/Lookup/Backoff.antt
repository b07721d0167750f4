-- ===== src/Lookup/Backoff.antt =====
-- When an orphan may be looked up.
use warsaw_beer_bot.Base.{
  ℕ, ◌+◌, ◌*◌, ◌≤◌, ◌<◌, ◌≡◌, refl, ◌↔◌, ◌⊎◌, inl, inr, Bool, true, false, some, leb, Bool-cases,
  arith,
}
use warsaw_beer_bot.Lookup.{next_delay_hours, is_eligible}

-- An orphan that has been looked up is due exactly when the delay of its count has passed, and not
-- at all after four attempts, unless its verdict is a recurring one.
is_eligible_iff :
    (now lookup_at count : ℕ) (recurring : Bool)
    → (is_eligible now (some lookup_at) count recurring ≡ true)
      ↔ ((count < 4) ⊎ (recurring ≡ true)) × (lookup_at + next_delay_hours count * 3600000 ≤ now)
unfolding is_eligible
is_eligible_iff now lookup_at count true = elim (Bool-cases (leb 4 count)) [
  | inl e ↦ rw e ((λ h. (inr refl, ground arith)), λ h. ground arith)
  | inr e ↦ rw e ((λ h. (inr refl, ground arith)), λ h. ground arith)
]
is_eligible_iff now lookup_at count false = elim (Bool-cases (leb 4 count)) [
  | inl e ↦ rw e ((λ h. absurd (never h)), λ h. absurd (spent e h.0))
  | inr e ↦ rw e ((λ h. (inl (ground arith), ground arith)), λ h. ground arith)
]
  where
    never : false ≡ true → ⊥
    never h = cc

    spent : leb 4 count ≡ true → (count < 4) ⊎ (false ≡ true) → ⊥
    spent e (inl h) = ground arith
    spent e (inr h) = cc
