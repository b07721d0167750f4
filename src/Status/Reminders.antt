-- ===== src/Status/Reminders.antt =====
-- How often a pending reboot is announced.
use warsaw_beer_bot.Base.{
  ℕ, ◌+◌, ◌≤◌, ◌≡◌, refl, Bool, true, false, Option, none, some, List, [], ◌∷◌, leb, ltb, ◌==◌,
  ==_refl, Bool-cases, inl, inr, All, arith,
}
use warsaw_beer_bot.Status.{
  RebootAlertState, HostPatchRead, unreadable, none_pending, pending, reboot_snooze_seconds,
  snooze_over, decide_reboot_alert, snooze_reboot_alert,
}

-- The decisions of a sequence of checks, each with what it reads and its time; each keeps its state
-- for the next.
pub sends : List (HostPatchRead × ℕ) → Option RebootAlertState → List Bool
unfolding decide_reboot_alert
sends [] s = []
sends ((r, t) ∷ l) s = let d = decide_reboot_alert r s t in d.send ∷ sends l d.state

-- A read that shows no other reboot than the one since a time, and no end of it.
abbrev pub IsSame : ℕ → HostPatchRead × ℕ → Type 0
IsSame since (unreadable, t) = Unit
IsSame since (none_pending, t) = ⊥
IsSame since (pending s, t) = s ≡ since

silent_after :
    (since : ℕ) (l : List (HostPatchRead × ℕ))
    → All (IsSame since) l
    → All (λ b. b ≡ false) (sends l (some record { since = since; snooze_until = none }))
unfolding sends
silent_after since [] h = tt
silent_after since ((unreadable, t) ∷ l) h = (refl, silent_after since l h.1)
silent_after since ((none_pending, t) ∷ l) h = absurd h.0
silent_after since ((pending s, t) ∷ l) h =
    let same : (since == s) ≡ true = ground arith in rw same (refl, silent_after since l h.1)

-- A pending reboot is announced once: after a check that has announced it no later check announces it
-- again, while no check shows its end or another reboot, and no snooze is set.
pub sends-once :
    (since t : ℕ) (l : List (HostPatchRead × ℕ)) (s : Option RebootAlertState)
    → (decide_reboot_alert (pending since) s t).send ≡ true
    → All (IsSame since) l
    → All (λ b. b ≡ false) (sends l (decide_reboot_alert (pending since) s t).state)
unfolding decide_reboot_alert sends
sends-once since t l none e h = silent_after since l h
sends-once since t l (some prev) e h = elim (Bool-cases (prev.since == since)) [
  | inr f ↦ rw f (silent_after since l h)
  | inl f ↦ elim (Bool-cases (snooze_over t prev.snooze_until)) [
    | inl g ↦ rw (f, g) (silent_after since l h)
    | inr g ↦ absurd (apart (rw (f, g) at e))
  ]
]
  where
    apart : false ≡ true → ⊥
    apart k = cc

-- After a snooze the next reminder comes when the three days are over and not before, while the same
-- reboot is pending and the clock does not run back.
pub snoozed-reminder :
    (s : RebootAlertState) (t now : ℕ)
    → t ≤ now
    → (decide_reboot_alert (pending s.since) (some (snooze_reboot_alert s t)) now).send
      ≡ leb (t + reboot_snooze_seconds) now
unfolding decide_reboot_alert snooze_reboot_alert
snoozed-reminder s t now h =
    rw (==_refl s.since) (elim (Bool-cases (leb (t + reboot_snooze_seconds) now)) [
      | inl e ↦ rw e refl
      | inr e ↦ rw e (rw (not_later e) refl)
    ])
  where
    not_later :
        leb (t + reboot_snooze_seconds) now ≡ false
        → ltb (now + reboot_snooze_seconds) (t + reboot_snooze_seconds) ≡ false
    not_later e = ground arith
