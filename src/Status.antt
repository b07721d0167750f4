-- ===== src/Status.antt =====
-- src/domain/status/reboot-alert.ts: when the operator is told that the host waits for a reboot.
-- Times are seconds since the epoch. The text of the alert is not modelled.
pub mod Reminders
use warsaw_beer_bot.Base.{
  ℕ, ◌+◌, ◌*◌, Bool, true, false, not, ◌&&◌, ◌||◌, Option, none, some, leb, ltb, ◌==◌,
  if◌then◌else◌,
}

pub record RebootAlertState : Type 0 where
  pub since : ℕ
  pub snooze_until : Option ℕ

-- What the facts of the host say: not readable, no reboot pending, or one since a time.
pub data HostPatchRead : Type 0 where
  unreadable none_pending : HostPatchRead
  pending : ℕ → HostPatchRead

pub record RebootDecision : Type 0 where
  pub send : Bool
  pub state : Option RebootAlertState

abbrev pub reboot_snooze_seconds : ℕ
reboot_snooze_seconds = 3 * 86400

abbrev pub quiet : Option RebootAlertState → RebootDecision
quiet s = record { send = false; state = s }

abbrev pub alert_for : ℕ → RebootDecision
alert_for since = record { send = true; state = some record { since = since; snooze_until = none } }

abbrev pub snooze_over : ℕ → Option ℕ → Bool
snooze_over t none = false
snooze_over t (some until) = leb until t || ltb (t + reboot_snooze_seconds) until

abbrev pub decide_pending : ℕ → ℕ → Option RebootAlertState → RebootDecision
decide_pending t since none = alert_for since
decide_pending t since (some prev) =
    if not (prev.since == since)
    then alert_for since
    else if snooze_over t prev.snooze_until
    then alert_for since
    else quiet (some prev)

unfoldable pub decide_reboot_alert : HostPatchRead → Option RebootAlertState → ℕ → RebootDecision
decide_reboot_alert unreadable prev t = quiet prev
decide_reboot_alert none_pending prev t = quiet none
decide_reboot_alert (pending since) prev t = decide_pending t since prev

unfoldable pub snooze_reboot_alert : RebootAlertState → ℕ → RebootAlertState
snooze_reboot_alert s t = record {
  since = s.since;
  snooze_until = some (t + reboot_snooze_seconds);
}
