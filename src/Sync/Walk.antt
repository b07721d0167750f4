-- ===== src/Sync/Walk.antt =====
-- extension/src/background/handle-checkin-sync.ts: one step of the synchronisation, the walk over
-- the feed from the newest check-in down. What it is given from outside is a record of functions on
-- a world; an exception is `threw`, with the code that `errCode` reads.
pub mod Requests
pub mod Rounds
pub mod Descent
use Prim.Native.String.{String}
use text.Mathlib.Text.{◌==◌ as str_eq}
use warsaw_beer_bot.Base.{
  ℕ, zero, suc, ◌+◌, Bool, true, false, not, ◌&&◌, Option, none, some, leb, ltb, if◌then◌else◌,
}
use warsaw_beer_bot.Base.Decimal.{Text}

pub data SyncStatus : Type 0 where
  done capped gap cancelled not_linked blocked no_session account_changed : SyncStatus
  sync_context_required feed_unavailable page_rejected error : SyncStatus

-- `errCode`, and `other` for an exception with none of the codes that are looked for.
pub data ErrCode : Type 0 where
  not_linked no_session account_changed blocked feed_unavailable : ErrCode
  sync_context_required page_rejected other : ErrCode

pub data Answer {ℓ} (A : Type ℓ) : Type ℓ where
  returned : A → Answer A
  threw : ErrCode → Answer A

-- `link_revision` is `none` where it is no safe integer or negative.
pub record CheckinSyncState : Type 0 where
  pub username : String
  pub link_revision : Option ℕ
  pub server_count : ℕ
  pub profile_total : Option ℕ
  pub caught_up : Bool

-- The field `nextCursor` of an answer: not there, `null`, or a cursor.
pub data Next : Type 0 where
  missing null : Next
  step_to : Text → Next

pub record PageAnswer : Type 0 where
  pub merged : ℕ
  pub server_count : ℕ
  pub profile_total : Option ℕ
  pub caught_up : Bool
  pub next_cursor : Next

pub record Progress : Type 0 where
  pub merged_this_run : ℕ
  pub server_count : ℕ
  pub profile_total : Option ℕ
  pub caught_up : Bool

pub record SyncOutcome : Type 0 where
  pub status : SyncStatus
  pub complete : Bool
  pub server_count : ℕ
  pub profile_total : Option ℕ
  pub merged_this_run : ℕ
  pub caught_up : Bool

-- `CheckinSyncDeps`. With no `beforeFetch` it always allows, with no `afterPage` it never stops.
pub record Deps (W Html : Type 0) : Type 0 where
  pub get_state : W → W × Answer CheckinSyncState
  pub fetch_feed : String → Option Text → W → W × Answer Html
  pub submit_page : Html → Option Text → ℕ → W → W × Answer PageAnswer
  pub on_progress : Progress → W → W
  pub sleep : W → W
  pub aborted : W → Bool
  pub session_of : Option (Html → Option String)
  pub before_fetch : W → W × Answer Bool
  pub stop_after : PageAnswer → ℕ → W → Bool
  pub is_block_page : Html → Bool
  pub to_lower_case : String → String

abbrev pub is_foreign : SyncStatus → Bool
is_foreign account_changed = true
is_foreign sync_context_required = true
is_foreign _ = false

abbrev pub reached : ℕ → Option ℕ → Bool
reached server_count none = false
reached server_count (some total) = leb total server_count

unfoldable pub finish : SyncStatus → Progress → SyncOutcome
finish status p = record {
  status = status;
  complete = not (is_foreign status) && reached p.server_count p.profile_total;
  server_count = p.server_count;
  profile_total = p.profile_total;
  merged_this_run = p.merged_this_run;
  caught_up = not (is_foreign status) && p.caught_up;
}

-- The statuses of the exceptions of each call.
abbrev pub state_status : ErrCode → SyncStatus
state_status not_linked = not_linked
state_status no_session = no_session
state_status account_changed = account_changed
state_status _ = error

abbrev pub fetch_status : ErrCode → SyncStatus
fetch_status blocked = blocked
fetch_status feed_unavailable = feed_unavailable
fetch_status _ = error

abbrev pub submit_status : ErrCode → SyncStatus
submit_status account_changed = account_changed
submit_status sync_context_required = sync_context_required
submit_status blocked = blocked
submit_status not_linked = not_linked
submit_status no_session = no_session
submit_status page_rejected = page_rejected
submit_status _ = error

-- A part of a round: it ends the walk with a status, or goes on with a value.
pub data Phase {ℓ} (A : Type ℓ) : Type ℓ where
  stop : SyncStatus → Phase A
  go : A → Phase A

abbrev pub with_total : Option ℕ → Option ℕ → Option ℕ
with_total none before = before
with_total (some total) before = some total

abbrev pub advance : PageAnswer → Progress → Progress
advance a p = record {
  merged_this_run = p.merged_this_run + a.merged;
  server_count = a.server_count;
  profile_total = with_total a.profile_total p.profile_total;
  caught_up = a.caught_up;
}

module _ {W Html : Type 0} (deps : Deps W Html) where
  abbrev pub M : Type 0 → Type 0
  M A = W → W × Phase A

  abbrev pub continue : {A B : Type 0} → (A → M B) → W × Phase A → W × Phase B
  continue f (w, stop s) = (w, stop s)
  continue f (w, go a) = f a w

  infixl 5 ◌>>=◌ ◌>>◌
  abbrev pub ◌>>=◌ : {A B : Type 0} → M A → (A → M B) → M B
  ◌>>=◌ m f w = continue f (m w)

  abbrev pub ◌>>◌ : {B : Type 0} → M (Unit {0}) → M B → M B
  m >> k = m >>= λ _. k

  -- `if (deps.signal?.aborted) return finish('cancelled')`.
  abbrev pub not_aborted : M (Unit {0})
  not_aborted w = (w, if deps.aborted w then stop cancelled else go tt)

  -- A call: on an exception `cancelled` if the signal is aborted, else the exception's status.
  abbrev pub answered : {A : Type 0} → (ErrCode → SyncStatus) → W × Answer A → W × Phase A
  answered status (w, returned a) = (w, go a)
  answered status (w, threw code) = (w, stop (if deps.aborted w then cancelled else status code))

  abbrev pub call : {A : Type 0} → (ErrCode → SyncStatus) → (W → W × Answer A) → M A
  call status f w = answered status (f w)

  -- `beforeFetch`, whose exception is `error` also after an abort.
  abbrev pub allowance : W × Answer Bool → W × Phase Bool
  allowance (w, returned allowed) = (w, go allowed)
  allowance (w, threw code) = (w, stop error)

  abbrev pub ask : M Bool
  ask w = allowance (deps.before_fetch w)

  abbrev pub unless_capped : Bool → M (Unit {0})
  unless_capped allowed w = (w, if allowed then go tt else stop capped)

  -- Whose session the first page of a step belongs to.
  abbrev pub session_phase : String → Option Text → Html → Phase (Unit {0})
  session_phase username (some cursor) html = go tt
  session_phase username none html = elim deps.session_of [
    | none ↦ go tt
    | some session_of ↦ if deps.is_block_page html then stop blocked else elim (session_of html) [
      | none ↦ stop no_session
      | some who ↦
          if str_eq (deps.to_lower_case who) (deps.to_lower_case username)
          then go tt
          else stop account_changed
    ]
  ]

  abbrev pub check_session : String → Option Text → Html → M (Unit {0})
  check_session username cursor html w = (w, session_phase username cursor html)

  -- One round of the loop, up to the answer to its page.
  pub page_round : String → ℕ → Option Text → M PageAnswer
  page_round username link_revision cursor = do
    not_aborted
    allowed ← ask
    unless_capped allowed
    not_aborted
    html ← call fetch_status (deps.fetch_feed username cursor)
    not_aborted
    check_session username cursor html
    call submit_status (deps.submit_page html cursor link_revision)

  -- After an accepted page: `onProgress`, the signal, the next cursor, `afterPage`. `next` is the
  -- next round of the loop.
  abbrev pub after_page : (Progress → W → W × SyncOutcome) → Progress → W → Bool → W × SyncOutcome
  after_page next p w true = (w, finish gap p)
  after_page next p w false = next p w

  abbrev pub after_next :
      (Text → Progress → W → W × SyncOutcome)
      → ℕ
      → Progress
      → PageAnswer
      → W
      → Next
      → W × SyncOutcome
  after_next next pages p a w missing = (w, finish error p)
  after_next next pages p a w null = (w, finish done p)
  after_next next pages p a w (step_to t) = after_page (next t) p w (deps.stop_after a pages w)

  pub after_answer :
      (Text → Progress → W → W × SyncOutcome) → ℕ → Progress → PageAnswer → W → W × SyncOutcome
  after_answer next pages p a w =
      if deps.aborted w then (w, finish cancelled p) else after_next next pages p a w a.next_cursor

  pub after_round :
      (Text → Progress → W → W × SyncOutcome)
      → ℕ
      → Progress
      → W × Phase PageAnswer
      → W × SyncOutcome
  unfolding after_answer
  after_round next pages p (w, stop status) = (w, finish status p)
  after_round next pages p (w, go a) =
      after_answer next (suc pages) (advance a p) a (deps.on_progress (advance a p) w)

  -- The loop, on the number of pages left; `pages` have been accepted.
  pub walk : String → ℕ → ℕ → ℕ → Option Text → Progress → W → W × SyncOutcome
  unfolding after_round
  walk username link_revision zero pages cursor p w = (w, finish capped p)
  walk username link_revision (suc left) pages cursor p w =
      after_round
        (λ t p1 w1.
          walk username link_revision left (suc pages) (some t) p1
            (if ltb 0 left then deps.sleep w1 else w1))
        pages p (page_round username link_revision cursor w)

  abbrev pub no_progress : Progress
  no_progress = record {
    merged_this_run = 0;
    server_count = 0;
    profile_total = none;
    caught_up = false;
  }

  abbrev pub progress_of : CheckinSyncState → Progress
  progress_of state = record {
    merged_this_run = 0;
    server_count = state.server_count;
    profile_total = state.profile_total;
    caught_up = state.caught_up;
  }

  abbrev pub started : ℕ → CheckinSyncState → W → Option ℕ → W × SyncOutcome
  started page_cap state w none = (w, finish sync_context_required no_progress)
  started page_cap state w (some revision) =
      if deps.aborted w
      then (w, finish cancelled (progress_of state))
      else walk state.username revision page_cap 0 none (progress_of state) w

  abbrev pub with_state : ℕ → W × Answer CheckinSyncState → W × SyncOutcome
  with_state page_cap (w, returned state) = started page_cap state w state.link_revision
  with_state page_cap (w, threw code) =
      (w, finish (if deps.aborted w then cancelled else state_status code) no_progress)

  unfoldable pub run_checkin_sync : ℕ → W → W × SyncOutcome
  unfolding walk page_round
  run_checkin_sync page_cap w = with_state page_cap (deps.get_state w)
