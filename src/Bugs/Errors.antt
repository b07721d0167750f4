-- ===== src/Bugs/Errors.antt =====
-- src/domain/transient-error.ts, and what the worker reads off an error that it catches.
use Prim.Native.String.{String}
use warsaw_beer_bot.Base.{
  if◌then◌else◌, ℕ, Bool, false, ◌||◌, ◌&&◌, Option, none, some, leb, List, ◌∷◌, [], any, ◌==◌,
}
use warsaw_beer_bot.Base.Strings.{same_string}
use warsaw_beer_bot.Base.Decimal.{Text}
use warsaw_beer_bot.Bugs.{ReportStatus, ErrorText, message, illegal_text}

-- The fields of a thrown object that are read; a field of another type is `none`. `cause` says
-- whether it is present and not null.
pub record ErrorFacts : Type 0 where
  pub message : Text
  pub status : Option ℕ
  pub name : Option String
  pub ctor_name : Option String
  pub is_type_error : Bool
  pub cause : Bool
  pub is_invalid_output : Bool

-- `value` is a throw of something that is not an object; `illegal_transition` is thrown by the store.
pub data Failure : Type 0 where
  object : ErrorFacts → Failure
  value : Text → Failure
  illegal_transition : (id : ℕ) → (from : Option ReportStatus) → (to : String) → Failure

abbrev pub is_retriable_status : ℕ → Bool
is_retriable_status s = (s == 408) || (s == 429) || (leb 500 s && leb s 599)

abbrev network_error_names : List String
network_error_names =
    "APIConnectionError" ∷ "APIConnectionTimeoutError" ∷ "AbortError" ∷ "TimeoutError" ∷ []

abbrev is_network_name : Option String → Bool
is_network_name none = false
is_network_name (some n) = any (same_string n) network_error_names

abbrev pub has_status : (ℕ → Bool) → Option ℕ → Bool
has_status p none = false
has_status p (some s) = p s

unfoldable pub is_transient : Failure → Bool
is_transient (object e) =
    has_status is_retriable_status e.status
    || is_network_name e.name
    || is_network_name e.ctor_name
    || (e.is_type_error && e.cause)
is_transient (value _) = false
is_transient (illegal_transition _ _ _) = false

abbrev credential_statuses : ℕ → Bool
credential_statuses s = (s == 401) || (s == 402) || (s == 403)

abbrev refused_with : Option ℕ → Option ℕ
refused_with none = none
refused_with (some s) = if credential_statuses s then some s else none

-- The status when it is one of CREDENTIAL_STATUSES.
unfoldable pub credential_refusal : Failure → Option ℕ
credential_refusal (object e) = refused_with e.status
credential_refusal _ = none

unfoldable pub error_message : Failure → ErrorText
error_message (object e) = message e.message
error_message (value t) = message t
error_message (illegal_transition id from to) = illegal_text id from to

-- `error instanceof InvalidVerdictOutputError`
abbrev pub is_invalid_output : Failure → Bool
is_invalid_output (object e) = e.is_invalid_output
is_invalid_output (value _) = false
is_invalid_output (illegal_transition _ _ _) = false
