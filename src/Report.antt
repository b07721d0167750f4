-- ===== src/Report.antt =====
-- src/domain/bug-report-flow.ts and bug-report-categories.ts: the dialogue of /report, one event at
-- a time. A text is the list of its UTF-16 units, a time is in milliseconds since the epoch.
pub mod Flow
pub mod Sound
use Prim.Native.String.{String}
use warsaw_beer_bot.Base.{
  ℕ, ◌+◌, ◌*◌, Bool, true, false, not, ◌&&◌, ◌||◌, Option, none, some, List, ◌++◌, [], ◌∷◌, leb,
  ltb, ◌==◌, if◌then◌else◌, length, any, filter,
}
use warsaw_beer_bot.Base.Decimal.{Text}

pub data ReportSource : Type 0 where
  bot extension : ReportSource

pub data ReportCategory : Type 0 where
  wrong_beer no_rating had_status stale_data route : ReportCategory
  no_badge ext_broken bot_broken text_ui other : ReportCategory

pub data MediaKind : Type 0 where
  photo video : MediaKind

pub data DraftStep : Type 0 where
  at_source at_category at_text at_media at_confirm : DraftStep

pub record DraftMedia : Type 0 where
  pub file_id : String
  pub kind : MediaKind
  pub file_size : Option ℕ
  pub ext : String

pub record Draft : Type 0 where
  pub step : DraftStep
  pub source : Option ReportSource
  pub category : Option ReportCategory
  pub text : Option Text
  pub media : List DraftMedia
  pub updated_at : ℕ

pub data Keyboard : Type 0 where
  sources_keyboard media_keyboard confirm_keyboard : Keyboard
  categories_keyboard : ReportSource → Keyboard

-- The replies, by their keys and parameters.
pub data Reply : Type 0 where
  private_only unavailable banned limit expired cancelled : Reply
  ask_source ask_text too_short ask_media media_too_big media_full : Reply
  ask_category : ReportSource → Reply
  media_added : ℕ → Reply
  confirm : Option ReportSource → Option ReportCategory → Text → ℕ → Reply

pub data FlowEvent : Type 0 where
  start : (submitted_today : ℕ) → (banned available private_chat : Bool) → FlowEvent
  cancel media_done : FlowEvent
  pick_source : ReportSource → FlowEvent
  pick_category : ReportCategory → FlowEvent
  text : Text → FlowEvent
  media : DraftMedia → FlowEvent
  submit : (submitted_today : ℕ) → (banned : Bool) → FlowEvent

-- The `!` of the source checks nothing, so a field of the draft that is null would be sent as null.
pub record Submission : Type 0 where
  pub source : Option ReportSource
  pub category : Option ReportCategory
  pub text : Option Text
  pub media : List DraftMedia

pub record FlowResult : Type 0 where
  pub draft : Option Draft
  pub replies : List Reply
  pub pass_through : Bool
  pub submission : Option Submission

abbrev pub draft_ttl_ms : ℕ
draft_ttl_ms = 30 * 60 * 1000

abbrev pub max_media : ℕ
max_media = 3

abbrev pub max_media_bytes : ℕ
max_media_bytes = 20 * 1024 * 1024

abbrev pub min_text : ℕ
min_text = 10

abbrev pub daily_user_limit : ℕ
daily_user_limit = 3

abbrev pub categories : List ReportCategory
categories =
    wrong_beer ∷ no_rating ∷ had_status ∷ stale_data ∷ route ∷ no_badge ∷ ext_broken ∷ bot_broken
    ∷ text_ui ∷ other ∷ []

-- Whether the category's `sources` include a source.
abbrev pub is_for : ReportSource → ReportCategory → Bool
is_for extension route = false
is_for extension bot_broken = false
is_for bot no_badge = false
is_for bot ext_broken = false
is_for _ _ = true

unfoldable pub categories_for : ReportSource → List ReportCategory
categories_for source = filter (is_for source) categories

abbrev pub code : ReportCategory → ℕ
code wrong_beer = 0
code no_rating = 1
code had_status = 2
code stale_data = 3
code route = 4
code no_badge = 5
code ext_broken = 6
code bot_broken = 7
code text_ui = 8
code other = 9

unfoldable pub offers : ReportSource → ReportCategory → Bool
unfolding categories_for
offers source category = any (λ c. code c == code category) (categories_for source)

-- The white space and line ends that `trim` takes off.
abbrev pub is_space : ℕ → Bool
is_space c =
    (leb 9 c && leb c 13)
    || (c == 32)
    || (c == 160)
    || (c == 5760)
    || (leb 8192 c && leb c 8202)
    || (c == 8232)
    || (c == 8233)
    || (c == 8239)
    || (c == 8287)
    || (c == 12288)
    || (c == 65279)

abbrev pub trim_start : Text → Text
trim_start [] = []
trim_start (c ∷ s) = let rest = trim_start s in if is_space c then rest else c ∷ s

abbrev pub put_back : ℕ → Text → Text
put_back c [] = if is_space c then [] else c ∷ []
put_back c (d ∷ s) = c ∷ d ∷ s

abbrev pub trim_end : Text → Text
trim_end [] = []
trim_end (c ∷ s) = put_back c (trim_end s)

pub trim : Text → Text
trim s = trim_end (trim_start s)

abbrev pub starts_with_slash : Text → Bool
starts_with_slash [] = false
starts_with_slash (c ∷ s) = c == b'/'

abbrev pub rank : DraftStep → ℕ
rank at_source = 0
rank at_category = 1
rank at_text = 2
rank at_media = 3
rank at_confirm = 4

abbrev pub is_draft_step : DraftStep → DraftStep → Bool
is_draft_step step other_step = rank step == rank other_step

-- The stored draft, touched now, unless it is older than the time to live.
abbrev pub touched : ℕ → Draft → Draft
touched now d = record {
  step = d.step;
  source = d.source;
  category = d.category;
  text = d.text;
  media = d.media;
  updated_at = now;
}

abbrev pub live : ℕ → Option Draft → Option Draft
live now none = none
live now (some d) = if leb now (d.updated_at + draft_ttl_ms) then some (touched now d) else none
