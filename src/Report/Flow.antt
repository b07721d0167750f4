-- ===== src/Report/Flow.antt =====
-- `stepFlow` of src/domain/bug-report-flow.ts.
use warsaw_beer_bot.Base.{
  ℕ, suc, Bool, true, false, not, ◌||◌, Option, none, some, ◌++◌, [], ◌∷◌, leb, ltb, if◌then◌else◌,
  length,
}
use warsaw_beer_bot.Base.Decimal.{Text}
use warsaw_beer_bot.Report.{
  ReportSource, ReportCategory, at_source, at_category, at_text, at_media, at_confirm, DraftMedia,
  Draft, Reply, private_only, unavailable, banned, limit, expired, cancelled, ask_source, ask_text,
  too_short, ask_media, media_too_big, media_full, ask_category, media_added, confirm, FlowEvent,
  start, cancel, media_done, pick_source, pick_category, text, media, submit, FlowResult, max_media,
  max_media_bytes, min_text, daily_user_limit, offers, trim, starts_with_slash, is_draft_step, live,
}

abbrev pub answered : Option Draft → Reply → FlowResult
answered draft r = record {
  draft = draft;
  replies = r ∷ [];
  pass_through = false;
  submission = none;
}

-- `reply`: the draft is gone.
abbrev pub reply : Reply → FlowResult
reply r = answered none r

abbrev pub passed : Option Draft → FlowResult
passed draft = record { draft = draft; replies = []; pass_through = true; submission = none }

-- The end of the function, for an event that is ignored.
abbrev pub ignored : Option Draft → FlowResult
ignored stored = record { draft = stored; replies = []; pass_through = false; submission = none }

abbrev pub new_draft : ℕ → Draft
new_draft now = record {
  step = at_source;
  source = none;
  category = none;
  text = none;
  media = [];
  updated_at = now;
}

unfoldable pub start_flow : Option Draft → ℕ → Bool → Bool → Bool → ℕ → FlowResult
start_flow stored submitted_today is_banned available private_chat now =
    if not private_chat
    then answered stored private_only
    else if not available
    then reply unavailable
    else if is_banned
    then reply banned
    else if leb daily_user_limit submitted_today
    then reply limit
    else answered (some (new_draft now)) ask_source

abbrev pub without_draft : FlowEvent → FlowResult
without_draft (text t) = passed none
without_draft (media m) = passed none
without_draft cancel = passed none
without_draft _ = reply expired

unfoldable pub on_source : Option Draft → Draft → ReportSource → FlowResult
on_source stored d source =
    if is_draft_step d.step at_source
    then answered
        (some record {
          step = at_category;
          source = some source;
          category = d.category;
          text = d.text;
          media = d.media;
          updated_at = d.updated_at;
        })
        (ask_category source)
    else ignored stored

abbrev pub with_category : Option Draft → Draft → ReportCategory → Option ReportSource → FlowResult
with_category stored d category none = ignored stored
with_category stored d category (some source) =
    if offers source category
    then answered
        (some record {
          step = at_text;
          source = d.source;
          category = some category;
          text = d.text;
          media = d.media;
          updated_at = d.updated_at;
        })
        ask_text
    else ignored stored

unfoldable pub on_category : Option Draft → Draft → ReportCategory → FlowResult
on_category stored d category =
    if is_draft_step d.step at_category
    then with_category stored d category d.source
    else ignored stored

unfoldable pub on_text : Option Draft → Draft → Text → FlowResult
on_text stored d t =
    if not (is_draft_step d.step at_text) || starts_with_slash t
    then passed stored
    else if ltb (length (trim t)) min_text
    then answered (some d) too_short
    else answered
        (some record {
          step = at_media;
          source = d.source;
          category = d.category;
          text = some (trim t);
          media = d.media;
          updated_at = d.updated_at;
        })
        ask_media

abbrev pub too_big : Option ℕ → Bool
too_big none = false
too_big (some size) = ltb max_media_bytes size

unfoldable pub on_media : Option Draft → Draft → DraftMedia → FlowResult
on_media stored d m =
    if not (is_draft_step d.step at_media)
    then passed stored
    else if too_big m.file_size
    then answered (some d) media_too_big
    else if leb max_media (length d.media)
    then answered (some d) media_full
    else answered
        (some record {
          step = d.step;
          source = d.source;
          category = d.category;
          text = d.text;
          media = d.media ++ (m ∷ []);
          updated_at = d.updated_at;
        })
        (media_added (suc (length d.media)))

abbrev pub text_or_empty : Option Text → Text
text_or_empty none = []
text_or_empty (some t) = t

unfoldable pub on_media_done : Option Draft → Draft → FlowResult
on_media_done stored d =
    if is_draft_step d.step at_media
    then answered
        (some record {
          step = at_confirm;
          source = d.source;
          category = d.category;
          text = d.text;
          media = d.media;
          updated_at = d.updated_at;
        })
        (confirm d.source d.category (text_or_empty d.text) (length d.media))
    else ignored stored

unfoldable pub on_submit : Option Draft → Draft → ℕ → Bool → FlowResult
on_submit stored d submitted_today is_banned =
    if not (is_draft_step d.step at_confirm)
    then ignored stored
    else if is_banned
    then reply banned
    else if leb daily_user_limit submitted_today
    then reply limit
    else record {
      draft = none;
      replies = [];
      pass_through = false;
      submission =
          some record { source = d.source; category = d.category; text = d.text; media = d.media };
    }

abbrev pub with_draft : Option Draft → Draft → FlowEvent → FlowResult
with_draft stored d (start n b a p) = ignored stored
with_draft stored d cancel = reply cancelled
with_draft stored d (pick_source source) = on_source stored d source
with_draft stored d (pick_category category) = on_category stored d category
with_draft stored d (text t) = on_text stored d t
with_draft stored d (media m) = on_media stored d m
with_draft stored d media_done = on_media_done stored d
with_draft stored d (submit n b) = on_submit stored d n b

abbrev pub after_start : Option Draft → FlowEvent → Option Draft → FlowResult
after_start stored event none = without_draft event
after_start stored event (some d) = with_draft stored d event

unfoldable pub step_flow : Option Draft → FlowEvent → ℕ → FlowResult
step_flow stored (start submitted_today is_banned available private_chat) now =
    start_flow stored submitted_today is_banned available private_chat now
step_flow stored event now = after_start stored event (live now stored)
