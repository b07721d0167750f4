-- ===== src/Messages.antt =====
-- src/bot/commands/message-split.ts: a reply as messages that Telegram accepts. A text is the list
-- of its UTF-16 units.
pub mod Split
use warsaw_beer_bot.Base.{
  ℕ, zero, suc, ◌+◌, ◌-◌, Bool, true, false, not, ◌&&◌, ◌||◌, Option, none, some, List, [], ◌∷◌,
  ◌++◌, leb, ltb, ◌==◌, if◌then◌else◌, length, any, map,
}
use warsaw_beer_bot.Base.Decimal.{Text}
use warsaw_beer_bot.Report.{is_space}

abbrev pub telegram_message_limit : ℕ
telegram_message_limit = 4096

abbrev pub take : ℕ → Text → Text
take zero s = []
take (suc n) [] = []
take (suc n) (c ∷ s) = c ∷ take n s

-- The rest of the text after the next `>`, if there is one.
abbrev pub after_tag : Text → Option Text
after_tag [] = none
after_tag (c ∷ s) = let rest = after_tag s in if c == b'>' then some s else rest

abbrev pub tag_end : Text → Option Text → ℕ → Text × Option ℕ
tag_end s none c = (s, some c)
tag_end s (some rest) c = (rest, none)

-- `replace(/<[^>]*>/g, '')`, on fuel: at most the length of the text.
pub strip_tags : ℕ → Text → Text
strip_tags zero s = []
strip_tags (suc n) [] = []
strip_tags (suc n) (c ∷ s) =
    let (rest, kept) = if c == b'<' then tag_end s (after_tag s) c else (s, some c) in
    let stripped = strip_tags n rest in elim kept [ none ↦ stripped | some d ↦ d ∷ stripped ]

abbrev pub is_high_surrogate : ℕ → Bool
is_high_surrogate c = leb 55296 c && leb c 56319

-- `replace(/[\uD800-\uDBFF]$/, '')`.
abbrev pub drop_half : Text → Text
drop_half [] = []
drop_half (c ∷ []) = if is_high_surrogate c then [] else c ∷ []
drop_half (c ∷ d ∷ s) = c ∷ drop_half (d ∷ s)

abbrev pub ends_or_space : ℕ → Bool
ends_or_space c = (c == b';') || is_space c

-- `replace(/&[^;\s]*$/, '')`: the text before the first `&` that an entity's end does not follow.
abbrev pub drop_entity : Text → Text
drop_entity [] = []
drop_entity (c ∷ s) =
    let rest = drop_entity s in if (c == b'&') && not (any ends_or_space s) then [] else c ∷ rest

abbrev pub ellipsis : ℕ
ellipsis = 8230

unfoldable pub clip : ℕ → Text → Text
unfolding strip_tags
clip limit line =
    if leb (length line) limit
    then line
    else let plain = strip_tags (length line) line in
      if leb (length plain) limit
      then plain
      else drop_entity (drop_half (take (limit - 1) plain)) ++ (ellipsis ∷ [])

-- The loop of `splitMessage`, from the message that is being filled.
unfoldable pub pack : ℕ → Text → List Text → List Text
unfolding clip
pack limit current [] = current ∷ []
pack limit current (element ∷ l) =
    let line = clip limit element in
    let fits = leb (length current + 1 + length line) limit in
    let rest = pack limit (if fits then current ++ (b'\n' ∷ line) else line) l in
    if fits then rest else current ∷ rest

abbrev pub pack_all : ℕ → List Text → List Text
pack_all limit [] = []
pack_all limit (element ∷ l) = pack limit (clip limit element) l

unfoldable pub split_message : List Text → List Text → ℕ → List Text
unfolding pack
split_message head lines limit = pack_all limit (head ++ lines)
