-- ===== src/Messages/Split.antt =====
-- What the messages of a split reply hold.
use warsaw_beer_bot.Base.{
  ℕ, zero, suc, ◌+◌, ◌-◌, ◌≤◌, ◌<◌, ◌≡◌, refl, sym, ap, ◌∙◌, not, ◌&&◌, List, [], ◌∷◌, ◌++◌, leb,
  ◌==◌, length, length-append, any, map, Bool-cases, inl, inr, All, arith, if-cases,
}
use warsaw_beer_bot.Base.Decimal.{Text}
use warsaw_beer_bot.Messages.{
  take, drop_half, drop_entity, ends_or_space, is_high_surrogate, strip_tags, clip, pack, pack_all,
  split_message, ellipsis,
}

take-le : (n : ℕ) (s : Text) → length (take n s) ≤ n
take-le zero s = ground arith
take-le (suc n) [] = ground arith
take-le (suc n) (c ∷ s) = ground (arith, take-le n s)

drop_half-le : (s : Text) → length (drop_half s) ≤ length s
drop_half-le [] = ground arith
drop_half-le (c ∷ []) =
    if-cases (λ t. length t ≤ 1) (is_high_surrogate c) [] (c ∷ []) (λ _. ground arith)
      λ _. ground arith
drop_half-le (c ∷ d ∷ s) = ground (arith, drop_half-le (d ∷ s))

drop_entity-le : (s : Text) → length (drop_entity s) ≤ length s
drop_entity-le [] = ground arith
drop_entity-le (c ∷ s) =
    if-cases (λ t. length t ≤ suc (length s)) ((c == b'&') && not (any ends_or_space s)) [] _
      (λ _. ground arith) λ _. ground (arith, drop_entity-le s)

clip-le : (limit : ℕ) (line : Text) → 0 < limit → length (clip limit line) ≤ limit
unfolding clip
clip-le limit line h =
    if-cases P (leb (length line) limit) _ _ (λ e. ground arith)
      λ _.
        if-cases P (leb (length (strip_tags (length line) line)) limit) _ _ (λ e. ground arith)
          λ _. cut
  where
    P : Text → Type 0
    P t = length t ≤ limit

    cut : P (
        drop_entity (drop_half (take (limit - 1) (strip_tags (length line) line)))
        ++ (ellipsis ∷ []))
    cut =
        let plain = strip_tags (length line) line in
        let kept = take (limit - 1) plain in
        ground (
          arith,
          length-append (drop_entity (drop_half kept)) (ellipsis ∷ []),
          drop_entity-le (drop_half kept),
          drop_half-le kept,
          take-le (limit - 1) plain,
        )

pack-le :
    (limit : ℕ) (current : Text) (l : List Text)
    → 0 < limit
    → length current ≤ limit
    → All (λ m. length m ≤ limit) (pack limit current l)
unfolding pack
pack-le limit current [] h k = (k, tt)
pack-le limit current (element ∷ l) h k =
    elim (Bool-cases (leb (length current + 1 + length (clip limit element)) limit)) [
      | inl e ↦ rw e (
          pack-le limit (current ++ (b'\n' ∷ clip limit element)) l h
            (ground (arith, length-append current (b'\n' ∷ clip limit element))))
      | inr e ↦ rw e (k, pack-le limit (clip limit element) l h (clip-le limit element h))
    ]

-- The text that the messages make when a line end stands between them.
abbrev pub join : List Text → Text
join [] = []
join (s ∷ []) = s
join (s ∷ t ∷ l) = s ++ (b'\n' ∷ join (t ∷ l))

abbrev pub joined : Text → List Text → Text
joined s [] = s
joined s (t ∷ l) = s ++ (b'\n' ∷ joined t l)

join-joined : (s : Text) (l : List Text) → join (s ∷ l) ≡ joined s l
join-joined s [] = refl
join-joined s (t ∷ l) = rw (join-joined t l) refl

append_assoc : (s t u : Text) → (s ++ t) ++ u ≡ s ++ (t ++ u)
append_assoc [] t u = refl
append_assoc (c ∷ s) t u = ap (λ r. c ∷ r) (append_assoc s t u)

joined-append :
    (s t : Text) (l : List Text) → joined (s ++ (b'\n' ∷ t)) l ≡ s ++ (b'\n' ∷ joined t l)
joined-append s t [] = refl
joined-append s t (u ∷ l) = append_assoc s (b'\n' ∷ t) (b'\n' ∷ joined u l)

-- There is always a message being filled.
join-pack :
    (s : Text) (limit : ℕ) (current : Text) (l : List Text)
    → join (s ∷ pack limit current l) ≡ s ++ (b'\n' ∷ join (pack limit current l))
unfolding pack
join-pack s limit current [] = refl
join-pack s limit current (element ∷ l) =
    elim (Bool-cases (leb (length current + 1 + length (clip limit element)) limit)) [
      | inl e ↦ rw e (join-pack s limit (current ++ (b'\n' ∷ clip limit element)) l)
      | inr e ↦ rw e refl
    ]

pack-join :
    (limit : ℕ) (current : Text) (l : List Text)
    → join (pack limit current l) ≡ joined current (map (clip limit) l)
unfolding pack
pack-join limit current [] = refl
pack-join limit current (element ∷ l) =
    elim (Bool-cases (leb (length current + 1 + length (clip limit element)) limit)) [
      | inl e ↦ rw e (
          pack-join limit (current ++ (b'\n' ∷ clip limit element)) l
          ∙ joined-append current (clip limit element) (map (clip limit) l))
      | inr e ↦ rw e (
          join-pack current limit (clip limit element) l
          ∙ ap (λ r. current ++ (b'\n' ∷ r)) (pack-join limit (clip limit element) l))
    ]

-- No message is longer than the limit, and the messages put together with line ends between them are
-- the head and the lines, each clipped, put together so: in their order, with none dropped. The limit
-- is positive.
pub split_message-whole :
    (head lines : List Text) (limit : ℕ)
    → 0 < limit
    → All (λ m. length m ≤ limit) (split_message head lines limit)
      × (join (split_message head lines limit) ≡ join (map (clip limit) (head ++ lines)))
unfolding split_message
split_message-whole head lines limit h = whole (head ++ lines)
  where
    whole :
        (l : List Text)
        → All (λ m. length m ≤ limit) (pack_all limit l)
          × (join (pack_all limit l) ≡ join (map (clip limit) l))
    whole [] = (tt, refl)
    whole (s ∷ l) = (
      pack-le limit (clip limit s) l h (clip-le limit s h),
      pack-join limit (clip limit s) l ∙ sym (join-joined (clip limit s) (map (clip limit) l)),
    )
