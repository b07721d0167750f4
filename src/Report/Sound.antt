-- ===== src/Report/Sound.antt =====
-- What a draft and a submission of the /report dialogue hold.
use warsaw_beer_bot.Base.{
  ℕ, ◌≤◌, ◌≡◌, refl, Bool, true, false, not, Option, none, some, List, ◌++◌, [], ◌∷◌, ◌==◌, ◌+◌,
  leb, ltb, ◌==◌, ==_iff, ap, ◌∙◌, subst, sym, if◌then◌else◌, length, length-append, All,
  All-append, Bool-cases, inl, inr, arith,
}
use warsaw_beer_bot.Base.Decimal.{Text}
use warsaw_beer_bot.Report.{
  ReportSource, ReportCategory, DraftStep, at_source, at_category, at_text, at_media, at_confirm,
  DraftMedia, Draft, FlowEvent, start, cancel, media_done, pick_source, pick_category, text, media,
  submit, Submission, FlowResult, max_media, min_text, draft_ttl_ms, offers, trim,
  starts_with_slash, rank, is_draft_step, live, touched,
}
use warsaw_beer_bot.Report.Flow.{
  start_flow, without_draft, on_source, with_category, on_category, on_text, too_big, on_media,
  on_media_done, on_submit, with_draft, after_start, step_flow, new_draft,
}

-- The parts of a report: a category that the source offers, a text that is long enough, and few
-- enough media of an allowed size.
abbrev pub Chosen : Option ReportSource → Option ReportCategory → Type 0
Chosen (some s) (some c) = offers s c ≡ true
Chosen _ _ = ⊥

abbrev pub Written : Option Text → Type 0
Written none = ⊥
Written (some t) = min_text ≤ length t

abbrev pub Attached : List DraftMedia → Type 0
Attached l = All (λ m. too_big m.file_size ≡ false) l × (length l ≤ max_media)

abbrev pub Given : Option ReportSource → Type 0
Given none = ⊥
Given (some s) = Unit

-- What is filled in at a step.
abbrev pub Filled : DraftStep → Draft → Type 0
Filled at_source d = d.media ≡ []
Filled at_category d = Given d.source × (d.media ≡ [])
Filled at_text d = Chosen d.source d.category × (d.media ≡ [])
Filled at_media d = Chosen d.source d.category × Written d.text × Attached d.media
Filled at_confirm d = Chosen d.source d.category × Written d.text × Attached d.media

abbrev pub IsDraft : Option Draft → Type 0
IsDraft none = Unit
IsDraft (some d) = Filled d.step d

abbrev pub IsSent : Option Submission → Type 0
IsSent none = Unit
IsSent (some s) = Chosen s.source s.category × Written s.text × Attached s.media

abbrev pub Sound : FlowResult → Type 0
Sound r = IsDraft r.draft × IsSent r.submission

step_of : ℕ → DraftStep
step_of n =
    if n == 0
    then at_source
    else if n == 1
    then at_category
    else if n == 2
    then at_text
    else if n == 3
    then at_media
    else at_confirm

step_of-rank : (s : DraftStep) → step_of (rank s) ≡ s
unfolding step_of
step_of-rank at_source = refl
step_of-rank at_category = refl
step_of-rank at_text = refl
step_of-rank at_media = refl
step_of-rank at_confirm = refl

Filled-at :
    (d : Draft) (s want : DraftStep) → is_draft_step s want ≡ true → Filled s d → Filled want d
Filled-at d s want e =
    let same : rank s ≡ rank want = (==_iff (rank s) (rank want)).0 e in
    subst (λ step. Filled step d) (sym (step_of-rank s) ∙ ap step_of same ∙ step_of-rank want)

-- A test of the step: with it the parts of that step, without it the draft that was stored.
module _ (stored : Option Draft) (d : Draft) (h : IsDraft stored) where
  at_step :
      (want : DraftStep) (met unmet : FlowResult)
      → (Filled want d → Sound met)
      → Sound unmet
      → Filled d.step d
      → Sound (if is_draft_step d.step want then met else unmet)
  at_step want met unmet f_met f_unmet f = elim (Bool-cases (is_draft_step d.step want)) [
    | inl e ↦ rw e (f_met (Filled-at d d.step want e f))
    | inr e ↦ rw e f_unmet
  ]

  branch :
      (b : Bool) (met unmet : FlowResult)
      → (b ≡ true → Sound met)
      → (b ≡ false → Sound unmet)
      → Sound (if b then met else unmet)
  branch b met unmet f g = elim (Bool-cases b) [ inl e ↦ rw e (f e) | inr e ↦ rw e (g e) ]

  start-Sound :
      (n : ℕ) (is_banned available private_chat : Bool) (now : ℕ)
      → Sound (start_flow stored n is_banned available private_chat now)
  unfolding start_flow
  start-Sound n b a p now =
      branch (not p) _ _ (λ _. (h, tt))
        λ _.
          branch (not a) _ _ (λ _. (tt, tt))
            λ _.
              branch b _ _ (λ _. (tt, tt)) λ _. branch (leb 3 n) _ _ (λ _. (tt, tt)) λ _. (refl, tt)

  on_category-Sound :
      (category : ReportCategory) → Filled d.step d → Sound (on_category stored d category)
  unfolding on_category
  on_category-Sound category = at_step at_category _ _ (λ f. by_source d.source refl f.1) (h, tt)
    where
      by_source :
          (source : Option ReportSource)
          → d.source ≡ source
          → d.media ≡ []
          → Sound (with_category stored d category source)
      by_source none e m = (h, tt)
      by_source (some s) e m =
          branch (offers s category) _ _ (λ k. ((rw e k, m), tt)) (λ _. (h, tt))

  on_text-Sound : (t : Text) → Filled d.step d → Sound (on_text stored d t)
  unfolding on_text
  on_text-Sound t f = elim (Bool-cases (is_draft_step d.step at_text)) [
    | inl e ↦ rw e (
        branch (starts_with_slash t) _ _ (λ _. (h, tt))
          λ _.
            branch (ltb (length (trim t)) min_text) _ _ (λ _. (kept, tt))
              λ k. accepted k (Filled-at d d.step at_text e f))
    | inr e ↦ rw e (h, tt)
  ]
    where
      kept : Filled d.step d
      kept = f

      accepted :
          ltb (length (trim t)) min_text ≡ false
          → Filled at_text d
          → (Chosen d.source d.category × Written (some (trim t)) × Attached d.media) × Unit {0}
      accepted k g = ((g.0, (ground arith), rw g.1 (tt, ground arith)), tt)

  on_media-Sound : (m : DraftMedia) → Filled d.step d → Sound (on_media stored d m)
  unfolding on_media
  on_media-Sound m f = elim (Bool-cases (is_draft_step d.step at_media)) [
    | inl e ↦ rw e (
        branch (too_big m.file_size) _ _ (λ _. (f, tt))
          λ k.
            branch (leb max_media (length d.media)) _ _ (λ _. (f, tt))
              λ l. (
                Filled-at _ at_media d.step (turned e) (more k l (Filled-at d d.step at_media e f)),
                tt,
              ))
    | inr e ↦ rw e (h, tt)
  ]
    where
      turned : is_draft_step d.step at_media ≡ true → is_draft_step at_media d.step ≡ true
      turned e = ground arith

      more :
          too_big m.file_size ≡ false
          → leb max_media (length d.media) ≡ false
          → Filled at_media d
          → Chosen d.source d.category × Written d.text × Attached (d.media ++ (m ∷ []))
      more k l g = (
        g.0,
        g.1,
        (
          All-append (λ x. too_big x.file_size ≡ false) d.media (m ∷ []) g.2.0 (k, tt),
          ground (arith, length-append d.media (m ∷ [])),
        ),
      )

  on_submit-Sound :
      (n : ℕ) (is_banned : Bool) → Filled d.step d → Sound (on_submit stored d n is_banned)
  unfolding on_submit
  on_submit-Sound n b f = elim (Bool-cases (is_draft_step d.step at_confirm)) [
    | inl e ↦ rw e (
        branch b _ _ (λ _. (tt, tt))
          λ _. branch (leb 3 n) _ _ (λ _. (tt, tt)) λ _. (tt, Filled-at d d.step at_confirm e f))
    | inr e ↦ rw e (h, tt)
  ]

  with_draft-Sound : (event : FlowEvent) → Filled d.step d → Sound (with_draft stored d event)
  unfolding on_source on_media_done
  with_draft-Sound (start n b a p) f = (h, tt)
  with_draft-Sound cancel f = (tt, tt)
  with_draft-Sound (pick_source source) f = at_step at_source _ _ (λ m. ((tt, m), tt)) (h, tt) f
  with_draft-Sound (pick_category category) f = on_category-Sound category f
  with_draft-Sound (text t) f = on_text-Sound t f
  with_draft-Sound (media m) f = on_media-Sound m f
  with_draft-Sound media_done f = at_step at_media _ _ (λ m. (m, tt)) (h, tt) f
  with_draft-Sound (submit n b) f = on_submit-Sound n b f

without_draft-Sound : (event : FlowEvent) → Sound (without_draft event)
without_draft-Sound (start n b a p) = (tt, tt)
without_draft-Sound cancel = (tt, tt)
without_draft-Sound (pick_source source) = (tt, tt)
without_draft-Sound (pick_category category) = (tt, tt)
without_draft-Sound (text t) = (tt, tt)
without_draft-Sound (media m) = (tt, tt)
without_draft-Sound media_done = (tt, tt)
without_draft-Sound (submit n b) = (tt, tt)

live-IsDraft : (now : ℕ) (stored : Option Draft) → IsDraft stored → IsDraft (live now stored)
live-IsDraft now none h = tt
live-IsDraft now (some d) h = elim (Bool-cases (leb now (d.updated_at + draft_ttl_ms))) [
  | inl e ↦ rw e (by_step d.step h)
  | inr e ↦ rw e tt
]
  where
    by_step : (s : DraftStep) → Filled s d → Filled s (touched now d)
    by_step at_source f = f
    by_step at_category f = f
    by_step at_text f = f
    by_step at_media f = f
    by_step at_confirm f = f

after_start-Sound :
    (stored draft : Option Draft) (event : FlowEvent)
    → IsDraft stored
    → IsDraft draft
    → Sound (after_start stored event draft)
after_start-Sound stored none event h k = without_draft-Sound event
after_start-Sound stored (some d) event h k = with_draft-Sound stored d h event k

-- In any state of the dialogue, whatever the event and the time: from a draft that has its step's
-- fields filled in, `stepFlow` goes to such a draft or to none, and what it submits has a category
-- that its source offers, a text of at least ten characters, and at most three media, none of a
-- known size over 20 MiB.
pub step_flow-Sound :
    (stored : Option Draft) (event : FlowEvent) (now : ℕ)
    → IsDraft stored
    → Sound (step_flow stored event now)
unfolding step_flow
step_flow-Sound stored (start n b a p) now h = start-Sound stored (new_draft 0) h n b a p now
step_flow-Sound stored cancel now h =
    after_start-Sound stored (live now stored) cancel h (live-IsDraft now stored h)
step_flow-Sound stored (pick_source s) now h =
    after_start-Sound stored (live now stored) (pick_source s) h (live-IsDraft now stored h)
step_flow-Sound stored (pick_category c) now h =
    after_start-Sound stored (live now stored) (pick_category c) h (live-IsDraft now stored h)
step_flow-Sound stored (text t) now h =
    after_start-Sound stored (live now stored) (text t) h (live-IsDraft now stored h)
step_flow-Sound stored (media m) now h =
    after_start-Sound stored (live now stored) (media m) h (live-IsDraft now stored h)
step_flow-Sound stored media_done now h =
    after_start-Sound stored (live now stored) media_done h (live-IsDraft now stored h)
step_flow-Sound stored (submit n b) now h =
    after_start-Sound stored (live now stored) (submit n b) h (live-IsDraft now stored h)
