-- ===== src/Fest/Planning/Paging.antt =====
-- The reading of a feed page by page ends.
use warsaw_beer_bot.Base.{
  ℕ, ◌≤◌, ◌<◌, ◌≡◌, refl, inl, inr, Bool, true, false, not, Option, none, some, List, [], ◌∷◌, leb,
  ltb, Bool-cases, All, arith,
}
use warsaw_beer_bot.Fest.Planning.{
  PageStep, more, done, hole, mcp_page_cap, mcp_max_pages, newer, next_cursor, reaches, has_ids,
  venue_page_step,
}

is_more : PageStep → Bool
is_more more = true
is_more _ = false

more_is : (s : PageStep) → s ≡ more → is_more s ≡ true
unfolding is_more
more_is s e = rw e refl

-- A page after this one is read only where the page is full, one of the first three, and does not
-- reach down to the cursor, or with none to the floor.
venue_page_step-more :
    (cursor : Option ℕ) (floor_at page_no count : ℕ) (ids : List ℕ) (oldest_at : Option ℕ)
    → venue_page_step cursor floor_at page_no count ids oldest_at ≡ more
    → (mcp_page_cap ≤ count)
      × (page_no < mcp_max_pages)
      × (reaches cursor floor_at ids oldest_at ≡ false)
unfolding venue_page_step is_more
venue_page_step-more cursor floor_at page_no count ids oldest_at e =
    elim (Bool-cases (ltb count mcp_page_cap)) [
      | inl f ↦ absurd (done_not (rw f at e))
      | inr f ↦ elim (Bool-cases (not (has_ids ids))) [
        | inl g ↦ absurd (hole_not (rw (f, g) at e))
        | inr g ↦ elim (Bool-cases (reaches cursor floor_at ids oldest_at)) [
          | inl h ↦ absurd (done_not (rw (f, g, h) at e))
          | inr h ↦ elim (Bool-cases (leb mcp_max_pages page_no)) [
            | inl i ↦ absurd (hole_not (rw (f, g, h, i) at e))
            | inr i ↦ (ground arith, ground arith, h)
          ]
        ]
      ]
    ]
  where
    done_not : done ≡ more → ⊥
    done_not k = cc

    hole_not : hole ≡ more → ⊥
    hole_not k = cc

abbrev pub Reached : ℕ → Option ℕ → Type 0
Reached id none = ⊥
Reached id (some c) = id ≤ c

newer-Reached : (cursor : Option ℕ) (id x : ℕ) → Reached x cursor → Reached x (newer cursor id)
newer-Reached none id x h = absurd h
newer-Reached (some c) id x h = elim (Bool-cases (ltb c id)) [
  | inl e ↦ rw e (ground arith)
  | inr e ↦ rw e h
]

newer-own : (cursor : Option ℕ) (id : ℕ) → Reached id (newer cursor id)
newer-own none id = ground arith
newer-own (some c) id = elim (Bool-cases (ltb c id)) [
  | inl e ↦ rw e (ground arith)
  | inr e ↦ rw e (ground arith)
]

next_cursor-kept :
    (cursor : Option ℕ) (ids : List ℕ) (x : ℕ)
    → Reached x cursor
    → Reached x (next_cursor cursor ids)
unfolding next_cursor
next_cursor-kept cursor [] x h = h
next_cursor-kept cursor (id ∷ ids) x h =
    next_cursor-kept (newer cursor id) ids x (newer-Reached cursor id x h)

-- The next cursor is at or above every id seen.
pub next_cursor-Reached :
    (cursor : Option ℕ) (ids : List ℕ) → All (λ id. Reached id (next_cursor cursor ids)) ids
unfolding next_cursor
next_cursor-Reached cursor [] = tt
next_cursor-Reached cursor (id ∷ ids) = (
  next_cursor-kept (newer cursor id) ids id (newer-own cursor id),
  next_cursor-Reached (newer cursor id) ids,
)
