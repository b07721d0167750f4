-- ===== src/Cache/Reads.antt =====
-- What the cache gives back.
use warsaw_beer_bot.Base.{
  ℕ, ◌+◌, ◌≡◌, refl, ap, ◌∙◌, true, false, none, some, List, [], ◌∷◌, leb, ◌==◌, if◌then◌else◌,
  Bool-cases, inl, inr, arith,
}
use warsaw_beer_bot.Cache.{
  Entry, entry_at, put_entry, write_cached, fresh, get_cached, cache_ttl_ms,
}

module _ {Result : Type 0} where
  entry_at-put_entry :
      (e : Entry Result) (l : List (Entry Result)) (key : ℕ)
      → entry_at key (put_entry e l) ≡ (if e.key == key then some e else entry_at key l)
  entry_at-put_entry e [] key = refl
  entry_at-put_entry e (x ∷ l) key = elim (Bool-cases (x.key == e.key)) [
    | inl f ↦
        rw f
          (elim (Bool-cases (e.key == key)) [ inl g ↦ rw g refl | inr g ↦ rw (g, apart f g) refl ])
    | inr f ↦ rw f (elim (Bool-cases (x.key == key)) [
      | inl g ↦ rw (g, turned f g) refl
      | inr g ↦ rw g (entry_at-put_entry e l key)
    ])
  ]
    where
      apart : (x.key == e.key) ≡ true → (e.key == key) ≡ false → (x.key == key) ≡ false
      apart f g = ground arith

      turned : (x.key == e.key) ≡ false → (x.key == key) ≡ true → (e.key == key) ≡ false
      turned f g = ground arith

  -- After a write, its key gives the result for eight hours and then nothing, and every other key
  -- gives what it gave before.
  pub get_cached-write_cached :
      (key other : ℕ) (result : Result) (now later : ℕ) (l : List (Entry Result))
      → get_cached other later (write_cached key result now l) ≡ (
          if key == other
          then (if leb (now + cache_ttl_ms) later then none else some result)
          else get_cached other later l)
  unfolding get_cached write_cached
  get_cached-write_cached key other result now later l =
      ap (fresh later) (
        entry_at-put_entry record { key = key; result = result; expires_at = now + cache_ttl_ms } l
          other)
      ∙ elim (Bool-cases (key == other)) [ inl e ↦ rw e refl | inr e ↦ rw e refl ]
