-- ===== src/Cache.antt =====
-- extension/src/cache/store.ts: match results kept in the browser for eight hours. The storage is a
-- list of entries by key; times are milliseconds since the epoch.
pub mod Reads
use warsaw_beer_bot.Base.{
  ℕ, ◌+◌, ◌*◌, Bool, true, false, not, Option, none, some, List, [], ◌∷◌, leb, ◌==◌, if◌then◌else◌,
  filter, any, length,
}

abbrev pub cache_ttl_ms : ℕ
cache_ttl_ms = 8 * 60 * 60 * 1000

-- A key stands as a number, as it is only compared; a result is what `JSON.stringify` tells apart.
pub record Entry (Result : Type 0) : Type 0 where
  pub key : ℕ
  pub result : Result
  pub expires_at : ℕ

module _ {Result : Type 0} where
  abbrev pub entry_at : ℕ → List (Entry Result) → Option (Entry Result)
  entry_at key [] = none
  entry_at key (e ∷ l) = let rest = entry_at key l in if e.key == key then some e else rest

  abbrev pub put_entry : Entry Result → List (Entry Result) → List (Entry Result)
  put_entry e [] = e ∷ []
  put_entry e (x ∷ l) = let rest = put_entry e l in if x.key == e.key then e ∷ l else x ∷ rest

  unfoldable pub write_cached : ℕ → Result → ℕ → List (Entry Result) → List (Entry Result)
  write_cached key result now l =
      put_entry record { key = key; result = result; expires_at = now + cache_ttl_ms } l

  abbrev pub fresh : ℕ → Option (Entry Result) → Option Result
  fresh now none = none
  fresh now (some e) = if leb e.expires_at now then none else some e.result

  unfoldable pub get_cached : ℕ → ℕ → List (Entry Result) → Option Result
  get_cached key now l = fresh now (entry_at key l)

  -- With no write that fails.
  unfoldable pub set_cached_many : List (ℕ × Result) → ℕ → List (Entry Result) → List (Entry Result)
  unfolding write_cached
  set_cached_many [] now l = l
  set_cached_many ((key, result) ∷ more) now l =
      set_cached_many more now (write_cached key result now l)

  abbrev pub stored_result : Option (Entry Result) → Option Result
  stored_result none = none
  stored_result (some e) = some e.result

  unfoldable pub set_cached_if_matching :
      (Option Result → Option Result → Bool)
      → ℕ
      → Result
      → Result
      → ℕ
      → List (Entry Result)
      → List (Entry Result) × Bool
  unfolding write_cached
  set_cached_if_matching same key expected result now l =
      if same (stored_result (entry_at key l)) (some expected)
      then (write_cached key result now l, true)
      else (l, false)

  unfoldable pub clear_keys : List ℕ → List (Entry Result) → List (Entry Result)
  clear_keys keys l = filter (λ e. not (any (λ k. k == e.key) keys)) l

  unfoldable pub count_all : List (Entry Result) → ℕ
  count_all l = length l
