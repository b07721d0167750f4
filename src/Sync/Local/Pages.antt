-- ===== src/Sync/Local/Pages.antt =====
-- What a submitted page does to the database, on every branch.
use Prim.Native.String.{String}
use warsaw_beer_bot.Base.{
  ℕ, ◌+◌, ◌≤◌, ◌≡◌, ◌≢◌, refl, ◌↔◌, ◌⊎◌, inl, inr, Option, none, some, List, [], ◌∷◌, length,
  Option-cases, arith,
}
use warsaw_beer_bot.Sync.Coverage.{CoverageRange, integer, merge_range}
use warsaw_beer_bot.Sync.Coverage.Union.{IsCovered, merge_range-IsCovered, merge_range-eq-none_iff}
use warsaw_beer_bot.Sync.Coverage.Disjoint.{IsCoverage, merge_range-IsCoverage}
use warsaw_beer_bot.Sync.Guards.{CheckinFeedPage, coverage_span}
use warsaw_beer_bot.Sync.Guards.Verdicts.{IsProof}
use warsaw_beer_bot.Sync.Local.{
  LocalDb, LocalMeta, PageResult, ok, checkin, stored_page, store_page,
}
use warsaw_beer_bot.Sync.Local.Work.{last_row, or_stored, checkin-put_all, put_all_counts}

-- The span of a proof is the right way round.
pub coverage_span-ordered :
    (c : Option ℕ) (ids : List ℕ) (oldest newest : ℕ)
    → ids ≢ []
    → IsProof c ids oldest newest
    → (coverage_span c oldest newest).0 ≤ (coverage_span c oldest newest).1
unfolding coverage_span
coverage_span-ordered (some n) ids oldest newest rows p = omega (arith, p.below n refl)
coverage_span-ordered none [] oldest newest rows p = absurd (rows refl)
coverage_span-ordered none (id ∷ ids) oldest newest rows p = omega (arith, p.bounded.0)

-- The database and the answer after an accepted page with span `from` to `to`.
pub record IsStored (canonical_checkin_at : String → String) (page : CheckinFeedPage)
    (before after : LocalDb) (result : PageResult) (from to : ℕ) : Type 0 where
  pub coverage : IsCoverage before.ranges → IsCoverage after.ranges
  pub covers :
      (id : ℕ) → IsCovered id after.ranges ↔ ((from ≤ id) × (id ≤ to) ⊎ IsCovered id before.ranges)
  pub reads :
      (id : ℕ)
      → checkin after.checkins id
        ≡ or_stored canonical_checkin_at
            (last_row canonical_checkin_at page.checkins id)
            (checkin before.checkins id)
  pub each_counted : result.merged + result.already_known ≡ length page.checkins
  pub merged_grown : length after.checkins ≡ length before.checkins + result.merged
  pub server_count_stored : result.server_count ≡ length after.checkins

module _ (canonical_checkin_at : String → String) (now : String) where
  module _ (page : CheckinFeedPage) (meta : LocalMeta) (db : LocalDb) (c : Option ℕ)
      (oldest newest : ℕ) where
    pub IsStored-stored_page :
        (ranges : List CoverageRange)
        → merge_range db.ranges
            (integer (coverage_span c oldest newest).0)
            (integer (coverage_span c oldest newest).1)
          ≡ some ranges
        → let (after, result) = stored_page canonical_checkin_at now page meta db oldest ranges in
          IsStored canonical_checkin_at page db after result
            (coverage_span c oldest newest).0
            (coverage_span c oldest newest).1
    IsStored-stored_page ranges e =
        let (counted, grown) = put_all_counts canonical_checkin_at page.checkins db.checkins 0 0 in
        record {
          coverage = λ h. merge_range-IsCoverage db.ranges _ _ ranges h e;
          covers = λ id. merge_range-IsCovered db.ranges _ _ ranges e id;
          reads = λ id. checkin-put_all canonical_checkin_at page.checkins db.checkins 0 0 id;
          each_counted = omega (arith, counted);
          merged_grown = omega (arith, grown);
          server_count_stored = refl;
        }

    pub store_page_total :
        (ids : List ℕ)
        → ids ≢ []
        → IsProof c ids oldest newest
        → (ranges : List CoverageRange) × (merge_range db.ranges
              (integer (coverage_span c oldest newest).0)
              (integer (coverage_span c oldest newest).1)
            ≡ some ranges)
          × (store_page canonical_checkin_at now page meta db c oldest newest
              ≡ ok (stored_page canonical_checkin_at now page meta db oldest ranges))
    unfolding store_page
    store_page_total ids rows proved =
        elim (Option-cases (
          merge_range db.ranges (integer (coverage_span c oldest newest).0)
            (integer (coverage_span c oldest newest).1))) [
              | inl e ↦ absurd (
                  (merge_range-eq-none_iff db.ranges (integer _) (integer _)).0 e
                    (coverage_span-ordered c ids oldest newest rows proved))
              | inr (ranges, e) ↦ (ranges, e, rw (e, store_page))
            ]
