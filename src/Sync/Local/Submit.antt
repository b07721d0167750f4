-- ===== src/Sync/Local/Submit.antt =====
-- The whole of `submit_page`: what comes back on every branch, and what it does to the database.
use Prim.Native.String.{String}
use warsaw_beer_bot.Base.{
  ℕ, ◌<◌, ◌≡◌, ◌≢◌, refl, ap, ◌∙◌, inl, inr, Option, none, some, List, ◌==◌, Bool-cases, arith,
  ==_refl,
}
use warsaw_beer_bot.Base.Decimal.{Text, decimal}
use warsaw_beer_bot.Sync.Coverage.{CoverageRange, integer, merge_range}
use warsaw_beer_bot.Sync.Coverage.Disjoint.{IsCoverage}
use warsaw_beer_bot.Sync.Guards.{
  CheckinFeedPage, PageVerdict, accept, empty, refuse, no_session, bad_cursor, check_page,
  coverage_span,
}
use warsaw_beer_bot.Sync.Guards.Verdicts.{check_page-accept}
use warsaw_beer_bot.Sync.Conclude.{conclude}
use warsaw_beer_bot.Sync.Conclude.Descent.{conclude_descends}
use warsaw_beer_bot.Sync.Local.{
  LocalDb, LocalMeta, Feed, feed_page, block_page, ApiError, thrown, account_changed,
  session_missing, page_rejected, PageResult, Result, ok, err, in_page_tx, stored_page, store_page,
  empty_page, judged, work_with, page_work, submit_page,
}
use warsaw_beer_bot.Sync.Local.Pages.{IsStored, IsStored-stored_page, store_page_total}

module _ (canonical_checkin_at : String → String) (now : String) (page : CheckinFeedPage)
    (max_id : Option Text) (db : LocalDb) where
  -- How the work on a page can end: an error of the protocol, an empty page, a stored page.
  pub data Ends : Result (LocalDb × PageResult) → Type 0 where
    refused : (e : ApiError) → e ≢ thrown → Ends (err e)
    was_empty : (meta : LocalMeta) → Ends (ok (db, empty_page page meta db))
    was_stored :
        (meta : LocalMeta) (c : Option ℕ) (ids : List ℕ) (oldest newest : ℕ)
        (ranges : List CoverageRange)
        → check_page page max_id meta.oldest_id ≡ accept c ids oldest newest
        → merge_range db.ranges
            (integer (coverage_span c oldest newest).0)
            (integer (coverage_span c oldest newest).1)
          ≡ some ranges
        → Ends (ok (stored_page canonical_checkin_at now page meta db oldest ranges))

  judged-Ends :
      (meta : LocalMeta) (verdict : PageVerdict)
      → check_page page max_id meta.oldest_id ≡ verdict
      → Ends (judged canonical_checkin_at now page meta db verdict)
  unfolding judged
  judged-Ends meta (refuse status no_session reason) e = refused session_missing (cc)
  judged-Ends meta (refuse status bad_cursor reason) e = refused (page_rejected reason) (cc)
  judged-Ends meta empty e = was_empty meta
  judged-Ends meta (accept c ids oldest newest) e =
      let (read, same, rows, proved) =
        check_page-accept page max_id meta.oldest_id c ids oldest newest e in
      let (ranges, merged, stored) =
        store_page_total canonical_checkin_at now page meta db c oldest newest ids rows proved in
      rw stored (was_stored meta c ids oldest newest ranges e merged)

  work_with-Ends :
      (link_revision : ℕ) (meta : Option LocalMeta)
      → Ends (work_with canonical_checkin_at now page max_id link_revision db meta)
  unfolding work_with
  work_with-Ends link_revision none = refused account_changed (cc)
  work_with-Ends link_revision (some meta) = elim (Bool-cases (meta.generation == link_revision)) [
    | inl f ↦ rw f (judged-Ends meta _ refl)
    | inr f ↦ rw f (refused account_changed (cc))
  ]

  -- The work never throws anything but an error of the protocol.
  pub page_work-Ends :
      (link_revision : ℕ) → Ends (page_work canonical_checkin_at now page max_id link_revision db)
  unfolding page_work
  page_work-Ends link_revision = work_with-Ends link_revision db.meta

module _ (canonical_checkin_at : String → String) (now : String) where
  -- A page that is refused leaves the database as it was, and what is refused is one of the
  -- protocol's errors: no page makes the work throw.
  pub submit_page_error :
      (feed : Feed) (max_id : Option Text) (link_revision : ℕ) (db : LocalDb) (e : ApiError)
      → (submit_page canonical_checkin_at now feed max_id link_revision db).1 ≡ err e
      → ((submit_page canonical_checkin_at now feed max_id link_revision db).0 ≡ db) × (e ≢ thrown)
  unfolding submit_page
  submit_page_error block_page max_id link_revision db e h = (refl, cc)
  submit_page_error (feed_page page) max_id link_revision db e h =
      go (page_work canonical_checkin_at now page max_id link_revision db)
        (page_work-Ends canonical_checkin_at now page max_id db link_revision) h
    where
      go :
          (r : Result (LocalDb × PageResult))
          → Ends canonical_checkin_at now page max_id db r
          → (in_page_tx (λ _. r) db).1 ≡ err e
          → ((in_page_tx (λ _. r) db).0 ≡ db) × (e ≢ thrown)
      go _ (refused f allowed) k = (refl, ground arith)
      go _ (was_empty meta) k = cc
      go _ (was_stored meta c ids oldest newest ranges a m) k = cc

  -- Whatever is submitted, the coverage of the database stays in its normal form.
  pub submit_page-IsCoverage :
      (feed : Feed) (max_id : Option Text) (link_revision : ℕ) (db : LocalDb)
      → IsCoverage db.ranges
      → IsCoverage (submit_page canonical_checkin_at now feed max_id link_revision db).0.ranges
  unfolding submit_page
  submit_page-IsCoverage block_page max_id link_revision db h = h
  submit_page-IsCoverage (feed_page page) max_id link_revision db h =
      go (page_work canonical_checkin_at now page max_id link_revision db)
        (page_work-Ends canonical_checkin_at now page max_id db link_revision)
    where
      go :
          (r : Result (LocalDb × PageResult))
          → Ends canonical_checkin_at now page max_id db r
          → IsCoverage (in_page_tx (λ _. r) db).0.ranges
      go _ (refused f allowed) = h
      go _ (was_empty meta) = h
      go _ (was_stored meta c ids oldest newest ranges a m) =
          (IsStored-stored_page canonical_checkin_at now page meta db c oldest newest ranges
              m).coverage
            h

  -- The next cursor of an answer to a page asked for with a cursor is a number below that cursor.
  pub submit_page_descends :
      (feed : Feed) (max_id : Text) (link_revision : ℕ) (db : LocalDb) (result : PageResult)
      (next : Text)
      → (submit_page canonical_checkin_at now feed (some max_id) link_revision db).1 ≡ ok result
      → result.next_cursor ≡ some next
      → (n : ℕ) × (m : ℕ) × (decimal max_id ≡ some n) × (decimal next ≡ some m) × (m < n)
  unfolding submit_page empty_page
  submit_page_descends block_page max_id link_revision db result next h k = cc
  submit_page_descends (feed_page page) max_id link_revision db result next h k =
      go (page_work canonical_checkin_at now page (some max_id) link_revision db)
        (page_work-Ends canonical_checkin_at now page (some max_id) db link_revision) h
    where
      below :
          (meta : LocalMeta) (c : Option ℕ) (ids : List ℕ) (oldest newest count : ℕ)
          (total : Option ℕ) (ranges : List CoverageRange)
          → check_page page (some max_id) meta.oldest_id ≡ accept c ids oldest newest
          → (conclude count total ranges oldest).next_cursor ≡ some next
          → (n : ℕ) × (m : ℕ) × (decimal max_id ≡ some n) × (decimal next ≡ some m) × (m < n)
      below meta c ids oldest newest count total ranges a e =
          let (n, read, positive, same) =
            (check_page-accept page (some max_id) meta.oldest_id c ids oldest newest a).0 in
          let (m, reads, less) =
            conclude_descends page max_id meta.oldest_id n ids oldest newest count total ranges next
              (cc) e in
          (n, m, read, reads, less)

      go :
          (r : Result (LocalDb × PageResult))
          → Ends canonical_checkin_at now page (some max_id) db r
          → (in_page_tx (λ _. r) db).1 ≡ ok result
          → (n : ℕ) × (m : ℕ) × (decimal max_id ≡ some n) × (decimal next ≡ some m) × (m < n)
      go _ (refused f allowed) e = cc
      go _ (was_empty meta) e =
          let same : empty_page page meta db ≡ result = cc in
          let bottom : none ≡ some next = ap (λ r. r.next_cursor) same ∙ k in cc
      go _ (was_stored meta c ids oldest newest ranges a m) e =
          let same : (stored_page canonical_checkin_at now page meta db oldest ranges).1 ≡ result =
            cc in
          below meta c ids oldest newest _ _ ranges a (ap (λ r. r.next_cursor) same ∙ k)

  -- A page of the database's generation that `check_page` accepts is stored: the call succeeds, and
  -- coverage, rows and counts are those of the page and of what was there.
  pub submit_page-accepted :
      (page : CheckinFeedPage) (max_id : Option Text) (db : LocalDb) (meta : LocalMeta)
      (c : Option ℕ) (ids : List ℕ) (oldest newest : ℕ)
      → db.meta ≡ some meta
      → check_page page max_id meta.oldest_id ≡ accept c ids oldest newest
      → (after : LocalDb) × (result : PageResult) × (submit_page canonical_checkin_at now
            (feed_page page)
            max_id
            meta.generation
            db
          ≡ (after, ok result))
        × IsStored canonical_checkin_at page db after result
            (coverage_span c oldest newest).0
            (coverage_span c oldest newest).1
  unfolding submit_page page_work
  submit_page-accepted page max_id db meta c ids oldest newest h a =
      let (read, same, rows, proved) =
        check_page-accept page max_id meta.oldest_id c ids oldest newest a in
      let (ranges, merged, stored) =
        store_page_total canonical_checkin_at now page meta db c oldest newest ids rows proved in
      (
        (stored_page canonical_checkin_at now page meta db oldest ranges).0,
        (stored_page canonical_checkin_at now page meta db oldest ranges).1,
        ap (λ r. in_page_tx (λ _. r) db)
            (ap (work_with canonical_checkin_at now page max_id meta.generation db) h
              ∙ worked
              ∙ stored),
        IsStored-stored_page canonical_checkin_at now page meta db c oldest newest ranges merged,
      )
    where
      worked :
          work_with canonical_checkin_at now page max_id meta.generation db (some meta)
          ≡ store_page canonical_checkin_at now page meta db c oldest newest
      worked = rw (==_refl meta.generation, a)
