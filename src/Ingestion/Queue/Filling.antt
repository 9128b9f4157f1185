-- ===== src/Ingestion/Queue/Filling.antt =====
-- packages/api/src/services/durable-refresh-queue.ts: the second part of the transaction puts the
-- jobs into the queue, and one item for each feed into the new request.
use mathlib.Core.Option
use self_rss.Prelude.{
  Bool, not, ◌>>=◌, ℕ, false, ◌&&◌, ◌||◌, Option, none, some, List, [], ◌∷◌, ◌++◌, map, ltb, ◌==◌,
  if◌then◌else◌, is_some, ◌or◌, same, select, find, any, contains, count, update_where, distinct,
}
use self_rss.Prelude.Text.{Text, codes}
use self_rss.Ingestion.Tables.{
  Job, Item, ItemStatus, item_is, Request, RequestStatus, ScopeType, scope_is, Source, Feed, Db,
}
use self_rss.Ingestion.Queue.{
  is_truthy, present, QueueInput, Drawn, Deferral, manual_refresh_deferral, Queued, existing_result,
  is_any, enqueue_or_attach,
}
use self_rss.Ingestion.Queue.Opening.{Opened, open_request, has_key, dedupe_mode}

-- `feed.pendingSourceId ?? feed.sourceId`.
abbrev pub source_id_of : Feed → Option ℕ
source_id_of feed = feed.pending_source_id or feed.source_id

unfoldable pub sources_for : QueueInput → Db → List Source
sources_for input db =
    let source_ids = distinct (present (map source_id_of input.selected_feeds)) in
    select (λ s. contains s.id source_ids) db.sources

module _ (to_iso : ℕ → Text) (input : QueueInput) (drawn : Drawn) (now : ℕ) where
  -- The deferral of a source, which only a manual refresh asks for.
  unfoldable pub deferral_of : Db → Source → Option Deferral
  deferral_of db source =
      if scope_is input.scope_type ScopeType.manual
      then manual_refresh_deferral to_iso source (find (λ o. o.id == source.origin_id) db.origins)
          now
      else none

  -- One turn of the loop over the sources, with the deferrals as they were `before` it.
  unfoldable pub enqueue_source : Db → Source → Db → Option (Db × List Job)
  unfolding deferral_of
  enqueue_source before source db =
      if is_some (deferral_of before source)
      then some (db, [])
      else Option.map (λ (r : Db × Job). (r.0, r.1 ∷ []))
          (enqueue_or_attach (drawn.job source.id) source 100 now db)

  -- The loop. Its answer lists the jobs of the map `jobs`, each with its source.
  unfoldable pub enqueue_sources : Db → List Source → Db → Option (Db × List Job)
  unfolding enqueue_source
  enqueue_sources before [] db = some (db, [])
  enqueue_sources before (source ∷ rest) db = do
    (queued, job) ← enqueue_source before source db
    (done, jobs) ← enqueue_sources before rest queued
    some (done, job ++ jobs)

  -- `sourceById.get`, `deferralBySourceId.get` and `jobs.get` for the source of a feed.
  unfoldable pub item_source : List Source → Feed → Option Source
  item_source sources feed = elim (source_id_of feed) [
    | none ↦ none
    | some id ↦ find (λ s. s.id == id) sources
  ]

  unfoldable pub item_deferral : Db → List Source → Feed → Option Deferral
  unfolding deferral_of item_source
  item_deferral before sources feed = elim (item_source sources feed) [
    | none ↦ none
    | some s ↦ if is_truthy (source_id_of feed) then deferral_of before s else none
  ]

  unfoldable pub item_job : List Job → Feed → Option Job
  item_job jobs feed = elim (source_id_of feed) [
    | none ↦ none
    | some id ↦ if is_truthy (some id) then find (λ j. j.source_id == id) jobs else none
  ]

  abbrev pub item_status : Bool → Bool → ItemStatus
  item_status available deferred =
      if not available
      then ItemStatus.failed
      else if deferred
      then ItemStatus.completed
      else ItemStatus.pending

  -- The row that a feed inserts into `feed_refresh_request_items`.
  unfoldable pub new_item : Db → List Source → List Job → Feed → Item
  unfolding item_source item_deferral item_job
  new_item before sources jobs feed =
      let available = is_some (item_source sources feed) in
      let deferral = item_deferral before sources feed in
      record {
        id = drawn.item feed.id;
        request_id = drawn.request;
        feed_id = some feed.id;
        source_id = source_id_of feed;
        job_id = Option.map (λ j. j.id) (item_job jobs feed);
        status = item_status available (is_some deferral);
        last_error_code =
            if not available
            then some (codes "source_unavailable")
            else Option.map (λ d. d.code) deferral;
        last_error_details =
            if not available
            then some (codes "Feed has no source to refresh")
            else Option.map (λ d. d.details) deferral;
        created_at = now;
        updated_at = now;
        completed_at = if not available || is_some deferral then some now else none;
      }

  -- The unique indexes of `feed_refresh_request_items`; a violation throws.
  unfoldable pub insert_items : List Item → List Item → Option (List Item)
  insert_items [] items = some items
  insert_items (row ∷ rows) items =
      let next = insert_items rows (items ++ (row ∷ [])) in
      if any (λ i. i.id == row.id || i.request_id == row.request_id && same i.feed_id row.feed_id)
        items
      then none
      else next

  -- What the counts of the new items change in the new request.
  unfoldable pub settle_request : List Item → Request → Request
  settle_request rows r =
      let pending_items = count (λ i. item_is i.status ItemStatus.pending) rows in
      let completed_items = count (λ i. item_is i.status ItemStatus.completed) rows in
      let failed_items = count (λ i. item_is i.status ItemStatus.failed) rows in
      if ltb 0 completed_items || ltb 0 failed_items
      then record r {
        status =
            if ltb 0 pending_items
            then RequestStatus.pending
            else if ltb 0 failed_items
            then RequestStatus.completed_with_errors
            else RequestStatus.completed;
        pending_items = pending_items;
        completed_items = completed_items;
        failed_items = failed_items;
        started_at = some now;
        completed_at = if pending_items == 0 then some now else none;
        updated_at = now;
      }
      else r

  unfoldable pub fill_request : Db → Option (Db × Queued)
  unfolding enqueue_sources new_item insert_items settle_request
  fill_request opened = do
    before ← elim input.prepare [ none ↦ some opened | some prepare ↦ prepare now opened ]
    let sources = sources_for input before
    (queued, jobs) ← enqueue_sources before sources before
    let rows = map (new_item before sources jobs) input.selected_feeds
    items ← insert_items rows queued.items
    some (
      record queued {
        items = items;
        requests = update_where (λ r. r.id == drawn.request) (settle_request rows) queued.requests;
      },
      record { request_id = drawn.request; job_ids = map (λ j. j.id) jobs; already_queued = false },
    )

  -- The transaction; without an answer it throws and is rolled back.
  unfoldable pub queue_transaction : Db → Option (Db × Queued)
  unfolding fill_request
  queue_transaction db = elim (open_request input drawn.request now db) [
    | Opened.existing found request_id ↦ some (found, existing_result found request_id)
    | Opened.created opened ↦ fill_request opened
    | Opened.refused ↦ none
  ]

  -- `queueDurableRefresh`: a key that was used already is looked up before the transaction.
  unfoldable pub queue_durable_refresh : Db → Option (Db × Queued)
  unfolding queue_transaction
  queue_durable_refresh db =
      let found : Option Request =
        if is_truthy input.idempotency_key && is_any (dedupe_mode input)
        then find (has_key input) db.requests
        else none in
      elim found [ some r ↦ some (db, existing_result db r.id) | none ↦ queue_transaction db ]
