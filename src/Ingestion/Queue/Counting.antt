-- ===== src/Ingestion/Queue/Counting.antt =====
-- packages/api/src/services/durable-refresh-queue.ts: the counts that a new request starts with.
use mathlib.Core.Option
use self_rss.Prelude.{
  ℕ, ◌+◌, ◌≡◌, refl, sym, ap, subst, ◌∙◌, false, some, List, [], ◌∷◌, ◌++◌, map, arith, ◌==◌,
  ==_refl, find, find-update_where, count, length, All, eq_of_some,
}
use self_rss.Prelude.Text.{Text}
use self_rss.Ingestion.Tables.{Job, Item, ItemStatus, item_is, Feed, Request, Source, Db}
use self_rss.Ingestion.Aggregate.{
  Counts, counts_of, count_items, status_of, progress_changed, is_request,
}
use self_rss.Ingestion.Queue.{QueueInput, Drawn, Queued}
use self_rss.Ingestion.Queue.Opening.{new_request}
use self_rss.Ingestion.Queue.Filling.{
  sources_for, new_item, settle_request, fill_request, queue_transaction,
}
use self_rss.Ingestion.Queue.Parts.{KeepsQueue, fill_request-Filled}
use self_rss.Ingestion.Queue.Once.{enqueue_sources-requests, settle-Keeps}
use self_rss.Ingestion.Queue.Waiting.{insert_items-append, transaction-fills, sources-items}

-- The items of another request are not counted.
count_items-append :
    (id : ℕ) (status : ItemStatus) (old rows : List Item)
    → All (λ i. (i.request_id == id) ≡ false) old
    → count_items id status (old ++ rows) ≡ count_items id status rows
unfolding count_items
count_items-append id status [] rows h = refl
count_items-append id status (i ∷ old) rows h =
    ground (arith, count_items-append id status old rows h.1)

counts_of-append :
    (id : ℕ) (old rows : List Item)
    → All (λ i. (i.request_id == id) ≡ false) old
    → counts_of id (old ++ rows) ≡ counts_of id rows
unfolding counts_of
counts_of-append id old rows h =
    rw
      (
        count_items-append id ItemStatus.pending old rows h,
        count_items-append id ItemStatus.running old rows h,
        count_items-append id ItemStatus.completed old rows h,
        count_items-append id ItemStatus.failed old rows h,
        count_items-append id ItemStatus.dead old rows h,
      )
      refl

module _ (to_iso : ℕ → Text) (input : QueueInput) (drawn : Drawn) (now : ℕ) where
  abbrev status_count : ItemStatus → List Item → ℕ
  status_count status rows = count (λ i. item_is i.status status) rows

  module _ (before : Db) (sources : List Source) (jobs : List Job) where
    abbrev rows_for : List Feed → List Item
    rows_for feeds = map (new_item to_iso input drawn now before sources jobs) feeds

    -- The new items are pending, completed or failed.
    rows-counts :
        (feeds : List Feed)
        → let c = counts_of drawn.request (rows_for feeds) in
          (c.pending ≡ status_count ItemStatus.pending (rows_for feeds))
          × (c.completed ≡ status_count ItemStatus.completed (rows_for feeds))
          × (c.failed ≡ status_count ItemStatus.failed (rows_for feeds))
          × (c.running ≡ 0)
          × (c.dead ≡ 0)
          × (c.pending + c.completed + c.failed ≡ length feeds)
    unfolding counts_of new_item
    rows-counts [] = (refl, refl, refl, refl, refl, refl)
    rows-counts (feed ∷ feeds) =
        let ih = rows-counts feeds in let own = ==_refl drawn.request in ground arith

  -- Settling the new request by its items leaves nothing for an aggregation to change.
  settle-unchanged :
      (rows : List Item) (c : Counts)
      → c.pending ≡ status_count ItemStatus.pending rows
      → c.completed ≡ status_count ItemStatus.completed rows
      → c.failed ≡ status_count ItemStatus.failed rows
      → c.running ≡ 0
      → c.dead ≡ 0
      → c.pending + c.completed + c.failed ≡ length input.selected_feeds
      → progress_changed
          (settle_request to_iso input drawn now rows (new_request input drawn.request now))
          c
        ≡ false
  unfolding settle_request new_request progress_changed status_of
  settle-unchanged rows c p k f r d n = ground arith

  -- The row of the new request after a fill.
  fills-counted :
      (keeps : KeepsQueue input) (opened : Db) (r : Db × Queued) (row : Request)
      → All (λ i. (i.request_id == drawn.request) ≡ false) opened.items
      → find (is_request drawn.request) opened.requests ≡ some (new_request input drawn.request now)
      → fill_request to_iso input drawn now opened ≡ some r
      → find (is_request drawn.request) r.0.requests ≡ some row
      → progress_changed row (counts_of drawn.request r.0.items) ≡ false
  fills-counted keeps opened r row fresh new h found =
      let p = fill_request-Filled to_iso input drawn now keeps opened r h in
      let sources = sources_for input p.before in
      let rows = rows_for p.before sources p.jobs input.selected_feeds in
      let settle = settle_request to_iso input drawn now rows in
      let old =
        subst (All (λ i. (i.request_id == drawn.request) ≡ false))
          (sym (
            sources-items to_iso input drawn now p.before sources p.before _ p.enqueued ∙ p.kept.1))
          fresh in
      let items : r.0.items ≡ p.queued.items ++ rows =
        ap (λ d. d.items) p.written
        ∙ insert_items-append to_iso input drawn now rows p.queued.items p.items p.put in
      let requests : p.queued.requests ≡ opened.requests =
        enqueue_sources-requests to_iso input drawn now p.before sources p.before _ p.enqueued
        ∙ p.kept.0 in
      let settled : find (is_request drawn.request) r.0.requests
          ≡ some (settle (new_request input drawn.request now)) =
        ap (λ d. find (is_request drawn.request) d.requests) p.written
        ∙ find-update_where (is_request drawn.request) settle
            (λ k. ap (λ i. i == drawn.request) (settle-Keeps to_iso input drawn now rows k).0)
            p.queued.requests
        ∙ ap (λ rs. Option.map settle (find (is_request drawn.request) rs)) requests
        ∙ ap (Option.map settle) new in
      let (a, b, c, d, e, f) = rows-counts p.before sources p.jobs input.selected_feeds in
      subst (λ k. progress_changed k (counts_of drawn.request r.0.items) ≡ false)
        (eq_of_some _ row (sym settled ∙ found))
        (subst (λ c. progress_changed (settle (new_request input drawn.request now)) c ≡ false)
          (sym (
            ap (counts_of drawn.request) items
            ∙ counts_of-append drawn.request p.queued.items rows old))
          (settle-unchanged rows (counts_of drawn.request rows) a b c d e f))

-- A new request starts with the progress that its items have: the status and the five counts of
-- the row that a transaction opens, and their total, are those that an aggregation counts from the
-- items. The call's `prepare` writes no request, item or job, and the identifier drawn for the
-- request is a new one: no item has it.
pub queue-counted :
    (to_iso : ℕ → Text) (input : QueueInput) (drawn : Drawn) (now : ℕ) (db : Db) (r : Db × Queued)
    (row : Request)
    → KeepsQueue input
    → All (λ i. (i.request_id == drawn.request) ≡ false) db.items
    → queue_transaction to_iso input drawn now db ≡ some r
    → r.1.already_queued ≡ false
    → find (is_request drawn.request) r.0.requests ≡ some row
    → progress_changed row (counts_of drawn.request r.0.items) ≡ false
queue-counted to_iso input drawn now db r row keeps fresh h new found =
    let (opened, same, created, filled) = transaction-fills to_iso input drawn now db r h new in
    fills-counted to_iso input drawn now keeps opened r row
      (subst (All (λ i. (i.request_id == drawn.request) ≡ false)) (sym same) fresh) created filled
      found
