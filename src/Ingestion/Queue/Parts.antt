-- ===== src/Ingestion/Queue/Parts.antt =====
-- packages/api/src/services/durable-refresh-queue.ts: the parts of a transaction that succeeds.
use self_rss.Prelude.{
  ℕ, ◌≡◌, sym, ap, inl, inr, false, Option, none, some, List, map, >>=_some, ◌==◌, update_where,
  Option-cases, eq_of_some,
}
use self_rss.Prelude.Text.{Text}
use self_rss.Ingestion.Tables.{Job, Item, Db}
use self_rss.Ingestion.Queue.{QueueInput, Drawn, Queued}
use self_rss.Ingestion.Queue.Filling.{
  enqueue_sources, sources_for, new_item, insert_items, settle_request, fill_request,
}

-- What the callers' `prepare` keeps: it writes the feeds and their articles only.
abbrev pub KeepsQueue : QueueInput → Type 0
KeepsQueue input =
    (prepare : ℕ → Db → Option Db)
    → input.prepare ≡ some prepare
    → (now : ℕ) (db after : Db) → prepare now db ≡ some after
    → (after.requests ≡ db.requests) × (after.items ≡ db.items) × (after.jobs ≡ db.jobs)

module _ (to_iso : ℕ → Text) (input : QueueInput) (drawn : Drawn) (now : ℕ) where
  abbrev pub prepared : Db → Option Db
  prepared opened = elim input.prepare [ none ↦ some opened | some prepare ↦ prepare now opened ]

  prepared-keeps :
      KeepsQueue input
      → (opened before : Db) → prepared opened ≡ some before
      → (before.requests ≡ opened.requests)
        × (before.items ≡ opened.items)
        × (before.jobs ≡ opened.jobs)
  prepared-keeps keeps opened before h = elim (Option-cases input.prepare) [
    | inl e ↦
        let same : opened ≡ before = eq_of_some _ _ (rw e at h) in
        (ap (λ d. d.requests) (sym same), ap (λ d. d.items) (sym same), ap (λ d. d.jobs) (sym same))
    | inr (prepare, e) ↦ keeps prepare e now opened before (rw e at h)
  ]

  -- The parts of a fill that succeeds.
  pub record Filled (opened : Db) (after : Db) (q : Queued) : Type 0 where
    pub before : Db
    pub queued : Db
    pub jobs : List Job
    pub items : List Item
    pub kept :
        (before.requests ≡ opened.requests)
        × (before.items ≡ opened.items)
        × (before.jobs ≡ opened.jobs)
    pub enqueued :
        enqueue_sources to_iso input drawn now before (sources_for input before) before
        ≡ some (queued, jobs)
    pub put :
        insert_items to_iso input drawn now
          (map
            (new_item to_iso input drawn now before (sources_for input before) jobs)
            input.selected_feeds)
          queued.items
        ≡ some items
    pub written : after ≡ record queued {
      items = items;
      requests =
          update_where
            (λ r. r.id == drawn.request)
            (settle_request to_iso input drawn now (
              map
                (new_item to_iso input drawn now before (sources_for input before) jobs)
                input.selected_feeds))
            queued.requests;
    }
    pub answered : q ≡ record {
      request_id = drawn.request;
      job_ids = map (λ j. j.id) jobs;
      already_queued = false;
    }

  pub fill_request-Filled :
      KeepsQueue input
      → (opened : Db) (r : Db × Queued) → fill_request to_iso input drawn now opened ≡ some r
      → Filled opened r.0 r.1
  unfolding fill_request
  fill_request-Filled keeps opened r h =
      let (before, e, h1) = >>=_some (prepared opened) _ h in
      let (qj, f, h2) =
        >>=_some (enqueue_sources to_iso input drawn now before (sources_for input before) before) _
          h1 in
      let (items, g, h3) =
        >>=_some
          (insert_items to_iso input drawn now
            (map (new_item to_iso input drawn now before (sources_for input before) qj.1)
              input.selected_feeds)
            qj.0.items)
          _ h2 in
      record {
        before = before;
        queued = qj.0;
        jobs = qj.1;
        items = items;
        kept = prepared-keeps keeps opened before e;
        enqueued = f;
        put = g;
        written = ap (λ r. r.0) (sym (eq_of_some _ r h3));
        answered = ap (λ r. r.1) (sym (eq_of_some _ r h3));
      }
