-- ===== src/Ingestion/Queue/Once.antt =====
-- packages/api/src/services/durable-refresh-queue.ts: an idempotency key opens one request.
use mathlib.Core.Option
use mathlib.Core.Option.{none-ne-some}
use mathlib.Core.Path.{ap₂}
use self_rss.Prelude.{
  if◌then◌else◌, find-update_other, ℕ, ◌≡◌, refl, sym, ap, subst, ◌∙◌, inl, inr, Bool, true, false,
  ◌&&◌, Option, none, some, List, [], ◌∷◌, ◌++◌, map, arith, ◌==◌, ==_refl, find, Bool-cases,
  Option-cases, eq_of_some, is_eq, find-any, find-last, if-both,
}
use self_rss.Prelude.Text.{Text}
use self_rss.Ingestion.Tables.{Job, Item, Request, Source, Db}
use self_rss.Ingestion.Queue.{
  is_truthy, is_any, QueueInput, Drawn, Queued, existing_result, enqueue_or_attach,
}
use self_rss.Ingestion.Queue.Opening.{
  Opened, open_request, open_keyed, insert_or_resolve, insert_request, has_key, dedupe_mode,
  new_request, request_conflicts,
}
use self_rss.Ingestion.Queue.Filling.{
  enqueue_sources, sources_for, new_item, settle_request, fill_request, queue_transaction,
  queue_durable_refresh,
}
use self_rss.Ingestion.Queue.Frame.{enqueue_or_attach-cases, enqueue_sources-keeps}
use self_rss.Ingestion.Queue.Parts.{KeepsQueue, fill_request-Filled}

-- The loop over the sources writes no request.
enqueue-requests :
    (id : ℕ) (source : Source) (priority now : ℕ) (db : Db) (q : Db × Job)
    → enqueue_or_attach id source priority now db ≡ some q
    → q.0.requests ≡ db.requests
enqueue-requests id source priority now db q h =
    elim (enqueue_or_attach-cases id source priority now db q h) [
      | inl (_, e) ↦ ap (λ r. r.0.requests) (sym e)
      | inr (_, _, e) ↦ ap (λ r. r.0.requests) (sym e)
    ]

pub enqueue_sources-requests :
    (to_iso : ℕ → Text) (input : QueueInput) (drawn : Drawn) (now : ℕ) (before : Db)
    (sources : List Source) (db : Db) (r : Db × List Job)
    → enqueue_sources to_iso input drawn now before sources db ≡ some r
    → r.0.requests ≡ db.requests
enqueue_sources-requests to_iso input drawn now =
    enqueue_sources-keeps to_iso input drawn now (λ a b. b.requests ≡ a.requests) (λ _. refl)
      (λ a b c h k. k ∙ h) (λ id source db q h. enqueue-requests id source 100 now db q h)

own_key :
    (user : ℕ) (k own : Option ℕ)
    → is_truthy k ≡ true
    → own ≡ k
    → (user == user && elim k [ none ↦ false | some key ↦ is_eq own key ]) ≡ true
own_key user none own h e = cc
own_key user (some key) own h e = rw (e, ==_refl user, ==_refl key) refl

same_key :
    (input again : QueueInput)
    → again.user_id ≡ input.user_id
    → again.idempotency_key ≡ input.idempotency_key
    → has_key again ≡ has_key input
same_key input again user key =
    ap₂ {C = Request → Bool}
      (λ (u : ℕ) (k : Option ℕ) (r : Request).
        r.user_id == u && elim k [ none ↦ false | some key ↦ is_eq r.idempotency_key key ])
      user key

module _ (to_iso : ℕ → Text) (input : QueueInput) (drawn : Drawn) (now : ℕ) where
  -- The identity of a request, which settling it keeps.
  abbrev Keeps : Request → Request → Type 0
  Keeps r r' = (r'.id ≡ r.id) × (r'.user_id ≡ r.user_id) × (r'.idempotency_key ≡ r.idempotency_key)

  pub settle-Keeps :
      (rows : List Item) (r : Request) → Keeps r (settle_request to_iso input drawn now rows r)
  unfolding settle_request
  settle-Keeps rows r = if-both (Keeps r) _ _ r (refl, refl, refl) (refl, refl, refl)

  settle-has_key :
      (rows : List Item) (r : Request)
      → has_key input (settle_request to_iso input drawn now rows r) ≡ has_key input r
  settle-has_key rows r =
      let (_, user, key) = settle-Keeps rows r in
      ap₂
        (λ u k.
          u == input.user_id
          && elim input.idempotency_key [ none ↦ false | some key ↦ is_eq k key ])
        user key

  conflicts :
      (id : ℕ) (db : Db) (r : Request)
      → find (has_key input) db.requests ≡ some r
      → request_conflicts input id db.requests ≡ true
  conflicts id db r f = let taken = find-any (has_key input) db.requests f in ground arith

  open-existing :
      (db : Db) (r : Request)
      → is_truthy input.idempotency_key ≡ true
      → is_any (dedupe_mode input) ≡ true
      → find (has_key input) db.requests ≡ some r
      → open_request input drawn.request now db ≡ Opened.existing db r.id
  unfolding open_request open_keyed insert_or_resolve
  open-existing db r k m f =
      rw (k, open_request)
        (rw (m, open_keyed)
          (rw (conflicts drawn.request db r f, insert_or_resolve) (rw (f, m) refl)))

  -- The transaction of a call whose key is used already.
  transaction-existing :
      (db : Db) (r : Request)
      → is_truthy input.idempotency_key ≡ true
      → is_any (dedupe_mode input) ≡ true
      → find (has_key input) db.requests ≡ some r
      → queue_transaction to_iso input drawn now db ≡ some (db, existing_result db r.id)
  unfolding queue_transaction
  transaction-existing db r k m f = rw (open-existing db r k m f, queue_transaction) refl

  call-existing :
      (db : Db) (r : Request)
      → is_truthy input.idempotency_key ≡ true
      → is_any (dedupe_mode input) ≡ true
      → find (has_key input) db.requests ≡ some r
      → queue_durable_refresh to_iso input drawn now db ≡ some (db, existing_result db r.id)
  unfolding queue_durable_refresh
  call-existing db r k m f =
      rw (k, queue_durable_refresh)
        (rw (m, queue_durable_refresh) (rw (f, queue_durable_refresh) refl))

  open-refused :
      (db : Db)
      → is_truthy input.idempotency_key ≡ true
      → is_any (dedupe_mode input) ≡ true
      → find (has_key input) db.requests ≡ none
      → request_conflicts input drawn.request db.requests ≡ true
      → open_request input drawn.request now db ≡ Opened.refused
  unfolding open_request open_keyed insert_or_resolve
  open-refused db k m f e =
      rw (k, open_request) (rw (m, open_keyed) (rw (e, insert_or_resolve) (rw f refl)))

  open-created :
      (db : Db)
      → is_truthy input.idempotency_key ≡ true
      → is_any (dedupe_mode input) ≡ true
      → request_conflicts input drawn.request db.requests ≡ false
      → open_request input drawn.request now db
        ≡ Opened.created
            (record db { requests = db.requests ++ (new_request input drawn.request now ∷ []) })
  unfolding open_request open_keyed insert_or_resolve insert_request
  open-created db k m e = rw (k, open_request) (rw (m, open_keyed) (rw (e, insert_or_resolve) refl))

  call-new :
      (db : Db)
      → is_truthy input.idempotency_key ≡ true
      → is_any (dedupe_mode input) ≡ true
      → find (has_key input) db.requests ≡ none
      → queue_durable_refresh to_iso input drawn now db
        ≡ queue_transaction to_iso input drawn now db
  unfolding queue_durable_refresh
  call-new db k m f =
      rw (k, queue_durable_refresh)
        (rw (m, queue_durable_refresh) (rw (f, queue_durable_refresh) refl))

  -- Where the key is unused, the transaction opens a request or throws.
  transaction-new :
      (db : Db) (r : Db × Queued)
      → is_truthy input.idempotency_key ≡ true
      → is_any (dedupe_mode input) ≡ true
      → find (has_key input) db.requests ≡ none
      → queue_transaction to_iso input drawn now db ≡ some r
      → fill_request to_iso input drawn now
          (record db { requests = db.requests ++ (new_request input drawn.request now ∷ []) })
        ≡ some r
  unfolding queue_transaction
  transaction-new db r k m f h =
      elim (Bool-cases (request_conflicts input drawn.request db.requests)) [
        | inl e ↦ absurd (none-ne-some r (rw (open-refused db k m f e, queue_transaction) at h))
        | inr e ↦ rw (open-created db k m e, queue_transaction) at h
      ]

  has_key-new :
      is_truthy input.idempotency_key ≡ true
      → has_key input (new_request input drawn.request now) ≡ true
  unfolding new_request
  has_key-new k = own_key input.user_id input.idempotency_key input.idempotency_key k refl

  -- What the new request becomes when the items are counted.
  abbrev settled : List Item → Request → Request
  settled rows row =
      if row.id == drawn.request then settle_request to_iso input drawn now rows row else row

  settled-id :
      (rows : List Item) → (settled rows (new_request input drawn.request now)).id ≡ drawn.request
  unfolding new_request
  settled-id rows =
      let new = new_request input drawn.request now in
      if-both (λ r. r.id ≡ drawn.request) (new.id == drawn.request)
        (settle_request to_iso input drawn now rows new) new (settle-Keeps rows new).0 refl

  -- A new request can be found by its key.
  new-found :
      KeepsQueue input
      → (db : Db) (r : Db × Queued) → is_truthy input.idempotency_key ≡ true
      → find (has_key input) db.requests ≡ none
      → fill_request to_iso input drawn now
          (record db { requests = db.requests ++ (new_request input drawn.request now ∷ []) })
        ≡ some r
      → (row : Request) × (find (has_key input) r.0.requests ≡ some row) × (row.id ≡ r.1.request_id)
  new-found keeps db r k f h =
      let new = new_request input drawn.request now in
      let p =
        fill_request-Filled to_iso input drawn now keeps
          (record db { requests = db.requests ++ (new ∷ []) }) r h in
      let sources = sources_for input p.before in
      let rows =
        map (new_item to_iso input drawn now p.before sources p.jobs) input.selected_feeds in
      let kept =
        enqueue_sources-requests to_iso input drawn now p.before sources p.before _ p.enqueued
        ∙ p.kept.0 in
      (
        settled rows new,
        ap (λ d. find (has_key input) d.requests) p.written
            ∙ find-update_other (has_key input) (λ r. r.id == drawn.request) _ (settle-has_key rows)
                p.queued.requests
            ∙ ap (λ rs. Option.map (settled rows) (find (has_key input) rs)) kept
            ∙ ap (Option.map (settled rows))
                (find-last (has_key input) db.requests new f (has_key-new k)),
        settled-id rows ∙ ap (λ q. q.request_id) (sym p.answered),
      )

  -- Every call that succeeds leaves a request under its key: the one that it answers.
  call-found :
      KeepsQueue input
      → (db : Db) (r : Db × Queued) → is_truthy input.idempotency_key ≡ true
      → is_any (dedupe_mode input) ≡ true
      → queue_durable_refresh to_iso input drawn now db ≡ some r
      → (row : Request) × (find (has_key input) r.0.requests ≡ some row) × (row.id ≡ r.1.request_id)
  unfolding existing_result
  call-found keeps db r k m h = elim (Option-cases (find (has_key input) db.requests)) [
    | inr (row, f) ↦
        subst
          (λ r.
            (row : Request) × (find (has_key input) r.0.requests ≡ some row)
            × (row.id ≡ r.1.request_id))
          (eq_of_some _ r (sym (call-existing db row k m f) ∙ h)) (row, f, refl)
    | inl f ↦ new-found keeps db r k f (transaction-new db r k m f (sym (call-new db k m f) ∙ h))
  ]

-- One key of a user opens one request. After a call that succeeds, with an idempotency key that is
-- not empty and in the mode where any earlier request answers, a call of the same user with that
-- key and in that mode, which finds the database as the first one left it, is answered with the
-- request of the first one and writes nothing, whatever feeds it selects and whenever it comes;
-- and so is its transaction alone, as it runs when the first call is committed after the look for
-- the key. The first call's `prepare` writes no request, item or job.
pub queue-once :
    (to_iso : ℕ → Text) (input again : QueueInput) (drawn drawn' : Drawn) (now later : ℕ) (db : Db)
    (r : Db × Queued)
    → KeepsQueue input
    → is_truthy input.idempotency_key ≡ true
    → is_any (dedupe_mode input) ≡ true
    → queue_durable_refresh to_iso input drawn now db ≡ some r
    → again.user_id ≡ input.user_id
    → again.idempotency_key ≡ input.idempotency_key
    → is_any (dedupe_mode again) ≡ true
    → (queue_durable_refresh to_iso again drawn' later r.0
        ≡ some (r.0, existing_result r.0 r.1.request_id))
      × (queue_transaction to_iso again drawn' later r.0
          ≡ some (r.0, existing_result r.0 r.1.request_id))
queue-once to_iso input again drawn drawn' now later db r keeps k m h user key m' =
    let (row, found, id) = call-found to_iso input drawn now keeps db r k m h in
    let found' : find (has_key again) r.0.requests ≡ some row =
      rw (same_key input again user key) found in
    let k' : is_truthy again.idempotency_key ≡ true = rw key k in
    rw (← id) (
      call-existing to_iso again drawn' later r.0 row k' m' found',
      transaction-existing to_iso again drawn' later r.0 row k' m' found',
    )
