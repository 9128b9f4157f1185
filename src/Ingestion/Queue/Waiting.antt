-- ===== src/Ingestion/Queue/Waiting.antt =====
-- packages/api/src/services/durable-refresh-queue.ts: what a transaction that opens a request leaves
-- in the tables.
use mathlib.Core.Option.{none-ne-some}
use mathlib.Core.List.{append-nil, append_assoc}
use self_rss.Ingestion.Aggregate.{is_request}
use self_rss.Prelude.{
  true, ==_refl, find-last, find-none, ℕ, ◌≡◌, refl, sym, ap, subst, ◌∙◌, inl, inr, false, ◌||◌,
  ◌&&◌, none, some, List, [], ◌∷◌, ◌++◌, map, arith, ◌==◌, same, if◌then◌else◌, find, any, All,
  Bool-cases, Option-cases, eq_of_some,
}
use self_rss.Prelude.Text.{Text}
use self_rss.Prelude.Rows.{All-Has, All-mono, All-append, All-map}
use self_rss.Ingestion.Tables.{Job, Item, Source, Db, is_active_request}
use self_rss.Ingestion.Queue.{
  is_truthy, is_any, QueueInput, Drawn, Queued, existing_result, enqueue_or_attach,
}
use self_rss.Ingestion.Queue.Opening.{
  new_request, Opened, open_request, open_keyed, insert_or_resolve, insert_request, release_key,
  request_conflicts, dedupe_mode, has_key, in_active_scope,
}
use self_rss.Ingestion.Queue.Filling.{
  sources_for, new_item, insert_items, fill_request, enqueue_sources, queue_transaction,
}
use self_rss.Ingestion.Queue.Frame.{enqueue_or_attach-cases, enqueue_sources-keeps}
use self_rss.Ingestion.Queue.Parts.{KeepsQueue, fill_request-Filled}
use self_rss.Ingestion.Queue.Backed.{sources-serve}
use self_rss.Ingestion.Queue.Attached.{Waits, new_item-Waits, sources_for-truthy}

module _ (input : QueueInput) (id now : ℕ) where
  -- Opening a request writes no item, and a request that it creates is the one with its identifier.
  abbrev KeepsItems : List Item → Opened → Type 0
  KeepsItems items (Opened.existing found _) = found.items ≡ items
  KeepsItems items (Opened.created opened) =
      (opened.items ≡ items)
      × (find (is_request id) opened.requests ≡ some (new_request input id now))
  KeepsItems items Opened.refused = Unit {0}

  new-is_request : is_request id (new_request input id now) ≡ true
  unfolding new_request
  new-is_request = ==_refl id

  insert_request-KeepsItems : (db : Db) → KeepsItems db.items (insert_request input id now db)
  unfolding insert_request
  insert_request-KeepsItems db = elim (Bool-cases (request_conflicts input id db.requests)) [
    | inl e ↦ rw (e, insert_request) tt
    | inr e ↦
        rw (e, insert_request)
          (
            refl,
            find-last (is_request id) db.requests (new_request input id now)
                (find-none (is_request id) db.requests (ground arith)) (new-is_request),
          )
  ]

  resolve-KeepsItems : (db : Db) → KeepsItems db.items (insert_or_resolve input id now db)
  unfolding insert_or_resolve release_key
  resolve-KeepsItems db = elim (Bool-cases (request_conflicts input id db.requests)) [
    | inr e ↦ rw (e, insert_or_resolve) (insert_request-KeepsItems db)
    | inl e ↦
        elim (Option-cases
          (if is_truthy input.idempotency_key then find (has_key input) db.requests else none)) [
            | inl f ↦ rw (e, insert_or_resolve) (rw f tt)
            | inr (r, f) ↦
                elim (Bool-cases (is_any (dedupe_mode input) || is_active_request r.status)) [
                  | inl g ↦ rw (e, insert_or_resolve) (rw f (rw g refl))
                  | inr g ↦
                      rw (e, insert_or_resolve)
                        (rw f (rw g (insert_request-KeepsItems (release_key r.id now db))))
                ]
          ]
  ]

  keyed-KeepsItems : (db : Db) → KeepsItems db.items (open_keyed input id now db)
  unfolding open_keyed release_key
  keyed-KeepsItems db = elim (Bool-cases (is_any (dedupe_mode input))) [
    | inl e ↦ rw (e, open_keyed) (resolve-KeepsItems db)
    | inr e ↦ elim (Option-cases (find (has_key input) db.requests)) [
      | inl f ↦ rw (e, open_keyed) (rw f (resolve-KeepsItems db))
      | inr (r, f) ↦ elim (Bool-cases (is_active_request r.status)) [
        | inl g ↦ rw (e, open_keyed) (rw f (rw g refl))
        | inr g ↦ rw (e, open_keyed) (rw f (rw g (resolve-KeepsItems (release_key r.id now db))))
      ]
    ]
  ]

  open_request-KeepsItems : (db : Db) → KeepsItems db.items (open_request input id now db)
  unfolding open_request
  open_request-KeepsItems db = elim (Bool-cases (is_truthy input.idempotency_key)) [
    | inl e ↦ rw (e, open_request) (keyed-KeepsItems db)
    | inr e ↦ elim (Option-cases (find (in_active_scope input) db.requests)) [
      | inl f ↦ rw (e, open_request) (rw f (resolve-KeepsItems db))
      | inr (r, f) ↦ rw (e, open_request) (rw f refl)
    ]
  ]

-- The loop over the sources writes no item.
enqueue-items :
    (id : ℕ) (source : Source) (priority now : ℕ) (db : Db) (q : Db × Job)
    → enqueue_or_attach id source priority now db ≡ some q
    → q.0.items ≡ db.items
enqueue-items id source priority now db q h =
    elim (enqueue_or_attach-cases id source priority now db q h) [
      | inl (_, e) ↦ ap (λ r. r.0.items) (sym e)
      | inr (_, _, e) ↦ ap (λ r. r.0.items) (sym e)
    ]

module _ (to_iso : ℕ → Text) (input : QueueInput) (drawn : Drawn) (now : ℕ) where
  pub sources-items :
      (before : Db) (sources : List Source) (db : Db) (r : Db × List Job)
      → enqueue_sources to_iso input drawn now before sources db ≡ some r
      → r.0.items ≡ db.items
  sources-items =
      enqueue_sources-keeps to_iso input drawn now (λ a b. b.items ≡ a.items) (λ _. refl)
        (λ a b c h k. k ∙ h) (λ id source db q h. enqueue-items id source 100 now db q h)

  pub insert_items-append :
      (rows items out : List Item)
      → insert_items to_iso input drawn now rows items ≡ some out
      → out ≡ items ++ rows
  unfolding insert_items
  insert_items-append [] items out h = sym (eq_of_some items out h) ∙ sym (append-nil items)
  insert_items-append (row ∷ rows) items out h =
      elim (Bool-cases (
        any (λ i. i.id == row.id || i.request_id == row.request_id && same i.feed_id row.feed_id)
          items)) [
            | inl e ↦ absurd (none-ne-some out (rw e at h))
            | inr e ↦
                insert_items-append rows (items ++ (row ∷ [])) out (rw e at h)
                ∙ append_assoc items (row ∷ []) rows
          ]

  -- A transaction that is answered by a new request has filled it.
  pub transaction-fills :
      (db : Db) (r : Db × Queued)
      → queue_transaction to_iso input drawn now db ≡ some r
      → r.1.already_queued ≡ false
      → (opened : Db) × (opened.items ≡ db.items)
        × (find (is_request drawn.request) opened.requests
            ≡ some (new_request input drawn.request now))
        × (fill_request to_iso input drawn now opened ≡ some r)
  unfolding queue_transaction existing_result
  transaction-fills db r h new = split (open_request input drawn.request now db) refl
    where
      answered : {found : Db} {id : ℕ} → (found, existing_result found id) ≡ r → ⊥
      answered e = let old = ap (λ r. r.1.already_queued) e in ground arith

      split :
          (o : Opened)
          → open_request input drawn.request now db ≡ o
          → (opened : Db) × (opened.items ≡ db.items)
            × (find (is_request drawn.request) opened.requests
                ≡ some (new_request input drawn.request now))
            × (fill_request to_iso input drawn now opened ≡ some r)
      split (Opened.existing found id) e = absurd (
          answered
            (eq_of_some (found, existing_result found id) r (rw (e, queue_transaction) at h)))
      split (Opened.created opened) e =
          let kept = rw e at (open_request-KeepsItems input drawn.request now db) in
          (opened, kept.0, kept.1, rw (e, queue_transaction) at h)
      split Opened.refused e = absurd (none-ne-some r (rw (e, queue_transaction) at h))

  -- The items after a transaction that opens a request.
  pub fills-Waits :
      (keeps : KeepsQueue input) (opened : Db) (r : Db × Queued)
      → All (λ i. (i.request_id == drawn.request) ≡ false) opened.items
      → fill_request to_iso input drawn now opened ≡ some r
      → All (λ i. i.request_id ≡ r.1.request_id → Waits r.0 i) r.0.items
  fills-Waits keeps opened r fresh h =
      let p = fill_request-Filled to_iso input drawn now keeps opened r h in
      let sources = sources_for input p.before in
      let (backed, served) =
        sources-serve to_iso input drawn now p.before sources p.before _ p.enqueued in
      let truthy = All-Has (λ s. (s.id == 0) ≡ false) sources (sources_for-truthy input p.before) in
      let old =
        subst (All (λ i. (i.request_id == drawn.request) ≡ false))
          (sym (sources-items p.before sources p.before _ p.enqueued ∙ p.kept.1)) fresh in
      let rows =
        map (new_item to_iso input drawn now p.before sources p.jobs) input.selected_feeds in
      let waiting = λ (db : Db) (i : Item). i.request_id ≡ drawn.request → Waits db i in
      let all : All (waiting p.queued) p.items =
        subst (All (waiting p.queued)) (sym (insert_items-append rows p.queued.items p.items p.put))
          (All-append (waiting p.queued) p.queued.items rows
            (All-mono (λ i other same. absurd (apart i other same)) p.queued.items old)
            (All-map (waiting p.queued) _
              (λ feed _.
                new_item-Waits to_iso input drawn now p.before p.queued sources p.jobs feed truthy
                  backed served)
              input.selected_feeds)) in
      subst (λ id. All (λ i. i.request_id ≡ id → Waits r.0 i) r.0.items)
        (ap (λ q. q.request_id) (sym p.answered))
        (subst (λ d. All (waiting d) d.items) (sym p.written) all)
    where
      apart :
          (i : Item) → (i.request_id == drawn.request) ≡ false → i.request_id ≡ drawn.request → ⊥
      apart i h k = ground arith

-- No item is forgotten. A transaction that opens a request leaves each pending item of it with the
-- identifier of an active job in the queue, which is for the item's own source. The call's
-- `prepare` writes no request, item or job, and the identifier drawn for the request is a new one:
-- no item has it.
pub queue-attaches :
    (to_iso : ℕ → Text) (input : QueueInput) (drawn : Drawn) (now : ℕ) (db : Db) (r : Db × Queued)
    → KeepsQueue input
    → All (λ i. (i.request_id == drawn.request) ≡ false) db.items
    → queue_transaction to_iso input drawn now db ≡ some r
    → r.1.already_queued ≡ false
    → All (λ i. i.request_id ≡ r.1.request_id → Waits r.0 i) r.0.items
queue-attaches to_iso input drawn now db r keeps fresh h new =
    let (opened, same, _, filled) = transaction-fills to_iso input drawn now db r h new in
    fills-Waits to_iso input drawn now keeps opened r
      (subst (All (λ i. (i.request_id == drawn.request) ≡ false)) (sym same) fresh) filled
