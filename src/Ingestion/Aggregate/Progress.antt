-- ===== src/Ingestion/Aggregate/Progress.antt =====
-- packages/api/src/repositories/refresh-request-aggregation.ts: what the counts and the status of a
-- request say of its items.
use mathlib.Core.Option
use mathlib.Core.Option.{none-ne-some}
use mathlib.Core.Path.{ap₂}
use self_rss.Prelude.{
  eq_of_some, ap, subst, ℕ, ◌+◌, ◌≡◌, refl, inl, inr, Bool, true, false, not, ◌&&◌, none, some,
  List, [], ◌∷◌, arith, ltb, ◌==◌, ==_refl, is_some, count, find, any, update_where, Option-cases,
  find-update_where, update_where_again, any-count, sym, ◌∙◌,
}
use self_rss.Ingestion.Tables.{
  is_active_item, Item, RequestStatus, request_is, is_active_request, Request, Db,
}
use self_rss.Ingestion.Aggregate.{
  Counts, counts_of, total_of, status_of, progress_changed, aggregated, is_request,
  aggregate_refresh_request,
}

-- The items of a request.
abbrev pub of_request : ℕ → Item → Bool
of_request request_id i = i.request_id == request_id

-- Every item is counted once.
pub total_of-counts_of :
    (request_id : ℕ) (items : List Item)
    → total_of (counts_of request_id items) ≡ count (of_request request_id) items
unfolding counts_of
total_of-counts_of request_id [] = refl
total_of-counts_of request_id (i ∷ items) = ground (arith, total_of-counts_of request_id items)

pub active-counts_of :
    (request_id : ℕ) (items : List Item)
    → let c = counts_of request_id items in
      c.pending + c.running ≡ count (λ i. of_request request_id i && is_active_item i.status) items
unfolding counts_of
active-counts_of request_id [] = refl
active-counts_of request_id (i ∷ items) = ground (arith, active-counts_of request_id items)

-- The status after an aggregation.
pub status_of-active :
    (c : Counts) → is_active_request (status_of c) ≡ ltb 0 (c.pending + c.running)
unfolding status_of
status_of-active c = ground arith

request_is_refl : (s : RequestStatus) → request_is s s ≡ true
request_is_refl RequestStatus.pending = refl
request_is_refl RequestStatus.running = refl
request_is_refl RequestStatus.completed = refl
request_is_refl RequestStatus.completed_with_errors = refl

aggregated-unchanged :
    (c : Counts) (now : ℕ) (r : Request) → progress_changed (aggregated c now r r) c ≡ false
unfolding progress_changed aggregated
aggregated-unchanged c now r =
    rw (request_is_refl (status_of c)) (ground (arith, ==_refl (total_of c)))

-- A second update by the same counts changes nothing, whenever it is made.
aggregated_fixed :
    (c : Counts) (now later : ℕ) (r row : Request)
    → aggregated c later (aggregated c now r r) (aggregated c now r row) ≡ aggregated c now r row
unfolding aggregated
aggregated_fixed c now later r row = rw (aggregated-unchanged c now r) (ground arith)

pub is_request-aggregated :
    (request_id now : ℕ) (c : Counts) (r row : Request)
    → is_request request_id (aggregated c now r row) ≡ is_request request_id row
unfolding aggregated
is_request-aggregated request_id now c r row = refl

-- The item is one of the request's, and is not finished.
abbrev pub is_open_item : ℕ → Item → Bool
is_open_item request_id i = of_request request_id i && is_active_item i.status

module _ (request_id now : ℕ) (db : Db) where
  pub aggregate-none :
      find (is_request request_id) db.requests ≡ none
      → aggregate_refresh_request request_id now db ≡ (db, none)
  unfolding aggregate_refresh_request
  aggregate-none e = rw (e, aggregate_refresh_request) refl

  module _ {current : Request} (e : find (is_request request_id) db.requests ≡ some current) where
    abbrev written : Request → Request
    written = aggregated (counts_of request_id db.items) now current

    pub aggregate-some : aggregate_refresh_request request_id now db ≡ (
      record db { requests = update_where (is_request request_id) written db.requests },
      some (written current),
    )
    unfolding aggregate_refresh_request
    aggregate-some = rw (e, aggregate_refresh_request) refl

-- What an aggregation promises of the row that it returns.
abbrev pub Progress : ℕ → List Item → Request → Type 0
Progress request_id items r =
    (r.total_items ≡ count (of_request request_id) items)
    × (r.pending_items + r.running_items + r.completed_items + r.failed_items + r.dead_items
        ≡ r.total_items)
    × (is_active_request r.status ≡ any (is_open_item request_id) items)
    × (is_some r.completed_at ≡ not (any (is_open_item request_id) items))

pub aggregated-Progress :
    (request_id now : ℕ) (items : List Item) (current : Request)
    → Progress request_id items (aggregated (counts_of request_id items) now current current)
unfolding aggregated
aggregated-Progress request_id now items current =
    let c : Counts = counts_of request_id items in
    let open_items =
      any-count (is_open_item request_id) items
      ∙ ap (ltb 0) (sym (active-counts_of request_id items)) in
    (
      total_of-counts_of request_id items,
      refl,
      status_of-active c ∙ sym open_items,
      rw open_items (ground arith),
    )

-- After an aggregation the five counts of the request add up to the number of its items, its status
-- is active exactly if one of them is pending or running, and it has a time of completion exactly
-- if none is.
pub aggregate-Progress :
    (request_id now : ℕ) (db : Db) (r : Request)
    → (aggregate_refresh_request request_id now db).1 ≡ some r
    → Progress request_id db.items r
aggregate-Progress request_id now db r h =
    elim (Option-cases (find (is_request request_id) db.requests)) [
      | inl e ↦ absurd (none-ne-some _ (rw (aggregate-none request_id now db e) at h))
      | inr (current, e) ↦
          subst (Progress request_id db.items)
            (eq_of_some (aggregated (counts_of request_id db.items) now current current) r
              (rw (aggregate-some request_id now db e) at h))
            (aggregated-Progress request_id now db.items current)
    ]

-- A status read does not make progress up: aggregating again, with the items unchanged, leaves the
-- database and the answer as they are, whatever the time; so `updated_at` tells a stalled request.
pub aggregate_again :
    (request_id now later : ℕ) (db : Db)
    → aggregate_refresh_request request_id later (aggregate_refresh_request request_id now db).0
      ≡ aggregate_refresh_request request_id now db
aggregate_again request_id now later db =
    elim (Option-cases (find (is_request request_id) db.requests)) [
      | inl e ↦ rw (aggregate-none request_id now db e) (aggregate-none request_id later db e)
      | inr (current, e) ↦
          let c = counts_of request_id db.items in
          let f = aggregated c now current in
          let same = is_request-aggregated request_id now c current in
          let found =
            find-update_where (is_request request_id) f same db.requests ∙ ap (Option.map f) e in
          rw (aggregate-some request_id now db e) (
            aggregate-some request_id later _ found
            ∙ ap₂ (λ rows row. (record db { requests = rows }, some row))
                (update_where_again (is_request request_id) f same _
                  (aggregated_fixed c now later current) db.requests)
                (aggregated_fixed c now later current current))
    ]
