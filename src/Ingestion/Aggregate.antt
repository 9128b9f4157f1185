-- ===== src/Ingestion/Aggregate.antt =====
-- packages/api/src/repositories/refresh-request-aggregation.ts
pub mod Progress
pub mod Frame
mod Tests
use self_rss.Prelude.{
  ℕ, ◌+◌, ◌<◌, Bool, true, false, not, ◌&&◌, ◌||◌, Option, none, some, List, [], ◌∷◌, ltb, ◌==◌,
  if◌then◌else◌, or_else, ◌or◌, count, find, update_where, distinct,
}
use self_rss.Ingestion.Tables.{ItemStatus, item_is, Item, RequestStatus, request_is, Request, Db}

-- The row of `group by status` for one status, of one request.
unfoldable pub count_items : ℕ → ItemStatus → List Item → ℕ
count_items request_id status = count λ i. i.request_id == request_id && item_is i.status status

pub record Counts : Type 0 where
  pub pending : ℕ
  pub running : ℕ
  pub completed : ℕ
  pub failed : ℕ
  pub dead : ℕ

unfoldable pub counts_of : ℕ → List Item → Counts
unfolding count_items
counts_of request_id items = record {
  pending = count_items request_id ItemStatus.pending items;
  running = count_items request_id ItemStatus.running items;
  completed = count_items request_id ItemStatus.completed items;
  failed = count_items request_id ItemStatus.failed items;
  dead = count_items request_id ItemStatus.dead items;
}

abbrev pub total_of : Counts → ℕ
total_of c = c.pending + c.running + c.completed + c.failed + c.dead

abbrev pub terminal_of : Counts → ℕ
terminal_of c = c.completed + c.failed + c.dead

unfoldable pub status_of : Counts → RequestStatus
status_of c =
    if total_of c == 0
    then RequestStatus.completed
    else if terminal_of c == total_of c
    then if ltb 0 (c.failed + c.dead)
      then RequestStatus.completed_with_errors
      else RequestStatus.completed
    else if ltb 0 c.running
    then RequestStatus.running
    else RequestStatus.pending

unfoldable pub progress_changed : Request → Counts → Bool
progress_changed r c =
    not (request_is r.status (status_of c))
    || not (r.total_items == total_of c)
    || not (r.pending_items == c.pending)
    || not (r.running_items == c.running)
    || not (r.completed_items == c.completed)
    || not (r.failed_items == c.failed)
    || not (r.dead_items == c.dead)

-- What the update sets in a row: the progress counted as `c`, and the times of the `current` row.
unfoldable pub aggregated : Counts → ℕ → Request → Request → Request
aggregated c now current r = record r {
  status = status_of c;
  total_items = total_of c;
  pending_items = c.pending;
  running_items = c.running;
  completed_items = c.completed;
  failed_items = c.failed;
  dead_items = c.dead;
  started_at =
      current.started_at or (if ltb 0 c.running || ltb 0 (terminal_of c) then some now else none);
  completed_at =
      if terminal_of c == total_of c then some (or_else current.completed_at now) else none;
  updated_at = if progress_changed current c then now else current.updated_at;
}

abbrev pub is_request : ℕ → Request → Bool
is_request request_id r = r.id == request_id

unfoldable pub aggregate_refresh_request : ℕ → ℕ → Db → Db × Option Request
unfolding counts_of aggregated
aggregate_refresh_request request_id now db = elim (find (is_request request_id) db.requests) [
  | none ↦ (db, none)
  | some current ↦ (
    record db {
      requests =
          update_where (is_request request_id)
            (aggregated (counts_of request_id db.items) now current) db.requests;
    },
    some (aggregated (counts_of request_id db.items) now current current),
  )
]

unfoldable pub aggregate_each : List ℕ → ℕ → Db → Db
unfolding aggregate_refresh_request
aggregate_each [] now db = db
aggregate_each (request_id ∷ rest) now db =
    aggregate_each rest now (aggregate_refresh_request request_id now db).0

-- The transactions of the distinct requests, in the order of the identifiers.
unfoldable pub aggregate_refresh_requests : List ℕ → ℕ → Db → Db
unfolding aggregate_each
aggregate_refresh_requests request_ids now db = aggregate_each (distinct request_ids) now db
