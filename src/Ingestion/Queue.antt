-- ===== src/Ingestion/Queue.antt =====
-- packages/api/src/services/durable-refresh-queue.ts: a request to refresh feeds becomes a row of
-- `feed_refresh_requests`, an item for each feed and a job for each source.
pub mod Opening
pub mod Filling
pub mod Frame
pub mod Parts
pub mod Once
pub mod Backed
pub mod Attached
pub mod Waiting
pub mod Counting
mod Tests
use mathlib.Core.Option
use self_rss.Prelude.{
  ℕ, ◌+◌, ◌*◌, max, Bool, true, false, not, ◌&&◌, ◌||◌, Option, none, some, List, [], ◌∷◌, ◌++◌,
  map, ltb, ◌==◌, if◌then◌else◌, is_none, is_some, ◌or◌, or_else, is_eq, length, select, find, any,
  contains, count, update_where, distinct,
}
use self_rss.Prelude.Text.{Text, codes}
use self_rss.Ingestion.Tables.{
  JobKind, Job, JobStatus, is_active_job, Item, ItemStatus, item_is, Request, RequestStatus,
  request_is, is_active_request, ScopeType, scope_is, Source, Origin, Feed, Db,
}

-- `if (value)` for a text that may be missing.
abbrev pub is_truthy : Option ℕ → Bool
is_truthy none = false
is_truthy (some a) = not (a == 0)

-- The values that are not null, of a list of columns.
abbrev pub present : List (Option ℕ) → List ℕ
present [] = []
present (none ∷ os) = present os
present (some a ∷ os) = if a == 0 then present os else a ∷ present os

pub data DedupeMode : Type 0 where
  any_request active_request : DedupeMode

abbrev pub is_any : DedupeMode → Bool
is_any DedupeMode.any_request = true
is_any DedupeMode.active_request = false

-- `QueueRefreshInput`, with `prepare` as what the callback does to the
-- database, or no answer if it throws.
pub record QueueInput : Type 0 where
  pub user_id : ℕ
  pub selected_feeds : List Feed
  pub scope_feed_id : Option ℕ
  pub scope_category_id : Option ℕ
  pub idempotency_key : Option ℕ
  pub scope_type : ScopeType
  pub dedupe_mode : Option DedupeMode
  pub prepare : Option (ℕ → Db → Option Db)

-- What `crypto.randomUUID` answers for the request, for the job of a source and for the item of
-- a feed.
pub record Drawn : Type 0 where
  pub request : ℕ
  pub job : ℕ → ℕ
  pub item : ℕ → ℕ

pub record Deferral : Type 0 where
  pub code : Text
  pub details : Text

-- The instants that are after now.
abbrev pub upcoming : ℕ → List (Option ℕ) → List ℕ
upcoming now [] = []
upcoming now (none ∷ os) = upcoming now os
upcoming now (some t ∷ os) = if ltb now t then t ∷ upcoming now os else upcoming now os

abbrev pub latest_of : List ℕ → Option ℕ
latest_of [] = none
latest_of (t ∷ ts) = elim (latest_of ts) [ none ↦ some t | some u ↦ some (max t u) ]

unfoldable pub deferred_until : Source → Option Origin → ℕ → Option ℕ
deferred_until source origin now = latest_of (
    upcoming now (
      Option.map (λ t. t + source.min_interval_seconds) source.last_fetch_at
      ∷ source.backoff_until
      ∷ elim origin [ none ↦ none | some o ↦ o.retry_after_until ]
      ∷ elim origin [ none ↦ none | some o ↦ o.blocked_until ]
      ∷ []))

module _ (to_iso : ℕ → Text) where
  unfoldable pub manual_refresh_deferral : Source → Option Origin → ℕ → Option Deferral
  manual_refresh_deferral source origin now =
      Option.map
        (λ t. record {
          code = codes "manual_refresh_deferred";
          details = codes "Publisher request deferred until " ++ to_iso t;
        })
        (deferred_until source origin now)

pub record Queued : Type 0 where
  pub request_id : ℕ
  pub job_ids : List ℕ
  pub already_queued : Bool

unfoldable pub request_job_ids : ℕ → List Item → List ℕ
request_job_ids request_id items =
    distinct (present (map (λ i. i.job_id) (select (λ i. i.request_id == request_id) items)))

unfoldable pub existing_result : Db → ℕ → Queued
existing_result db request_id = record {
  request_id = request_id;
  job_ids = request_job_ids request_id db.items;
  already_queued = true;
}

-- The row that a refresh inserts into `feed_fetch_jobs`, with the defaults of the table.
abbrev pub new_job : ℕ → Source → ℕ → ℕ → Job
new_job id source priority now = record {
  id = id;
  kind = JobKind.manual;
  priority = priority;
  source_id = source.id;
  origin_id = source.origin_id;
  snapshot_id = none;
  status = JobStatus.queued;
  available_at = now;
  lease_owner = none;
  lease_expires_at = none;
  attempts = 0;
  max_attempts = 5;
  last_error_code = none;
  last_error_details = none;
  created_at = now;
  updated_at = now;
  started_at = none;
  completed_at = none;
  dead_at = none;
}

-- The unique indexes of `feed_fetch_jobs`: the primary key, and one active job for a source.
abbrev pub is_active_for : ℕ → Job → Bool
is_active_for source_id j = j.source_id == source_id && is_active_job j.status

abbrev pub job_conflicts : Job → List Job → Bool
job_conflicts row jobs = any (λ j. j.id == row.id) jobs || any (is_active_for row.source_id) jobs

abbrev pub attach : ℕ → ℕ → Job → Job → Job
attach priority now active j = record j {
  kind = JobKind.manual;
  priority = max j.priority priority;
  available_at = if ltb now active.available_at then now else active.available_at;
  updated_at = now;
}

-- `enqueueOrAttachDurableJob`; without an answer it throws.
unfoldable pub enqueue_or_attach : ℕ → Source → ℕ → ℕ → Db → Option (Db × Job)
enqueue_or_attach id source priority now db =
    if job_conflicts (new_job id source priority now) db.jobs
    then elim (find (is_active_for source.id) db.jobs) [
      | none ↦ none
      | some active ↦ some (
        record db {
          jobs = update_where (λ j. j.id == active.id) (attach priority now active) db.jobs;
        },
        record active {
          kind = JobKind.manual;
          priority = max active.priority priority;
          available_at = if ltb now active.available_at then now else active.available_at;
        },
      )
    ]
    else some (
      record db { jobs = db.jobs ++ (new_job id source priority now ∷ []) },
      new_job id source priority now,
    )
