-- ===== src/Ingestion/Queue/Tests.antt =====
-- packages/api/src/services/durable-refresh-queue.ts: runs on a small database.
use mathlib.Core.Option.{none-ne-some}
use self_rss.Prelude.{ℕ, ◌+◌, ◌≡◌, refl, false, none, some, List, [], ◌∷◌, All, distinct}
use self_rss.Prelude.Text.{Text, codes}
use self_rss.Ingestion.Tables.{
  Job, JobKind, JobStatus, Item, ItemStatus, RequestStatus, Source, SourceState, Origin, Feed,
  Request, ScopeType, Db,
}
use self_rss.Ingestion.Aggregate.{counts_of, progress_changed}
use self_rss.Ingestion.Queue.{
  QueueInput, Drawn, Queued, existing_result, deferred_until, manual_refresh_deferral,
  enqueue_or_attach,
}
use self_rss.Ingestion.Queue.Opening.{
  new_request, insert_request, insert_or_resolve, open_keyed, open_request,
}
use self_rss.Ingestion.Queue.Filling.{
  sources_for, deferral_of, enqueue_source, enqueue_sources, item_source, item_deferral, item_job,
  new_item, insert_items, settle_request, fill_request, queue_transaction, queue_durable_refresh,
}
use self_rss.Ingestion.Queue.Backed.{Backed, enqueue_or_attach_total}
use self_rss.Ingestion.Queue.Parts.{KeepsQueue}
use self_rss.Ingestion.Queue.Once.{queue-once}
use self_rss.Ingestion.Queue.Attached.{Waits}
use self_rss.Ingestion.Queue.Waiting.{queue-attaches}
use self_rss.Ingestion.Queue.Counting.{queue-counted}

abbrev iso : ℕ → Text
iso _ = codes "1970-01-01T00:08:20.000Z"

abbrev source : Source
source = record {
  id = 10;
  origin_id = 20;
  state = SourceState.active;
  last_fetch_at = none;
  last_unconditional_fetch_at = none;
  next_fetch_at = 0;
  min_interval_seconds = 1800;
  backoff_until = none;
  updated_at = 0;
}

abbrev origin : Origin
origin = record {
  id = 20;
  last_request_at = none;
  next_allowed_request_at = none;
  retry_after_until = none;
  blocked_until = none;
  updated_at = 0;
}

-- A feed that can be refreshed, one whose publisher is to be left alone, and one with no source.
abbrev feeds : List Feed
feeds =
    record { id = 30; source_id = some 10; pending_source_id = none }
    ∷ record { id = 31; source_id = some 11; pending_source_id = none }
    ∷ record { id = 32; source_id = none; pending_source_id = none }
    ∷ []

abbrev db : Db
db = record {
  jobs = [];
  items = [];
  requests = [];
  sources = source ∷ record source { id = 11; backoff_until = some 500 } ∷ [];
  origins = origin ∷ [];
  snapshots = [];
  deliveries = [];
  feeds = feeds;
}

abbrev input : QueueInput
input = record {
  user_id = 1;
  selected_feeds = feeds;
  scope_feed_id = none;
  scope_category_id = none;
  idempotency_key = some 77;
  scope_type = ScopeType.manual;
  dedupe_mode = none;
  prepare = none;
}

abbrev drawn : Drawn
drawn = record { request = 900; job = λ source. 100 + source; item = λ feed. 200 + feed }

-- One job, and three items: one waits for it, one is deferred, one has no source.
abbrev job : Job
job = record {
  id = 110;
  kind = JobKind.manual;
  priority = 100;
  source_id = 10;
  origin_id = 20;
  snapshot_id = none;
  status = JobStatus.queued;
  available_at = 100;
  lease_owner = none;
  lease_expires_at = none;
  attempts = 0;
  max_attempts = 5;
  last_error_code = none;
  last_error_details = none;
  created_at = 100;
  updated_at = 100;
  started_at = none;
  completed_at = none;
  dead_at = none;
}

abbrev waiting : Item
waiting = record {
  id = 230;
  request_id = 900;
  feed_id = some 30;
  source_id = some 10;
  job_id = some 110;
  status = ItemStatus.pending;
  last_error_code = none;
  last_error_details = none;
  created_at = 100;
  updated_at = 100;
  completed_at = none;
}

abbrev deferred : Item
deferred = record waiting {
  id = 231;
  feed_id = some 31;
  source_id = some 11;
  job_id = none;
  status = ItemStatus.completed;
  last_error_code = some (codes "manual_refresh_deferred");
  last_error_details = some (codes "Publisher request deferred until 1970-01-01T00:08:20.000Z");
  completed_at = some 100;
}

abbrev sourceless : Item
sourceless = record waiting {
  id = 232;
  feed_id = some 32;
  source_id = none;
  job_id = none;
  status = ItemStatus.failed;
  last_error_code = some (codes "source_unavailable");
  last_error_details = some (codes "Feed has no source to refresh");
  completed_at = some 100;
}

abbrev opened : Request
opened = record {
  id = 900;
  user_id = 1;
  idempotency_key = some 77;
  scope_type = ScopeType.manual;
  scope_feed_id = none;
  scope_category_id = none;
  status = RequestStatus.pending;
  total_items = 3;
  pending_items = 1;
  running_items = 0;
  completed_items = 1;
  failed_items = 1;
  dead_items = 0;
  requested_at = 100;
  started_at = some 100;
  completed_at = none;
  created_at = 100;
  updated_at = 100;
}

abbrev after : Db × Queued
after = (
  record db {
    jobs = job ∷ [];
    items = waiting ∷ deferred ∷ sourceless ∷ [];
    requests = opened ∷ [];
  },
  record { request_id = 900; job_ids = 110 ∷ []; already_queued = false },
)

call :
    (queue_durable_refresh iso input drawn 100 db ≡ some after)
    × (queue_transaction iso input drawn 100 db ≡ some after)
unfolding queue_durable_refresh queue_transaction open_request open_keyed insert_or_resolve
    insert_request new_request fill_request sources_for enqueue_sources enqueue_source deferral_of
    manual_refresh_deferral deferred_until enqueue_or_attach item_source item_deferral item_job
    new_item insert_items settle_request distinct
call = (refl, refl)

keeps : KeepsQueue input
keeps prepare e now before _ h = absurd (none-ne-some prepare e)

queue-once_example :
    (queue_durable_refresh iso
        (record input { selected_feeds = [] })
        (record drawn { request = 901 })
        500
        after.0
      ≡ some (after.0, existing_result after.0 900))
    × (queue_transaction iso
          (record input { selected_feeds = [] })
          (record drawn { request = 901 })
          500
          after.0
        ≡ some (after.0, existing_result after.0 900))
queue-once_example =
    queue-once iso input (record input { selected_feeds = [] }) drawn
      (record drawn { request = 901 }) 100 500 db after keeps refl refl call.0 refl refl refl

queue-attaches_example :
    All (λ i. i.request_id ≡ 900 → Waits after.0 i) (waiting ∷ deferred ∷ sourceless ∷ [])
queue-attaches_example = queue-attaches iso input drawn 100 db after keeps tt call.1 refl

queue-counted_example :
    progress_changed opened (counts_of 900 (waiting ∷ deferred ∷ sourceless ∷ [])) ≡ false
queue-counted_example = queue-counted iso input drawn 100 db after opened keeps tt call.1 refl refl

-- The source has an active job already.
enqueue_or_attach_total_example :
    (q : Db × Job) × (enqueue_or_attach 300 source 100 150 after.0 ≡ some q)
    × (q.1.source_id ≡ 10)
    × Backed q.0 q.1.id q.1.source_id
enqueue_or_attach_total_example = enqueue_or_attach_total 300 source 100 150 after.0 refl
