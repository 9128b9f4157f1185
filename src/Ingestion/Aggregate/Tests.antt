-- ===== src/Ingestion/Aggregate/Tests.antt =====
-- packages/api/src/repositories/refresh-request-aggregation.ts: runs on a small database.
use self_rss.Prelude.{◌≡◌, refl, none, some, [], ◌∷◌}
use self_rss.Ingestion.Tables.{Item, ItemStatus, Request, RequestStatus, ScopeType, Db}
use self_rss.Ingestion.Aggregate.{
  aggregate_refresh_request, counts_of, aggregated, status_of, progress_changed,
}
use self_rss.Ingestion.Aggregate.Progress.{Progress, aggregate-Progress, aggregate_again}

abbrev item : Item
item = record {
  id = 1;
  request_id = 5;
  feed_id = some 30;
  source_id = some 10;
  job_id = some 2;
  status = ItemStatus.running;
  last_error_code = none;
  last_error_details = none;
  created_at = 10;
  updated_at = 20;
  completed_at = none;
}

abbrev request : Request
request = record {
  id = 5;
  user_id = 1;
  idempotency_key = none;
  scope_type = ScopeType.manual;
  scope_feed_id = none;
  scope_category_id = none;
  status = RequestStatus.pending;
  total_items = 2;
  pending_items = 2;
  running_items = 0;
  completed_items = 0;
  failed_items = 0;
  dead_items = 0;
  requested_at = 10;
  started_at = none;
  completed_at = none;
  created_at = 10;
  updated_at = 10;
}

abbrev db : Db
db = record {
  jobs = [];
  items = item ∷ record item { id = 2; status = ItemStatus.dead } ∷ [];
  requests = request ∷ [];
  sources = [];
  origins = [];
  snapshots = [];
  deliveries = [];
  feeds = [];
}

abbrev progress : Request
progress = record request {
  status = RequestStatus.running;
  pending_items = 0;
  running_items = 1;
  dead_items = 1;
  started_at = some 50;
  updated_at = 50;
}

counts : (aggregate_refresh_request 5 50 db).1 ≡ some progress
unfolding aggregate_refresh_request counts_of aggregated status_of progress_changed
counts = refl

aggregate-Progress_example : Progress 5 db.items progress
aggregate-Progress_example = aggregate-Progress 5 50 db progress counts

aggregate_again_example :
    aggregate_refresh_request 5 90 (aggregate_refresh_request 5 50 db).0
    ≡ aggregate_refresh_request 5 50 db
aggregate_again_example = aggregate_again 5 50 90 db
