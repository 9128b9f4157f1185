-- ===== src/Ingestion/Expiry/Tests.antt =====
-- packages/api/src/repositories/feed-ingestion.repository.ts: an old request is closed, a new one stays.
use self_rss.Prelude.{◌≡◌, refl, none, some, [], ◌∷◌, map, distinct}
use self_rss.Ingestion.Tables.{Item, ItemStatus, Request, RequestStatus, ScopeType, Db}
use self_rss.Ingestion.Aggregate.{status_of, aggregate_refresh_requests}
use self_rss.Ingestion.Expiry.{stale_ids, expire_stale_manual_refresh_requests}
use self_rss.Ingestion.Expiry.Closed.{IsClosed, expire-IsClosed}

abbrev item : Item
item = record {
  id = 1;
  request_id = 5;
  feed_id = some 30;
  source_id = some 10;
  job_id = some 2;
  status = ItemStatus.running;
  last_error_code = none;
  last_error_details = none;
  created_at = 100;
  updated_at = 120;
  completed_at = none;
}

abbrev request : Request
request = record {
  id = 5;
  user_id = 1;
  idempotency_key = none;
  scope_type = ScopeType.manual;
  scope_feed_id = none;
  scope_category_id = none;
  status = RequestStatus.running;
  total_items = 1;
  pending_items = 0;
  running_items = 1;
  completed_items = 0;
  failed_items = 0;
  dead_items = 0;
  requested_at = 100;
  started_at = some 100;
  completed_at = none;
  created_at = 100;
  updated_at = 100;
}

abbrev db : Db
db = record {
  jobs = [];
  items = item ∷ record item { id = 2; request_id = 6 } ∷ [];
  requests = request ∷ record request { id = 6; requested_at = 350 } ∷ [];
  sources = [];
  origins = [];
  snapshots = [];
  deliveries = [];
  feeds = [];
}

stale_test : stale_ids 500000 300000 db ≡ 5 ∷ []
unfolding stale_ids
stale_test = refl

status_test :
    map (λ r. r.status) (expire_stale_manual_refresh_requests 500000 300000 db).0.requests
    ≡ RequestStatus.completed ∷ RequestStatus.running ∷ []
unfolding expire_stale_manual_refresh_requests aggregate_refresh_requests distinct status_of
status_test = refl

expire-IsClosed_example : IsClosed 5 (expire_stale_manual_refresh_requests 500000 300000 db).0
unfolding expire_stale_manual_refresh_requests
expire-IsClosed_example = expire-IsClosed 500000 300000 5 db refl
