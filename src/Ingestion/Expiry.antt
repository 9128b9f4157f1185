-- ===== src/Ingestion/Expiry.antt =====
-- packages/api/src/repositories/feed-ingestion.repository.ts: manual refresh requests that are too old
-- are closed. The clock and the age are milliseconds; the columns store whole seconds.
pub mod Closed
mod Tests
use self_rss.Prelude.{
  ℕ, ◌-◌, ◌/◌, max, Bool, ◌&&◌, Option, none, some, List, map, leb, select, contains, update_where,
}
use self_rss.Prelude.Text.{Text, codes}
use self_rss.Ingestion.Tables.{
  Item, ItemStatus, is_active_item, Request, is_active_request, ScopeType, scope_is, Db,
}
use self_rss.Ingestion.Aggregate.{aggregate_refresh_requests}

unfoldable pub is_stale : ℕ → Request → Bool
is_stale cutoff r =
    scope_is r.scope_type ScopeType.manual
    && is_active_request r.status
    && leb r.requested_at cutoff

unfoldable pub stale_ids : ℕ → ℕ → Db → List ℕ
unfolding is_stale
stale_ids now_ms max_age_ms db =
    map (λ r. r.id) (select (is_stale ((now_ms - max 1 max_age_ms) / 1000)) db.requests)

abbrev pub close_item : ℕ → Item → Item
close_item now i = record i {
  status = ItemStatus.completed;
  job_id = none;
  completed_at = some now;
  last_error_code = some (codes "manual_refresh_deadline_exceeded");
  last_error_details =
      some
        (codes "Publisher checks continue in the background after the five-minute refresh window");
  updated_at = now;
}

unfoldable pub close_items : List ℕ → ℕ → List Item → List Item
close_items ids now =
    update_where (λ i. contains i.request_id ids && is_active_item i.status) (close_item now)

unfoldable pub expire_stale_manual_refresh_requests : ℕ → ℕ → Db → Db × List ℕ
unfolding stale_ids close_items
expire_stale_manual_refresh_requests now_ms max_age_ms db =
    let ids = stale_ids now_ms max_age_ms db in
    let now = now_ms / 1000 in
    (aggregate_refresh_requests ids now (record db { items = close_items ids now db.items }), ids)
