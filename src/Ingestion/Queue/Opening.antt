-- ===== src/Ingestion/Queue/Opening.antt =====
-- packages/api/src/services/durable-refresh-queue.ts: the first part of the transaction finds the
-- request that answers the call already, or opens a new one.
use self_rss.Prelude.{
  ℕ, Bool, false, ◌&&◌, ◌||◌, Option, none, some, List, [], ◌∷◌, ◌++◌, ◌==◌, if◌then◌else◌, is_none,
  or_else, is_eq, same, length, find, any, update_where,
}
use self_rss.Ingestion.Tables.{Request, RequestStatus, is_active_request, scope_is, Db}
use self_rss.Ingestion.Queue.{is_truthy, is_any, DedupeMode, QueueInput}

-- `input.dedupeMode ?? 'any'`.
abbrev pub dedupe_mode : QueueInput → DedupeMode
dedupe_mode input = or_else input.dedupe_mode DedupeMode.any_request

-- The scope column of a row is the one asked for, or null if none is.
abbrev pub scope_matches : Option ℕ → Option ℕ → Bool
scope_matches asked column = if is_truthy asked then same column asked else is_none column

-- A request of this user with the scope of the call that is not finished.
unfoldable pub in_active_scope : QueueInput → Request → Bool
in_active_scope input r =
    r.user_id == input.user_id
    && scope_is r.scope_type input.scope_type
    && scope_matches input.scope_feed_id r.scope_feed_id
    && scope_matches input.scope_category_id r.scope_category_id
    && is_active_request r.status

-- `eq(userId, …)` and `eq(idempotencyKey, …)`; a null key equals nothing.
abbrev pub has_key : QueueInput → Request → Bool
has_key input r =
    r.user_id == input.user_id
    && elim input.idempotency_key [ none ↦ false | some key ↦ is_eq r.idempotency_key key ]

unfoldable pub new_request : QueueInput → ℕ → ℕ → Request
new_request input id now =
    let no_feeds = length input.selected_feeds == 0 in
    record {
      id = id;
      user_id = input.user_id;
      idempotency_key = input.idempotency_key;
      scope_type = input.scope_type;
      scope_feed_id = input.scope_feed_id;
      scope_category_id = input.scope_category_id;
      status = if no_feeds then RequestStatus.completed else RequestStatus.pending;
      total_items = length input.selected_feeds;
      pending_items = length input.selected_feeds;
      running_items = 0;
      completed_items = 0;
      failed_items = 0;
      dead_items = 0;
      requested_at = now;
      started_at = none;
      completed_at = if no_feeds then some now else none;
      created_at = now;
      updated_at = now;
    }

-- The unique indexes of `feed_refresh_requests`: the primary key, and one key for a user.
abbrev pub request_conflicts : QueueInput → ℕ → List Request → Bool
request_conflicts input id requests = any (λ r. r.id == id) requests || any (has_key input) requests

-- What the transaction goes on with: an answer, a new request, or an error that rolls it back.
pub data Opened : Type 0 where
  existing : Db → ℕ → Opened
  created : Db → Opened
  refused : Opened

unfoldable pub insert_request : QueueInput → ℕ → ℕ → Db → Opened
insert_request input id now db =
    if request_conflicts input id db.requests
    then Opened.refused
    else Opened.created (record db { requests = db.requests ++ (new_request input id now ∷ []) })

-- The key of a finished request is given up.
unfoldable pub release_key : ℕ → ℕ → Db → Db
release_key id now db = record db {
  requests =
      update_where (λ r. r.id == id) (λ r. record r { idempotency_key = none; updated_at = now })
        db.requests;
}

-- The insertion, where an existing row may conflict.
unfoldable pub insert_or_resolve : QueueInput → ℕ → ℕ → Db → Opened
insert_or_resolve input id now db =
    if request_conflicts input id db.requests
    then elim (if is_truthy input.idempotency_key then find (has_key input) db.requests else none) [
      | none ↦ Opened.refused
      | some r ↦
          if is_any (dedupe_mode input) || is_active_request r.status
          then Opened.existing db r.id
          else insert_request input id now (release_key r.id now db)
    ]
    else insert_request input id now db

unfoldable pub open_keyed : QueueInput → ℕ → ℕ → Db → Opened
open_keyed input id now db =
    if is_any (dedupe_mode input)
    then insert_or_resolve input id now db
    else elim (find (has_key input) db.requests) [
      | none ↦ insert_or_resolve input id now db
      | some r ↦
          if is_active_request r.status
          then Opened.existing db r.id
          else insert_or_resolve input id now (release_key r.id now db)
    ]

unfoldable pub open_request : QueueInput → ℕ → ℕ → Db → Opened
open_request input id now db =
    if is_truthy input.idempotency_key
    then open_keyed input id now db
    else elim (find (in_active_scope input) db.requests) [
      | none ↦ insert_or_resolve input id now db
      | some r ↦ Opened.existing db r.id
    ]
