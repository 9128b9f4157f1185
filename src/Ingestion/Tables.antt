-- ===== src/Ingestion/Tables.antt =====
-- packages/api/src/db/schema.ts: the tables of the durable ingestion queue, with the columns that
-- the operations read or write. A table is a list of rows. An identifier or a key is a number that
-- stands for the text, 0 for the empty one. Timestamps are whole seconds, as the columns store them.
use self_rss.Prelude.{◌==◌, ℕ, Bool, true, false, Option, List}
use self_rss.Prelude.Text.{Text}

pub data JobKind : Type 0 where
  scheduled manual : JobKind

pub data JobStatus : Type 0 where
  queued running completed dead : JobStatus

-- A row of `feed_fetch_jobs`.
pub record Job : Type 0 where
  pub id : ℕ
  pub kind : JobKind
  pub priority : ℕ
  pub source_id : ℕ
  pub origin_id : ℕ
  pub snapshot_id : Option ℕ
  pub status : JobStatus
  pub available_at : ℕ
  pub lease_owner : Option ℕ
  pub lease_expires_at : Option ℕ
  pub attempts : ℕ
  pub max_attempts : ℕ
  pub last_error_code : Option Text
  pub last_error_details : Option Text
  pub created_at : ℕ
  pub updated_at : ℕ
  pub started_at : Option ℕ
  pub completed_at : Option ℕ
  pub dead_at : Option ℕ

pub data ItemStatus : Type 0 where
  pending running completed failed dead : ItemStatus

-- A row of `feed_refresh_request_items`.
pub record Item : Type 0 where
  pub id : ℕ
  pub request_id : ℕ
  pub feed_id : Option ℕ
  pub source_id : Option ℕ
  pub job_id : Option ℕ
  pub status : ItemStatus
  pub last_error_code : Option Text
  pub last_error_details : Option Text
  pub created_at : ℕ
  pub updated_at : ℕ
  pub completed_at : Option ℕ

pub data RequestStatus : Type 0 where
  pending running completed completed_with_errors : RequestStatus

-- The texts other than these two are numbers that stand for them.
pub data ScopeType : Type 0 where
  all manual : ScopeType
  other : ℕ → ScopeType

-- A row of `feed_refresh_requests`.
pub record Request : Type 0 where
  pub id : ℕ
  pub user_id : ℕ
  pub idempotency_key : Option ℕ
  pub scope_type : ScopeType
  pub scope_feed_id : Option ℕ
  pub scope_category_id : Option ℕ
  pub status : RequestStatus
  pub total_items : ℕ
  pub pending_items : ℕ
  pub running_items : ℕ
  pub completed_items : ℕ
  pub failed_items : ℕ
  pub dead_items : ℕ
  pub requested_at : ℕ
  pub started_at : Option ℕ
  pub completed_at : Option ℕ
  pub created_at : ℕ
  pub updated_at : ℕ

pub data SourceState : Type 0 where
  active paused other : SourceState

-- A row of `feed_sources`.
pub record Source : Type 0 where
  pub id : ℕ
  pub origin_id : ℕ
  pub state : SourceState
  pub last_fetch_at : Option ℕ
  pub last_unconditional_fetch_at : Option ℕ
  pub next_fetch_at : ℕ
  pub min_interval_seconds : ℕ
  pub backoff_until : Option ℕ
  pub updated_at : ℕ

-- A row of `feed_origins`.
pub record Origin : Type 0 where
  pub id : ℕ
  pub last_request_at : Option ℕ
  pub next_allowed_request_at : Option ℕ
  pub retry_after_until : Option ℕ
  pub blocked_until : Option ℕ
  pub updated_at : ℕ

pub data ParseState : Type 0 where
  pending parsed failed expired : ParseState

-- A row of `feed_fetch_snapshots`; `has_raw_body` is `raw_body IS NOT NULL`.
pub record Snapshot : Type 0 where
  pub id : ℕ
  pub source_id : ℕ
  pub job_id : Option ℕ
  pub parse_state : ParseState
  pub has_raw_body : Bool

pub data DeliveryStatus : Type 0 where
  pending running completed dead : DeliveryStatus

-- A row of `feed_snapshot_deliveries`.
pub record Delivery : Type 0 where
  pub id : ℕ
  pub snapshot_id : ℕ
  pub feed_id : ℕ
  pub status : DeliveryStatus
  pub available_at : ℕ
  pub lease_owner : Option ℕ
  pub lease_expires_at : Option ℕ
  pub attempts : ℕ
  pub max_attempts : ℕ
  pub last_error_code : Option Text
  pub last_error_details : Option Text
  pub created_at : ℕ
  pub updated_at : ℕ
  pub started_at : Option ℕ
  pub completed_at : Option ℕ
  pub dead_at : Option ℕ

-- A row of `feeds`, the subscription of a user.
pub record Feed : Type 0 where
  pub id : ℕ
  pub source_id : Option ℕ
  pub pending_source_id : Option ℕ

pub record Db : Type 0 where
  pub jobs : List Job
  pub items : List Item
  pub requests : List Request
  pub sources : List Source
  pub origins : List Origin
  pub snapshots : List Snapshot
  pub deliveries : List Delivery
  pub feeds : List Feed

-- `eq` on the status columns.
abbrev pub job_is : JobStatus → JobStatus → Bool
job_is queued queued = true
job_is running running = true
job_is completed completed = true
job_is dead dead = true
job_is _ _ = false

abbrev pub delivery_is : DeliveryStatus → DeliveryStatus → Bool
delivery_is pending pending = true
delivery_is running running = true
delivery_is completed completed = true
delivery_is dead dead = true
delivery_is _ _ = false

abbrev pub item_is : ItemStatus → ItemStatus → Bool
item_is pending pending = true
item_is running running = true
item_is completed completed = true
item_is failed failed = true
item_is dead dead = true
item_is _ _ = false

abbrev pub request_is : RequestStatus → RequestStatus → Bool
request_is pending pending = true
request_is running running = true
request_is completed completed = true
request_is completed_with_errors completed_with_errors = true
request_is _ _ = false

abbrev pub scope_is : ScopeType → ScopeType → Bool
scope_is all all = true
scope_is manual manual = true
scope_is (other a) (other b) = a == b
scope_is _ _ = false

-- `inArray(status, ['queued', 'running'])`, `inArray(status, ['pending', 'running'])`.
abbrev pub is_active_job : JobStatus → Bool
is_active_job queued = true
is_active_job running = true
is_active_job _ = false

abbrev pub is_active_item : ItemStatus → Bool
is_active_item pending = true
is_active_item running = true
is_active_item _ = false

abbrev pub is_active_request : RequestStatus → Bool
is_active_request pending = true
is_active_request running = true
is_active_request _ = false
