-- ===== src/Ingestion/Jobs/Eligibility.antt =====
-- packages/api/src/repositories/feed-ingestion-source-work.repository.ts: which jobs may be
-- claimed, and in which order.
use mathlib.Core.Option
use self_rss.Prelude.{
  ℕ, ◌+◌, Bool, true, false, not, ◌&&◌, ◌||◌, Option, none, some, List, ltb, leb, ◌==◌, is_none,
  is_eq, find, any, contains,
}
use self_rss.Ingestion.Tables.{
  JobKind, Job, JobStatus, job_is, Source, SourceState, Origin, Snapshot, ParseState, Feed, Db,
}

-- `lte(column, now)` on a column that may be null, and `or(isNull(column), lte(column, now))`.
abbrev pub is_past : Option ℕ → ℕ → Bool
is_past none now = false
is_past (some t) now = leb t now

abbrev pub is_clear : Option ℕ → ℕ → Bool
is_clear none now = true
is_clear (some t) now = leb t now

-- `inArray(column, ids)` on a column that may be null.
abbrev pub is_in : Option ℕ → List ℕ → Bool
is_in none ids = false
is_in (some a) ids = contains a ids

abbrev pub is_manual : JobKind → Bool
is_manual JobKind.manual = true
is_manual JobKind.scheduled = false

-- `inArray(feedSources.state, ['active', 'paused'])`.
abbrev pub is_fetched : SourceState → Bool
is_fetched SourceState.active = true
is_fetched SourceState.paused = true
is_fetched SourceState.other = false

-- `hasSourceSubscription`.
unfoldable pub has_source_subscription : List Feed → ℕ → Bool
has_source_subscription feeds source_id =
    any (λ f. is_eq f.source_id source_id || is_eq f.pending_source_id source_id) feeds

unfoldable pub is_exhausted : ℕ → Job → Bool
is_exhausted now j =
    job_is j.status JobStatus.running
    && is_past j.lease_expires_at now
    && leb j.max_attempts j.attempts

unfoldable pub job_due : ℕ → Job → Bool
job_due now j =
    job_is j.status JobStatus.queued && leb j.available_at now && ltb j.attempts j.max_attempts
    || job_is j.status JobStatus.running
      && is_past j.lease_expires_at now
      && ltb j.attempts j.max_attempts

unfoldable pub source_due : ℕ → JobKind → Source → Bool
source_due now kind s =
    is_fetched s.state
    && (is_manual kind
          && (is_none s.last_fetch_at
              || is_clear (Option.map (λ t. t + s.min_interval_seconds) s.last_fetch_at) now)
        || not (is_manual kind) && leb s.next_fetch_at now)
    && is_clear s.backoff_until now

unfoldable pub origin_due : ℕ → ℕ → Origin → Bool
origin_due gap now o =
    is_clear o.next_allowed_request_at now
    && is_clear o.retry_after_until now
    && is_clear o.blocked_until now
    && is_clear (Option.map (λ t. t + gap) o.last_request_at) now

unfoldable pub is_recoverable : Snapshot → Bool
is_recoverable s = elim s.parse_state [
  | ParseState.parsed ↦ true
  | ParseState.pending ↦ s.has_raw_body
  | ParseState.failed ↦ s.has_raw_body
  | ParseState.expired ↦ false
]

unfoldable pub snapshot_recovery : List Snapshot → Job → Bool
unfolding is_recoverable
snapshot_recovery snapshots j = elim j.snapshot_id [
  | none ↦ false
  | some id ↦ any (λ s. s.id == id && is_recoverable s) snapshots
]

-- A live lease on a publisher request to the origin.
unfoldable pub is_fetching : ℕ → ℕ → Job → Bool
is_fetching origin_id now j =
    j.origin_id == origin_id
    && job_is j.status JobStatus.running
    && is_none j.snapshot_id
    && not (is_clear j.lease_expires_at now)

-- The rows that the two joins add.
abbrev pub source_of : Db → Job → Option Source
source_of db j = find (λ s. s.id == j.source_id) db.sources

abbrev pub origin_of : Db → Job → Option Origin
origin_of db j = find (λ o. o.id == j.origin_id) db.origins

-- The `where` of the candidate, joined with its source and its origin.
unfoldable pub is_eligible : ℕ → ℕ → Db → Job → Bool
is_eligible gap now db j = elim (source_of db j) [
  | none ↦ false
  | some s ↦ elim (origin_of db j) [
    | none ↦ false
    | some o ↦
        job_due now j
        && has_source_subscription db.feeds s.id
        && (snapshot_recovery db.snapshots j
            || source_due now j.kind s
              && origin_due gap now o
              && not (any (is_fetching j.origin_id now) db.jobs))
  ]
]

-- `order by priority desc, available_at, created_at, id`.
unfoldable pub claimed_before : Job → Job → Bool
claimed_before a b =
    ltb b.priority a.priority
    || a.priority == b.priority
      && (ltb a.available_at b.available_at
          || a.available_at == b.available_at
            && (ltb a.created_at b.created_at || a.created_at == b.created_at && ltb a.id b.id))
