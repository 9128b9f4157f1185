-- ===== src/Ingestion/Jobs/Scheduling.antt =====
-- packages/api/src/repositories/feed-ingestion-source-work.repository.ts: the scheduler enqueues the
-- sources that are due.
use self_rss.Prelude.{
  ℕ, ◌+◌, Bool, not, ◌&&◌, ◌||◌, none, List, [], ◌∷◌, ◌++◌, map, ltb, leb, ◌==◌, if◌then◌else◌, any,
  select, sort_by, take,
}
use self_rss.Ingestion.Tables.{JobKind, Job, JobStatus, is_active_job, Source, Db}
use self_rss.Ingestion.Jobs.Eligibility.{is_fetched, has_source_subscription}

-- The unique indexes of `feed_fetch_jobs`: the primary key, and one active job for a source.
abbrev pub has_active_job : ℕ → List Job → Bool
has_active_job source_id = any λ j. j.source_id == source_id && is_active_job j.status

-- The `where` of the sources that are due.
unfoldable pub is_due_source : ℕ → Db → Source → Bool
is_due_source now db s =
    is_fetched s.state
    && leb s.next_fetch_at now
    && has_source_subscription db.feeds s.id
    && not (has_active_job s.id db.jobs)

-- `order by next_fetch_at, id`.
unfoldable pub due_before : Source → Source → Bool
due_before a b =
    ltb a.next_fetch_at b.next_fetch_at || a.next_fetch_at == b.next_fetch_at && ltb a.id b.id

unfoldable pub due_sources : ℕ → ℕ → Db → List Source
due_sources limit now db =
    take limit (sort_by due_before (select (is_due_source now db) db.sources))

-- The row that the scheduler inserts, with the defaults of the table.
abbrev pub scheduled_job : ℕ → Source → ℕ → ℕ → Job
scheduled_job id source available_at now = record {
  id = id;
  kind = JobKind.scheduled;
  priority = 0;
  source_id = source.id;
  origin_id = source.origin_id;
  snapshot_id = none;
  status = JobStatus.queued;
  available_at = available_at;
  lease_owner = none;
  lease_expires_at = none;
  attempts = 0;
  max_attempts = 5;
  last_error_code = none;
  last_error_details = none;
  created_at = now;
  updated_at = now;
  started_at = none;
  completed_at = none;
  dead_at = none;
}

-- `insert … on conflict do nothing … returning`, row by row.
unfoldable pub insert_jobs : List Job → List Job → List Job × List Job
insert_jobs [] jobs = (jobs, [])
insert_jobs (row ∷ rows) jobs =
    let free = not (any (λ j. j.id == row.id) jobs || has_active_job row.source_id jobs) in
    let (after, inserted) = insert_jobs rows (if free then jobs ++ (row ∷ []) else jobs) in
    (after, if free then row ∷ inserted else inserted)

-- `uuid` is what crypto.randomUUID draws for the job of a source.
unfoldable pub enqueue_due_sources : (ℕ → ℕ) → ℕ → ℕ → ℕ → Db → Db × List Job
unfolding insert_jobs due_sources
enqueue_due_sources uuid limit now jitter_seconds db =
    let rows =
      map (λ (s : Source). scheduled_job (uuid s.id) s (now + jitter_seconds) now)
        (due_sources limit now db) in
    let (jobs, inserted) = insert_jobs rows db.jobs in (record db { jobs = jobs }, inserted)
