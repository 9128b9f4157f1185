-- ===== src/Ingestion/Lifecycle.antt =====
-- packages/api/src/repositories/feed-ingestion-source-work.repository.ts and
-- packages/api/src/services/durable-refresh-queue.ts: the life of the fetch jobs, as the steps that
-- the web server and the workers take on the database, in any order.
pub mod Kept
pub mod Operations
pub mod Invariant
mod Tests
use self_rss.Prelude.{
  Unique, ℕ, ◌≤◌, ◌≡◌, Bool, true, false, Option, none, some, List, [], ◌∷◌, is_some, any, All,
}
use self_rss.Ingestion.Tables.{Job, JobStatus, job_is, is_active_job, Source, Db}
use self_rss.Ingestion.Aggregate.{aggregate_refresh_requests}
use self_rss.Ingestion.Jobs.Claiming.{ids_of, claim_eligible_fetch_job}
use self_rss.Ingestion.Jobs.Scheduling.{enqueue_due_sources}
use self_rss.Ingestion.Jobs.Holding.{
  renew_fetch_job, record_unconditional_fetch_attempt, release_fetch_job, Outcome, finish_fetch_job,
}
use self_rss.Ingestion.Queue.{is_active_for, enqueue_or_attach}

-- One call of the queue, on the database that it finds.
pub data Step : Db → Db → Type 0 where
  enqueue :
      (id : ℕ) (source : Source) (priority now : ℕ) {db : Db} (q : Db × Job)
      → enqueue_or_attach id source priority now db ≡ some q
      → Step db q.0
  schedule :
      (uuid : ℕ → ℕ) (limit now jitter_seconds : ℕ) {db : Db}
      → Step db (enqueue_due_sources uuid limit now jitter_seconds db).0
  claim :
      (worker lease_seconds now gap : ℕ) {db : Db}
      → Step db (claim_eligible_fetch_job worker lease_seconds now gap db).0
  renew :
      (job_id worker lease_seconds now : ℕ) {db : Db}
      → Step db (renew_fetch_job job_id worker lease_seconds now db).0
  attempt :
      (job_id worker now : ℕ) {db : Db}
      → Step db (record_unconditional_fetch_attempt job_id worker now db).0
  release : (job_id worker now : ℕ) {db : Db} → Step db (release_fetch_job job_id worker now db).0
  finish :
      (job_id worker : ℕ) (outcome : Outcome) (now : ℕ) {db : Db}
      → Step db (finish_fetch_job job_id worker outcome now db).0
  aggregate :
      (request_ids : List ℕ) (now : ℕ) {db : Db}
      → Step db (aggregate_refresh_requests request_ids now db)

pub data Reachable : Db → Type 0 where
  start : {db : Db} → db.jobs ≡ [] → Reachable db
  next : (db : Db) {after : Db} → Reachable db → Step db after → Reachable after

-- A job has an owner and an end of its lease exactly while it runs, and no more attempts than allowed.
abbrev pub JobOk : Job → Type 0
JobOk j =
    (is_some j.lease_owner ≡ job_is j.status JobStatus.running)
    × (is_some j.lease_expires_at ≡ job_is j.status JobStatus.running)
    × (j.attempts ≤ j.max_attempts)

-- The index `feed_fetch_jobs_active_source_idx`: a source has one active job at most.
abbrev pub OneActive : List Job → Type 0
OneActive [] = Unit {0}
OneActive (j ∷ jobs) =
    (is_active_job j.status ≡ true → any (is_active_for j.source_id) jobs ≡ false) × OneActive jobs

abbrev pub JobsOk : List Job → Type 0
JobsOk jobs = All JobOk jobs × OneActive jobs × Unique (ids_of jobs)
