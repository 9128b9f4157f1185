-- ===== src/Ingestion/Lifecycle/Tests.antt =====
-- packages/api/src/repositories/feed-ingestion-source-work.repository.ts and
-- packages/api/src/services/durable-refresh-queue.ts: a job is enqueued and claimed.
use self_rss.Prelude.{◌≡◌, refl, none, some, [], ◌∷◌}
use self_rss.Ingestion.Tables.{Source, SourceState, Db, Job, JobKind, JobStatus}
use self_rss.Ingestion.Jobs.Claiming.{claim_eligible_fetch_job}
use self_rss.Ingestion.Queue.{enqueue_or_attach}
use self_rss.Ingestion.Lifecycle.{Step, Reachable, JobsOk}
use self_rss.Ingestion.Lifecycle.Invariant.{Reachable-JobsOk}

abbrev source : Source
source = record {
  id = 10;
  origin_id = 20;
  state = SourceState.active;
  last_fetch_at = none;
  last_unconditional_fetch_at = none;
  next_fetch_at = 0;
  min_interval_seconds = 1800;
  backoff_until = none;
  updated_at = 0;
}

abbrev empty : Db
empty = record {
  jobs = [];
  items = [];
  requests = [];
  sources = source ∷ [];
  origins =
      record {
        id = 20;
        last_request_at = none;
        next_allowed_request_at = none;
        retry_after_until = none;
        blocked_until = none;
        updated_at = 0;
      }
      ∷ [];
  snapshots = [];
  deliveries = [];
  feeds = record { id = 30; source_id = some 10; pending_source_id = none } ∷ [];
}

abbrev job : Job
job = record {
  id = 110;
  kind = JobKind.manual;
  priority = 100;
  source_id = 10;
  origin_id = 20;
  snapshot_id = none;
  status = JobStatus.queued;
  available_at = 50;
  lease_owner = none;
  lease_expires_at = none;
  attempts = 0;
  max_attempts = 5;
  last_error_code = none;
  last_error_details = none;
  created_at = 50;
  updated_at = 50;
  started_at = none;
  completed_at = none;
  dead_at = none;
}

abbrev enqueued : Db
enqueued = record empty { jobs = job ∷ [] }

enqueues : enqueue_or_attach 110 source 100 50 empty ≡ some (enqueued, job)
unfolding enqueue_or_attach
enqueues = refl

Reachable-JobsOk_example : JobsOk (claim_eligible_fetch_job 7 60 100 2 enqueued).0.jobs
Reachable-JobsOk_example = Reachable-JobsOk (claim_eligible_fetch_job 7 60 100 2 enqueued).0 (
    Reachable.next enqueued
      (Reachable.next empty (Reachable.start refl)
        (Step.enqueue 110 source 100 50 (enqueued, job) enqueues))
      (Step.claim 7 60 100 2))
