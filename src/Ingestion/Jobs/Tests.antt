-- ===== src/Ingestion/Jobs/Tests.antt =====
-- packages/api/src/repositories/feed-ingestion-source-work.repository.ts: runs on a small database.
use self_rss.Ingestion.Jobs.Scheduling.{
  enqueue_due_sources, due_sources, is_due_source, due_before, insert_jobs, scheduled_job,
}
use self_rss.Ingestion.Jobs.Due.{IsDue, enqueue-IsDue}
use self_rss.Prelude.{
  ◌+◌, ◌≤◌, ◌++◌, length, All, sort_by, insert_by, take, ◌≡◌, ◌≢◌, refl, false, none, some, [], ◌∷◌,
  arith,
}
use self_rss.Prelude.{first_by, distinct}
use self_rss.Ingestion.Aggregate.{aggregate_refresh_requests}
use self_rss.Ingestion.Tables.{ParseState, JobKind, Job, JobStatus, Source, SourceState, Origin, Db}
use self_rss.Prelude.Rows.{All₂}
use self_rss.Ingestion.Jobs.Eligibility.{
  is_recoverable, is_exhausted, job_due, source_due, origin_due, snapshot_recovery, is_fetching,
  has_source_subscription, is_eligible, claimed_before,
}
use self_rss.Ingestion.Jobs.Claiming.{
  Claimed, bury_exhausted, is_unsubscribed, retire_unsubscribed_jobs, claim_candidate,
  start_request, claim_eligible_fetch_job,
}
use self_rss.Ingestion.Jobs.Holding.{Outcome, FinishStatus}
use self_rss.Ingestion.Jobs.Leases.{KeepsLease, claim-KeepsLease}
use self_rss.Ingestion.Jobs.Grants.{Grant, claim-Grant}
use self_rss.Ingestion.Jobs.Fencing.{IsFenced, claim-fences}
use self_rss.Ingestion.Jobs.Politeness.{claim-spaced}

abbrev first_job : Job
first_job = record {
  id = 1;
  kind = JobKind.manual;
  priority = 100;
  source_id = 10;
  origin_id = 20;
  snapshot_id = none;
  status = JobStatus.queued;
  available_at = 50;
  lease_owner = none;
  lease_expires_at = none;
  attempts = 0;
  max_attempts = 5;
  last_error_code = none;
  last_error_details = none;
  created_at = 40;
  updated_at = 40;
  started_at = none;
  completed_at = none;
  dead_at = none;
}

-- A job of another source of the publisher, with a snapshot, and one under a live lease.
abbrev second_job : Job
second_job = record first_job { id = 2; source_id = 11; priority = 0 }

abbrev held_job : Job
held_job = record first_job {
  id = 3;
  origin_id = 21;
  status = JobStatus.running;
  lease_owner = some 9;
  lease_expires_at = some 500;
}

abbrev source : Source
source = record {
  id = 10;
  origin_id = 20;
  state = SourceState.active;
  last_fetch_at = none;
  last_unconditional_fetch_at = none;
  next_fetch_at = 0;
  min_interval_seconds = 1800;
  backoff_until = none;
  updated_at = 0;
}

abbrev origin : Origin
origin = record {
  id = 20;
  last_request_at = none;
  next_allowed_request_at = none;
  retry_after_until = none;
  blocked_until = none;
  updated_at = 0;
}

abbrev db : Db
db = record {
  jobs = first_job ∷ second_job ∷ held_job ∷ [];
  items = [];
  requests = [];
  sources = source ∷ record source { id = 11 } ∷ [];
  origins = origin ∷ [];
  snapshots = [];
  deliveries = [];
  feeds =
      record { id = 30; source_id = some 10; pending_source_id = none }
      ∷ record { id = 31; source_id = some 11; pending_source_id = none }
      ∷ [];
}

abbrev claim : Claimed
claim = record {
  job = record first_job {
    status = JobStatus.running;
    lease_owner = some 7;
    lease_expires_at = some 160;
    attempts = 1;
    updated_at = 100;
    started_at = some 100;
  };
  source = some source;
  origin = some (record origin {
    last_request_at = some 100;
    next_allowed_request_at = some 102;
    updated_at = 100;
  });
}

claims_first : (claim_eligible_fetch_job 7 60 100 2 db).1 ≡ some claim
unfolding claim_eligible_fetch_job bury_exhausted is_exhausted retire_unsubscribed_jobs
    is_unsubscribed claim_candidate is_eligible claimed_before job_due has_source_subscription
    snapshot_recovery is_recoverable source_due origin_due is_fetching start_request first_by
claims_first = refl

claim-KeepsLease_example :
    All₂ (KeepsLease 100) db.jobs (claim_eligible_fetch_job 7 60 100 2 db).0.jobs
claim-KeepsLease_example = claim-KeepsLease 7 60 100 2 db

claim-Grant_example : Grant 7 60 100 2 db claim
claim-Grant_example = claim-Grant 7 60 100 2 db claim (refl, (refl, (refl, tt))) claims_first

abbrev finished : Outcome
finished = record {
  status = FinishStatus.completed;
  completes_without_delivery = false;
  available_at = none;
  error = none;
  source = none;
  origin = none;
}

claim-fences_example : IsFenced 1 9 60 finished 170 (claim_eligible_fetch_job 7 60 100 2 db).0
claim-fences_example =
    claim-fences 7 9 60 100 2 db claim finished 170 60 (refl, (refl, (refl, tt))) claims_first
      (ground arith)

-- A moment later, a job of the publisher whose document is there already.
abbrev recovered_job : Job
recovered_job = record second_job { snapshot_id = some 40 }

abbrev later_db : Db
later_db = record db {
  jobs = recovered_job ∷ [];
  origins =
      record origin {
        last_request_at = some 100;
        next_allowed_request_at = some 102;
        updated_at = 100;
      }
      ∷ [];
  snapshots =
      record {
        id = 40;
        source_id = 11;
        job_id = some 2;
        parse_state = ParseState.parsed;
        has_raw_body = false;
      }
      ∷ [];
}

abbrev later_claim : Claimed
later_claim = record {
  job = record recovered_job {
    status = JobStatus.running;
    lease_owner = some 8;
    lease_expires_at = some 161;
    attempts = 1;
    updated_at = 101;
    started_at = some 101;
  };
  source = some (record source { id = 11 });
  origin = some (record origin {
    last_request_at = some 100;
    next_allowed_request_at = some 102;
    updated_at = 100;
  });
}

claims_recovered : (claim_eligible_fetch_job 8 60 101 2 later_db).1 ≡ some later_claim
unfolding claim_eligible_fetch_job bury_exhausted is_exhausted retire_unsubscribed_jobs
    is_unsubscribed claim_candidate is_eligible claimed_before job_due has_source_subscription
    snapshot_recovery is_recoverable source_due origin_due is_fetching start_request first_by
claims_recovered = refl

origins_kept : later_db.origins ≡ (claim_eligible_fetch_job 7 60 100 2 db).0.origins
unfolding claim_eligible_fetch_job bury_exhausted is_exhausted retire_unsubscribed_jobs
    is_unsubscribed claim_candidate is_eligible claimed_before job_due has_source_subscription
    snapshot_recovery is_recoverable source_due origin_due is_fetching start_request first_by
    distinct aggregate_refresh_requests
origins_kept = refl

claim-spaced_example : later_claim.job.snapshot_id ≢ none
claim-spaced_example =
    claim-spaced 7 60 100 2 db claim 8 60 101 2 later_db later_claim claims_first refl origins_kept
      (refl, tt) claims_recovered (ground arith) refl

-- Another source is due, and the one with a job is not.
abbrev due_db : Db
due_db = record db { jobs = first_job ∷ [] }

schedules :
    (enqueue_due_sources (λ s. 500 + s) 5 100 30 due_db).1
    ≡ scheduled_job 511 (record source { id = 11 }) 130 100 ∷ []
unfolding enqueue_due_sources due_sources is_due_source due_before insert_jobs
    has_source_subscription sort_by insert_by take
schedules = refl

enqueue-IsDue_example :
    let r = enqueue_due_sources (λ s. 500 + s) 5 100 30 due_db in
    (r.0.jobs ≡ due_db.jobs ++ r.1)
    × (length r.1 ≤ 5)
    × All (IsDue (λ s. 500 + s) 100 30 due_db) r.1
enqueue-IsDue_example = enqueue-IsDue (λ s. 500 + s) 5 100 30 due_db
