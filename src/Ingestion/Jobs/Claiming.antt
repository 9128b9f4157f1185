-- ===== src/Ingestion/Jobs/Claiming.antt =====
-- packages/api/src/repositories/feed-ingestion-source-work.repository.ts: how a worker claims
-- a job. A transaction is one function from the database to the database.
use self_rss.Prelude.{
  ℕ, ◌+◌, max, Bool, not, ◌&&◌, ◌||◌, Option, none, some, List, ◌++◌, map, ◌==◌, if◌then◌else◌,
  is_some, find, select, update_where, first_by, distinct,
}
use self_rss.Prelude.Text.{Text, codes}
use self_rss.Ingestion.Tables.{
  Job, JobStatus, job_is, Item, ItemStatus, is_active_item, Source, Origin, Feed, Db,
}
use self_rss.Ingestion.Aggregate.{aggregate_refresh_requests}
use self_rss.Ingestion.Jobs.Eligibility.{
  is_past, is_in, has_source_subscription, is_exhausted, job_due, is_eligible, source_of, origin_of,
  claimed_before,
}

abbrev pub ids_of : List Job → List ℕ
ids_of = map λ j. j.id

abbrev pub requests_of : List Item → List ℕ
requests_of = map λ i. i.request_id

abbrev pub bury : ℕ → Job → Job
bury now j = record j {
  status = JobStatus.dead;
  lease_owner = none;
  lease_expires_at = none;
  updated_at = now;
  dead_at = some now;
}

-- The first part of a claim: expired leases with no attempt left.
unfoldable pub bury_exhausted : ℕ → Db → Db × List ℕ
bury_exhausted now db =
    let buried = ids_of (select (is_exhausted now) db.jobs) in
    (
      record db {
        jobs = update_where (is_exhausted now) (bury now) db.jobs;
        items =
            update_where (λ i. is_in i.job_id buried)
              (λ i. record i {
                status = ItemStatus.dead;
                updated_at = now;
                completed_at = some now;
              })
              db.items;
      },
      distinct (requests_of (select (λ i. is_in i.job_id buried) db.items)),
    )

abbrev pub no_subscribers : Option Text
no_subscribers = some (codes "no_subscribers")

abbrev pub no_subscriptions : Option Text
no_subscriptions = some (codes "No subscriptions reference this source")

unfoldable pub is_unsubscribed : ℕ → List Feed → Job → Bool
unfolding has_source_subscription
is_unsubscribed now feeds j =
    (job_is j.status JobStatus.queued
      || job_is j.status JobStatus.running && is_past j.lease_expires_at now)
    && not (has_source_subscription feeds j.source_id)

abbrev pub retire : ℕ → Job → Job
retire now j = record j {
  status = JobStatus.completed;
  lease_owner = none;
  lease_expires_at = none;
  last_error_code = no_subscribers;
  last_error_details = no_subscriptions;
  updated_at = now;
  completed_at = some now;
}

-- `retireUnsubscribedJobs`.
unfoldable pub retire_unsubscribed_jobs : ℕ → Db → Db × List ℕ
retire_unsubscribed_jobs now db =
    let retired = ids_of (select (is_unsubscribed now db.feeds) db.jobs) in
    let failing = λ (i : Item). is_in i.job_id retired && is_active_item i.status in
    (
      record db {
        jobs = update_where (is_unsubscribed now db.feeds) (retire now) db.jobs;
        items =
            update_where failing
              (λ i. record i {
                status = ItemStatus.failed;
                last_error_code = no_subscribers;
                last_error_details = no_subscriptions;
                updated_at = now;
                completed_at = some now;
              })
              db.items;
      },
      requests_of (select failing db.items),
    )

abbrev pub lease : ℕ → ℕ → ℕ → Job → Job
lease worker lease_seconds now j = record j {
  status = JobStatus.running;
  lease_owner = some worker;
  lease_expires_at = some (now + max 1 lease_seconds);
  attempts = j.attempts + 1;
  updated_at = now;
  started_at = some now;
}

pub record Claimed : Type 0 where
  pub job : Job
  pub source : Option Source
  pub origin : Option Origin

-- The request to the publisher that a claim with no snapshot starts.
unfoldable pub start_request : ℕ → ℕ → Job → List Origin → List Origin
start_request gap now j origins =
    if is_some j.snapshot_id
    then origins
    else update_where (λ o. o.id == j.origin_id)
        (λ o. record o {
          last_request_at = some now;
          next_allowed_request_at = some (now + gap);
          updated_at = now;
        })
        origins

-- The rest of a claim: the best candidate, and the lease on it.
unfoldable pub claim_candidate : ℕ → ℕ → ℕ → ℕ → Db → Db × Option Claimed
claim_candidate worker lease_seconds now gap db =
    elim (first_by claimed_before (select (is_eligible gap now db) db.jobs)) [
      | none ↦ (db, none)
      | some c ↦
          let due = λ (j : Job). j.id == c.id && job_due now j in
          elim (find due db.jobs) [
            | none ↦ (db, none)
            | some j ↦
                let started = record db {
                  jobs = update_where due (lease worker lease_seconds now) db.jobs;
                  origins = start_request gap now j db.origins;
                } in
                (
                  started,
                  some (record {
                    job = lease worker lease_seconds now j;
                    source = source_of started j;
                    origin = origin_of started j;
                  }),
                )
          ]
    ]

unfoldable pub claim_eligible_fetch_job : ℕ → ℕ → ℕ → ℕ → Db → Db × Option Claimed
claim_eligible_fetch_job worker lease_seconds now gap db =
    let (buried, expired) = bury_exhausted now db in
    let (retired, failed) = retire_unsubscribed_jobs now buried in
    let (claimed, claim) = claim_candidate worker lease_seconds now gap retired in
    (aggregate_refresh_requests (expired ++ failed) now claimed, claim)
