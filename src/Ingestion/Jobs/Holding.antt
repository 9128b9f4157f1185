-- ===== src/Ingestion/Jobs/Holding.antt =====
-- packages/api/src/repositories/feed-ingestion-source-work.repository.ts: what the holder of
-- a lease does with its job.
use mathlib.Core.Option
use self_rss.Prelude.{
  ℕ, ◌+◌, ◌-◌, max, Bool, not, ◌&&◌, Option, none, some, List, [], map, ltb, ◌==◌, if◌then◌else◌,
  or_else, is_some, length, ◌*◌, is_eq, find, select, update_where, update_returning,
}
use self_rss.Prelude.Text.{Text}
use self_rss.Ingestion.Tables.{
  Job, JobStatus, job_is, Item, ItemStatus, Source, Origin, Delivery, Db,
}
use self_rss.Ingestion.Jobs.Eligibility.{is_in}

-- `and(eq(id, jobId), eq(status, 'running'), eq(leaseOwner, workerId))`.
abbrev pub is_held : ℕ → ℕ → Job → Bool
is_held job_id worker j =
    j.id == job_id && job_is j.status JobStatus.running && is_eq j.lease_owner worker

unfoldable pub renew_fetch_job : ℕ → ℕ → ℕ → ℕ → Db → Db × Option Job
renew_fetch_job job_id worker lease_seconds now db =
    let extend = λ (j : Job). record j {
      lease_expires_at = some (now + max 1 lease_seconds);
      updated_at = now;
    } in
    let (jobs, renewed) = update_returning (is_held job_id worker) extend db.jobs in
    (record db { jobs = jobs }, renewed)

unfoldable pub record_unconditional_fetch_attempt : ℕ → ℕ → ℕ → Db → Db × Option Source
record_unconditional_fetch_attempt job_id worker now db =
    elim (find (is_held job_id worker) db.jobs) [
      | none ↦ (db, none)
      | some job ↦
          let stamp =
            λ (s : Source). record s { last_unconditional_fetch_at = some now; updated_at = now } in
          let (sources, stamped) = update_returning (λ s. s.id == job.source_id) stamp db.sources in
          (record db { sources = sources }, stamped)
    ]

-- 15 minutes.
abbrev pub release_delay : ℕ
release_delay = 15 * 60

unfoldable pub release_fetch_job : ℕ → ℕ → ℕ → Db → Db × Option Job
release_fetch_job job_id worker now db = elim (find (is_held job_id worker) db.jobs) [
  | none ↦ (db, none)
  | some job ↦
      let requeue = λ (j : Job). record j {
        status = JobStatus.queued;
        available_at = if is_some job.snapshot_id then now else now + release_delay;
        lease_owner = none;
        lease_expires_at = none;
        attempts = j.attempts - 1;
        updated_at = now;
      } in
      let (jobs, requeued) = update_returning (λ j. j.id == job_id) requeue db.jobs in
      (record db { jobs = jobs }, requeued)
]

pub data FinishStatus : Type 0 where
  queued completed dead : FinishStatus

abbrev pub to_job_status : FinishStatus → JobStatus
to_job_status FinishStatus.queued = JobStatus.queued
to_job_status FinishStatus.completed = JobStatus.completed
to_job_status FinishStatus.dead = JobStatus.dead

pub record FinishError : Type 0 where
  pub code : Text
  pub details : Option Text

-- The outcome that a worker reports. `source` and `origin` are what the caller's partial updates do
-- to a row; the caller never gives a new identifier.
pub record Outcome : Type 0 where
  pub status : FinishStatus
  pub completes_without_delivery : Bool
  pub available_at : Option ℕ
  pub error : Option FinishError
  pub source : Option (Source → Source)
  pub origin : Option (Origin → Origin)

abbrev pub patch_sources : Option (Source → Source) → ℕ → ℕ → List Source → List Source
patch_sources none id now sources = sources
patch_sources (some patch) id now sources =
    update_where (λ s. s.id == id) (λ s. record (patch s) { updated_at = now }) sources

abbrev pub patch_origins : Option (Origin → Origin) → ℕ → ℕ → List Origin → List Origin
patch_origins none id now origins = origins
patch_origins (some patch) id now origins =
    update_where (λ o. o.id == id) (λ o. record (patch o) { updated_at = now }) origins

unfoldable pub finished_job : Outcome → ℕ → Job → Job → Job
finished_job outcome now job j = record j {
  status = to_job_status outcome.status;
  available_at = or_else outcome.available_at job.available_at;
  lease_owner = none;
  lease_expires_at = none;
  last_error_code = Option.map (λ e. e.code) outcome.error;
  last_error_details = elim outcome.error [ none ↦ none | some e ↦ e.details ];
  updated_at = now;
  completed_at = elim outcome.status [ FinishStatus.completed ↦ some now | _ ↦ none ];
  dead_at = elim outcome.status [ FinishStatus.dead ↦ some now | _ ↦ none ];
}

-- The feeds to which the job's snapshot is delivered.
unfoldable pub delivery_feed_ids : Job → List Delivery → List ℕ
delivery_feed_ids job deliveries = elim job.snapshot_id [
  | none ↦ []
  | some id ↦ map (λ d. d.feed_id) (select (λ d. d.snapshot_id == id) deliveries)
]

abbrev pub set_item : ItemStatus → Option ℕ → ℕ → Item → Item
set_item status completed_at now i = record i {
  status = status;
  completed_at = completed_at;
  updated_at = now;
}

-- What a finished job does to the items that wait for it: a delivery that is still to be made keeps
-- its item running.
unfoldable pub finish_items : Outcome → ℕ → Job → List Delivery → List Item → List Item
unfolding delivery_feed_ids
finish_items outcome now job deliveries items = elim outcome.status [
  | FinishStatus.queued ↦ items
  | FinishStatus.dead ↦
      update_where (λ i. is_eq i.job_id job.id) (set_item ItemStatus.dead (some now) now) items
  | FinishStatus.completed ↦
      let feed_ids = delivery_feed_ids job deliveries in
      if ltb 0 (length feed_ids) && not outcome.completes_without_delivery
      then update_where (λ i. is_eq i.job_id job.id && is_in i.feed_id feed_ids)
          (set_item ItemStatus.running none now)
          (update_where (λ i. is_eq i.job_id job.id && not (is_in i.feed_id feed_ids))
            (set_item ItemStatus.completed (some now) now) items)
      else update_where (λ i. is_eq i.job_id job.id) (set_item ItemStatus.completed (some now) now)
          items
]

unfoldable pub finish_fetch_job : ℕ → ℕ → Outcome → ℕ → Db → Db × Option Job
unfolding finished_job finish_items
finish_fetch_job job_id worker outcome now db = elim (find (is_held job_id worker) db.jobs) [
  | none ↦ (db, none)
  | some job ↦
      let (jobs, updated) =
        update_returning (λ j. j.id == job_id) (finished_job outcome now job) db.jobs in
      (
        record db {
          jobs = jobs;
          items = finish_items outcome now job db.deliveries db.items;
          sources = patch_sources outcome.source job.source_id now db.sources;
          origins = patch_origins outcome.origin job.origin_id now db.origins;
        },
        updated,
      )
]
