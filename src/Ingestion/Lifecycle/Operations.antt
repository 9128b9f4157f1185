-- ===== src/Ingestion/Lifecycle/Operations.antt =====
-- packages/api/src/repositories/feed-ingestion-source-work.repository.ts and
-- packages/api/src/services/durable-refresh-queue.ts: every operation keeps the constraints.
use self_rss.Prelude.Rows.{All-map}
use self_rss.Ingestion.Jobs.Scheduling.{
  enqueue_due_sources, insert_jobs, scheduled_job, due_sources, has_active_job,
}
use self_rss.Prelude.{
  Bool-cases, ◌+◌, not, ◌||◌, List, [], ◌∷◌, ◌++◌, map, All, any, Unique, ℕ, ◌≡◌, refl, sym, subst,
  inl, inr, true, some, List, arith, ◌==◌, find, Option-cases, find-holds,
}
use self_rss.Prelude.Rows.{Has}
use self_rss.Ingestion.Tables.{Job, is_active_job, Source, Db}
use self_rss.Ingestion.Aggregate.Frame.{aggregate_refresh_requests-SameWork}
use self_rss.Ingestion.Jobs.Eligibility.{is_exhausted, job_due}
use self_rss.Ingestion.Jobs.Claiming.{
  ids_of, bury, bury_exhausted, is_unsubscribed, retire, retire_unsubscribed_jobs, lease,
  claim_candidate, claim_eligible_fetch_job,
}
use self_rss.Ingestion.Jobs.Leases.{claim_candidate-cases, due_as}
use self_rss.Ingestion.Jobs.Holding.{
  is_held, renew_fetch_job, record_unconditional_fetch_attempt, release_fetch_job, Outcome,
  finished_job, finish_fetch_job,
}
use self_rss.Ingestion.Queue.{enqueue_or_attach, new_job, attach}
use self_rss.Ingestion.Queue.Frame.{enqueue_or_attach-cases}
use self_rss.Ingestion.Lifecycle.{Step, JobOk, JobsOk}
use self_rss.Ingestion.Lifecycle.Kept.{Tame, update-JobsOk, append-JobsOk, same_key_same_row}

bury-JobsOk : (now : ℕ) (db : Db) → JobsOk db.jobs → JobsOk (bury_exhausted now db).0.jobs
unfolding bury_exhausted
bury-JobsOk now db =
    update-JobsOk (is_exhausted now) (bury now) db.jobs
      (λ j _ _. (refl, refl, (λ a. ground arith), λ ok. (refl, refl, ok.2)))

retire-JobsOk :
    (now : ℕ) (db : Db) → JobsOk db.jobs → JobsOk (retire_unsubscribed_jobs now db).0.jobs
unfolding retire_unsubscribed_jobs
retire-JobsOk now db =
    update-JobsOk (is_unsubscribed now db.feeds) (retire now) db.jobs
      (λ j _ _. (refl, refl, (λ a. ground arith), λ ok. (refl, refl, ok.2)))

lease-Tame :
    (worker lease_seconds now : ℕ) (j : Job)
    → job_due now j ≡ true
    → Tame j (lease worker lease_seconds now j)
unfolding job_due
lease-Tame worker lease_seconds now j due =
    (refl, refl, (λ a. ground arith), λ ok. (refl, refl, ground arith))

claim_candidate-JobsOk :
    (worker lease_seconds now gap : ℕ) (db : Db)
    → JobsOk db.jobs
    → JobsOk (claim_candidate worker lease_seconds now gap db).0.jobs
claim_candidate-JobsOk worker lease_seconds now gap db ok =
    elim (claim_candidate-cases worker lease_seconds now gap db) [
      | inl e ↦ rw e ok
      | inr (c, j, _, _, e) ↦ rw e (
          update-JobsOk (due_as worker lease_seconds now gap db c) (lease worker lease_seconds now)
            db.jobs (λ k _ due. lease-Tame worker lease_seconds now k (ground arith)) ok)
    ]

claim-JobsOk :
    (worker lease_seconds now gap : ℕ) (db : Db)
    → JobsOk db.jobs
    → JobsOk (claim_eligible_fetch_job worker lease_seconds now gap db).0.jobs
unfolding claim_eligible_fetch_job
claim-JobsOk worker lease_seconds now gap db ok =
    let buried = (bury_exhausted now db).0 in
    let retired = (retire_unsubscribed_jobs now buried).0 in
    let claim = (claim_candidate worker lease_seconds now gap retired).0 in
    rw (aggregate_refresh_requests-SameWork _ now claim).0 (
      claim_candidate-JobsOk worker lease_seconds now gap retired
        (retire-JobsOk now buried (bury-JobsOk now db ok)))

renew-JobsOk :
    (job_id worker lease_seconds now : ℕ) (db : Db)
    → JobsOk db.jobs
    → JobsOk (renew_fetch_job job_id worker lease_seconds now db).0.jobs
unfolding renew_fetch_job
renew-JobsOk job_id worker lease_seconds now db =
    update-JobsOk (is_held job_id worker) _ db.jobs
      (λ j _ held. (refl, refl, (λ a. a), λ ok. (ok.0, ground arith, ok.2)))

attempt-JobsOk :
    (job_id worker now : ℕ) (db : Db)
    → JobsOk db.jobs
    → JobsOk (record_unconditional_fetch_attempt job_id worker now db).0.jobs
unfolding record_unconditional_fetch_attempt
attempt-JobsOk job_id worker now db ok =
    elim (Option-cases (find (is_held job_id worker) db.jobs)) [
      | inl e ↦ rw (e, record_unconditional_fetch_attempt) ok
      | inr (job, e) ↦ rw (e, record_unconditional_fetch_attempt) ok
    ]

-- A row with the key of a held job is active, since it is that job.
held-active :
    (job_id worker : ℕ) (job j : Job) (jobs : List Job)
    → Unique (ids_of jobs)
    → find (is_held job_id worker) jobs ≡ some job
    → Has j jobs
    → (j.id == job_id) ≡ true
    → is_active_job j.status ≡ true
held-active job_id worker job j jobs u e m k =
    let same =
      same_key_same_row (is_held job_id worker) job_id job j (λ x h. ground arith) jobs u e m k in
    let held = find-holds (is_held job_id worker) jobs e in
    subst (λ j. is_active_job j.status ≡ true) (sym same) (ground arith)

release-JobsOk :
    (job_id worker now : ℕ) (db : Db)
    → JobsOk db.jobs
    → JobsOk (release_fetch_job job_id worker now db).0.jobs
unfolding release_fetch_job
release-JobsOk job_id worker now db ok =
    elim (Option-cases (find (is_held job_id worker) db.jobs)) [
      | inl e ↦ rw (e, release_fetch_job) ok
      | inr (job, e) ↦
          rw (e, release_fetch_job)
            (update-JobsOk (λ j. j.id == job_id) _ db.jobs
              (λ j m k. (
                refl,
                refl,
                (λ _. held-active job_id worker job j db.jobs ok.2 e m k),
                λ j_ok. (refl, refl, ground arith),
              ))
              ok)
    ]

finished-JobOk :
    (outcome : Outcome) (now : ℕ) (job j : Job) → JobOk j → JobOk (finished_job outcome now job j)
unfolding finished_job
finished-JobOk outcome now job j ok = ground arith

finished-same :
    (outcome : Outcome) (now : ℕ) (job j : Job)
    → ((finished_job outcome now job j).id ≡ j.id)
      × ((finished_job outcome now job j).source_id ≡ j.source_id)
unfolding finished_job
finished-same outcome now job j = (refl, refl)

finish-JobsOk :
    (job_id worker : ℕ) (outcome : Outcome) (now : ℕ) (db : Db)
    → JobsOk db.jobs
    → JobsOk (finish_fetch_job job_id worker outcome now db).0.jobs
unfolding finish_fetch_job
finish-JobsOk job_id worker outcome now db ok =
    elim (Option-cases (find (is_held job_id worker) db.jobs)) [
      | inl e ↦ rw (e, finish_fetch_job) ok
      | inr (job, e) ↦
          rw (e, finish_fetch_job)
            (update-JobsOk (λ j. j.id == job_id) (finished_job outcome now job) db.jobs
              (λ j m k. (
                (finished-same outcome now job j).0,
                (finished-same outcome now job j).1,
                (λ _. held-active job_id worker job j db.jobs ok.2 e m k),
                finished-JobOk outcome now job j,
              ))
              ok)
    ]

enqueue-JobsOk :
    (id : ℕ) (source : Source) (priority now : ℕ) (db : Db) (q : Db × Job)
    → enqueue_or_attach id source priority now db ≡ some q
    → JobsOk db.jobs
    → JobsOk q.0.jobs
enqueue-JobsOk id source priority now db q h ok =
    elim (enqueue_or_attach-cases id source priority now db q h) [
      | inl (free, e) ↦
          subst (λ q. JobsOk q.0.jobs) e
            (append-JobsOk (new_job id source priority now) db.jobs (refl, refl, ground arith)
              (ground arith) (ground arith) ok)
      | inr (active, _, e) ↦
          subst (λ q. JobsOk q.0.jobs) e
            (update-JobsOk (λ j. j.id == active.id) (attach priority now active) db.jobs
              (λ j _ _. (refl, refl, (λ a. a), λ ok. ok)) ok)
    ]

insert_jobs-JobsOk :
    (rows jobs : List Job) → All JobOk rows → JobsOk jobs → JobsOk (insert_jobs rows jobs).0
unfolding insert_jobs
insert_jobs-JobsOk [] jobs rows_ok ok = ok
insert_jobs-JobsOk (row ∷ rows) jobs rows_ok ok =
    elim (Bool-cases (not (any (λ j. j.id == row.id) jobs || has_active_job row.source_id jobs))) [
      | inl e ↦ rw e (
          insert_jobs-JobsOk rows (jobs ++ (row ∷ [])) rows_ok.1
            (append-JobsOk row jobs rows_ok.0 (ground arith) (ground arith) ok))
      | inr e ↦ rw e (insert_jobs-JobsOk rows jobs rows_ok.1 ok)
    ]

schedule-JobsOk :
    (uuid : ℕ → ℕ) (limit now jitter_seconds : ℕ) (db : Db)
    → JobsOk db.jobs
    → JobsOk (enqueue_due_sources uuid limit now jitter_seconds db).0.jobs
unfolding enqueue_due_sources
schedule-JobsOk uuid limit now jitter_seconds db ok =
    let job = λ (s : Source). scheduled_job (uuid s.id) s (now + jitter_seconds) now in
    insert_jobs-JobsOk (map job (due_sources limit now db)) db.jobs
      (All-map JobOk job (λ s. (refl, refl, omega arith)) (due_sources limit now db)) ok

pub step-JobsOk : (db after : Db) → Step db after → JobsOk db.jobs → JobsOk after.jobs
step-JobsOk db _ (Step.enqueue id source priority now q h) ok =
    enqueue-JobsOk id source priority now db q h ok
step-JobsOk db _ (Step.schedule uuid limit now jitter_seconds) ok =
    schedule-JobsOk uuid limit now jitter_seconds db ok
step-JobsOk db _ (Step.claim worker lease_seconds now gap) ok =
    claim-JobsOk worker lease_seconds now gap db ok
step-JobsOk db _ (Step.renew job_id worker lease_seconds now) ok =
    renew-JobsOk job_id worker lease_seconds now db ok
step-JobsOk db _ (Step.attempt job_id worker now) ok = attempt-JobsOk job_id worker now db ok
step-JobsOk db _ (Step.release job_id worker now) ok = release-JobsOk job_id worker now db ok
step-JobsOk db _ (Step.finish job_id worker outcome now) ok =
    finish-JobsOk job_id worker outcome now db ok
step-JobsOk db _ (Step.aggregate request_ids now) ok =
    rw (aggregate_refresh_requests-SameWork request_ids now db).0 ok
