-- ===== src/Ingestion/Jobs/Leases.antt =====
-- packages/api/src/repositories/feed-ingestion-source-work.repository.ts: a claim takes no live
-- lease away, and what it leases is due.
use self_rss.Prelude.{
  ℕ, ◌≡◌, refl, subst, ◌∙◌, ◌⊎◌, inl, inr, Bool, true, false, not, ◌&&◌, Option, none, some, List,
  arith, ◌==◌, find, select, update_where, first_by, Option-cases,
}
use self_rss.Prelude.Rows.{All₂, All₂-refl, All₂-update_where, All₂-trans}
use self_rss.Ingestion.Tables.{Job, JobStatus, job_is, Db}
use self_rss.Ingestion.Aggregate.Frame.{aggregate_refresh_requests-SameWork}
use self_rss.Ingestion.Jobs.Eligibility.{
  is_clear, is_exhausted, job_due, is_eligible, source_of, origin_of, claimed_before,
}
use self_rss.Ingestion.Jobs.Claiming.{
  bury, bury_exhausted, is_unsubscribed, retire, retire_unsubscribed_jobs, lease, Claimed,
  start_request, claim_candidate, claim_eligible_fetch_job,
}

-- A worker still holds the job.
abbrev pub is_live : ℕ → Job → Bool
is_live now j = job_is j.status JobStatus.running && not (is_clear j.lease_expires_at now)

-- The row keeps its key, and it does not change while a worker holds it.
abbrev pub KeepsLease : ℕ → Job → Job → Type 0
KeepsLease now j j' = (j'.id ≡ j.id) × ((is_live now j ≡ false) ⊎ (j' ≡ j))

KeepsLease-trans :
    (now : ℕ) (x y z : Job) → KeepsLease now x y → KeepsLease now y z → KeepsLease now x z
KeepsLease-trans now x y z (i, inl d) (k, r) = (k ∙ i, inl d)
KeepsLease-trans now x y z (i, inr e) (k, inl d) =
    (k ∙ i, inl (subst (λ j. is_live now j ≡ false) e d))
KeepsLease-trans now x y z (i, inr e) (k, inr f) = (k ∙ i, inr (f ∙ e))

update-KeepsLease :
    (now : ℕ) (p : Job → Bool) (f : Job → Job)
    → ((j : Job) → (f j).id ≡ j.id)
    → ((j : Job) → p j ≡ true → is_live now j ≡ false)
    → (jobs : List Job) → All₂ (KeepsLease now) jobs (update_where p f jobs)
update-KeepsLease now p f same dead =
    All₂-update_where (KeepsLease now) p f (λ j. (refl, inr refl)) (λ j h. (same j, inl (dead j h)))

not-live_exhausted : (now : ℕ) (j : Job) → is_exhausted now j ≡ true → is_live now j ≡ false
unfolding is_exhausted
not-live_exhausted now j h = ground arith

not-live_due : (now : ℕ) (j : Job) → job_due now j ≡ true → is_live now j ≡ false
unfolding job_due
not-live_due now j h = ground arith

not-live_unsubscribed :
    (now : ℕ) (db : Db) (j : Job) → is_unsubscribed now db.feeds j ≡ true → is_live now j ≡ false
unfolding is_unsubscribed
not-live_unsubscribed now db j h = ground arith

bury_exhausted-KeepsLease :
    (now : ℕ) (db : Db) → All₂ (KeepsLease now) db.jobs (bury_exhausted now db).0.jobs
unfolding bury_exhausted
bury_exhausted-KeepsLease now db =
    update-KeepsLease now (is_exhausted now) (bury now) (λ j. refl) (not-live_exhausted now) db.jobs

retire-KeepsLease :
    (now : ℕ) (db : Db) → All₂ (KeepsLease now) db.jobs (retire_unsubscribed_jobs now db).0.jobs
unfolding retire_unsubscribed_jobs
retire-KeepsLease now db =
    update-KeepsLease now (is_unsubscribed now db.feeds) (retire now) (λ j. refl)
      (not-live_unsubscribed now db) db.jobs

-- The database and the answer after the job `j`, due under the key of the candidate `c`, is leased.
module _ (worker lease_seconds now gap : ℕ) (db : Db) where
  abbrev pub due_as : Job → Job → Bool
  due_as c j = j.id == c.id && job_due now j

  abbrev pub after_claim : Job → Job → Db
  after_claim c j = record db {
    jobs = update_where (due_as c) (lease worker lease_seconds now) db.jobs;
    origins = start_request gap now j db.origins;
  }

  abbrev pub claimed : Job → Job → Claimed
  claimed c j = record {
    job = lease worker lease_seconds now j;
    source = source_of (after_claim c j) j;
    origin = origin_of (after_claim c j) j;
  }

  abbrev pub candidate : Option Job
  candidate = first_by claimed_before (select (is_eligible gap now db) db.jobs)

  -- A claim leases the best eligible job, or does nothing.
  pub claim_candidate-cases :
      (claim_candidate worker lease_seconds now gap db ≡ (db, none))
      ⊎ ((c : Job) × (j : Job) × (candidate ≡ some c)
          × (find (due_as c) db.jobs ≡ some j)
          × (claim_candidate worker lease_seconds now gap db
              ≡ (after_claim c j, some (claimed c j))))
  unfolding claim_candidate
  claim_candidate-cases = elim (Option-cases candidate) [
    | inl e ↦ inl (rw (e, claim_candidate) refl)
    | inr (c, e) ↦ elim (Option-cases (find (due_as c) db.jobs)) [
      | inl f ↦ inl (rw (e, claim_candidate) (rw (f, claim_candidate) refl))
      | inr (j, f) ↦ inr (c, j, e, f, rw (e, claim_candidate) (rw (f, claim_candidate) refl))
    ]
  ]

  claim_candidate-KeepsLease :
      All₂ (KeepsLease now) db.jobs (claim_candidate worker lease_seconds now gap db).0.jobs
  claim_candidate-KeepsLease = elim claim_candidate-cases [
    | inl e ↦ rw e (All₂-refl (KeepsLease now) (λ j. (refl, inr refl)) db.jobs)
    | inr (c, j, _, _, e) ↦ rw e (
        update-KeepsLease now (due_as c) (lease worker lease_seconds now) (λ j. refl)
          (λ j h. not-live_due now j (ground arith)) db.jobs)
  ]

-- The first two parts of a claim.
pub swept-KeepsLease :
    (now : ℕ) (db : Db)
    → All₂ (KeepsLease now) db.jobs (retire_unsubscribed_jobs now (bury_exhausted now db).0).0.jobs
swept-KeepsLease now db =
    let buried = (bury_exhausted now db).0 in
    All₂-trans (KeepsLease now) (KeepsLease-trans now) db.jobs buried.jobs _
      (bury_exhausted-KeepsLease now db) (retire-KeepsLease now buried)

-- No claim takes a job from a worker that still holds it: in the table after the claim every row
-- whose lease has not run out is the row before, and every row keeps its key.
pub claim-KeepsLease :
    (worker lease_seconds now gap : ℕ) (db : Db)
    → All₂
        (KeepsLease now)
        db.jobs
        (claim_eligible_fetch_job worker lease_seconds now gap db).0.jobs
unfolding claim_eligible_fetch_job
claim-KeepsLease worker lease_seconds now gap db =
    let retired = (retire_unsubscribed_jobs now (bury_exhausted now db).0).0 in
    let claim = (claim_candidate worker lease_seconds now gap retired).0 in
    rw (aggregate_refresh_requests-SameWork _ now claim).0 (
      All₂-trans (KeepsLease now) (KeepsLease-trans now) db.jobs retired.jobs claim.jobs
        (swept-KeepsLease now db) (claim_candidate-KeepsLease worker lease_seconds now gap retired))
