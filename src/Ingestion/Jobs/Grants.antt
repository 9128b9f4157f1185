-- ===== src/Ingestion/Jobs/Grants.antt =====
-- packages/api/src/repositories/feed-ingestion-source-work.repository.ts: what a claim grants.
use self_rss.Prelude.{
  Unique, ℕ, ◌≡◌, refl, sym, ap, subst, ◌∙◌, inl, inr, true, false, some, arith, find, select,
  update_where, All, eq_of_some,
}
use mathlib.Core.Option.{none-ne-some}
use self_rss.Prelude.Rows.{
  first_by-first, Has, IsOnly, update-IsOnly, select_sound, first_by-Has, find-key,
  map-update_where,
}
use self_rss.Ingestion.Tables.{Job, Db}
use self_rss.Ingestion.Aggregate.Frame.{aggregate_refresh_requests-SameWork}
use self_rss.Ingestion.Jobs.Eligibility.{job_due, is_eligible, claimed_before}
use self_rss.Ingestion.Jobs.Claiming.{
  bury, bury_exhausted, retire, retire_unsubscribed_jobs, lease, Claimed, claim_candidate,
  claim_eligible_fetch_job, is_unsubscribed, ids_of,
}
use self_rss.Ingestion.Jobs.Eligibility.{is_exhausted}
use self_rss.Ingestion.Jobs.Leases.{candidate, claim_candidate-cases, after_claim, claimed, due_as}

-- The order of the claims is a strict weak order.
before_trans :
    (a b c : Job)
    → claimed_before a b ≡ false
    → claimed_before b c ≡ false
    → claimed_before a c ≡ false
unfolding claimed_before
before_trans a b c h k = ground arith

before-asym : (a b : Job) → claimed_before a b ≡ true → claimed_before b a ≡ false
unfolding claimed_before
before-asym a b h = ground arith

before_irrefl : (a : Job) → claimed_before a a ≡ false
unfolding claimed_before
before_irrefl a = ground arith

-- The key of every row is kept up to the choice of the candidate.
bury_exhausted-ids : (now : ℕ) (db : Db) → ids_of (bury_exhausted now db).0.jobs ≡ ids_of db.jobs
unfolding bury_exhausted
bury_exhausted-ids now db =
    map-update_where (λ j. j.id) (is_exhausted now) (bury now) (λ j. refl) db.jobs

retire-ids : (now : ℕ) (db : Db) → ids_of (retire_unsubscribed_jobs now db).0.jobs ≡ ids_of db.jobs
unfolding retire_unsubscribed_jobs
retire-ids now db =
    map-update_where (λ j. j.id) (is_unsubscribed now db.feeds) (retire now) (λ j. refl) db.jobs

-- The database in which a claim chooses its job.
abbrev pub swept : ℕ → Db → Db
swept now db = (retire_unsubscribed_jobs now (bury_exhausted now db).0).0

eligible-due :
    (gap now : ℕ) (db : Db) (j : Job) → is_eligible gap now db j ≡ true → job_due now j ≡ true
unfolding is_eligible
eligible-due gap now db j h = ground arith

-- What a claim grants to the worker: the job `j` of the swept table, which was eligible, before
-- which no eligible job comes, and which had an attempt left, is running under a lease of its own.
pub record Grant (worker lease_seconds now gap : ℕ) (db : Db) (cl : Claimed) : Type 0 where
  pub job : Job
  pub listed : Has job (swept now db).jobs
  pub eligible : is_eligible gap now (swept now db) job ≡ true
  pub first :
      All
        (λ k. claimed_before k job ≡ false)
        (select (is_eligible gap now (swept now db)) (swept now db).jobs)
  pub leased : cl.job ≡ lease worker lease_seconds now job
  pub only :
      IsOnly
        (λ j. j.id)
        cl.job.id
        cl.job
        (claim_eligible_fetch_job worker lease_seconds now gap db).0.jobs

module _ (worker lease_seconds now gap : ℕ) (db : Db) (u : Unique (ids_of db.jobs)) where
  swept-Unique : Unique (ids_of (swept now db).jobs)
  swept-Unique =
      subst Unique (sym (retire-ids now (bury_exhausted now db).0 ∙ bury_exhausted-ids now db)) u

  -- The row found under the key of an eligible candidate is the candidate.
  candidate-found :
      (c j : Job)
      → Has c (swept now db).jobs
      → is_eligible gap now (swept now db) c ≡ true
      → find (due_as worker lease_seconds now gap (swept now db) c) (swept now db).jobs ≡ some j
      → c ≡ j
  candidate-found c j has ok found = eq_of_some c j (
      sym (
        find-key (λ k. k.id) (job_due now) c (swept now db).jobs has swept-Unique
          (eligible-due gap now (swept now db) c ok))
      ∙ found)

  granted :
      (c j : Job)
      → candidate worker lease_seconds now gap (swept now db) ≡ some c
      → find (due_as worker lease_seconds now gap (swept now db) c) (swept now db).jobs ≡ some j
      → claim_candidate worker lease_seconds now gap (swept now db) ≡ (
        after_claim worker lease_seconds now gap (swept now db) c j,
        some (claimed worker lease_seconds now gap (swept now db) c j),
      )
      → Grant worker lease_seconds now gap db
          (claimed worker lease_seconds now gap (swept now db) c j)
  unfolding claim_eligible_fetch_job
  granted c j best found e =
      let (has, ok) =
        select_sound (is_eligible gap now (swept now db)) c (swept now db).jobs
          (first_by-Has claimed_before c _ best) in
      let same = candidate-found c j has ok found in
      record {
        job = j;
        listed = subst (λ k. Has k (swept now db).jobs) same has;
        eligible = subst (λ k. is_eligible gap now (swept now db) k ≡ true) same ok;
        first =
            first_by-first claimed_before before_trans before-asym before_irrefl j _
              (best ∙ ap some same);
        leased = refl;
        only =
            rw ((aggregate_refresh_requests-SameWork _ now _).0, e)
              (subst
                (λ k.
                  IsOnly (λ j. j.id) k.id (lease worker lease_seconds now j)
                    (update_where (due_as worker lease_seconds now gap (swept now db) c)
                      (lease worker lease_seconds now) (swept now db).jobs))
                same
                (update-IsOnly (λ j. j.id) (lease worker lease_seconds now) (λ j. refl) c.id
                  (job_due now) j (swept now db).jobs swept-Unique found));
      }

-- A claim that answers grants the best eligible job: among the jobs left by the two sweeps it is
-- eligible, and no eligible one comes before it; what is answered is that job under the worker's
-- lease, and it is the only row of its key in the table afterwards. No two jobs of the database
-- have one key.
pub claim-Grant :
    (worker lease_seconds now gap : ℕ) (db : Db) (cl : Claimed)
    → Unique (ids_of db.jobs)
    → (claim_eligible_fetch_job worker lease_seconds now gap db).1 ≡ some cl
    → Grant worker lease_seconds now gap db cl
unfolding claim_eligible_fetch_job
claim-Grant worker lease_seconds now gap db cl u h =
    elim (claim_candidate-cases worker lease_seconds now gap (swept now db)) [
      | inl e ↦ absurd (none-ne-some cl (rw e at h))
      | inr (c, j, best, found, e) ↦
          subst (Grant worker lease_seconds now gap db)
            (eq_of_some (claimed worker lease_seconds now gap (swept now db) c j) cl (rw e at h))
            (granted worker lease_seconds now gap db u c j best found e)
    ]
