-- ===== src/Ingestion/Jobs/Fencing.antt =====
-- packages/api/src/repositories/feed-ingestion-source-work.repository.ts: a worker that lost its
-- lease can do nothing with the job any more.
use self_rss.Prelude.{
  Unique, ℕ, ◌≡◌, refl, ◌≢◌, ◌⊎◌, inl, inr, false, none, some, List, [], ◌∷◌, arith, ◌==◌, is_eq,
  find, All,
}
use self_rss.Prelude.Rows.{update_where-none}
use self_rss.Ingestion.Tables.{Job, Db}
use self_rss.Ingestion.Jobs.Claiming.{Claimed, claim_eligible_fetch_job, ids_of}
use self_rss.Ingestion.Jobs.Grants.{claim-Grant}
use self_rss.Ingestion.Jobs.Holding.{
  is_held, renew_fetch_job, record_unconditional_fetch_attempt, release_fetch_job, Outcome,
  finish_fetch_job,
}

-- The four calls of a worker about its job, when it does not hold it: no row is written.
abbrev pub IsFenced : ℕ → ℕ → ℕ → Outcome → ℕ → Db → Type 0
IsFenced job_id worker lease_seconds outcome now db =
    (renew_fetch_job job_id worker lease_seconds now db ≡ (db, none))
    × (release_fetch_job job_id worker now db ≡ (db, none))
    × (finish_fetch_job job_id worker outcome now db ≡ (db, none))
    × (record_unconditional_fetch_attempt job_id worker now db ≡ (db, none))

not_held-IsFenced :
    (job_id worker lease_seconds : ℕ) (outcome : Outcome) (now : ℕ) (db : Db)
    → find (is_held job_id worker) db.jobs ≡ none
    → IsFenced job_id worker lease_seconds outcome now db
unfolding renew_fetch_job release_fetch_job finish_fetch_job record_unconditional_fetch_attempt
not_held-IsFenced job_id worker lease_seconds outcome now db h = (
  rw (h, update_where-none (is_held job_id worker) _ db.jobs h) refl,
  rw (h, release_fetch_job) refl,
  rw (h, finish_fetch_job) refl,
  rw (h, record_unconditional_fetch_attempt) refl,
)

-- The one row of the job names another worker.
only-not_held :
    (i other : ℕ) (j : Job) (jobs : List Job)
    → is_eq j.lease_owner other ≡ false
    → All (λ x. ((x.id == i) ≡ false) ⊎ (x ≡ j)) jobs
    → find (is_held i other) jobs ≡ none
only-not_held i other j [] h a = refl
only-not_held i other j (x ∷ xs) h (inl e, a) = rw e (only-not_held i other j xs h a)
only-not_held i other j (x ∷ xs) h (inr e, a) =
    let miss : is_held i other x ≡ false = ground arith in rw miss (only-not_held i other j xs h a)

-- Once a job is claimed, no other worker can renew, release or finish it, nor record an attempt:
-- in the database after the claim each of these calls answers nothing and leaves everything as it
-- is. No two jobs of the database have one key.
pub claim-fences :
    (worker other lease_seconds now gap : ℕ) (db : Db) (cl : Claimed) (outcome : Outcome)
    (later renewal : ℕ)
    → Unique (ids_of db.jobs)
    → (claim_eligible_fetch_job worker lease_seconds now gap db).1 ≡ some cl
    → other ≢ worker
    → IsFenced cl.job.id other renewal outcome later
        (claim_eligible_fetch_job worker lease_seconds now gap db).0
claim-fences worker other lease_seconds now gap db cl outcome later renewal u h ne =
    let g = claim-Grant worker lease_seconds now gap db cl u h in
    not_held-IsFenced cl.job.id other renewal outcome later _
      (only-not_held cl.job.id other cl.job _ (rw g.leased (ground arith)) g.only.1)
