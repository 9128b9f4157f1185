-- ===== src/Ingestion/Jobs/Politeness.antt =====
-- packages/api/src/repositories/feed-ingestion-source-work.repository.ts: requests to one publisher
-- are kept apart.
use mathlib.Core.Option
use mathlib.Core.Option.{none-ne-some}
use self_rss.Prelude.{
  Unique, ap, eq_of_some, inl, inr, ◌<◌, ◌≢◌, find-update_where, ℕ, ◌+◌, ◌≡◌, refl, sym, ◌∙◌, inl,
  inr, true, false, Option, none, some, arith, ◌==◌, find, any, Option-cases,
}
use self_rss.Ingestion.Tables.{Job, Origin, Db}
use self_rss.Ingestion.Aggregate.Frame.{aggregate_refresh_requests-SameWork}
use self_rss.Ingestion.Jobs.Claiming.{
  Claimed, bury_exhausted, retire_unsubscribed_jobs, claim_eligible_fetch_job, ids_of, lease,
}
use self_rss.Ingestion.Jobs.Leases.{claimed, claim_candidate-cases}
use self_rss.Ingestion.Jobs.Grants.{swept, claim-Grant}
use self_rss.Ingestion.Jobs.Eligibility.{
  is_eligible, source_of, origin_of, origin_due, snapshot_recovery, is_fetching,
}
use self_rss.Ingestion.Jobs.Claiming.{start_request}

eligible-polite :
    (gap now : ℕ) (db : Db) (j : Job)
    → is_eligible gap now db j ≡ true
    → j.snapshot_id ≡ none
    → (any (is_fetching j.origin_id now) db.jobs ≡ false)
      × ((o : Origin) × (origin_of db j ≡ some o) × (origin_due gap now o ≡ true))
unfolding is_eligible snapshot_recovery
eligible-polite gap now db j h s = elim (Option-cases (source_of db j)) [
  | inl e ↦ absurd (ground arith)
  | inr (source, e) ↦ elim (Option-cases (origin_of db j)) [
    | inl f ↦ absurd (ground arith)
    | inr (o, f) ↦ (ground arith, (o, f, ground arith))
  ]
]

-- The origin's row after a request was started.
start_request-find :
    (gap now : ℕ) (j : Job) (db : Db) (o : Origin)
    → j.snapshot_id ≡ none
    → find (λ o. o.id == j.origin_id) (start_request gap now j db.origins) ≡ some o
    → o.next_allowed_request_at ≡ some (now + gap)
unfolding start_request
start_request-find gap now j db o s h =
    stamped (find (λ o. o.id == j.origin_id) db.origins)
      (sym (find-update_where (λ o. o.id == j.origin_id) stamp (λ o. refl) db.origins) ∙ rw s at h)
  where
    stamp : Origin → Origin
    stamp o = record o {
      last_request_at = some now;
      next_allowed_request_at = some (now + gap);
      updated_at = now;
    }

    stamped :
        (found : Option Origin)
        → Option.map stamp found ≡ some o
        → o.next_allowed_request_at ≡ some (now + gap)
    stamped none h = absurd (none-ne-some o h)
    stamped (some k) h = ground arith

-- The origin is not due before the gap is over.
not-due_again :
    (gap gap' now later : ℕ) (j : Job) (db : Db) (o : Origin)
    → j.snapshot_id ≡ none
    → later < now + gap
    → find (λ o. o.id == j.origin_id) (start_request gap now j db.origins) ≡ some o
    → origin_due gap' later o ≡ true
    → ⊥
unfolding origin_due
not-due_again gap gap' now later j db o s t h due =
    let next = start_request-find gap now j db o s h in ground arith

swept-origins : (now : ℕ) (db : Db) → (swept now db).origins ≡ db.origins
unfolding bury_exhausted retire_unsubscribed_jobs
swept-origins now db = refl

-- What a claim does to the origins.
claim-origins :
    (worker lease_seconds now gap : ℕ) (db : Db) (cl : Claimed)
    → (claim_eligible_fetch_job worker lease_seconds now gap db).1 ≡ some cl
    → (j : Job) × (cl.job ≡ lease worker lease_seconds now j)
      × ((claim_eligible_fetch_job worker lease_seconds now gap db).0.origins
          ≡ start_request gap now j (swept now db).origins)
unfolding claim_eligible_fetch_job
claim-origins worker lease_seconds now gap db cl h =
    elim (claim_candidate-cases worker lease_seconds now gap (swept now db)) [
      | inl e ↦ absurd (none-ne-some cl (rw e at h))
      | inr (c, j, _, _, e) ↦ (
        j,
        sym (
            ap (λ k. k.job)
              (eq_of_some (claimed worker lease_seconds now gap (swept now db) c j) cl
                (rw e at h))),
        (aggregate_refresh_requests-SameWork _ now _).3 ∙ ap (λ r. r.0.origins) e,
      )
    ]

-- Requests to one origin start at least the gap apart. After a claim that contacts the publisher,
-- any claim before the gap is over that gets a job of the same origin gets one that has a snapshot
-- already, and so contacts nobody; whatever else happened to the database in between, so long as
-- the origins are as the first claim left them and no two jobs have one key.
pub claim-spaced :
    (worker lease_seconds now gap : ℕ) (db : Db) (cl : Claimed)
    (worker' lease_seconds' later gap' : ℕ) (db' : Db) (cl' : Claimed)
    → (claim_eligible_fetch_job worker lease_seconds now gap db).1 ≡ some cl
    → cl.job.snapshot_id ≡ none
    → db'.origins ≡ (claim_eligible_fetch_job worker lease_seconds now gap db).0.origins
    → Unique (ids_of db'.jobs)
    → (claim_eligible_fetch_job worker' lease_seconds' later gap' db').1 ≡ some cl'
    → later < now + gap
    → cl'.job.origin_id ≡ cl.job.origin_id
    → cl'.job.snapshot_id ≢ none
claim-spaced worker lease_seconds now gap db cl worker' lease_seconds' later gap' db' cl' h s o u h'
      t same none' =
    let (j, leased, written) = claim-origins worker lease_seconds now gap db cl h in
    let g = claim-Grant worker' lease_seconds' later gap' db' cl' u h' in
    let (_, (row, found, due)) =
      eligible-polite gap' later (swept later db') g.job g.eligible (rw g.leased at none') in
    let origins : (swept later db').origins ≡ start_request gap now j (swept now db).origins =
      swept-origins later db' ∙ o ∙ written in
    let key : g.job.origin_id ≡ j.origin_id =
      ap (λ k. k.origin_id) (sym g.leased) ∙ same ∙ ap (λ k. k.origin_id) leased in
    not-due_again gap gap' now later j (swept now db) row (ap (λ k. k.snapshot_id) (sym leased) ∙ s)
      t (rw (← key, ← origins) found) due
