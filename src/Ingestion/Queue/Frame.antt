-- ===== src/Ingestion/Queue/Frame.antt =====
-- packages/api/src/services/durable-refresh-queue.ts: what the loop that fills the queue writes.
use mathlib.Core.Option.{none-ne-some}
use self_rss.Prelude.{
  ℕ, ◌≡◌, sym, subst, ◌⊎◌, inl, inr, true, false, some, List, [], ◌∷◌, ◌++◌, >>=_some, ◌==◌,
  is_some, max, ltb, if◌then◌else◌, find, update_where, Bool-cases, Option-cases, eq_of_some,
}
use self_rss.Prelude.Text.{Text}
use self_rss.Ingestion.Tables.{JobKind, Job, Source, Db}
use self_rss.Ingestion.Queue.{
  QueueInput, Drawn, enqueue_or_attach, job_conflicts, new_job, is_active_for, attach,
}
use self_rss.Ingestion.Queue.Filling.{deferral_of, enqueue_source, enqueue_sources}

abbrev pub inserted : ℕ → Source → ℕ → ℕ → Db → Db × Job
inserted id source priority now db = (
  record db { jobs = db.jobs ++ (new_job id source priority now ∷ []) },
  new_job id source priority now,
)

abbrev pub attached : Job → ℕ → ℕ → Db → Db × Job
attached active priority now db = (
  record db { jobs = update_where (λ j. j.id == active.id) (attach priority now active) db.jobs },
  record active {
    kind = JobKind.manual;
    priority = max active.priority priority;
    available_at = if ltb now active.available_at then now else active.available_at;
  },
)

-- A source without an active job gets a new one, and another source the one that it has.
pub enqueue_or_attach-cases :
    (id : ℕ) (source : Source) (priority now : ℕ) (db : Db) (r : Db × Job)
    → enqueue_or_attach id source priority now db ≡ some r
    → ((job_conflicts (new_job id source priority now) db.jobs ≡ false)
        × (inserted id source priority now db ≡ r))
      ⊎ ((active : Job) × (find (is_active_for source.id) db.jobs ≡ some active)
          × (attached active priority now db ≡ r))
unfolding enqueue_or_attach
enqueue_or_attach-cases id source priority now db r h =
    elim (Bool-cases (job_conflicts (new_job id source priority now) db.jobs)) [
      | inl e ↦ elim (Option-cases (find (is_active_for source.id) db.jobs)) [
        | inl f ↦ absurd (none-ne-some r (rw (e, f) at h))
        | inr (a, f) ↦ inr (a, f, eq_of_some _ r (rw (e, f) at h))
      ]
      | inr e ↦ inl (e, eq_of_some _ r (rw e at h))
    ]

module _ (to_iso : ℕ → Text) (input : QueueInput) (drawn : Drawn) (now : ℕ) where
  pub enqueue_source-cases :
      (before : Db) (source : Source) (db : Db) (r : Db × List Job)
      → enqueue_source to_iso input drawn now before source db ≡ some r
      → ((is_some (deferral_of to_iso input drawn now before source) ≡ true) × (r ≡ (db, [])))
        ⊎ ((q : Db × Job) × (enqueue_or_attach (drawn.job source.id) source 100 now db ≡ some q)
            × (r ≡ (q.0, q.1 ∷ [])))
  unfolding enqueue_source
  enqueue_source-cases before source db r h =
      elim (Bool-cases (is_some (deferral_of to_iso input drawn now before source))) [
        | inl e ↦ inl (e, sym (eq_of_some _ r (rw e at h)))
        | inr e ↦ elim (Option-cases (enqueue_or_attach (drawn.job source.id) source 100 now db)) [
          | inl f ↦ absurd (none-ne-some r (rw (e, f) at h))
          | inr (q, f) ↦ inr (q, f, sym (eq_of_some _ r (rw (e, f) at h)))
        ]
      ]

  -- The loop keeps what every turn that enqueues keeps.
  module _ (R : Db → Db → Type 0) (same : (db : Db) → R db db)
      (trans : (a b c : Db) → R a b → R b c → R a c)
      (step : (id : ℕ) (source : Source) (db : Db) (q : Db × Job)
        → enqueue_or_attach id source 100 now db ≡ some q
        → R db q.0) where
    pub enqueue_source-keeps :
        (before : Db) (source : Source) (db : Db) (r : Db × List Job)
        → enqueue_source to_iso input drawn now before source db ≡ some r
        → R db r.0
    enqueue_source-keeps before source db r h = elim (enqueue_source-cases before source db r h) [
      | inl (_, e) ↦ rw e (same db)
      | inr (q, f, e) ↦ rw e (step (drawn.job source.id) source db q f)
    ]

    pub enqueue_sources-keeps :
        (before : Db) (sources : List Source) (db : Db) (r : Db × List Job)
        → enqueue_sources to_iso input drawn now before sources db ≡ some r
        → R db r.0
    unfolding enqueue_sources
    enqueue_sources-keeps before [] db r h =
        subst (λ r. R db r.0) (eq_of_some (db, []) r h) (same db)
    enqueue_sources-keeps before (s ∷ rest) db r h =
        let (q, e, h') = >>=_some (enqueue_source to_iso input drawn now before s db) _ h in
        let (d, f, h'') = >>=_some (enqueue_sources to_iso input drawn now before rest q.0) _ h' in
        subst (λ r. R db r.0) (eq_of_some (d.0, q.1 ++ d.1) r h'')
          (trans db q.0 d.0 (enqueue_source-keeps before s db q e)
            (enqueue_sources-keeps before rest q.0 d f))
