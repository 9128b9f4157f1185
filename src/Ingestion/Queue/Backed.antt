-- ===== src/Ingestion/Queue/Backed.antt =====
-- packages/api/src/services/durable-refresh-queue.ts: the jobs that the loop over the sources answers
-- are active rows of the table.
use self_rss.Prelude.{
  any-find, Bool-cases, ◌==◌, false, any, ◌⊎◌, ℕ, ◌≡◌, refl, sym, subst, ◌⊎◌, inl, inr, Bool, true,
  some, List, [], ◌∷◌, ◌++◌, >>=_some, arith, ◌==◌, ==_refl, ==_iff, is_some, if◌then◌else◌,
  if-both, any, All, Bool-cases, eq_of_some, find-holds,
}
use self_rss.Prelude.Text.{Text}
use self_rss.Prelude.Rows.{
  Has, Has-append, Has-last, Has-update_where, find-Has, All-append, All-mono,
}
use self_rss.Ingestion.Tables.{Job, is_active_job, Source, Db}
use self_rss.Ingestion.Queue.{QueueInput, Drawn, enqueue_or_attach, new_job, is_active_for, attach}
use self_rss.Ingestion.Queue.Filling.{deferral_of, enqueue_source, enqueue_sources}
use self_rss.Ingestion.Queue.Frame.{
  inserted, attached, enqueue_or_attach-cases, enqueue_source-cases, enqueue_sources-keeps,
}

-- The table has an active job with this identifier, for this source.
abbrev pub Backed : Db → ℕ → ℕ → Type 0
Backed db id source_id =
    (k : Job) × Has k db.jobs
    × (k.id ≡ id)
    × (k.source_id ≡ source_id)
    × (is_active_job k.status ≡ true)

-- Attaching to a job keeps every job in the table, active, and for its source.
attach-Backed :
    (active : Job) (priority now : ℕ) (db : Db) (id source_id : ℕ)
    → Backed db id source_id
    → Backed (attached active priority now db).0 id source_id
attach-Backed active priority now db id source_id (k, has, i, s, a) =
    let p = λ (j : Job). j.id == active.id in
    (
      if p k then attach priority now active k else k,
      Has-update_where p (attach priority now active) k db.jobs has,
      if-both (λ j. j.id ≡ id) (p k) (attach priority now active k) k i i,
      if-both (λ j. j.source_id ≡ source_id) (p k) (attach priority now active k) k s s,
      if-both (λ j. is_active_job j.status ≡ true) (p k) (attach priority now active k) k a a,
    )

enqueue_or_attach-keeps :
    (id : ℕ) (source : Source) (priority now : ℕ) (db : Db) (q : Db × Job)
    → enqueue_or_attach id source priority now db ≡ some q
    → (i s : ℕ) → Backed db i s
    → Backed q.0 i s
enqueue_or_attach-keeps id source priority now db q h i s b =
    elim (enqueue_or_attach-cases id source priority now db q h) [
      | inl (_, e) ↦
          subst (λ q. Backed q.0 i s) e (b.0, Has-append b.0 db.jobs _ b.1, b.2, b.3, b.4)
      | inr (active, _, e) ↦
          subst (λ q. Backed q.0 i s) e (attach-Backed active priority now db i s b)
    ]

-- The job that is answered is one for the source, and in the table.
pub enqueue_or_attach-Backed :
    (id : ℕ) (source : Source) (priority now : ℕ) (db : Db) (q : Db × Job)
    → enqueue_or_attach id source priority now db ≡ some q
    → (q.1.source_id ≡ source.id) × Backed q.0 q.1.id q.1.source_id
enqueue_or_attach-Backed id source priority now db q h =
    elim (enqueue_or_attach-cases id source priority now db q h) [
      | inl (_, e) ↦
          subst (λ q. (q.1.source_id ≡ source.id) × Backed q.0 q.1.id q.1.source_id) e
            (refl, (new_job id source priority now, Has-last _ db.jobs, refl, refl, refl))
      | inr (active, f, e) ↦
          let holds = find-holds (is_active_for source.id) db.jobs f in
          subst (λ q. (q.1.source_id ≡ source.id) × Backed q.0 q.1.id q.1.source_id) e
            (
              (==_iff _ _).0 (ground arith),
              attach-Backed active priority now db active.id active.source_id
                  (active, find-Has _ active db.jobs f, refl, refl, ground arith),
            )
    ]

module _ (to_iso : ℕ → Text) (input : QueueInput) (drawn : Drawn) (now : ℕ) where
  abbrev pub IsBacked : Db → Job → Type 0
  IsBacked db j = Backed db j.id j.source_id

  -- A source that is not deferred has a job among them.
  abbrev pub IsServed : Db → List Job → Source → Type 0
  IsServed before jobs s =
      (is_some (deferral_of to_iso input drawn now before s) ≡ true)
      ⊎ (any (λ j. j.source_id == s.id) jobs ≡ true)

  sources-keep :
      (before : Db) (sources : List Source) (db : Db) (r : Db × List Job)
      → enqueue_sources to_iso input drawn now before sources db ≡ some r
      → (i s : ℕ) → Backed db i s
      → Backed r.0 i s
  sources-keep =
      enqueue_sources-keeps to_iso input drawn now (λ a b. (i s : ℕ) → Backed a i s → Backed b i s)
        (λ _ i s b. b) (λ a b c h k i s x. k i s (h i s x))
        (λ id source db q h. enqueue_or_attach-keeps id source 100 now db q h)

  any-append : (p : Job → Bool) (xs ys : List Job) → any p xs ≡ true → any p (xs ++ ys) ≡ true
  any-append p [] ys h = cc
  any-append p (x ∷ xs) ys h = elim (Bool-cases (p x)) [
    | inl e ↦ rw e refl
    | inr e ↦ rw e (any-append p xs ys (rw e at h))
  ]

  any-append_right : (p : Job → Bool) (xs ys : List Job) → any p ys ≡ true → any p (xs ++ ys) ≡ true
  any-append_right p [] ys h = h
  any-append_right p (x ∷ xs) ys h = rw (any-append_right p xs ys h) (ground arith)

  source-serves :
      (before : Db) (s : Source) (db : Db) (q : Db × List Job)
      → enqueue_source to_iso input drawn now before s db ≡ some q
      → All (IsBacked q.0) q.1 × IsServed before q.1 s
  source-serves before s db q h =
      elim (enqueue_source-cases to_iso input drawn now before s db q h) [
        | inl (d, e) ↦
            subst (λ q. All (IsBacked q.0) q.1 × IsServed before q.1 s) (sym e) (tt, inl d)
        | inr (o, f, e) ↦
            let (same, b) = enqueue_or_attach-Backed (drawn.job s.id) s 100 now db o f in
            subst (λ q. All (IsBacked q.0) q.1 × IsServed before q.1 s) (sym e)
              ((b, tt), inr (rw (same, ==_refl s.id) refl))
      ]

  -- What the loop promises of its answer.
  pub sources-serve :
      (before : Db) (sources : List Source) (db : Db) (r : Db × List Job)
      → enqueue_sources to_iso input drawn now before sources db ≡ some r
      → All (IsBacked r.0) r.1 × All (IsServed before r.1) sources
  unfolding enqueue_sources
  sources-serve before [] db r h =
      subst (λ r. All (IsBacked r.0) r.1 × All (IsServed before r.1) []) (eq_of_some (db, []) r h)
        (tt, tt)
  sources-serve before (s ∷ rest) db r h =
      let (q, e, h') = >>=_some (enqueue_source to_iso input drawn now before s db) _ h in
      let (d, f, h'') = >>=_some (enqueue_sources to_iso input drawn now before rest q.0) _ h' in
      let (backed, served) = source-serves before s db q e in
      let (backed', served') = sources-serve before rest q.0 d f in
      subst (λ r. All (IsBacked r.0) r.1 × All (IsServed before r.1) (s ∷ rest))
        (eq_of_some (d.0, q.1 ++ d.1) r h'')
        (
          All-append (IsBacked d.0) q.1 d.1
              (All-mono (λ j b. sources-keep before rest q.0 d f j.id j.source_id b) q.1 backed)
              backed',
          (
            elim served [ inl x ↦ inl x | inr x ↦ inr (any-append _ q.1 d.1 x) ],
            All-mono
                (λ s served. elim served [
                  | inl x ↦ inl x
                  | inr x ↦ inr (any-append_right _ q.1 d.1 x)
                ])
                rest served',
          ),
        )

-- A source always gets a job: with an identifier that is not in the table, enqueueing never fails,
-- since an insertion that conflicts finds the active job that it conflicts with. The job that is
-- answered is for that source, and is active in the table.
pub enqueue_or_attach_total :
    (id : ℕ) (source : Source) (priority now : ℕ) (db : Db)
    → any (λ j. j.id == id) db.jobs ≡ false
    → (q : Db × Job) × (enqueue_or_attach id source priority now db ≡ some q)
      × (q.1.source_id ≡ source.id)
      × Backed q.0 q.1.id q.1.source_id
unfolding enqueue_or_attach
enqueue_or_attach_total id source priority now db fresh =
    let (q, e) = answers (Bool-cases (any (is_active_for source.id) db.jobs)) in
    let (same, backed) = enqueue_or_attach-Backed id source priority now db q e in
    (q, e, same, backed)
  where
    answers :
        (any (is_active_for source.id) db.jobs ≡ true)
          ⊎ (any (is_active_for source.id) db.jobs ≡ false)
        → (q : Db × Job) × (enqueue_or_attach id source priority now db ≡ some q)
    answers (inl e) =
        let (active, f) = any-find (is_active_for source.id) db.jobs e in
        (attached active priority now db, rw (fresh, e, f) refl)
    answers (inr e) = (inserted id source priority now db, rw (fresh, e) refl)
