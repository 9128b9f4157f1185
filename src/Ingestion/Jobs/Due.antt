-- ===== src/Ingestion/Jobs/Due.antt =====
-- packages/api/src/repositories/feed-ingestion-source-work.repository.ts: which jobs the scheduler
-- adds.
use mathlib.Core.List.{append-nil, append_assoc}
use self_rss.Prelude.{
  ℕ, zero, suc, ◌+◌, ◌≤◌, ◌≡◌, refl, sym, ◌∙◌, ◌⊎◌, inl, inr, Bool, true, not, ◌||◌, List, [], ◌∷◌,
  ◌++◌, map, arith, ◌==◌, any, length, sort_by, insert_by, take, All, Bool-cases,
}
use self_rss.Prelude.Rows.{Has, select_sound}
use self_rss.Ingestion.Tables.{Job, Source, Db}
use self_rss.Ingestion.Jobs.Scheduling.{
  has_active_job, is_due_source, due_before, due_sources, scheduled_job, insert_jobs,
  enqueue_due_sources,
}

-- Sorting and cutting add no element.
insert_by-Has :
    (before : Source → Source → Bool) (a x : Source) (xs : List Source)
    → Has a (insert_by before x xs)
    → (a ≡ x) ⊎ Has a xs
unfolding insert_by
insert_by-Has before a x [] m = m
insert_by-Has before a x (y ∷ ys) m = elim (Bool-cases (before y x)) [
  | inr e ↦ rw e at m
  | inl e ↦ split (rw e at m) (insert_by-Has before a x ys)
]
  where
    split :
        (a ≡ y) ⊎ Has a (insert_by before x ys)
        → (Has a (insert_by before x ys) → (a ≡ x) ⊎ Has a ys)
        → (a ≡ x) ⊎ Has a (y ∷ ys)
    split (inl same) ih = inr (inl same)
    split (inr rest) ih = elim (ih rest) [ inl same ↦ inl same | inr r ↦ inr (inr r) ]

sort_by-Has :
    (before : Source → Source → Bool) (a : Source) (xs : List Source)
    → Has a (sort_by before xs)
    → Has a xs
unfolding sort_by
sort_by-Has before a [] m = m
sort_by-Has before a (x ∷ xs) m = elim (insert_by-Has before a x (sort_by before xs) m) [
  | inl same ↦ inl same
  | inr rest ↦ inr (sort_by-Has before a xs rest)
]

take-Has : (n : ℕ) (a : Source) (xs : List Source) → Has a (take n xs) → Has a xs
unfolding take
take-Has zero a xs m = elim m [ ]
take-Has (suc n) a [] m = m
take-Has (suc n) a (x ∷ xs) (inl same) = inl same
take-Has (suc n) a (x ∷ xs) (inr m) = inr (take-Has n a xs m)

length-take-le : (n : ℕ) (xs : List Source) → length (take n xs) ≤ n
unfolding take
length-take-le zero xs = omega arith
length-take-le (suc n) [] = omega arith
length-take-le (suc n) (x ∷ xs) = omega (arith, length-take-le n xs)

due_sources-Has :
    (limit now : ℕ) (db : Db) (s : Source)
    → Has s (due_sources limit now db)
    → Has s db.sources × (is_due_source now db s ≡ true)
unfolding due_sources
due_sources-Has limit now db s m =
    select_sound (is_due_source now db) s db.sources
      (sort_by-Has due_before s _ (take-Has limit s _ m))

bounded : (limit now : ℕ) (db : Db) → length (due_sources limit now db) ≤ limit
unfolding due_sources
bounded limit now db = length-take-le limit _

-- What the insertions add is what they answer, of the rows given.
pub insert_jobs-append :
    (rows jobs : List Job) → (insert_jobs rows jobs).0 ≡ jobs ++ (insert_jobs rows jobs).1
unfolding insert_jobs
insert_jobs-append [] jobs = sym (append-nil jobs)
insert_jobs-append (row ∷ rows) jobs =
    elim (Bool-cases (not (any (λ j. j.id == row.id) jobs || has_active_job row.source_id jobs))) [
      | inl e ↦ rw e (insert_jobs-append rows (jobs ++ (row ∷ [])) ∙ append_assoc jobs (row ∷ []) _)
      | inr e ↦ rw e (insert_jobs-append rows jobs)
    ]

module _ (P : Job → Type 0) where
  insert_jobs-All : (rows jobs : List Job) → All P rows → All P (insert_jobs rows jobs).1
  unfolding insert_jobs
  insert_jobs-All [] jobs h = tt
  insert_jobs-All (row ∷ rows) jobs h =
      elim (Bool-cases
        (not (any (λ j. j.id == row.id) jobs || has_active_job row.source_id jobs))) [
          | inl e ↦ rw e (h.0, insert_jobs-All rows (jobs ++ (row ∷ [])) h.1)
          | inr e ↦ rw e (insert_jobs-All rows jobs h.1)
        ]

insert_jobs-le : (rows jobs : List Job) → length (insert_jobs rows jobs).1 ≤ length rows
unfolding insert_jobs
insert_jobs-le [] jobs = omega arith
insert_jobs-le (row ∷ rows) jobs =
    elim (Bool-cases (not (any (λ j. j.id == row.id) jobs || has_active_job row.source_id jobs))) [
      | inl e ↦ rw e (omega (arith, insert_jobs-le rows (jobs ++ (row ∷ []))))
      | inr e ↦ rw e (omega (arith, insert_jobs-le rows jobs))
    ]

module _ (uuid : ℕ → ℕ) (now jitter_seconds : ℕ) (db : Db) where
  -- The job is the one of a source that is due.
  abbrev pub IsDue : Job → Type 0
  IsDue j =
      (s : Source) × Has s db.sources
      × (is_due_source now db s ≡ true)
      × (j ≡ scheduled_job (uuid s.id) s (now + jitter_seconds) now)

  rows-IsDue :
      (sources : List Source)
      → ((s : Source) → Has s sources → Has s db.sources × (is_due_source now db s ≡ true))
      → All IsDue (map (λ s. scheduled_job (uuid s.id) s (now + jitter_seconds) now) sources)
  rows-IsDue [] h = tt
  rows-IsDue (s ∷ sources) h =
      ((s, (h s (inl refl)).0, (h s (inl refl)).1, refl), rows-IsDue sources (λ t m. h t (inr m)))

length-map : (f : Source → Job) (sources : List Source) → length (map f sources) ≡ length sources
length-map f [] = refl
length-map f (s ∷ sources) = omega (arith, length-map f sources)

-- The scheduler adds at most as many jobs as it is allowed to, after those that are there, and each
-- is a new queued job of a source that is fetched, subscribed to, past its time and without an active
-- job. What it answers is what it added.
pub enqueue-IsDue :
    (uuid : ℕ → ℕ) (limit now jitter_seconds : ℕ) (db : Db)
    → let r = enqueue_due_sources uuid limit now jitter_seconds db in
      (r.0.jobs ≡ db.jobs ++ r.1)
      × (length r.1 ≤ limit)
      × All (IsDue uuid now jitter_seconds db) r.1
unfolding enqueue_due_sources
enqueue-IsDue uuid limit now jitter_seconds db =
    let due = due_sources limit now db in
    let job = λ (s : Source). scheduled_job (uuid s.id) s (now + jitter_seconds) now in
    (
      insert_jobs-append (map job due) db.jobs,
      within (insert_jobs-le (map job due) db.jobs) (length-map job due) (bounded limit now db),
      insert_jobs-All (IsDue uuid now jitter_seconds db) (map job due) db.jobs
          (rows-IsDue uuid now jitter_seconds db due (due_sources-Has limit now db)),
    )
  where
    within : {a b c : ℕ} → a ≤ b → b ≡ c → c ≤ limit → a ≤ limit
    within h k l = omega (arith, h, k, l)
