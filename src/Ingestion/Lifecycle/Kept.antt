-- ===== src/Ingestion/Lifecycle/Kept.antt =====
-- packages/api/src/db/schema.ts: what an update keeps of the constraints on `feed_fetch_jobs`.
use self_rss.Prelude.{
  Unique, false, find-holds, ◌++◌, ℕ, ◌≡◌, refl, sym, subst, ◌∙◌, inl, inr, Bool, true, false, ◌||◌,
  some, List, [], ◌∷◌, ◌++◌, arith, ◌==◌, ==_iff, any, find, contains, update_where, All,
  Bool-cases, eq_of_some,
}
use mathlib.Core.Option.{none-ne-some}
use self_rss.Prelude.Rows.{find-Has, Has, Has-contains, All-append}
use self_rss.Prelude.Keys.{Unique-append}
use self_rss.Ingestion.Tables.{Job, is_active_job}
use self_rss.Ingestion.Jobs.Claiming.{ids_of}
use self_rss.Ingestion.Queue.{is_active_for}
use self_rss.Ingestion.Lifecycle.{JobOk, OneActive, JobsOk}

-- The change of a job keeps what the constraints speak of: it makes no job active, and the identity stays.
abbrev pub Tame : Job → Job → Type 0
Tame j j' =
    (j'.id ≡ j.id)
    × (j'.source_id ≡ j.source_id)
    × (is_active_job j'.status ≡ true → is_active_job j.status ≡ true)
    × (JobOk j → JobOk j')

module _ (p : Job → Bool) (f : Job → Job) where
  -- The change is a tame one of the rows of this table that the update writes.
  abbrev pub IsTameOn : List Job → Type 0
  IsTameOn jobs = (j : Job) → Has j jobs → p j ≡ true → Tame j (f j)

  absent-kept :
      (source_id : ℕ) (jobs : List Job)
      → IsTameOn jobs
      → any (is_active_for source_id) jobs ≡ false
      → any (is_active_for source_id) (update_where p f jobs) ≡ false
  absent-kept source_id [] t h = refl
  absent-kept source_id (j ∷ jobs) t h =
      let rest = absent-kept source_id jobs (λ k m. t k (inr m)) (ground arith) in
      elim (Bool-cases (p j)) [
        | inr e ↦ rw (e, rest) (ground arith)
        | inl e ↦
            let (_, same, active, _) = t j (inl refl) e in
            rw (e, rest) (idle (f j) j source_id same active (ground arith))
      ]
    where
      idle :
          (k j : Job) (source_id : ℕ)
          → k.source_id ≡ j.source_id
          → (is_active_job k.status ≡ true → is_active_job j.status ≡ true)
          → is_active_for source_id j ≡ false
          → (is_active_for source_id k || false) ≡ false
      idle k j source_id same active h = elim (Bool-cases (is_active_job k.status)) [
        | inl e ↦ let a = active e in ground arith
        | inr e ↦ ground arith
      ]

  update-OneActive :
      (jobs : List Job) → IsTameOn jobs → OneActive jobs → OneActive (update_where p f jobs)
  update-OneActive [] t h = tt
  update-OneActive (j ∷ jobs) t h =
      let rest = update-OneActive jobs (λ k m. t k (inr m)) h.1 in
      elim (Bool-cases (p j)) [
        | inr e ↦ rw e (λ a. absent-kept j.source_id jobs (λ k m. t k (inr m)) (h.0 a), rest)
        | inl e ↦
            let (_, same, active, _) = t j (inl refl) e in
            rw (e, same)
              (λ a. absent-kept j.source_id jobs (λ k m. t k (inr m)) (h.0 (active a)), rest)
      ]

  update-JobOk :
      (jobs : List Job) → IsTameOn jobs → All JobOk jobs → All JobOk (update_where p f jobs)
  update-JobOk [] t h = tt
  update-JobOk (j ∷ jobs) t h =
      let rest = update-JobOk jobs (λ k m. t k (inr m)) h.1 in
      elim (Bool-cases (p j)) [
        | inr e ↦ rw e (h.0, rest)
        | inl e ↦ rw e ((t j (inl refl) e).3 h.0, rest)
      ]

  update-ids : (jobs : List Job) → IsTameOn jobs → ids_of (update_where p f jobs) ≡ ids_of jobs
  update-ids [] t = refl
  update-ids (j ∷ jobs) t = elim (Bool-cases (p j)) [
    | inr e ↦ rw (e, update-ids jobs (λ k m. t k (inr m))) refl
    | inl e ↦ rw (e, update-ids jobs (λ k m. t k (inr m)), (t j (inl refl) e).0) refl
  ]

  pub update-JobsOk :
      (jobs : List Job) → IsTameOn jobs → JobsOk jobs → JobsOk (update_where p f jobs)
  update-JobsOk jobs t (ok, one, unique) = (
    update-JobOk jobs t ok,
    update-OneActive jobs t one,
    subst Unique (sym (update-ids jobs t)) unique,
  )

-- A row that is added with a new key and for a source without an active job.
any-append_false :
    (p : Job → Bool) (j : Job) (jobs : List Job)
    → any p jobs ≡ false
    → p j ≡ false
    → any p (jobs ++ (j ∷ [])) ≡ false
any-append_false p j [] h k = ground arith
any-append_false p j (x ∷ jobs) h k =
    let rest = any-append_false p j jobs (ground arith) k in ground arith

OneActive-append :
    (j : Job) (jobs : List Job)
    → OneActive jobs
    → any (is_active_for j.source_id) jobs ≡ false
    → OneActive (jobs ++ (j ∷ []))
OneActive-append j [] h k = (λ _. refl, tt)
OneActive-append j (x ∷ jobs) h k = (
  λ a. any-append_false (is_active_for x.source_id) j jobs (h.0 a) (ground arith),
  OneActive-append j jobs h.1 (ground arith),
)

ids-append : (j : Job) (jobs : List Job) → ids_of (jobs ++ (j ∷ [])) ≡ ids_of jobs ++ (j.id ∷ [])
ids-append j [] = refl
ids-append j (x ∷ jobs) = rw (ids-append j jobs) refl

any-contains :
    (i : ℕ) (jobs : List Job) → any (λ j. j.id == i) jobs ≡ false → contains i (ids_of jobs) ≡ false
any-contains i [] h = refl
any-contains i (j ∷ jobs) h = ground (arith, any-contains i jobs (ground arith))

pub append-JobsOk :
    (j : Job) (jobs : List Job)
    → JobOk j
    → any (λ k. k.id == j.id) jobs ≡ false
    → any (is_active_for j.source_id) jobs ≡ false
    → JobsOk jobs
    → JobsOk (jobs ++ (j ∷ []))
append-JobsOk j jobs ok fresh idle (all_ok, one, unique) = (
  All-append JobOk jobs (j ∷ []) all_ok (ok, tt),
  OneActive-append j jobs one idle,
  subst Unique (sym (ids-append j jobs))
      (Unique-append j.id (ids_of jobs) unique (any-contains j.id jobs fresh)),
)

-- In a table with unique keys a row with the key of another is that row.
absent :
    (i : ℕ) (j : Job) (jobs : List Job)
    → contains i (ids_of jobs) ≡ false
    → Has j jobs
    → (j.id == i) ≡ true
    → ⊥
absent i j jobs h m k =
    let here =
      subst (λ n. contains n (ids_of jobs) ≡ true) ((==_iff j.id i).0 k)
        (Has-contains (λ j. j.id) j jobs m) in
    ground arith

pub same_key_same_row :
    (p : Job → Bool) (i : ℕ) (a j : Job)
    → ((x : Job) → p x ≡ true → (x.id == i) ≡ true)
    → (jobs : List Job) → Unique (ids_of jobs)
    → find p jobs ≡ some a
    → Has j jobs
    → (j.id == i) ≡ true
    → j ≡ a
same_key_same_row p i a j keyed [] u h m k = absurd (none-ne-some a h)
same_key_same_row p i a j keyed (x ∷ jobs) u h m k = elim (Bool-cases (p x)) [
  | inl q ↦ elim m [
    | inl here ↦ here ∙ eq_of_some x a (rw q at h)
    | inr rest ↦ absurd (absent i j jobs (alone (keyed x q)) rest k)
  ]
  | inr q ↦
      let found = rw q at h in
      elim m [
        | inr rest ↦ same_key_same_row p i a j keyed jobs u.1 found rest k
        | inl here ↦ absurd (
            absent i a jobs (alone (subst (λ j. (j.id == i) ≡ true) here k))
              (find-Has _ a jobs found) (keyed a (find-holds _ jobs found)))
      ]
]
  where
    alone : (x.id == i) ≡ true → contains i (ids_of jobs) ≡ false
    alone e = subst (λ n. contains n (ids_of jobs) ≡ false) ((==_iff x.id i).0 e) u.0
