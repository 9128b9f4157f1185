-- ===== src/Ingestion/Queue/Attached.antt =====
-- packages/api/src/services/durable-refresh-queue.ts: every pending item waits for an active job.
use mathlib.Core.Option
use mathlib.Core.Option.{none-ne-some}
use self_rss.Prelude.{
  ℕ, ◌≡◌, refl, sym, ap, ◌∙◌, inl, inr, Bool, true, false, not, Option, none, some, List, [], ◌∷◌,
  map, arith, ◌==◌, ==_iff, is_some, find, any, any-find, All, Bool-cases, Option-cases, find-holds,
  find-All, select, contains, distinct,
}
use self_rss.Prelude.Text.{Text}
use self_rss.Prelude.Rows.{Has, Has-All, find-Has, select_sound}
use self_rss.Ingestion.Tables.{Job, Item, ItemStatus, Feed, Source, Db}
use self_rss.Ingestion.Queue.{present, QueueInput, Drawn}
use self_rss.Ingestion.Queue.Filling.{
  source_id_of, sources_for, item_source, item_deferral, item_job, item_status, deferral_of,
  new_item,
}
use self_rss.Ingestion.Queue.Backed.{Backed, IsBacked, IsServed}

-- No source has the empty identifier.
contains-select :
    (p : ℕ → Bool) (a : ℕ) (xs : List ℕ) → contains a xs ≡ false → contains a (select p xs) ≡ false
contains-select p a [] h = refl
contains-select p a (x ∷ xs) h = elim (Bool-cases (p x)) [
  | inl e ↦ let rest = contains-select p a xs (ground arith) in rw e (ground arith)
  | inr e ↦ rw e (contains-select p a xs (ground arith))
]

contains-distinct : (a : ℕ) (xs : List ℕ) → contains a xs ≡ false → contains a (distinct xs) ≡ false
unfolding distinct
contains-distinct a [] h = refl
contains-distinct a (x ∷ xs) h =
    let rest =
      contains-select (λ y. not (y == x)) a (distinct xs) (contains-distinct a xs (ground arith)) in
    ground arith

contains-present : (os : List (Option ℕ)) → contains 0 (present os) ≡ false
contains-present [] = refl
contains-present (none ∷ os) = contains-present os
contains-present (some a ∷ os) = ground (arith, contains-present os)

pub sources_for-truthy :
    (input : QueueInput) (db : Db) (s : Source) → Has s (sources_for input db) → (s.id == 0) ≡ false
unfolding sources_for
sources_for-truthy input db s has =
    let ids = distinct (present (map source_id_of input.selected_feeds)) in
    let listed = (select_sound (λ s. contains s.id ids) s db.sources has).1 in
    let absent = contains-distinct 0 _ (contains-present (map source_id_of input.selected_feeds)) in
    elim (Bool-cases (s.id == 0)) [
      | inr e ↦ e
      | inl e ↦ absurd (zero-listed s.id ids ((==_iff _ _).0 e) listed absent)
    ]
  where
    zero-listed :
        (id : ℕ) (ids : List ℕ) → id ≡ 0 → contains id ids ≡ true → contains 0 ids ≡ false → ⊥
    zero-listed id ids e h k = let h' : contains 0 ids ≡ true = rw (← e) h in ground arith

-- A pending item has an active job of its own source.
abbrev pub Waits : Db → Item → Type 0
Waits db i =
    i.status ≡ ItemStatus.pending
    → (job_id : ℕ) × (source_id : ℕ) × (i.job_id ≡ some job_id)
      × (i.source_id ≡ some source_id)
      × Backed db job_id source_id

module _ (to_iso : ℕ → Text) (input : QueueInput) (drawn : Drawn) (now : ℕ) where
  item_source-find :
      (sources : List Source) (feed : Feed)
      → is_some (item_source to_iso input drawn now sources feed) ≡ true
      → (s : Source) × (item_source to_iso input drawn now sources feed ≡ some s)
        × (source_id_of feed ≡ some s.id)
        × Has s sources
  unfolding item_source
  item_source-find sources feed h = elim (Option-cases (source_id_of feed)) [
    | inl e ↦ absurd (ground arith)
    | inr (id, e) ↦ elim (Option-cases (find (λ s. s.id == id) sources)) [
      | inl f ↦ absurd (ground arith)
      | inr (s, f) ↦ (
        s,
        rw (e, item_source) f,
        e ∙ ap some (sym ((==_iff _ _).0 (find-holds _ sources f))),
        find-Has _ s sources f,
      )
    ]
  ]

  item_deferral-of :
      (before : Db) (sources : List Source) (feed : Feed) (s : Source)
      → item_source to_iso input drawn now sources feed ≡ some s
      → source_id_of feed ≡ some s.id
      → (s.id == 0) ≡ false
      → item_deferral to_iso input drawn now before sources feed
        ≡ deferral_of to_iso input drawn now before s
  unfolding item_deferral
  item_deferral-of before sources feed s e f k = rw (e, item_deferral) (rw (f, k) refl)

  item_job-of :
      (jobs : List Job) (feed : Feed) (s : Source)
      → source_id_of feed ≡ some s.id
      → (s.id == 0) ≡ false
      → item_job to_iso input drawn now jobs feed ≡ find (λ j. j.source_id == s.id) jobs
  unfolding item_job
  item_job-of jobs feed s e k = rw (e, item_job) (rw k refl)

  pending-cases :
      (available deferred : Bool)
      → item_status to_iso input drawn now available deferred ≡ ItemStatus.pending
      → (available ≡ true) × (deferred ≡ false)
  pending-cases available deferred h = ground arith

  -- The item of a feed with a source that is served.
  served-Waits :
      (before db : Db) (sources : List Source) (jobs : List Job) (feed : Feed) (s : Source)
      → source_id_of feed ≡ some s.id
      → (s.id == 0) ≡ false
      → any (λ j. j.source_id == s.id) jobs ≡ true
      → All (IsBacked to_iso input drawn now db) jobs
      → Waits db (new_item to_iso input drawn now before sources jobs feed)
  unfolding new_item
  served-Waits before db sources jobs feed s e k h backed _ =
      let (j, f) = any-find (λ j. j.source_id == s.id) jobs h in
      (
        j.id,
        j.source_id,
        ap (Option.map (λ j. j.id)) (item_job-of jobs feed s e k ∙ f),
        e ∙ ap some (sym ((==_iff _ _).0 (find-holds _ jobs f))),
        find-All _ _ jobs backed f,
      )

  pub new_item-Waits :
      (before db : Db) (sources : List Source) (jobs : List Job) (feed : Feed)
      → All (λ s. (s.id == 0) ≡ false) sources
      → All (IsBacked to_iso input drawn now db) jobs
      → All (IsServed to_iso input drawn now before jobs) sources
      → Waits db (new_item to_iso input drawn now before sources jobs feed)
  unfolding new_item
  new_item-Waits before db sources jobs feed truthy backed served h =
      let (available, deferred) =
        pending-cases (is_some (item_source to_iso input drawn now sources feed))
          (is_some (item_deferral to_iso input drawn now before sources feed)) h in
      let (s, e, f, has) = item_source-find sources feed available in
      let k = Has-All _ s sources has truthy in
      elim (Has-All _ s sources has served) [
        | inl d ↦ absurd (clash _ d (rw (item_deferral-of before sources feed s e f k) at deferred))
        | inr a ↦ served-Waits before db sources jobs feed s f k a backed h
      ]
    where
      clash : (b : Bool) → b ≡ true → b ≡ false → ⊥
      clash b h k = ground arith
