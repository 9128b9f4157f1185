-- ===== src/Articles/State/Replay.antt =====
-- packages/api/src/repositories/article-state.persistence.ts: a mutation that is sent again.
use self_rss.Prelude.{
  ℕ, ◌≡◌, ◌≢◌, refl, sym, ap, subst, ◌∙◌, inl, inr, Bool, true, false, not, Option, none, some,
  List, [], ◌∷◌, ◌++◌, arith, ◌==◌, ==_refl, if◌then◌else◌, ◌&&◌, same_iff, find, Bool-cases,
  Option-cases, find-last,
}
use self_rss.Prelude.Text.{Text}
use self_rss.Articles.State.{
  Kind, Tables, Mutation, MutationOptions, Answer, differ, same_kind, record_mutation,
  find_duplicate, duplicate_result, payload_mismatch, set_article_state, is_conflict,
  mutation_result, logged,
}
use self_rss.Articles.State.Marking.{mark_articles_read}
use self_rss.Articles.State.Book.{set-fresh, set-duplicate, apply-book, moves}
use self_rss.Articles.State.Register.{view}

-- Whatever users do with their articles.
pub data Change : Tables → Tables → Type 0 where
  set :
      (kind : Kind) (user_id article_id : ℕ) (desired : Bool) (source : Text)
      (options : MutationOptions) (now : ℕ) {t : Tables}
      → Change t (set_article_state kind user_id article_id desired source options now t).0
  mark :
      (user_id : ℕ) (feed_ids : List ℕ) (now : ℕ) {t : Tables}
      → Change t (mark_articles_read user_id feed_ids now t).0

pub data Later (t : Tables) : Tables → Type 0 where
  here : Later t t
  next : {u v : Tables} → Later t u → Change u v → Later t v

find-append {ℓ} :
    {A : Type ℓ} (p : A → Bool) (xs ys : List A) {x : A}
    → find p xs ≡ some x
    → find p (xs ++ ys) ≡ some x
find-append p [] ys h = cc
find-append p (y ∷ xs) ys h = elim (Bool-cases (p y)) [
  | inl e ↦ rw e (rw e at h)
  | inr e ↦ rw e (find-append p xs ys (rw e at h))
]

-- The log only grows.
kept-record :
    (user_id : ℕ) (id : Option ℕ) (owner : ℕ) (options : MutationOptions) (row : Mutation)
    (log : List Mutation) {m : Mutation}
    → find_duplicate user_id id log ≡ some m
    → find_duplicate user_id id (record_mutation owner options row log) ≡ some m
unfolding find_duplicate record_mutation
kept-record user_id none owner options row log h = cc
kept-record user_id (some id) owner options row log {m} h = elim (Bool-cases (id == 0)) [
  | inl e ↦ absurd (ground arith)
  | inr e ↦ rw e (step options.mutation_id (rw e at h))
]
  where
    step :
        (o : Option ℕ)
        → find (λ m. m.user_id == user_id && m.mutation_id == id) log ≡ some m
        → find
            (λ m. m.user_id == user_id && m.mutation_id == id)
            (elim o [
              | none ↦ log
              | some id ↦
                  if id == 0
                  then log
                  else log ++ (record row { user_id = owner; mutation_id = id } ∷ [])
            ])
          ≡ some m
    step none h = h
    step (some k) h = elim (Bool-cases (k == 0)) [
      | inl e ↦ rw e h
      | inr e ↦ rw e (find-append _ log _ h)
    ]

log_kept-Change :
    {t u : Tables} (user_id : ℕ) (id : Option ℕ) {m : Mutation}
    → Change t u
    → find_duplicate user_id id t.mutations ≡ some m
    → find_duplicate user_id id u.mutations ≡ some m
unfolding mark_articles_read
log_kept-Change user_id id (Change.mark owner feed_ids now) h = h
log_kept-Change user_id id {m} (Change.set kind owner article_id desired source options now {t}) h =
    elim (Option-cases (find_duplicate owner options.mutation_id t.mutations)) [
      | inl e ↦
          subst (λ log. find_duplicate user_id id log ≡ some m)
            (sym (
              ap (λ r. r.0.mutations)
                (set-fresh kind owner article_id desired source options now t e)
              ∙ (apply-book kind owner article_id desired source options now t).1))
            (kept-record user_id id owner options _ t.mutations h)
      | inr (n, e) ↦
          subst (λ log. find_duplicate user_id id log ≡ some m)
            (sym (
              ap (λ r. r.0.mutations)
                (set-duplicate kind owner article_id desired source options now t e)))
            h
    ]

log_kept-Later :
    {t u : Tables} (user_id : ℕ) (id : Option ℕ) {m : Mutation}
    → Later t u
    → find_duplicate user_id id t.mutations ≡ some m
    → find_duplicate user_id id u.mutations ≡ some m
log_kept-Later user_id id Later.here h = h
log_kept-Later user_id id (Later.next before change) h =
    log_kept-Change user_id id change (log_kept-Later user_id id before h)

-- A new entry is found by its identifier.
found-record :
    (user_id id : ℕ) (options : MutationOptions) (row : Mutation) (log : List Mutation)
    → options.mutation_id ≡ some id
    → id ≢ 0
    → find_duplicate user_id (some id) log ≡ none
    → find_duplicate user_id (some id) (record_mutation user_id options row log)
      ≡ some (record row { user_id = user_id; mutation_id = id })
unfolding find_duplicate record_mutation
found-record user_id id options row log given ne h =
    let nonzero : (id == 0) ≡ false = ground arith in
    rw (nonzero, given) (rw nonzero (find-last _ log _ (rw nonzero at h) (ground arith)))

same_kind_refl : (k : Kind) → same_kind k k ≡ true
same_kind_refl Kind.read = refl
same_kind_refl Kind.saved = refl

differ_refl : (b : Bool) → differ b b ≡ false
differ_refl true = refl
differ_refl false = refl

not-not : (b : Bool) → not (not b) ≡ b
not-not true = refl
not-not false = refl

abbrev repeated : Answer → Answer
repeated a = record a { changed = false; duplicate = true }

-- The entry of a mutation answers the same mutation.
answer-logged :
    (user_id id article_id : ℕ) (kind : Kind) (desired state s : Bool) (revision r : ℕ)
    (changed conflict : Bool) (options : MutationOptions) (now : ℕ)
    → duplicate_result s r
        (record (logged article_id kind desired state revision conflict options now) {
          user_id = user_id;
          mutation_id = id;
        })
        article_id
        kind
        desired
        options
      ≡ repeated (mutation_result state revision changed conflict)
unfolding duplicate_result payload_mismatch
answer-logged user_id id article_id kind desired state s revision r changed conflict options now =
    rw
      (
        ==_refl article_id,
        same_kind_refl kind,
        differ_refl desired,
        (same_iff options.base_revision options.base_revision).1 refl,
        not-not conflict,
      )
      refl

-- Once a mutation with an identifier was taken, the same mutation of the same user is answered in the
-- same way at any later time, whatever reads and saves of any user come in between, but as a repetition
-- that changes nothing; and it leaves the tables as they are.
pub replayed :
    (kind : Kind) (user_id article_id : ℕ) (desired : Bool) (source source' : Text)
    (options : MutationOptions) (id now now' : ℕ) (t later : Tables)
    → options.mutation_id ≡ some id
    → id ≢ 0
    → find_duplicate user_id options.mutation_id t.mutations ≡ none
    → Later (set_article_state kind user_id article_id desired source options now t).0 later
    → set_article_state kind user_id article_id desired source' options now' later ≡ (
      later,
      record (set_article_state kind user_id article_id desired source options now t).1 {
        changed = false;
        duplicate = true;
      },
    )
replayed kind user_id article_id desired source source' options id now now' t later given ne new
      path =
    let fresh = set-fresh kind user_id article_id desired source options now t new in
    let (_, log, answer) = apply-book kind user_id article_id desired source options now t in
    let found = found-record user_id id options _ t.mutations given ne (rw given at new) in
    let log_after = ap (λ r. r.0.mutations) fresh ∙ log in
    let found' =
      log_kept-Later user_id (some id) path
        (ap (find_duplicate user_id (some id)) log_after ∙ found) in
    let c = view kind user_id article_id t in
    set-duplicate kind user_id article_id desired source' options now' later (rw given found')
    ∙ ap (λ a. (later, a))
        (answer-logged user_id id article_id kind desired _ _ _ _
            (moves desired options.base_revision c) (is_conflict options.base_revision c.revision)
            options now
          ∙ sym (ap (λ r. repeated r.1) fresh ∙ ap repeated answer))
