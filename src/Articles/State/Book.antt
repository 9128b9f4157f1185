-- ===== src/Articles/State/Book.antt =====
-- packages/api/src/repositories/article-state.persistence.ts: the tables implement registers with
-- revisions and a log of the mutations.
use self_rss.Prelude.{
  ℕ, ◌+◌, ◌==◌, ◌≡◌, refl, sym, ap, ◌∙◌, inl, inr, Bool, true, false, not, ◌&&◌, Option, none, some,
  List, if◌then◌else◌, Bool-cases, Option-cases,
}
use self_rss.Prelude.Text.{Text}
use self_rss.Articles.State.{
  Kind, Tables, Mutation, MutationOptions, Answer, differ, current_state, current_revision,
  write_state, write_revision, record_mutation, find_duplicate, duplicate_result, set_article_state,
  apply_mutation, is_conflict, mutation_result, logged,
}
use self_rss.Articles.State.Register.{key_same, Cell, view, same_cell, view-write}

-- The abstract state: a register for each user, article and kind, and the log.
pub record Book : Type 0 where
  pub cell : Kind → ℕ → ℕ → Cell
  pub log : List Mutation

-- A register takes a value that it does not have, unless the client knows another revision; each
-- value has a revision of its own.
abbrev pub moves : Bool → Option ℕ → Cell → Bool
moves desired base c = not (is_conflict base c.revision) && differ c.state desired

abbrev pub put : Bool → Option ℕ → Cell → Cell
put desired base c =
    if moves desired base c then record { state = desired; revision = c.revision + 1 } else c

abbrev pub put_answer : Bool → Option ℕ → Cell → Answer
put_answer desired base c =
    let c' = put desired base c in
    mutation_result c'.state c'.revision (moves desired base c) (is_conflict base c.revision)

abbrev pub Book_put : Kind → ℕ → ℕ → Bool → MutationOptions → ℕ → Book → Book × Answer
Book_put kind user_id article_id desired options now b =
    let c = b.cell kind user_id article_id in
    let c' = put desired options.base_revision c in
    (
      record {
        cell = λ k u a. if same_cell kind k user_id u article_id a then c' else b.cell k u a;
        log =
            record_mutation user_id options
              (logged article_id kind desired c'.state c'.revision
                (is_conflict options.base_revision c.revision) options now)
              b.log;
      },
      put_answer desired options.base_revision c,
    )

-- A mutation that is in the log is answered from it; another one is put, and added to the log.
abbrev pub Book_set : Kind → ℕ → ℕ → Bool → MutationOptions → ℕ → Book → Book × Answer
Book_set kind user_id article_id desired options now b =
    let c = b.cell kind user_id article_id in
    elim (find_duplicate user_id options.mutation_id b.log) [
      | some m ↦ (b, duplicate_result c.state c.revision m article_id kind desired options)
      | none ↦ Book_put kind user_id article_id desired options now b
    ]

-- The abstract state of the tables.
abbrev pub book : Tables → Book
book t = record { cell = λ k u a. view k u a t; log = t.mutations }

abbrev pub SameBook : Book × Answer → Book × Answer → Type 0
SameBook x y =
    ((k : Kind) (u a : ℕ) → x.0.cell k u a ≡ y.0.cell k u a) × (x.0.log ≡ y.0.log) × (x.1 ≡ y.1)

log-write :
    (kind : Kind) (user_id article_id revision : ℕ) (desired : Bool) (source : Text) (now : ℕ)
    (t : Tables)
    → (write_revision kind user_id article_id revision now
        (write_state kind user_id article_id desired source now t)).mutations
      ≡ t.mutations
unfolding write_revision write_state
log-write Kind.read user_id article_id revision true source now t = refl
log-write Kind.read user_id article_id revision false source now t = refl
log-write Kind.saved user_id article_id revision true source now t = refl
log-write Kind.saved user_id article_id revision false source now t = refl

view-log :
    (k : Kind) (u a : ℕ) (t : Tables) (log : List Mutation)
    → view k u a (record t { mutations = log }) ≡ view k u a t
unfolding current_state current_revision
view-log Kind.read u a t log = refl
view-log Kind.saved u a t log = refl

same_row :
    (kind : Kind) (user_id u article_id a : ℕ) (t : Tables)
    → (if u == user_id && a == article_id then view kind user_id article_id t else view kind u a t)
      ≡ view kind u a t
same_row kind user_id u article_id a t = elim (Bool-cases (u == user_id && a == article_id)) [
  | inl e ↦ let (eu, ea) = key_same u user_id a article_id e in rw (e, eu, ea) refl
  | inr e ↦ rw e refl
]

same_cell_self :
    (kind k : Kind) (user_id u article_id a : ℕ) (t : Tables)
    → (if same_cell kind k user_id u article_id a
        then view kind user_id article_id t
        else view k u a t)
      ≡ view k u a t
same_cell_self Kind.read Kind.saved user_id u article_id a t = refl
same_cell_self Kind.saved Kind.read user_id u article_id a t = refl
same_cell_self Kind.read Kind.read user_id u article_id a t =
    same_row Kind.read user_id u article_id a t
same_cell_self Kind.saved Kind.saved user_id u article_id a t =
    same_row Kind.saved user_id u article_id a t

pub apply-book :
    (kind : Kind) (user_id article_id : ℕ) (desired : Bool) (source : Text)
    (options : MutationOptions) (now : ℕ) (t : Tables)
    → SameBook
        (let (t', answer) = apply_mutation kind user_id article_id desired source options now t in
          (book t', answer))
        (Book_put kind user_id article_id desired options now (book t))
unfolding apply_mutation
apply-book kind user_id article_id desired source options now t =
    elim (Bool-cases (moves desired options.base_revision (view kind user_id article_id t))) [
      | inl e ↦ rw e (
        λ k u a.
            view-log k u a _ _ ∙ view-write user_id article_id source now t kind k desired _ u a,
        ap (record_mutation user_id options _)
            (log-write kind user_id article_id _ desired source now t),
        refl,
      )
      | inr e ↦ rw e (
        λ k u a. view-log k u a t _ ∙ sym (same_cell_self kind k user_id u article_id a t),
        refl,
        refl,
      )
    ]

module _ (kind : Kind) (user_id article_id : ℕ) (desired : Bool) (source : Text)
    (options : MutationOptions) (now : ℕ) (t : Tables) where
  pub set-fresh :
      find_duplicate user_id options.mutation_id t.mutations ≡ none
      → set_article_state kind user_id article_id desired source options now t
        ≡ apply_mutation kind user_id article_id desired source options now t
  unfolding set_article_state
  set-fresh e = rw (e, set_article_state) refl

  pub set-duplicate :
      {m : Mutation}
      → find_duplicate user_id options.mutation_id t.mutations ≡ some m
      → set_article_state kind user_id article_id desired source options now t ≡ (
        t,
        duplicate_result
            (current_state kind user_id article_id t)
            (current_revision kind user_id article_id t)
            m
            article_id
            kind
            desired
            options,
      )
  unfolding set_article_state
  set-duplicate e = rw (e, set_article_state) refl

  -- On every branch setArticleReadState and setArticleSavedState do what the registers and the log say:
  -- a mutation that the log has is answered from it and changes nothing; another one changes
  -- the register of its user, article and kind if the client's revision, if any, is the present one and
  -- the value is another, and is logged if it has an identifier. No other register changes, and the
  -- answers are the same.
  pub set-refines :
      SameBook
        (let (t', answer) =
            set_article_state kind user_id article_id desired source options now t in
          (book t', answer))
        (Book_set kind user_id article_id desired options now (book t))
  set-refines = elim (Option-cases (find_duplicate user_id options.mutation_id t.mutations)) [
    | inl e ↦
        rw (set-fresh e)
          (rw (e, Book_set) (apply-book kind user_id article_id desired source options now t))
    | inr (m, e) ↦ rw (set-duplicate e) (rw (e, Book_set) (λ k u a. refl, refl, refl))
  ]
