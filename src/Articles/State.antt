-- ===== src/Articles/State.antt =====
-- packages/api/src/repositories/article-state.persistence.ts and packages/api/src/db/: the read and saved
-- states of articles, with their revisions, and the mutations that offline clients send. A function
-- answers with the tables after its transaction.
pub mod Register
pub mod Book
pub mod Replay
pub mod Marking
pub mod Bulk
mod Tests
use self_rss.Prelude.{
  ℕ, ◌+◌, min, max, Bool, true, false, not, ◌&&◌, ◌||◌, Option, none, some, List, [], ◌∷◌, ◌++◌,
  ltb, leb, ◌==◌, if◌then◌else◌, same, contains, any, find, select, update_where, length, take,
  sort_by,
}
use self_rss.Prelude.Text.{Text, codes}
use self_rss.Prelude.Upsert.{upsert}

-- A row of `articles`, of which the states read the feed.
pub record Article : Type 0 where
  pub id : ℕ
  pub feed_id : ℕ

pub record ArticleRead : Type 0 where
  pub user_id : ℕ
  pub article_id : ℕ
  pub read_at : ℕ
  pub source : Text

pub record ArticleSave : Type 0 where
  pub user_id : ℕ
  pub article_id : ℕ
  pub saved_at : ℕ

pub record UserState : Type 0 where
  pub user_id : ℕ
  pub article_id : ℕ
  pub read_revision : ℕ
  pub saved_revision : ℕ
  pub updated_at : ℕ

pub data Kind : Type 0 where
  read saved : Kind

pub record Mutation : Type 0 where
  pub user_id : ℕ
  pub mutation_id : ℕ
  pub article_id : ℕ
  pub kind : Kind
  pub desired_state : Bool
  pub base_revision : Option ℕ
  pub resulting_state : Bool
  pub resulting_revision : ℕ
  pub applied : Bool
  pub created_at : ℕ

pub record Tables : Type 0 where
  pub articles : List Article
  pub reads : List ArticleRead
  pub saves : List ArticleSave
  pub states : List UserState
  pub mutations : List Mutation

pub record MutationOptions : Type 0 where
  pub mutation_id : Option ℕ
  pub base_revision : Option ℕ

pub record Answer : Type 0 where
  pub state : Bool
  pub revision : ℕ
  pub applied : Bool
  pub changed : Bool
  pub conflict : Bool
  pub duplicate : Bool

-- `a !== b` on Booleans.
abbrev pub differ : Bool → Bool → Bool
differ true b = not b
differ false b = b

abbrev pub same_kind : Kind → Kind → Bool
same_kind Kind.read Kind.read = true
same_kind Kind.read Kind.saved = false
same_kind Kind.saved Kind.read = false
same_kind Kind.saved Kind.saved = true

abbrev pub read_of : ℕ → ℕ → ArticleRead → Bool
read_of user_id article_id r = r.user_id == user_id && r.article_id == article_id

abbrev pub save_of : ℕ → ℕ → ArticleSave → Bool
save_of user_id article_id r = r.user_id == user_id && r.article_id == article_id

abbrev pub state_of : ℕ → ℕ → UserState → Bool
state_of user_id article_id r = r.user_id == user_id && r.article_id == article_id

-- `currentState`.
unfoldable pub current_state : Kind → ℕ → ℕ → Tables → Bool
current_state Kind.read user_id article_id t = any (read_of user_id article_id) t.reads
current_state Kind.saved user_id article_id t = any (save_of user_id article_id) t.saves

abbrev pub revision_of : Kind → UserState → ℕ
revision_of Kind.read r = r.read_revision
revision_of Kind.saved r = r.saved_revision

-- `currentRevision`.
unfoldable pub current_revision : Kind → ℕ → ℕ → Tables → ℕ
current_revision kind user_id article_id t = elim (find (state_of user_id article_id) t.states) [
  | none ↦ 0
  | some r ↦ revision_of kind r
]

-- An empty `mutationId` is none.
unfoldable pub find_duplicate : ℕ → Option ℕ → List Mutation → Option Mutation
find_duplicate user_id none mutations = none
find_duplicate user_id (some id) mutations =
    if id == 0 then none else find (λ m. m.user_id == user_id && m.mutation_id == id) mutations

-- A payload that is not the recorded one.
unfoldable pub payload_mismatch : Mutation → ℕ → Kind → Bool → MutationOptions → Bool
payload_mismatch m article_id kind desired options =
    not (m.article_id == article_id)
    || not (same_kind m.kind kind)
    || differ m.desired_state desired
    || not (same m.base_revision options.base_revision)

unfoldable pub duplicate_result : Bool → ℕ → Mutation → ℕ → Kind → Bool → MutationOptions → Answer
unfolding payload_mismatch
duplicate_result state revision m article_id kind desired options =
    if payload_mismatch m article_id kind desired options
    then record {
      state = state;
      revision = revision;
      applied = false;
      changed = false;
      conflict = true;
      duplicate = true;
    }
    else record {
      state = m.resulting_state;
      revision = m.resulting_revision;
      applied = m.applied;
      changed = false;
      conflict = not m.applied;
      duplicate = true;
    }

-- The tables `article_reads` and `article_saves` after a change.
unfoldable pub write_state : Kind → ℕ → ℕ → Bool → Text → ℕ → Tables → Tables
write_state Kind.read user_id article_id true source now t = record t {
  reads =
      upsert (read_of user_id article_id) (λ r. record r { source = source; read_at = now })
        (record { user_id = user_id; article_id = article_id; read_at = now; source = source })
        t.reads;
}
write_state Kind.read user_id article_id false source now t = record t {
  reads = select (λ r. not (read_of user_id article_id r)) t.reads;
}
write_state Kind.saved user_id article_id true source now t = record t {
  saves =
      upsert (save_of user_id article_id) (λ r. r)
        (record { user_id = user_id; article_id = article_id; saved_at = now }) t.saves;
}
write_state Kind.saved user_id article_id false source now t = record t {
  saves = select (λ r. not (save_of user_id article_id r)) t.saves;
}

-- The column of the kind is written; a new row has revision 0 in the other one.
abbrev pub set_revision : Kind → ℕ → ℕ → UserState → UserState
set_revision Kind.read revision now r = record r { read_revision = revision; updated_at = now }
set_revision Kind.saved revision now r = record r { saved_revision = revision; updated_at = now }

abbrev pub fresh_state : ℕ → ℕ → ℕ → UserState
fresh_state user_id article_id now = record {
  user_id = user_id;
  article_id = article_id;
  read_revision = 0;
  saved_revision = 0;
  updated_at = now;
}

unfoldable pub write_revision : Kind → ℕ → ℕ → ℕ → ℕ → Tables → Tables
write_revision kind user_id article_id revision now t = record t {
  states =
      upsert (state_of user_id article_id) (set_revision kind revision now)
        (set_revision kind revision now (fresh_state user_id article_id now)) t.states;
}

-- The log after a mutation with an identifier.
unfoldable pub record_mutation : ℕ → MutationOptions → Mutation → List Mutation → List Mutation
record_mutation user_id options m log = elim options.mutation_id [
  | none ↦ log
  | some id ↦
      if id == 0 then log else log ++ (record m { user_id = user_id; mutation_id = id } ∷ [])
]

abbrev pub is_conflict : Option ℕ → ℕ → Bool
is_conflict none current = false
is_conflict (some base) current = not (base == current)

abbrev pub mutation_result : Bool → ℕ → Bool → Bool → Answer
mutation_result state revision changed conflict = record {
  state = state;
  revision = revision;
  applied = not conflict;
  changed = changed;
  conflict = conflict;
  duplicate = false;
}

-- The row that `recordMutation` inserts, but for the identifiers.
abbrev pub logged : ℕ → Kind → Bool → Bool → ℕ → Bool → MutationOptions → ℕ → Mutation
logged article_id kind desired resulting revision conflict options now = record {
  user_id = 0;
  mutation_id = 0;
  article_id = article_id;
  kind = kind;
  desired_state = desired;
  base_revision = options.base_revision;
  resulting_state = resulting;
  resulting_revision = revision;
  applied = not conflict;
  created_at = now;
}

-- The rest of the two functions, for a mutation that was not seen before.
unfoldable pub apply_mutation :
    Kind → ℕ → ℕ → Bool → Text → MutationOptions → ℕ → Tables → Tables × Answer
apply_mutation kind user_id article_id desired source options now t =
    let state = current_state kind user_id article_id t in
    let current = current_revision kind user_id article_id t in
    let conflict = is_conflict options.base_revision current in
    let changed = not conflict && differ state desired in
    let revision = if changed then current + 1 else current in
    let written =
      if changed
      then write_revision kind user_id article_id revision now
          (write_state kind user_id article_id desired source now t)
      else t in
    let resulting = if changed then desired else state in
    (
      record written {
        mutations =
            record_mutation user_id options
              (logged article_id kind desired resulting revision conflict options now)
              written.mutations;
      },
      mutation_result resulting revision changed conflict,
    )

-- The common text of setArticleReadState and setArticleSavedState.
unfoldable pub set_article_state :
    Kind → ℕ → ℕ → Bool → Text → MutationOptions → ℕ → Tables → Tables × Answer
unfolding apply_mutation
set_article_state kind user_id article_id desired source options now t =
    elim (find_duplicate user_id options.mutation_id t.mutations) [
      | some m ↦ (
        t,
        duplicate_result (current_state kind user_id article_id t)
            (current_revision kind user_id article_id t) m article_id kind desired options,
      )
      | none ↦ apply_mutation kind user_id article_id desired source options now t
    ]

abbrev pub set_article_read_state :
    ℕ → ℕ → Bool → Text → MutationOptions → ℕ → Tables → Tables × Answer
set_article_read_state = set_article_state Kind.read

abbrev pub set_article_saved_state : ℕ → ℕ → Bool → MutationOptions → ℕ → Tables → Tables × Answer
set_article_saved_state user_id article_id desired =
    set_article_state Kind.saved user_id article_id desired []
