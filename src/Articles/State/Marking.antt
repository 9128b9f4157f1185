-- ===== src/Articles/State/Marking.antt =====
-- packages/api/src/repositories/article-state.persistence.ts: whole feeds are marked as read, and old
-- mutations are deleted.
use self_rss.Prelude.{
  ℕ, ◌+◌, min, max, not, ◌&&◌, List, [], ◌∷◌, ◌++◌, ltb, leb, ◌==◌, contains, any, select, length,
  take, sort_by,
}
use self_rss.Prelude.Text.{codes}
use self_rss.Prelude.Upsert.{upsert}
use self_rss.Articles.State.{
  Article, ArticleRead, UserState, Mutation, Tables, read_of, state_of, fresh_state,
}

-- The articles of the feeds that the user has not read.
unfoldable pub unread_articles : ℕ → List ℕ → Tables → List Article
unread_articles user_id feed_ids t =
    select (λ a. contains a.feed_id feed_ids && not (any (read_of user_id a.id) t.reads)) t.articles

unfoldable pub insert_reads : ℕ → ℕ → List Article → List ArticleRead → List ArticleRead
insert_reads user_id now [] reads = reads
insert_reads user_id now (a ∷ rest) reads = insert_reads user_id now rest (
    reads
    ++ (record { user_id = user_id; article_id = a.id; read_at = now; source = codes "mark_all" }
        ∷ []))

unfoldable pub bump_revisions : ℕ → ℕ → List Article → List UserState → List UserState
bump_revisions user_id now [] states = states
bump_revisions user_id now (a ∷ rest) states = bump_revisions user_id now rest (
    upsert (state_of user_id a.id)
      (λ r. record r { read_revision = r.read_revision + 1; updated_at = now })
      (record (fresh_state user_id a.id now) { read_revision = 1 }) states)

unfoldable pub mark_articles_read : ℕ → List ℕ → ℕ → Tables → Tables × ℕ
unfolding unread_articles insert_reads bump_revisions
mark_articles_read user_id feed_ids now t =
    let inserted = unread_articles user_id feed_ids t in
    (
      record t {
        reads = insert_reads user_id now inserted t.reads;
        states = bump_revisions user_id now inserted t.states;
      },
      length inserted,
    )

-- The oldest mutations that are old enough, a number of them between 1 and 5000.
unfoldable pub expired_mutations : ℕ → ℕ → List Mutation → List Mutation
expired_mutations cutoff batch_size mutations = take (max 1 (min 5000 batch_size)) (
    sort_by (λ m n. ltb m.created_at n.created_at)
      (select (λ m. leb m.created_at cutoff) mutations))

-- A mutation is known by its unique index.
unfoldable pub cleanup_article_state_mutations : ℕ → ℕ → Tables → Tables × ℕ
unfolding expired_mutations
cleanup_article_state_mutations cutoff batch_size t =
    let deleted = expired_mutations cutoff batch_size t.mutations in
    (
      record t {
        mutations =
            select
              (λ m.
                not (any (λ d. d.user_id == m.user_id && d.mutation_id == m.mutation_id) deleted))
              t.mutations;
      },
      length deleted,
    )
