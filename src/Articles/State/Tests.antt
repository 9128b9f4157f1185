-- ===== src/Articles/State/Tests.antt =====
-- packages/api/src/repositories/article-state.persistence.ts: runs on small tables.
use self_rss.Prelude.{◌≡◌, refl, true, false, none, some, [], ◌∷◌, arith, sort_by, insert_by, take}
use self_rss.Prelude.Text.{codes}
use self_rss.Articles.State.{
  Kind, Tables, MutationOptions, find_duplicate, current_state, current_revision, write_state,
  write_revision, record_mutation, set_article_state, set_article_read_state,
  set_article_saved_state,
}
use self_rss.Articles.State.Marking.{mark_articles_read, cleanup_article_state_mutations}
use self_rss.Articles.State.Register.{view}
use self_rss.Articles.State.Book.{SameBook, Book_set, book, set-refines}
use self_rss.Articles.State.Replay.{Change, Later, replayed}
use self_rss.Articles.State.Bulk.{mark-view}

abbrev tables : Tables
tables = record {
  articles =
      record { id = 10; feed_id = 1 }
      ∷ record { id = 11; feed_id = 1 }
      ∷ record { id = 12; feed_id = 2 }
      ∷ [];
  reads = record { user_id = 7; article_id = 10; read_at = 3; source = codes "manual" } ∷ [];
  saves = [];
  states =
      record { user_id = 7; article_id = 10; read_revision = 1; saved_revision = 0; updated_at = 3 }
      ∷ [];
  mutations = [];
}

abbrev options : MutationOptions
options = record { mutation_id = some 90; base_revision = some 0 }

abbrev saved_tables : Tables
saved_tables = (set_article_saved_state 7 11 true options 5 tables).0

abbrev later_tables : Tables
later_tables = (mark_articles_read 7 (1 ∷ []) 6 saved_tables).0

save_test : view Kind.saved 7 11 saved_tables ≡ record { state = true; revision = 1 }
unfolding set_article_state current_state current_revision find_duplicate write_state write_revision
    record_mutation
save_test = refl

conflict_test :
    (set_article_read_state 7 10 false
      (codes "manual")
      (record { mutation_id = none; base_revision = some 4 })
      5
      tables).1.conflict
    ≡ true
unfolding set_article_state current_state current_revision find_duplicate write_state write_revision
    record_mutation
conflict_test = refl

mark_test : (mark_articles_read 7 (1 ∷ []) 6 tables).1 ≡ 1
unfolding mark_articles_read
mark_test = refl

cleanup_test : (cleanup_article_state_mutations 5 100 saved_tables).0.mutations ≡ []
unfolding cleanup_article_state_mutations set_article_state current_state current_revision
    find_duplicate write_state write_revision record_mutation sort_by insert_by take
cleanup_test = refl

set-refines_example :
    SameBook
      (book saved_tables, (set_article_saved_state 7 11 true options 5 tables).1)
      (Book_set Kind.saved 7 11 true options 5 (book tables))
set-refines_example = set-refines Kind.saved 7 11 true [] options 5 tables

replayed_example : set_article_saved_state 7 11 true options 8 later_tables ≡ (
  later_tables,
  record (set_article_saved_state 7 11 true options 5 tables).1 {
    changed = false;
    duplicate = true;
  },
)
unfolding find_duplicate
replayed_example =
    replayed Kind.saved 7 11 true [] [] options 90 5 8 tables later_tables refl (ground arith) refl
      (Later.next Later.here (Change.mark 7 (1 ∷ []) 6))

mark-view_example :
    view Kind.read 7 11 (mark_articles_read 7 (1 ∷ []) 6 tables).0
    ≡ record { state = true; revision = 1 }
unfolding current_state current_revision
mark-view_example = mark-view 7 (1 ∷ []) 6 tables Kind.read 7 11 (refl, (refl, (refl, tt)))
