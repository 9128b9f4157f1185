-- ===== src/Articles/State/Bulk.antt =====
-- packages/api/src/repositories/article-state.persistence.ts: all articles of feeds are marked as read.
use mathlib.Core.Path.{ap₂}
use self_rss.Prelude.{
  ℕ, ◌+◌, ◌≡◌, refl, sym, ap, subst, ◌∙◌, inl, inr, Bool, true, false, not, ◌&&◌, ◌||◌, Option,
  none, some, List, [], ◌∷◌, ◌++◌, map, arith, ◌==◌, ==_iff, if◌then◌else◌, contains, any, find,
  select, Unique, Bool-cases,
}
use self_rss.Prelude.Text.{codes}
use self_rss.Prelude.Upsert.{any-append, find-upsert, find-upsert_other}
use self_rss.Articles.State.{
  Kind, Tables, Article, ArticleRead, UserState, same_kind, read_of, state_of, current_state,
  current_revision, fresh_state,
}
use self_rss.Articles.State.Marking.{
  unread_articles, insert_reads, bump_revisions, mark_articles_read,
}
use self_rss.Articles.State.Register.{Cell, view, row_apart}

abbrev pub ids_of : List Article → List ℕ
ids_of = map λ a. a.id

regroup :
    (b : Bool) (u user_id a x : ℕ) (c : Bool)
    → ((b || ((user_id == u && x == a) || false)) || (u == user_id && c))
      ≡ (b || (u == user_id && (x == a || c)))
regroup b u user_id a x c = ground arith

insert_reads-any :
    (user_id now u a : ℕ) (inserted : List Article) (reads : List ArticleRead)
    → any (read_of u a) (insert_reads user_id now inserted reads)
      ≡ (any (read_of u a) reads || (u == user_id && contains a (ids_of inserted)))
unfolding insert_reads
insert_reads-any user_id now u a [] reads = ground arith
insert_reads-any user_id now u a (x ∷ rest) reads =
    let row : ArticleRead = record {
      user_id = user_id;
      article_id = x.id;
      read_at = now;
      source = codes "mark_all";
    } in
    insert_reads-any user_id now u a rest (reads ++ (row ∷ []))
    ∙ rw (any-append (read_of u a) reads (row ∷ []))
        (regroup (any (read_of u a) reads) u user_id a x.id (contains a (ids_of rest)))

bump-other :
    (user_id now u a : ℕ) (inserted : List Article) (states : List UserState)
    → (u == user_id && contains a (ids_of inserted)) ≡ false
    → find (state_of u a) (bump_revisions user_id now inserted states) ≡ find (state_of u a) states
unfolding bump_revisions
bump-other user_id now u a [] states h = refl
bump-other user_id now u a (x ∷ rest) states h =
    let ne : (u == user_id && a == x.id) ≡ false = ground arith in
    bump-other user_id now u a rest _ (ground arith)
    ∙ find-upsert_other (state_of u a) (state_of user_id x.id)
        (λ r e. row_apart u user_id a x.id r.user_id r.article_id ne e) _ _ (λ r. refl)
        (ground arith) states

abbrev bumped : ℕ → ℕ → ℕ → Option UserState → UserState
bumped user_id a now o = elim o [
  | none ↦ record (fresh_state user_id a now) { read_revision = 1 }
  | some r ↦ record r { read_revision = r.read_revision + 1; updated_at = now }
]

bump-here :
    (user_id now a : ℕ) (inserted : List Article) (states : List UserState)
    → Unique (ids_of inserted)
    → contains a (ids_of inserted) ≡ true
    → find (state_of user_id a) (bump_revisions user_id now inserted states)
      ≡ some (bumped user_id a now (find (state_of user_id a) states))
unfolding bump_revisions
bump-here user_id now a [] states u h = cc
bump-here user_id now a (x ∷ rest) states u h = elim (Bool-cases (x.id == a)) [
  | inl e ↦
      let same : x.id ≡ a = (==_iff x.id a).0 e in
      let absent : contains a (ids_of rest) ≡ false =
        ap (λ i. contains i (ids_of rest)) (sym same) ∙ u.0 in
      bump-other user_id now user_id a rest _ (ground arith)
      ∙ rw same (find-upsert (state_of user_id a) _ _ (λ r. refl) (ground arith) states)
  | inr e ↦
      bump-here user_id now a rest _ u.1 (ground arith)
      ∙ ap (λ o. some (bumped user_id a now o))
          (find-upsert_other (state_of user_id a) (state_of user_id x.id)
            (λ r k. row_apart user_id user_id a x.id r.user_id r.article_id (ground arith) k) _ _
            (λ r. refl) (ground arith) states)
]

-- The articles of the feeds that the user has not read, by their identifiers.
contains-select :
    (p : Article → Bool) (a : ℕ) (xs : List Article)
    → contains a (ids_of (select p xs)) ≡ any (λ x. x.id == a && p x) xs
contains-select p a [] = refl
contains-select p a (x ∷ xs) = ground (arith, contains-select p a xs)

any-congr :
    (a : ℕ) (p q : Article → Bool) (xs : List Article)
    → ((x : Article) → (x.id == a) ≡ true → p x ≡ q x)
    → any (λ x. x.id == a && p x) xs ≡ any (λ x. x.id == a && q x) xs
any-congr a p q [] h = refl
any-congr a p q (x ∷ xs) h = elim (Bool-cases (x.id == a)) [
  | inl e ↦ rw (e, h x e, any-congr a p q xs h) refl
  | inr e ↦ rw (e, any-congr a p q xs h) refl
]

any-const :
    (a : ℕ) (p : Article → Bool) (b : Bool) (xs : List Article)
    → any (λ x. x.id == a && (p x && b)) xs ≡ (any (λ x. x.id == a && p x) xs && b)
any-const a p b [] = refl
any-const a p b (x ∷ xs) = ground (arith, any-const a p b xs)

Unique-select :
    (p : Article → Bool) (xs : List Article) → Unique (ids_of xs) → Unique (ids_of (select p xs))
Unique-select p [] u = tt
Unique-select p (x ∷ xs) u = elim (Bool-cases (p x)) [
  | inr e ↦ rw e (Unique-select p xs u.1)
  | inl e ↦ rw e (absent p x.id xs u.0, Unique-select p xs u.1)
]
  where
    absent :
        (p : Article → Bool) (a : ℕ) (xs : List Article)
        → contains a (ids_of xs) ≡ false
        → contains a (ids_of (select p xs)) ≡ false
    absent p a [] h = refl
    absent p a (x ∷ xs) h = elim (Bool-cases (p x)) [
      | inl e ↦ let ih = absent p a xs (ground arith) in rw e (ground arith)
      | inr e ↦ let ih = absent p a xs (ground arith) in rw e ih
    ]

-- The article is in one of the feeds.
abbrev pub in_feeds : ℕ → List ℕ → List Article → Bool
in_feeds a feed_ids articles = any (λ x. x.id == a && contains x.feed_id feed_ids) articles

module _ (user_id : ℕ) (feed_ids : List ℕ) (now : ℕ) (t : Tables) where
  unread_contains :
      (a : ℕ)
      → contains a (ids_of (unread_articles user_id feed_ids t))
        ≡ (in_feeds a feed_ids t.articles && not (any (read_of user_id a) t.reads))
  unfolding unread_articles
  unread_contains a =
      contains-select _ a t.articles
      ∙ any-congr a _ (λ x. contains x.feed_id feed_ids && not (any (read_of user_id a) t.reads))
          t.articles
          (λ x h.
            ap (λ i. contains x.feed_id feed_ids && not (any (read_of user_id i) t.reads))
              ((==_iff x.id a).0 h))
      ∙ any-const a (λ x. contains x.feed_id feed_ids) _ t.articles

  abbrev newly : ℕ → ℕ → Bool
  newly u a = u == user_id && contains a (ids_of (unread_articles user_id feed_ids t))

  newly_iff :
      (u a : ℕ)
      → newly u a
        ≡ (u == user_id && (in_feeds a feed_ids t.articles && not (any (read_of u a) t.reads)))
  newly_iff u a = elim (Bool-cases (u == user_id)) [
    | inl e ↦
        rw (e, unread_contains a)
          (ap (λ i. in_feeds a feed_ids t.articles && not (any (read_of i a) t.reads))
            (sym ((==_iff u user_id).0 e)))
    | inr e ↦ rw e refl
  ]

  row_after :
      (u a : ℕ)
      → Unique (ids_of t.articles)
      → find
          (state_of u a)
          (bump_revisions user_id now (unread_articles user_id feed_ids t) t.states)
        ≡ (if newly u a
            then some (bumped user_id a now (find (state_of u a) t.states))
            else find (state_of u a) t.states)
  unfolding unread_articles
  row_after u a unique = elim (Bool-cases (newly u a)) [
    | inr e ↦ rw e (bump-other user_id now u a (unread_articles user_id feed_ids t) t.states e)
    | inl e ↦
        let same : u ≡ user_id = ground arith in
        let here : contains a (ids_of (unread_articles user_id feed_ids t)) ≡ true = ground arith in
        rw e (
          subst
            (λ i.
              find (state_of i a)
                (bump_revisions user_id now (unread_articles user_id feed_ids t) t.states)
              ≡ some (bumped user_id a now (find (state_of i a) t.states)))
            (sym same)
            (bump-here user_id now a (unread_articles user_id feed_ids t) t.states
              (Unique-select _ t.articles unique) here))
  ]

  -- Marking the articles of feeds as read, where no two articles have one key: exactly the articles of
  -- these feeds that the user had not read become read, each with the revision after its last
  -- one. No other state or revision changes: not of another user, not of an article that
  -- was read before or is in no such feed, and not what is saved.
  pub mark-view :
      (k : Kind) (u a : ℕ)
      → Unique (ids_of t.articles)
      → view k u a (mark_articles_read user_id feed_ids now t).0 ≡ (
          if same_kind Kind.read k
            && (u == user_id && (in_feeds a feed_ids t.articles && not (view k u a t).state))
          then record { state = true; revision = (view k u a t).revision + 1 }
          else view k u a t)
  unfolding mark_articles_read current_state current_revision
  mark-view Kind.saved u a unique =
      ap (λ r. record { state = current_state Kind.saved u a t; revision = r })
        (ap (λ o. elim o [ none ↦ 0 | some r ↦ r.saved_revision ]) (row_after u a unique)
          ∙ saved_kept (newly u a) (find (state_of u a) t.states))
    where
      saved_kept :
          (b : Bool) (o : Option UserState)
          → ◌≡◌ {A = ℕ}
              (elim (if b then some (bumped user_id a now o) else o) [
                | none ↦ 0
                | some r ↦ r.saved_revision
              ])
              (elim o [ none ↦ 0 | some r ↦ r.saved_revision ])
      saved_kept false o = refl
      saved_kept true none = refl
      saved_kept true (some r) = refl
  mark-view Kind.read u a unique =
      ap₂ (λ s r. record { state = s; revision = r })
        (insert_reads-any user_id now u a (unread_articles user_id feed_ids t) t.reads)
        (ap (λ o. elim o [ none ↦ 0 | some r ↦ r.read_revision ]) (row_after u a unique))
      ∙ cell (newly u a) (any (read_of u a) t.reads) (find (state_of u a) t.states)
      ∙ ap
          (λ b.
            if b
            then record { state = true; revision = current_revision Kind.read u a t + 1 }
            else view Kind.read u a t)
          (newly_iff u a)
    where
      cell :
          (b s : Bool) (o : Option UserState)
          → (let x : Cell = record {
            state = s || b;
            revision = elim (if b then some (bumped user_id a now o) else o) [
              | none ↦ 0
              | some r ↦ r.read_revision
            ];
          } in
              x)
            ≡ (if b
                then record {
                  state = true;
                  revision = elim o [ none ↦ 0 | some r ↦ r.read_revision ] + 1;
                }
                else record {
                  state = s;
                  revision = elim o [ none ↦ 0 | some r ↦ r.read_revision ];
                })
      cell false s o = ground arith
      cell true s none = ground arith
      cell true s (some r) = ground arith
