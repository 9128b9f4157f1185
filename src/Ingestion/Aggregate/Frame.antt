-- ===== src/Ingestion/Aggregate/Frame.antt =====
-- packages/api/src/repositories/refresh-request-aggregation.ts: an aggregation writes requests only.
use self_rss.Prelude.{ℕ, ◌≡◌, refl, ◌∙◌, inl, inr, List, [], ◌∷◌, find, distinct, Option-cases}
use self_rss.Ingestion.Tables.{Db}
use self_rss.Ingestion.Aggregate.{
  is_request, aggregate_refresh_request, aggregate_each, aggregate_refresh_requests,
}

-- The tables other than the requests are the same.
abbrev pub SameWork : Db → Db → Type 0
SameWork d e =
    (d.jobs ≡ e.jobs)
    × (d.items ≡ e.items)
    × (d.sources ≡ e.sources)
    × (d.origins ≡ e.origins)
    × (d.snapshots ≡ e.snapshots)
    × (d.feeds ≡ e.feeds)

aggregate-SameWork :
    (request_id now : ℕ) (db : Db) → SameWork (aggregate_refresh_request request_id now db).0 db
unfolding aggregate_refresh_request
aggregate-SameWork request_id now db =
    elim (Option-cases (find (is_request request_id) db.requests)) [
      | inl e ↦ rw (e, aggregate_refresh_request) (refl, refl, refl, refl, refl, refl)
      | inr (r, e) ↦ rw (e, aggregate_refresh_request) (refl, refl, refl, refl, refl, refl)
    ]

aggregate_each-SameWork :
    (ids : List ℕ) (now : ℕ) (db : Db) → SameWork (aggregate_each ids now db) db
unfolding aggregate_each
aggregate_each-SameWork [] now db = (refl, refl, refl, refl, refl, refl)
aggregate_each-SameWork (id ∷ ids) now db =
    let a = aggregate-SameWork id now db in
    let b = aggregate_each-SameWork ids now (aggregate_refresh_request id now db).0 in
    (b.0 ∙ a.0, b.1 ∙ a.1, b.2 ∙ a.2, b.3 ∙ a.3, b.4 ∙ a.4, b.5 ∙ a.5)

pub aggregate_refresh_requests-SameWork :
    (ids : List ℕ) (now : ℕ) (db : Db) → SameWork (aggregate_refresh_requests ids now db) db
unfolding aggregate_refresh_requests
aggregate_refresh_requests-SameWork ids now db = aggregate_each-SameWork (distinct ids) now db
