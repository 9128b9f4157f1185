-- ===== src/Ingestion/Expiry/Closed.antt =====
-- packages/api/src/repositories/feed-ingestion.repository.ts: a request that expires is closed.
use mathlib.Core.Option
use mathlib.Core.Option.{none-ne-some}
use self_rss.Prelude.{
  ℕ, ◌≡◌, refl, sym, ◌∙◌, ap, subst, inl, inr, ◌⊎◌, true, false, not, Option, none, some, List, [],
  ◌∷◌, arith, ◌==◌, ==_iff, find, any, contains, distinct, select, Bool-cases, Option-cases,
  find-holds, find-update_where, find-update_other, eq_of_some, if◌then◌else◌, ◌/◌,
}
use self_rss.Ingestion.Tables.{Item, Request, is_active_request, Db}
use self_rss.Ingestion.Aggregate.{
  aggregated, counts_of, is_request, aggregate_refresh_request, aggregate_each,
  aggregate_refresh_requests,
}
use self_rss.Ingestion.Aggregate.Progress.{
  is_open_item, aggregated-Progress, aggregate-none, aggregate-some, is_request-aggregated,
}
use self_rss.Ingestion.Expiry.{close_items, stale_ids, expire_stale_manual_refresh_requests}

-- The request, if it is there, is not active.
abbrev pub IsClosed : ℕ → Db → Type 0
IsClosed id db =
    (r : Request) → find (is_request id) db.requests ≡ some r → is_active_request r.status ≡ false

aggregate-items :
    (other now : ℕ) (db : Db) → (aggregate_refresh_request other now db).0.items ≡ db.items
aggregate-items other now db = elim (Option-cases (find (is_request other) db.requests)) [
  | inl e ↦ ap (λ r. r.0.items) (aggregate-none other now db e)
  | inr (current, e) ↦ ap (λ r. r.0.items) (aggregate-some other now db e)
]

module _ (id now : ℕ) where
  aggregate-IsClosed :
      (db : Db)
      → any (is_open_item id) db.items ≡ false
      → IsClosed id (aggregate_refresh_request id now db).0
  aggregate-IsClosed db idle r h = elim (Option-cases (find (is_request id) db.requests)) [
    | inl e ↦ absurd (
        none-ne-some r
          (sym (ap (λ q. find (is_request id) q.0.requests) (aggregate-none id now db e) ∙ e) ∙ h))
    | inr (current, e) ↦
        let f = aggregated (counts_of id db.items) now current in
        let found : find (is_request id) (aggregate_refresh_request id now db).0.requests
            ≡ some (f current) =
          ap (λ q. find (is_request id) q.0.requests) (aggregate-some id now db e)
          ∙ find-update_where (is_request id) f
              (is_request-aggregated id now (counts_of id db.items) current) db.requests
          ∙ ap (Option.map f) e in
        subst (λ r. is_active_request r.status ≡ false) (eq_of_some (f current) r (sym found ∙ h))
          ((aggregated-Progress id now db.items current).2 ∙ idle)
  ]

  -- Aggregating another request leaves the row as it is.
  other-kept :
      (other : ℕ) (db : Db)
      → (other == id) ≡ false
      → find (is_request id) (aggregate_refresh_request other now db).0.requests
        ≡ find (is_request id) db.requests
  other-kept other db ne = elim (Option-cases (find (is_request other) db.requests)) [
    | inl e ↦ ap (λ q. find (is_request id) q.0.requests) (aggregate-none other now db e)
    | inr (current, e) ↦
        let f = aggregated (counts_of other db.items) now current in
        ap (λ q. find (is_request id) q.0.requests) (aggregate-some other now db e)
        ∙ find-update_other (is_request id) (is_request other) f
            (is_request-aggregated id now (counts_of other db.items) current) db.requests
        ∙ same_row f (find (is_request id) db.requests) refl
  ]
    where
      missed : (i : ℕ) → (i == id) ≡ true → (other == id) ≡ false → (i == other) ≡ false
      missed i h k = ground arith

      same_row :
          (f : Request → Request) (o : Option Request)
          → find (is_request id) db.requests ≡ o
          → Option.map (λ r. if is_request other r then f r else r) o ≡ o
      same_row f none e = refl
      same_row f (some r) e = rw (missed r.id (find-holds (is_request id) db.requests e) ne) refl

  each-IsClosed :
      (ids : List ℕ) (db : Db)
      → any (is_open_item id) db.items ≡ false
      → (contains id ids ≡ true) ⊎ IsClosed id db
      → IsClosed id (aggregate_each ids now db)
  unfolding aggregate_each
  each-IsClosed [] db idle (inl h) = cc
  each-IsClosed [] db idle (inr closed) = closed
  each-IsClosed (other ∷ ids) db idle h =
      let db' = (aggregate_refresh_request other now db).0 in
      each-IsClosed ids db' (ap (any (is_open_item id)) (aggregate-items other now db) ∙ idle)
        (elim (Bool-cases (other == id)) [
          | inl e ↦ inr (
              subst (λ o. IsClosed id (aggregate_refresh_request o now db).0)
                (sym ((==_iff other id).0 e)) (aggregate-IsClosed db idle))
          | inr e ↦ elim h [
            | inl m ↦ inl (ground arith)
            | inr closed ↦ inr (λ r k. closed r (sym (other-kept other db e) ∙ k))
          ]
        ])

contains-select :
    (id x : ℕ) (ids : List ℕ)
    → (id == x) ≡ false
    → contains id (select (λ y. not (y == x)) ids) ≡ contains id ids
contains-select id x [] ne = refl
contains-select id x (y ∷ ids) ne = ground (arith, contains-select id x ids ne)

contains-distinct : (id : ℕ) (ids : List ℕ) → contains id (distinct ids) ≡ contains id ids
unfolding distinct
contains-distinct id [] = refl
contains-distinct id (x ∷ ids) = elim (Bool-cases (id == x)) [
  | inl e ↦ ground arith
  | inr e ↦ ground (arith, contains-select id x (distinct ids) e, contains-distinct id ids)
]

-- The update leaves no open item of the requests.
close_items-idle :
    (id : ℕ) (ids : List ℕ) (now : ℕ) (items : List Item)
    → contains id ids ≡ true
    → any (is_open_item id) (close_items ids now items) ≡ false
unfolding close_items
close_items-idle id ids now [] m = refl
close_items-idle id ids now (i ∷ items) m =
    let ih = close_items-idle id ids now items m in
    elim (Bool-cases (i.request_id == id)) [
      | inl e ↦
          let member = subst (λ k. contains k ids ≡ true) (sym ((==_iff i.request_id id).0 e)) m in
          rw member (ground (arith, ih))
      | inr e ↦ ground (arith, ih, e)
    ]

-- Every request that an expiry reports is closed by it.
pub expire-IsClosed :
    (now_ms max_age_ms id : ℕ) (db : Db)
    → contains id (expire_stale_manual_refresh_requests now_ms max_age_ms db).1 ≡ true
    → IsClosed id (expire_stale_manual_refresh_requests now_ms max_age_ms db).0
unfolding expire_stale_manual_refresh_requests aggregate_refresh_requests
expire-IsClosed now_ms max_age_ms id db m =
    let ids = stale_ids now_ms max_age_ms db in
    each-IsClosed id (now_ms / 1000) (distinct ids) _
      (close_items-idle id ids (now_ms / 1000) db.items m) (inl (contains-distinct id ids ∙ m))
