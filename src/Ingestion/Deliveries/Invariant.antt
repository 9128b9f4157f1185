-- ===== src/Ingestion/Deliveries/Invariant.antt =====
-- packages/api/src/repositories/feed-ingestion-delivery-work.repository.ts: the columns of a delivery agree
-- with its status, whatever calls are made.
use self_rss.Prelude.{
  ℕ, ◌≤◌, ◌≡◌, refl, sym, subst, inl, inr, Bool, true, false, none, some, List, [], ◌∷◌, arith,
  is_some, ◌==◌, find, select, first_by, All, All-update_where, Option-cases, ◌&&◌, ◌∙◌, ◌+◌,
  if◌then◌else◌, Bool-cases, distinct, max,
}
use self_rss.Ingestion.Tables.{Delivery, DeliveryStatus, delivery_is, Db}
use self_rss.Ingestion.Aggregate.{
  aggregate_refresh_requests, aggregate_refresh_request, aggregate_each, is_request,
}
use self_rss.Ingestion.Deliveries.{
  is_exhausted_delivery, bury_delivery, is_eligible_delivery, delivered_before, lease_delivery,
  lease_candidate, claim_next_delivery, holds_delivery, renew_delivery, finished, finish_delivery,
  DeliveryOutcome, DeliveryEnd, to_delivery_status,
}

-- A lease is there exactly while the delivery runs, a time of completion exactly when it is completed,
-- a time of death exactly when it is dead; no more attempts are made than are allowed.
abbrev pub RowOk : Delivery → Type 0
RowOk d =
    (is_some d.lease_owner ≡ delivery_is d.status DeliveryStatus.running)
    × (is_some d.lease_expires_at ≡ delivery_is d.status DeliveryStatus.running)
    × (is_some d.completed_at ≡ delivery_is d.status DeliveryStatus.completed)
    × (is_some d.dead_at ≡ delivery_is d.status DeliveryStatus.dead)
    × (d.attempts ≤ d.max_attempts)

abbrev pub DeliveriesOk : Db → Type 0
DeliveriesOk db = All RowOk db.deliveries

running-open :
    (s : DeliveryStatus)
    → delivery_is s DeliveryStatus.running ≡ true
    → (delivery_is s DeliveryStatus.completed ≡ false) × (delivery_is s DeliveryStatus.dead ≡ false)
running-open DeliveryStatus.pending h = cc
running-open DeliveryStatus.running h = (refl, refl)
running-open DeliveryStatus.completed h = cc
running-open DeliveryStatus.dead h = cc

pending-open :
    (s : DeliveryStatus)
    → delivery_is s DeliveryStatus.pending ≡ true
    → (delivery_is s DeliveryStatus.completed ≡ false) × (delivery_is s DeliveryStatus.dead ≡ false)
pending-open DeliveryStatus.pending h = (refl, refl)
pending-open DeliveryStatus.running h = cc
pending-open DeliveryStatus.completed h = cc
pending-open DeliveryStatus.dead h = cc

bury-RowOk :
    (now : ℕ) (d : Delivery)
    → is_exhausted_delivery now d ≡ true
    → RowOk d
    → RowOk (bury_delivery now d)
unfolding is_exhausted_delivery
bury-RowOk now d e ok =
    let running : delivery_is d.status DeliveryStatus.running ≡ true = ground (arith, e) in
    (refl, refl, ok.2 ∙ (running-open d.status running).0, refl, ok.4)

eligible-open :
    (now : ℕ) (d : Delivery)
    → is_eligible_delivery now d ≡ true
    → ((delivery_is d.status DeliveryStatus.completed ≡ false)
        × (delivery_is d.status DeliveryStatus.dead ≡ false))
      × (d.attempts + 1 ≤ d.max_attempts)
unfolding is_eligible_delivery
eligible-open now d e = elim (Bool-cases (delivery_is d.status DeliveryStatus.running)) [
  | inl h ↦ (running-open d.status h, ground (arith, e))
  | inr h ↦ (pending-open d.status (ground (arith, e, h)), ground (arith, e))
]

lease-RowOk :
    (worker lease_seconds now : ℕ) (id : ℕ) (d : Delivery)
    → (d.id == id && is_eligible_delivery now d) ≡ true
    → RowOk d
    → RowOk (lease_delivery worker lease_seconds now d)
lease-RowOk worker lease_seconds now id d e ok =
    let eligible : is_eligible_delivery now d ≡ true = ground (arith, e) in
    let h = eligible-open now d eligible in (refl, refl, ok.2 ∙ h.0.0, ok.3 ∙ h.0.1, h.1)

renewed-RowOk :
    (id worker until now : ℕ) (d : Delivery)
    → holds_delivery id worker d ≡ true
    → RowOk d
    → RowOk (record d { lease_expires_at = some until; updated_at = now })
renewed-RowOk id worker until now d e ok =
    let running : delivery_is d.status DeliveryStatus.running ≡ true = ground (arith, e) in
    (ok.0, sym running, ok.2, ok.3, ok.4)

end-stopped : (s : DeliveryEnd) → false ≡ delivery_is (to_delivery_status s) DeliveryStatus.running
end-stopped DeliveryEnd.pending = refl
end-stopped DeliveryEnd.completed = refl
end-stopped DeliveryEnd.dead = refl

stamped : (b : Bool) (now : ℕ) → is_some (if b then some now else none) ≡ b
stamped true now = refl
stamped false now = refl

finished-RowOk :
    (outcome : DeliveryOutcome) (now : ℕ) (held d : Delivery)
    → RowOk d
    → RowOk (finished outcome now held d)
finished-RowOk outcome now held d ok =
    let s = to_delivery_status outcome.status in
    (
      end-stopped outcome.status,
      end-stopped outcome.status,
      stamped (delivery_is s DeliveryStatus.completed) now,
      stamped (delivery_is s DeliveryStatus.dead) now,
      ok.4,
    )

lease_candidate-RowOk :
    (worker lease_seconds now : ℕ) (deliveries : List Delivery)
    → All RowOk deliveries
    → All RowOk (lease_candidate worker lease_seconds now deliveries).0
unfolding lease_candidate
lease_candidate-RowOk worker lease_seconds now deliveries ok =
    elim (Option-cases (first_by delivered_before (select (is_eligible_delivery now) deliveries))) [
      | inl e ↦ rw (e, lease_candidate) ok
      | inr (c, e) ↦
          rw (e, lease_candidate)
            (All-update_where RowOk (λ d. d.id == c.id && is_eligible_delivery now d)
              (lease_delivery worker lease_seconds now) (lease-RowOk worker lease_seconds now c.id)
              deliveries ok)
    ]

aggregate-deliveries :
    (id now : ℕ) (db : Db) → (aggregate_refresh_request id now db).0.deliveries ≡ db.deliveries
unfolding aggregate_refresh_request
aggregate-deliveries id now db = elim (Option-cases (find (is_request id) db.requests)) [
  | inl e ↦ rw (e, aggregate_refresh_request) refl
  | inr (r, e) ↦ rw (e, aggregate_refresh_request) refl
]

aggregate_each-deliveries :
    (ids : List ℕ) (now : ℕ) (db : Db) → (aggregate_each ids now db).deliveries ≡ db.deliveries
unfolding aggregate_each
aggregate_each-deliveries [] now db = refl
aggregate_each-deliveries (id ∷ ids) now db =
    aggregate_each-deliveries ids now (aggregate_refresh_request id now db).0
    ∙ aggregate-deliveries id now db

aggregated-DeliveriesOk :
    (ids : List ℕ) (now : ℕ) (db : Db)
    → DeliveriesOk db
    → DeliveriesOk (aggregate_refresh_requests ids now db)
unfolding aggregate_refresh_requests
aggregated-DeliveriesOk ids now db ok =
    subst (All RowOk) (sym (aggregate_each-deliveries (distinct ids) now db)) ok

-- A call of a worker, or an aggregation.
pub data DeliveryStep : Db → Db → Type 0 where
  claim :
      (worker lease_seconds now : ℕ) {db : Db}
      → DeliveryStep db (claim_next_delivery worker lease_seconds now db).0
  renew :
      (delivery_id worker lease_seconds now : ℕ) {db : Db}
      → DeliveryStep db (renew_delivery delivery_id worker lease_seconds now db).0
  finish :
      (delivery_id worker : ℕ) (outcome : DeliveryOutcome) (now : ℕ) {db : Db}
      → DeliveryStep db (finish_delivery delivery_id worker outcome now db).0
  aggregate :
      (request_ids : List ℕ) (now : ℕ) {db : Db}
      → DeliveryStep db (aggregate_refresh_requests request_ids now db)

claim-DeliveriesOk :
    (worker lease_seconds now : ℕ) (db : Db)
    → DeliveriesOk db
    → DeliveriesOk (claim_next_delivery worker lease_seconds now db).0
unfolding claim_next_delivery
claim-DeliveriesOk worker lease_seconds now db ok = aggregated-DeliveriesOk _ now _ (
    lease_candidate-RowOk worker lease_seconds now _ (
      All-update_where RowOk (is_exhausted_delivery now) (bury_delivery now) (bury-RowOk now)
        db.deliveries ok))

finish-DeliveriesOk :
    (delivery_id worker : ℕ) (outcome : DeliveryOutcome) (now : ℕ) (db : Db)
    → DeliveriesOk db
    → DeliveriesOk (finish_delivery delivery_id worker outcome now db).0
unfolding finish_delivery
finish-DeliveriesOk delivery_id worker outcome now db ok =
    elim (Option-cases (find (holds_delivery delivery_id worker) db.deliveries)) [
      | inl e ↦ rw (e, finish_delivery) ok
      | inr (held, e) ↦
          rw (e, finish_delivery)
            (All-update_where RowOk (λ d. d.id == delivery_id) (finished outcome now held)
              (λ d _. finished-RowOk outcome now held d) db.deliveries ok)
    ]

-- Every call of a worker about deliveries (claiming, renewing, finishing with any outcome) and every
-- aggregation keeps this: a delivery has an owner and an end of its lease exactly while it runs, a time
-- of completion exactly when it is completed, a time of death exactly when it is dead, and no more
-- attempts than are allowed.
pub step-DeliveriesOk :
    (db later : Db) → DeliveryStep db later → DeliveriesOk db → DeliveriesOk later
unfolding renew_delivery
step-DeliveriesOk db _ (DeliveryStep.claim worker lease_seconds now) ok =
    claim-DeliveriesOk worker lease_seconds now db ok
step-DeliveriesOk db _ (DeliveryStep.renew delivery_id worker lease_seconds now) ok =
    All-update_where RowOk (holds_delivery delivery_id worker) _
      (renewed-RowOk delivery_id worker (now + max 1 lease_seconds) now) db.deliveries ok
step-DeliveriesOk db _ (DeliveryStep.finish delivery_id worker outcome now) ok =
    finish-DeliveriesOk delivery_id worker outcome now db ok
step-DeliveriesOk db _ (DeliveryStep.aggregate request_ids now) ok =
    aggregated-DeliveriesOk request_ids now db ok
