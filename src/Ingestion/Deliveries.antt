-- ===== src/Ingestion/Deliveries.antt =====
-- packages/api/src/repositories/feed-ingestion-delivery-work.repository.ts: workers claim the deliveries
-- of snapshots to feeds under leases.
pub mod Invariant
mod Tests
use mathlib.Core.Option
use self_rss.Prelude.{
  ℕ, ◌+◌, max, Bool, true, false, not, ◌&&◌, ◌||◌, Option, none, some, List, [], ◌∷◌, ◌++◌, map,
  ltb, leb, ◌==◌, if◌then◌else◌, or_else, is_eq, find, select, update_where, update_returning,
  first_by,
}
use self_rss.Prelude.Text.{Text}
use self_rss.Ingestion.Tables.{
  Item, ItemStatus, Snapshot, Delivery, DeliveryStatus, delivery_is, Db,
}
use self_rss.Ingestion.Aggregate.{aggregate_refresh_requests}
use self_rss.Ingestion.Jobs.Eligibility.{is_past}
use self_rss.Ingestion.Jobs.Claiming.{requests_of}
use self_rss.Ingestion.Jobs.Holding.{FinishError}

unfoldable pub is_exhausted_delivery : ℕ → Delivery → Bool
is_exhausted_delivery now d =
    delivery_is d.status DeliveryStatus.running
    && is_past d.lease_expires_at now
    && leb d.max_attempts d.attempts

abbrev pub bury_delivery : ℕ → Delivery → Delivery
bury_delivery now d = record d {
  status = DeliveryStatus.dead;
  lease_owner = none;
  lease_expires_at = none;
  updated_at = now;
  dead_at = some now;
}

-- The items that wait for the delivery: those of the snapshot's job and of the delivery's feed.
abbrev pub item_of : ℕ → Delivery → Item → Bool
item_of job_id d i = is_eq i.job_id job_id && is_eq i.feed_id d.feed_id

-- `snapshot?.jobId`.
unfoldable pub snapshot_job : Delivery → List Snapshot → Option ℕ
snapshot_job d snapshots = elim (find (λ s. s.id == d.snapshot_id) snapshots) [
  | none ↦ none
  | some s ↦ s.job_id
]

-- The loop over the exhausted deliveries: their items, and the requests of these.
unfoldable pub bury_items : ℕ → List Snapshot → List Delivery → List Item → List Item × List ℕ
unfolding snapshot_job
bury_items now snapshots [] items = (items, [])
bury_items now snapshots (d ∷ rest) items = elim (snapshot_job d snapshots) [
  | none ↦ bury_items now snapshots rest items
  | some job_id ↦
      let dead = λ (i : Item). record i {
        status = ItemStatus.dead;
        updated_at = now;
        completed_at = some now;
      } in
      let (written, requests) =
        bury_items now snapshots rest (update_where (item_of job_id d) dead items) in
      (written, requests_of (select (item_of job_id d) items) ++ requests)
]

unfoldable pub is_eligible_delivery : ℕ → Delivery → Bool
is_eligible_delivery now d =
    (delivery_is d.status DeliveryStatus.pending
      && leb d.available_at now
      && ltb d.attempts d.max_attempts)
    || (delivery_is d.status DeliveryStatus.running
        && is_past d.lease_expires_at now
        && ltb d.attempts d.max_attempts)

unfoldable pub delivered_before : Delivery → Delivery → Bool
delivered_before d e =
    ltb d.available_at e.available_at
    || (d.available_at == e.available_at && ltb d.created_at e.created_at)

abbrev pub lease_delivery : ℕ → ℕ → ℕ → Delivery → Delivery
lease_delivery worker lease_seconds now d = record d {
  status = DeliveryStatus.running;
  lease_owner = some worker;
  lease_expires_at = some (now + max 1 lease_seconds);
  attempts = d.attempts + 1;
  updated_at = now;
  started_at = some now;
}

unfoldable pub lease_candidate : ℕ → ℕ → ℕ → List Delivery → List Delivery × Option Delivery
unfolding is_eligible_delivery delivered_before
lease_candidate worker lease_seconds now deliveries =
    elim (first_by delivered_before (select (is_eligible_delivery now) deliveries)) [
      | none ↦ (deliveries, none)
      | some c ↦
          update_returning (λ d. d.id == c.id && is_eligible_delivery now d)
            (lease_delivery worker lease_seconds now) deliveries
    ]

unfoldable pub claim_next_delivery : ℕ → ℕ → ℕ → Db → Db × Option Delivery
unfolding is_exhausted_delivery bury_items lease_candidate
claim_next_delivery worker lease_seconds now db =
    let buried = update_where (is_exhausted_delivery now) (bury_delivery now) db.deliveries in
    let (items, requests) =
      bury_items now db.snapshots (select (is_exhausted_delivery now) db.deliveries) db.items in
    let (deliveries, claimed) = lease_candidate worker lease_seconds now buried in
    (
      aggregate_refresh_requests requests now
          (record db { items = items; deliveries = deliveries }),
      claimed,
    )

abbrev pub holds_delivery : ℕ → ℕ → Delivery → Bool
holds_delivery delivery_id worker d =
    d.id == delivery_id && delivery_is d.status DeliveryStatus.running && is_eq d.lease_owner worker

unfoldable pub renew_delivery : ℕ → ℕ → ℕ → ℕ → Db → Db × Option Delivery
renew_delivery delivery_id worker lease_seconds now db =
    let extend = λ (d : Delivery). record d {
      lease_expires_at = some (now + max 1 lease_seconds);
      updated_at = now;
    } in
    let (deliveries, renewed) =
      update_returning (holds_delivery delivery_id worker) extend db.deliveries in
    (record db { deliveries = deliveries }, renewed)

pub data DeliveryEnd : Type 0 where
  pending completed dead : DeliveryEnd

abbrev pub to_delivery_status : DeliveryEnd → DeliveryStatus
to_delivery_status DeliveryEnd.pending = DeliveryStatus.pending
to_delivery_status DeliveryEnd.completed = DeliveryStatus.completed
to_delivery_status DeliveryEnd.dead = DeliveryStatus.dead

-- The argument `data` of `finishDelivery`.
pub record DeliveryOutcome : Type 0 where
  pub status : DeliveryEnd
  pub available_at : Option ℕ
  pub error : Option FinishError

abbrev pub finished : DeliveryOutcome → ℕ → Delivery → Delivery → Delivery
finished outcome now held d =
    let status = to_delivery_status outcome.status in
    record d {
      status = status;
      available_at = or_else outcome.available_at held.available_at;
      lease_owner = none;
      lease_expires_at = none;
      last_error_code = Option.map (λ e. e.code) outcome.error;
      last_error_details = Option.bind outcome.error (λ e. e.details);
      completed_at = if delivery_is status DeliveryStatus.completed then some now else none;
      dead_at = if delivery_is status DeliveryStatus.dead then some now else none;
      updated_at = now;
    }

-- An error that is not given leaves the columns as they are, as does one without details.
abbrev pub delivered_item : DeliveryOutcome → ℕ → Item → Item
delivered_item outcome now i = record i {
  status = elim outcome.status [
    | DeliveryEnd.completed ↦ ItemStatus.completed
    | _ ↦ ItemStatus.dead
  ];
  completed_at = some now;
  last_error_code = elim outcome.error [ none ↦ i.last_error_code | some e ↦ some e.code ];
  last_error_details = elim outcome.error [
    | none ↦ i.last_error_details
    | some e ↦ elim e.details [ none ↦ i.last_error_details | some t ↦ some t ]
  ];
  updated_at = now;
}

-- The items that the end of a delivery settles, and their requests.
unfoldable pub settle_items :
    DeliveryOutcome → ℕ → Delivery → List Snapshot → List Item → List Item × List ℕ
unfolding snapshot_job
settle_items outcome now held snapshots items = elim outcome.status [
  | DeliveryEnd.pending ↦ (items, [])
  | _ ↦ elim (snapshot_job held snapshots) [
    | none ↦ (items, [])
    | some job_id ↦ (
      update_where (item_of job_id held) (delivered_item outcome now) items,
      requests_of (select (item_of job_id held) items),
    )
  ]
]

pub record Delivered : Type 0 where
  pub delivery : Option Delivery
  pub request_ids : List ℕ

unfoldable pub finish_delivery : ℕ → ℕ → DeliveryOutcome → ℕ → Db → Db × Option Delivered
unfolding settle_items
finish_delivery delivery_id worker outcome now db =
    elim (find (holds_delivery delivery_id worker) db.deliveries) [
      | none ↦ (db, none)
      | some held ↦
          let (deliveries, updated) =
            update_returning (λ d. d.id == delivery_id) (finished outcome now held) db.deliveries in
          let (items, requests) = settle_items outcome now held db.snapshots db.items in
          (
            record db { deliveries = deliveries; items = items },
            some (record { delivery = updated; request_ids = requests }),
          )
    ]
