-- ===== src/Ingestion/Deliveries/Tests.antt =====
-- packages/api/src/repositories/feed-ingestion-delivery-work.repository.ts: calls on a small database.
use self_rss.Prelude.{arith, true, ◌≡◌, refl, none, some, [], ◌∷◌, map, distinct, first_by}
use self_rss.Ingestion.Tables.{Item, ItemStatus, ParseState, Delivery, DeliveryStatus, Db}
use self_rss.Ingestion.Aggregate.{aggregate_refresh_requests}
use self_rss.Ingestion.Deliveries.{
  claim_next_delivery, finish_delivery, DeliveryOutcome, DeliveryEnd,
}
use self_rss.Ingestion.Deliveries.Invariant.{DeliveriesOk, DeliveryStep, step-DeliveriesOk}

abbrev delivery : Delivery
delivery = record {
  id = 1;
  snapshot_id = 4;
  feed_id = 30;
  status = DeliveryStatus.pending;
  available_at = 10;
  lease_owner = none;
  lease_expires_at = none;
  attempts = 0;
  max_attempts = 5;
  last_error_code = none;
  last_error_details = none;
  created_at = 10;
  updated_at = 10;
  started_at = none;
  completed_at = none;
  dead_at = none;
}

-- Its last attempt ran out.
abbrev worn_out : Delivery
worn_out = record delivery {
  id = 2;
  feed_id = 31;
  status = DeliveryStatus.running;
  lease_owner = some 8;
  lease_expires_at = some 15;
  attempts = 5;
}

abbrev item : Item
item = record {
  id = 1;
  request_id = 5;
  feed_id = some 31;
  source_id = some 10;
  job_id = some 2;
  status = ItemStatus.running;
  last_error_code = none;
  last_error_details = none;
  created_at = 10;
  updated_at = 10;
  completed_at = none;
}

abbrev db : Db
db = record {
  jobs = [];
  items = item ∷ record item { id = 2; feed_id = some 30 } ∷ [];
  requests = [];
  sources = [];
  origins = [];
  snapshots =
      record {
        id = 4;
        source_id = 10;
        job_id = some 2;
        parse_state = ParseState.parsed;
        has_raw_body = true;
      }
      ∷ [];
  deliveries = delivery ∷ worn_out ∷ [];
  feeds = [];
}

abbrev claimed_db : Db
claimed_db = (claim_next_delivery 7 60 20 db).0

abbrev success : DeliveryOutcome
success = record { status = DeliveryEnd.completed; available_at = none; error = none }

claim_test :
    map (λ d. d.status) claimed_db.deliveries ≡ DeliveryStatus.running ∷ DeliveryStatus.dead ∷ []
unfolding claim_next_delivery aggregate_refresh_requests distinct first_by
claim_test = refl

bury_test : map (λ i. i.status) claimed_db.items ≡ ItemStatus.dead ∷ ItemStatus.running ∷ []
unfolding claim_next_delivery aggregate_refresh_requests distinct
bury_test = refl

finish_test :
    map (λ i. i.status) (finish_delivery 1 7 success 25 claimed_db).0.items
    ≡ ItemStatus.dead ∷ ItemStatus.completed ∷ []
unfolding finish_delivery claim_next_delivery aggregate_refresh_requests distinct first_by
finish_test = refl

db-DeliveriesOk : DeliveriesOk db
db-DeliveriesOk =
    ((refl, refl, refl, refl, omega arith), ((refl, refl, refl, refl, omega arith), tt))

step-DeliveriesOk_example : DeliveriesOk claimed_db
step-DeliveriesOk_example =
    step-DeliveriesOk db claimed_db (DeliveryStep.claim 7 60 20) db-DeliveriesOk
