-- ===== src/Ingestion.antt =====
-- packages/api/src/db/schema.ts and packages/api/src/repositories/feed-ingestion-*.ts: the durable
-- ingestion queue. The children hold the tables, and the operations on them.
pub mod Tables
pub mod Aggregate
pub mod Jobs
pub mod Queue
pub mod Lifecycle
pub mod Expiry
pub mod Deliveries
