-- ===== src/Ingestion/Jobs.antt =====
-- packages/api/src/repositories/feed-ingestion-source-work.repository.ts: the fetch jobs, which
-- workers claim under a lease.
pub mod Eligibility
pub mod Claiming
pub mod Scheduling
pub mod Due
pub mod Holding
pub mod Leases
pub mod Grants
pub mod Fencing
pub mod Politeness
mod Tests
