-- ===== src/Ingestion/Lifecycle/Invariant.antt =====
-- packages/api/src/repositories/feed-ingestion-source-work.repository.ts and
-- packages/api/src/services/durable-refresh-queue.ts: what holds of the fetch jobs at any time.
use self_rss.Prelude.{sym, subst}
use self_rss.Ingestion.Tables.{Db}
use self_rss.Ingestion.Lifecycle.{Reachable, JobsOk}
use self_rss.Ingestion.Lifecycle.Operations.{step-JobsOk}

-- In every database that these calls (scheduling, enqueueing for a source, claiming, renewing, recording an
-- attempt, releasing, finishing, aggregating) reach from one without jobs, in any order, a job has
-- an owner and an end of its lease exactly while it runs; it has been tried no more often than its
-- limit allows; a source has at most one queued or running job; and no two jobs have one key.
pub Reachable-JobsOk : (db : Db) → Reachable db → JobsOk db.jobs
Reachable-JobsOk db (Reachable.start none_yet) = subst JobsOk (sym none_yet) (tt, tt, tt)
Reachable-JobsOk db (Reachable.next before path step) =
    step-JobsOk before db step (Reachable-JobsOk before path)
