-- ===== src/FetchOutcome/Circuit.antt =====
-- packages/api/src/services/feed-fetch-outcome-policy.ts: when a source is paused or its circuit
-- opens.
use self_rss.Prelude.{
  ℕ, ◌≤◌, ◌≡◌, ◌⊎◌, Bool, false, ◌||◌, ◌&&◌, leb, Option, arith, if◌then◌else◌, is_eq, not,
}
use self_rss.Prelude.Text.{Text}
use self_rss.FetchOutcome.{
  Input, transient, permanent, SourceState, active, paused, circuit_open, is_content_failure, week,
  verdict, finish, classify_fetch_failure,
}

-- The failures that the source calls permanent: by status, or by content.
abbrev pub is_permanent : Input → Bool
is_permanent i =
    is_eq i.status 410
    || is_eq i.status 401
    || is_eq i.status 403
    || is_eq i.status 404
    || is_content_failure i.failure_kind

-- The state of the source after `failures` failures in a row.
abbrev pub expected_state : Input → SourceState
expected_state i =
    if is_eq i.status 410 || is_permanent i && leb 3 i.consecutive_failures
    then paused
    else if is_permanent i || not (leb 8 i.consecutive_failures)
    then active
    else circuit_open

-- The class, the state and the circuit of every failure: only a permanent failure pauses a source,
-- 410 at once and the others from the third failure on; only a transient one opens the circuit
-- without a pause, from the eighth on; an open circuit waits a week at least.
pub classify-state :
    (date_parse : Text → Option ℕ) (i : Input)
    → let p = classify_fetch_failure date_parse i in
      (p.failure_class ≡ (if is_permanent i then permanent else transient))
      × (p.state ≡ expected_state i)
      × (p.circuit_opened ≡ leb (if is_permanent i then 3 else 8) i.consecutive_failures)
      × ((p.circuit_opened ≡ false) ⊎ (week ≤ p.delay_seconds))
unfolding classify_fetch_failure verdict finish
classify-state date_parse i = (ground arith, ground arith, ground arith, ground arith)
