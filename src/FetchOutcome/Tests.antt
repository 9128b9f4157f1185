-- ===== src/FetchOutcome/Tests.antt =====
-- packages/api/src/services/feed-fetch-outcome-policy.ts: runs at concrete inputs.
use self_rss.Prelude.{
  ℕ, ◌+◌, ◌*◌, ◌≤◌, ◌<◌, ◌≡◌, refl, ◌⊎◌, inl, true, false, Option, none, some, arith, or_else,
}
use self_rss.Prelude.Text.{Text, codes}
use self_rss.FetchOutcome.{
  Input, paused, permanent, week, min_source_interval_seconds, max_retry_after_seconds,
  parse_retry_after, positive_jitter, schedule, classify_fetch_failure,
}
use self_rss.FetchOutcome.Bounds.{classify-delay_bounds, classify-delay-le, retry_after-honoured}
use self_rss.FetchOutcome.Circuit.{classify-state}
use self_rss.FetchOutcome.Monotone.{classify_mono}

-- No text is a date.
abbrev no_date : Text → Option ℕ
no_date _ = none

abbrev limited : Input
limited = record {
  status = some 429;
  failure_kind = none;
  retry_after = some (codes " 7200 ");
  consecutive_failures = 2;
  now = 1000000;
  jitter = none;
  source_blocked_until = none;
  origin_blocked_until = none;
}

abbrev gone : Input
gone = record limited {
  status = some 404;
  consecutive_failures = 3;
  jitter = some (record { num = 1; den = 2 });
  origin_blocked_until = some 5;
}

limited_retry_after : parse_retry_after no_date (some (codes " 7200 ")) 1000000 ≡ some 7200
unfolding parse_retry_after
limited_retry_after = refl

limited_delay : (classify_fetch_failure no_date limited).delay_seconds ≡ 7200
unfolding classify_fetch_failure parse_retry_after positive_jitter schedule
limited_delay = refl

gone_delay : (classify_fetch_failure no_date gone).delay_seconds ≡ week + 450
unfolding classify_fetch_failure parse_retry_after positive_jitter schedule
gone_delay = refl

classify-delay_bounds_example :
    let p = classify_fetch_failure no_date gone in
    (gone.now + min_source_interval_seconds * 1000 ≤ p.next_attempt_at)
    × (min_source_interval_seconds ≤ p.delay_seconds)
    × (p.next_attempt_at ≤ gone.now + p.delay_seconds * 1000)
    × (gone.now + p.delay_seconds * 1000 < p.next_attempt_at + 1000)
    × (or_else gone.source_blocked_until 0 ≤ p.next_attempt_at)
    × (or_else gone.origin_blocked_until 0 ≤ p.next_attempt_at)
classify-delay_bounds_example = classify-delay_bounds no_date gone

classify-delay-le_example :
    (classify_fetch_failure no_date limited).delay_seconds ≤ max_retry_after_seconds + 900
classify-delay-le_example = classify-delay-le no_date limited refl refl

retry_after-honoured_example : (classify_fetch_failure no_date limited).delay_seconds ≡ 7200
retry_after-honoured_example =
    retry_after-honoured no_date limited 7200 (inl refl) refl limited_retry_after (omega arith) refl
      refl refl

classify-state_example :
    let p = classify_fetch_failure no_date gone in
    (p.failure_class ≡ permanent)
    × (p.state ≡ paused)
    × (p.circuit_opened ≡ true)
    × ((p.circuit_opened ≡ false) ⊎ (week ≤ p.delay_seconds))
classify-state_example = classify-state no_date gone

classify_mono_example :
    (classify_fetch_failure no_date limited).next_attempt_at
    ≤ (classify_fetch_failure no_date (record limited { consecutive_failures = 8 })).next_attempt_at
classify_mono_example = classify_mono no_date limited 8 (omega arith)
