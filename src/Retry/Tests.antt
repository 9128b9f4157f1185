-- ===== src/Retry/Tests.antt =====
-- packages/api/src/utils/retry.ts: runs of a server that recovers and of one that refuses.
use self_rss.Prelude.{ℕ, ◌≤◌, ◌<◌, ◌≡◌, refl, true, none, [], ◌∷◌, zero, suc}
use self_rss.Prelude.Text.{codes, includes, to_lower_case, starts_with}
use self_rss.Retry.{
  RetryOptions, Response, Thrown, Outcome, returned, threw, is_retryable_error, is_client_error,
  delay_ms, gives_up, attempts_from, with_retry, check_status, fetch_with_retry,
}
use self_rss.Retry.Attempts.{IsRun, with_retry-IsRun, fetch_with_retry-response}

abbrev defaults : RetryOptions
defaults = record { max_retries = none; base_delay_ms = none; max_delay_ms = none }

-- Two failures, then a response.
abbrev recovers : ℕ → Outcome Response
recovers zero = returned (record { status = 500 })
recovers (suc zero) = threw (Thrown.error true (codes "TypeError") (codes "fetch failed"))
recovers (suc (suc zero)) = returned (record { status = 503 })
recovers (suc (suc (suc n))) = returned (record { status = 200 })

abbrev refuses : ℕ → Outcome Response
refuses _ = returned (record { status = 404 })

recovered :
    fetch_with_retry recovers defaults
    ≡ record { outcome = returned (record { status = 200 }); calls = 3; delays = 1000 ∷ 2000 ∷ [] }
unfolding fetch_with_retry with_retry attempts_from gives_up is_client_error is_retryable_error
    delay_ms check_status includes to_lower_case starts_with
recovered = refl

refused :
    fetch_with_retry refuses defaults
    ≡ record { outcome = threw (Thrown.response (record { status = 404 })); calls = 1; delays = [] }
unfolding fetch_with_retry with_retry attempts_from gives_up is_client_error is_retryable_error
    delay_ms check_status
refused = refl

with_retry-IsRun_example : IsRun recovers defaults (with_retry recovers defaults)
with_retry-IsRun_example = with_retry-IsRun recovers defaults

fetch_with_retry-response_example :
    let r = fetch_with_retry refuses defaults in
    ((a : Response) → r.outcome ≡ returned a → (a.status < 400) × (refuses r.calls ≡ returned a))
    × ((n : ℕ) (a : Response)
        → 1 ≤ n
        → n ≤ r.calls
        → refuses n ≡ returned a
        → 400 ≤ a.status
        → a.status < 500
        → n ≡ r.calls)
fetch_with_retry-response_example = fetch_with_retry-response refuses defaults
