-- ===== src/FetchOutcome/Bounds.antt =====
-- packages/api/src/services/feed-fetch-outcome-policy.ts: how long a failed source waits.
use native.Mathlib.Nat.{div-lt_iff_lt-mul, zero-div, mul-le-mul}
use self_rss.Prelude.{
  ◌⊎◌, false, max, ℕ, zero, suc, ◌+◌, ◌-◌, ◌*◌, ◌≤◌, ◌<◌, min, max, ◌≡◌, inl, inr, Option, none,
  some, List, [], ◌∷◌, arith, length, get_or, All, Option-cases, or_else,
}
use self_rss.Prelude.Text.{Text}
use self_rss.FetchOutcome.{
  is_content_failure, Input, Sample, Verdict, hour, day, week, min_source_interval_seconds,
  max_retry_after_seconds, valid_retry_after_seconds, schedule, positive_jitter, parse_retry_after,
  verdict, finish, classify_fetch_failure, ceil_div,
}

get_or-All {ℓ κ} :
    {A : Type ℓ} (P : A → Type κ) (xs : List A) (i : ℕ) (d : A)
    → All P xs
    → i < length xs
    → P (get_or xs i d)
get_or-All P [] i d h lt = absurd (omega arith)
get_or-All P (x ∷ xs) zero d h lt = h.0
get_or-All P (x ∷ xs) (suc i) d h lt = get_or-All P xs i d h.1 (omega arith)

pub schedule-All {κ} :
    (P : ℕ → Type κ) (x : ℕ) (xs : List ℕ) (failures : ℕ)
    → All P (x ∷ xs)
    → P (schedule (x ∷ xs) failures)
unfolding schedule
schedule-All P x xs failures h = get_or-All P (x ∷ xs) _ 0 h (omega arith)

ceil-le : (m base den : ℕ) → m ≤ den → ceil_div (m * min base 9000) (den * 10) ≤ 900
ceil-le m base zero h = omega (arith, zero-div 0)
ceil-le m base (suc d) h =
    let small : m * min base 9000 ≤ suc d * 9000 = mul-le-mul h (omega arith) in
    let few : m * min base 9000 + (suc d * 10 - 1) < 901 * (suc d * 10) = omega arith in
    omega (arith, (div-lt_iff_lt-mul {k = suc d * 10} (omega arith)).1 few)

pub positive_jitter-le : (base : ℕ) (sample : Option Sample) → positive_jitter base sample ≤ 900
unfolding positive_jitter
positive_jitter-le base none = omega arith
positive_jitter-le base (some r) = ceil-le (min r.num r.den) base r.den (omega arith)

pub valid_retry_after-le :
    (seconds now r : ℕ)
    → valid_retry_after_seconds seconds now ≡ some r
    → r ≤ max_retry_after_seconds
unfolding valid_retry_after_seconds
valid_retry_after-le seconds now r h = ground arith

pub finish_bounds :
    (i : Input) (failures : ℕ) (v : Verdict)
    → let p = finish i failures v in
      (i.now + min_source_interval_seconds * 1000 ≤ p.next_attempt_at)
      × (min_source_interval_seconds ≤ p.delay_seconds)
      × (p.next_attempt_at ≤ i.now + p.delay_seconds * 1000)
      × (i.now + p.delay_seconds * 1000 < p.next_attempt_at + 1000)
      × (or_else i.source_blocked_until 0 ≤ p.next_attempt_at)
      × (or_else i.origin_blocked_until 0 ≤ p.next_attempt_at)
unfolding finish
finish_bounds i failures v = ground arith

parse_retry_after-le :
    (dp : Text → Option ℕ) (v : Option Text) (now r : ℕ)
    → parse_retry_after dp v now ≡ some r
    → r ≤ max_retry_after_seconds
unfolding parse_retry_after valid_retry_after_seconds
parse_retry_after-le dp none now r h = cc
parse_retry_after-le dp (some v) now r h = ground arith

retry_or-le :
    (dp : Text → Option ℕ) (v : Option Text) (now d : ℕ)
    → d ≤ max_retry_after_seconds
    → or_else (parse_retry_after dp v now) d ≤ max_retry_after_seconds
retry_or-le dp v now d h = elim (Option-cases (parse_retry_after dp v now)) [
  | inl e ↦ rw e h
  | inr (r, e) ↦ rw e (parse_retry_after-le dp v now r e)
]

pub verdict-le :
    (dp : Text → Option ℕ) (i : Input) (failures : ℕ)
    → (verdict dp i failures).base_seconds ≤ max_retry_after_seconds
unfolding verdict
verdict-le dp i failures = ground (
  arith,
  schedule-All (λ x. x ≤ max_retry_after_seconds) day (3 * day ∷ week ∷ []) failures (omega arith),
  schedule-All (λ x. x ≤ max_retry_after_seconds) (6 * hour) (day ∷ week ∷ []) failures
      (omega arith),
  schedule-All (λ x. x ≤ max_retry_after_seconds) (6 * hour) (day ∷ []) failures (omega arith),
  schedule-All (λ x. x ≤ max_retry_after_seconds) (15 * 60)
      (30 * 60 ∷ hour ∷ 2 * hour ∷ 6 * hour ∷ []) failures (omega arith),
  retry_or-le dp i.retry_after i.now _ (
      schedule-All (λ x. x ≤ max_retry_after_seconds) hour (2 * hour ∷ 4 * hour ∷ day ∷ []) failures
        (omega arith)),
  retry_or-le dp i.retry_after i.now 0 (omega arith),
)

pub finish-le :
    (i : Input) (failures : ℕ) (v : Verdict)
    → i.source_blocked_until ≡ none
    → i.origin_blocked_until ≡ none
    → v.base_seconds ≤ max_retry_after_seconds
    → (finish i failures v).delay_seconds ≤ max_retry_after_seconds + 900
unfolding finish
finish-le i failures v a b h = grind (arith, positive_jitter-le)

-- A failed source is never contacted again within 15 minutes, nor before the publisher's own or
-- its origin's block ends (a missing block counts as 0), and the delay is the time up to the next
-- attempt, rounded up to a second.
pub classify-delay_bounds :
    (date_parse : Text → Option ℕ) (i : Input)
    → let p = classify_fetch_failure date_parse i in
      (i.now + min_source_interval_seconds * 1000 ≤ p.next_attempt_at)
      × (min_source_interval_seconds ≤ p.delay_seconds)
      × (p.next_attempt_at ≤ i.now + p.delay_seconds * 1000)
      × (i.now + p.delay_seconds * 1000 < p.next_attempt_at + 1000)
      × (or_else i.source_blocked_until 0 ≤ p.next_attempt_at)
      × (or_else i.origin_blocked_until 0 ≤ p.next_attempt_at)
unfolding classify_fetch_failure
classify-delay_bounds date_parse i =
    finish_bounds i (max 1 i.consecutive_failures)
      (verdict date_parse i (max 1 i.consecutive_failures))

-- Without a block, the delay is at most 366 days and the 15 minutes of jitter, whatever the
-- publisher's Retry-After header says.
pub classify-delay-le :
    (date_parse : Text → Option ℕ) (i : Input)
    → i.source_blocked_until ≡ none
    → i.origin_blocked_until ≡ none
    → (classify_fetch_failure date_parse i).delay_seconds ≤ max_retry_after_seconds + 900
unfolding classify_fetch_failure
classify-delay-le date_parse i a b =
    let failures : ℕ = max 1 i.consecutive_failures in
    finish-le i failures (verdict date_parse i failures) a b (verdict-le date_parse i failures)

-- A publisher that answers 429, or 503, with a valid Retry-After is contacted again after that many
-- seconds, but not within 15 minutes: so long as the failure is none of the document's content, this is
-- at most the seventh failure in a row, nothing else blocks the source and no jitter is asked for.
pub retry_after-honoured :
    (date_parse : Text → Option ℕ) (i : Input) (seconds : ℕ)
    → (i.status ≡ some 429) ⊎ (i.status ≡ some 503)
    → is_content_failure i.failure_kind ≡ false
    → parse_retry_after date_parse i.retry_after i.now ≡ some seconds
    → i.consecutive_failures < 8
    → i.jitter ≡ none
    → i.source_blocked_until ≡ none
    → i.origin_blocked_until ≡ none
    → (classify_fetch_failure date_parse i).delay_seconds ≡ max min_source_interval_seconds seconds
unfolding classify_fetch_failure verdict finish positive_jitter
retry_after-honoured date_parse i seconds s k p f j a b = ground arith
