-- ===== src/FetchOutcome.antt =====
-- packages/api/src/services/feed-fetch-outcome-policy.ts
-- Times are milliseconds since the epoch, delays are seconds. `new Date()` and `Date.parse` are
-- parameters: the input carries the clock's value, and `date_parse` answers `none` where the
-- source has NaN or a date before 1970 (which lies in the past, and is refused alike).
pub mod Bounds
pub mod Circuit
pub mod Monotone
mod Tests
use self_rss.Prelude.{
  ℕ, ◌+◌, ◌-◌, ◌*◌, ◌/◌, ◌<◌, min, max, Bool, true, false, not, ◌&&◌, ◌||◌, Option, none, some,
  List, [], ◌∷◌, ltb, leb, ◌==◌, if◌then◌else◌, is_some, is_eq, or_else, length, get_or, all,
}
use self_rss.Prelude.Text.{Text, trim, is_digit, digits_from}

abbrev pub hour : ℕ
hour = 60 * 60

abbrev pub day : ℕ
day = 24 * hour

abbrev pub week : ℕ
week = 7 * day

abbrev pub min_source_interval_seconds : ℕ
min_source_interval_seconds = 15 * 60

abbrev pub max_retry_after_seconds : ℕ
max_retry_after_seconds = 366 * day

-- The largest time value of a `Date`.
abbrev pub max_date_ms : ℕ
max_date_ms = 8640000000000000

abbrev pub max_safe_integer : ℕ
max_safe_integer = 9007199254740991

pub data FailureKind : Type 0 where
  network dns tls invalid_feed unsupported_feed oversize : FailureKind

pub data FailureClass : Type 0 where
  transient permanent : FailureClass

pub data SourceState : Type 0 where
  active paused circuit_open : SourceState

-- A random number of the jitter function: the fraction `num / den`.
pub record Sample : Type 0 where
  pub num : ℕ
  pub den : ℕ

pub record Input : Type 0 where
  pub status : Option ℕ
  pub failure_kind : Option FailureKind
  pub retry_after : Option Text
  pub consecutive_failures : ℕ
  pub now : ℕ
  pub jitter : Option Sample
  pub source_blocked_until : Option ℕ
  pub origin_blocked_until : Option ℕ

pub record Policy : Type 0 where
  pub failure_class : FailureClass
  pub state : SourceState
  pub delay_seconds : ℕ
  pub next_attempt_at : ℕ
  pub circuit_opened : Bool

-- A quotient rounded up, as `Math.ceil` does.
abbrev pub ceil_div : ℕ → ℕ → ℕ
ceil_div a b = (a + (b - 1)) / b

unfoldable pub valid_retry_after_seconds : ℕ → ℕ → Option ℕ
valid_retry_after_seconds seconds now =
    if ltb max_safe_integer seconds
      || ltb max_retry_after_seconds seconds
      || ltb max_date_ms (now + seconds * 1000)
    then none
    else some seconds

abbrev pub threshold : FailureClass → ℕ
threshold permanent = 3
threshold transient = 8

abbrev pub open_state : SourceState → SourceState
open_state paused = paused
open_state _ = circuit_open

-- `sequence[Math.min(Math.max(1, failures), sequence.length) - 1]`.
unfoldable pub schedule : List ℕ → ℕ → ℕ
schedule sequence failures = get_or sequence (min (max 1 failures) (length sequence) - 1) 0

unfoldable pub positive_jitter : ℕ → Option Sample → ℕ
positive_jitter base none = 0
positive_jitter base (some r) =
    ceil_div (min r.num r.den * min base (min_source_interval_seconds * 10)) (r.den * 10)

abbrev pub is_content_failure : Option FailureKind → Bool
is_content_failure (some FailureKind.invalid_feed) = true
is_content_failure (some FailureKind.unsupported_feed) = true
is_content_failure (some FailureKind.oversize) = true
is_content_failure _ = false

abbrev pub is_name_failure : Option FailureKind → Bool
is_name_failure (some FailureKind.dns) = true
is_name_failure (some FailureKind.tls) = true
is_name_failure _ = false

-- What the chain of tests on the status and the failure kind decides.
pub record Verdict : Type 0 where
  pub failure_class : FailureClass
  pub state : SourceState
  pub base_seconds : ℕ

abbrev pub paused_at : ℕ → SourceState
paused_at failures = if leb 3 failures then paused else active

abbrev pub later_of : ℕ → Option ℕ → ℕ
later_of next none = next
later_of next (some block) = if ltb next block then block else next

-- What follows the chain: the circuit breaker, the jitter and the blocks.
unfoldable pub finish : Input → ℕ → Verdict → Policy
finish i failures v = record {
  failure_class = v.failure_class;
  state = state;
  delay_seconds = ceil_div (next - i.now) 1000;
  next_attempt_at = next;
  circuit_opened = opened;
}
  where
    opened : Bool
    opened = leb (threshold v.failure_class) failures

    state : SourceState
    state = if opened then open_state v.state else v.state

    base : ℕ
    base =
        max min_source_interval_seconds (if opened then max v.base_seconds week else v.base_seconds)

    next : ℕ
    next =
        later_of
          (later_of (i.now + (base + positive_jitter base i.jitter) * 1000) i.source_blocked_until)
          i.origin_blocked_until

module _ (date_parse : Text → Option ℕ) where
  parse_trimmed : Text → ℕ → Option ℕ
  unfolding valid_retry_after_seconds is_digit digits_from
  parse_trimmed trimmed now =
      if all is_digit trimmed
      then valid_retry_after_seconds (digits_from 0 trimmed) now
      else elim (date_parse trimmed) [
        | none ↦ none
        | some parsed ↦
            if leb parsed now
            then none
            else valid_retry_after_seconds (ceil_div (parsed - now) 1000) now
      ]

  unfoldable pub parse_retry_after : Option Text → ℕ → Option ℕ
  unfolding parse_trimmed trim
  parse_retry_after none now = none
  parse_retry_after (some value) now =
      if length (trim value) == 0 then none else parse_trimmed (trim value) now

  unfoldable pub verdict : Input → ℕ → Verdict
  verdict i failures =
      if is_eq i.status 410
      then record { failure_class = permanent; state = paused; base_seconds = week }
      else if is_eq i.status 401 || is_eq i.status 403 || is_eq i.status 404
      then record {
        failure_class = permanent;
        state = paused_at failures;
        base_seconds = schedule (day ∷ 3 * day ∷ week ∷ []) failures;
      }
      else if is_content_failure i.failure_kind
      then record {
        failure_class = permanent;
        state = paused_at failures;
        base_seconds = schedule (6 * hour ∷ day ∷ week ∷ []) failures;
      }
      else record {
        failure_class = transient;
        state = active;
        base_seconds =
            if is_eq i.status 429
            then or_else (parse_retry_after i.retry_after i.now)
                (schedule (hour ∷ 2 * hour ∷ 4 * hour ∷ day ∷ []) failures)
            else if is_eq i.status 503 && is_some (parse_retry_after i.retry_after i.now)
            then or_else (parse_retry_after i.retry_after i.now) 0
            else if is_name_failure i.failure_kind
            then schedule (6 * hour ∷ day ∷ []) failures
            else schedule (15 * 60 ∷ 30 * 60 ∷ hour ∷ 2 * hour ∷ 6 * hour ∷ []) failures;
      }

  unfoldable pub classify_fetch_failure : Input → Policy
  unfolding verdict finish
  classify_fetch_failure i =
      let failures : ℕ = max 1 i.consecutive_failures in finish i failures (verdict i failures)

pub data CircuitState : Type 0 where
  closed : CircuitState

pub record Success : Type 0 where
  pub changed : Bool
  pub unchanged : Bool
  pub consecutive_failures : ℕ
  pub circuit_state : CircuitState
  pub backoff_until : Option ℕ

unfoldable pub classify_fetch_success : ℕ → Bool → Success
classify_fetch_success status changed = record {
  changed = if status == 304 then false else changed;
  unchanged = status == 304 || not changed;
  consecutive_failures = 0;
  circuit_state = closed;
  backoff_until = none;
}
