-- ===== src/Retry.antt =====
-- packages/api/src/utils/retry.ts
-- The function that is retried is what its calls do: `fn n` is the outcome of the call number n, the
-- first being 1. `toLowerCase` acts on the ASCII letters; no other letter of a message can become one
-- of those that are looked for. Logging is left out.
mod Loop
pub mod Attempts
mod Tests
use self_rss.Prelude.{
  ℕ, zero, suc, ◌+◌, ◌-◌, ◌*◌, ◌^◌, min, Bool, true, false, not, ◌&&◌, ◌||◌, Option, none, some,
  List, [], ◌∷◌, leb, ltb, if◌then◌else◌, or_else,
}
use self_rss.Prelude.Text.{Text, codes, same_text, includes, to_lower_case}

abbrev pub default_max_retries : ℕ
default_max_retries = 3

abbrev pub default_base_delay_ms : ℕ
default_base_delay_ms = 1000

abbrev pub default_max_delay_ms : ℕ
default_max_delay_ms = 30000

pub record RetryOptions : Type 0 where
  pub max_retries : Option ℕ
  pub base_delay_ms : Option ℕ
  pub max_delay_ms : Option ℕ

pub record Response : Type 0 where
  pub status : ℕ

-- What is thrown: a `Response`, an `Error` (a `TypeError` or another one), or something else.
pub data Thrown : Type 0 where
  response : Response → Thrown
  error : (is_type_error : Bool) → (name : Text) → (message : Text) → Thrown
  other : Thrown

unfoldable pub is_retryable_error : Thrown → Bool
unfolding includes
is_retryable_error (Thrown.response r) = leb 500 r.status
is_retryable_error (Thrown.error is_type_error name message) =
    if is_type_error && includes (codes "fetch") message
    then true
    else if includes (codes "Feed content exceeds maximum size") message
    then false
    else if same_text name (codes "AbortError")
    then true
    else if includes (codes "HTTP 5") message || includes (codes "status 5") message
    then true
    else not (includes (codes "HTTP 4") message)
is_retryable_error Thrown.other = false

unfoldable pub is_client_error : Thrown → Bool
unfolding includes to_lower_case
is_client_error (Thrown.response r) = leb 400 r.status && ltb r.status 500
is_client_error (Thrown.error is_type_error name message) =
    let msg = to_lower_case message in
    includes (codes "http 4") msg
    || includes (codes "status 4") msg
    || includes (codes "not found") msg
    || includes (codes "bad request") msg
    || includes (codes "forbidden") msg
    || includes (codes "unauthorized") msg
is_client_error Thrown.other = false

pub data Outcome (A : Type 0) : Type 0 where
  returned : A → Outcome A
  threw : Thrown → Outcome A

-- What a run does: its outcome, the number of the last call, and the delays of its sleeps.
pub record Run (A : Type 0) : Type 0 where
  pub outcome : Outcome A
  pub calls : ℕ
  pub delays : List ℕ

unfoldable pub delay_ms : RetryOptions → ℕ → ℕ
delay_ms options attempt =
    min (or_else options.base_delay_ms default_base_delay_ms * 2 ^ (attempt - 1))
      (or_else options.max_delay_ms default_max_delay_ms)

abbrev pub max_attempts : RetryOptions → ℕ
max_attempts options = or_else options.max_retries default_max_retries + 1

module _ {A : Type 0} (fn : ℕ → Outcome A) (options : RetryOptions) where
  -- An error that is thrown on.
  unfoldable pub gives_up : ℕ → Thrown → Bool
  unfolding is_client_error is_retryable_error
  gives_up attempt e =
      is_client_error e || leb (max_attempts options) attempt || not (is_retryable_error e)

  -- The `for` loop, with the attempts that are left after this one.
  unfoldable pub attempts_from : ℕ → ℕ → Thrown → Run A
  unfolding gives_up delay_ms
  attempts_from zero attempt last = record {
    outcome = threw last;
    calls = attempt - 1;
    delays = [];
  }
  attempts_from (suc left) attempt last = elim (fn attempt) [
    | returned a ↦ record { outcome = returned a; calls = attempt; delays = [] }
    | threw e ↦ elim (gives_up attempt e) [
      | true ↦ record { outcome = threw e; calls = attempt; delays = [] }
      | false ↦
          let rest = attempts_from left (attempt + 1) e in
          record rest { delays = delay_ms options attempt ∷ rest.delays }
    ]
  ]

  unfoldable pub with_retry : Run A
  unfolding attempts_from
  with_retry = attempts_from (max_attempts options) 1 Thrown.other

-- The responses that `fetchWithRetry` throws.
unfoldable pub check_status : Outcome Response → Outcome Response
check_status (threw e) = threw e
check_status (returned r) =
    if leb 500 r.status
    then threw (Thrown.response r)
    else if leb 400 r.status && ltb r.status 500
    then threw (Thrown.response r)
    else returned r

unfoldable pub fetch_with_retry : (ℕ → Outcome Response) → RetryOptions → Run Response
unfolding with_retry check_status
fetch_with_retry fetch options = with_retry (λ n. check_status (fetch n)) options
