-- ===== src/Retry/Attempts.antt =====
-- packages/api/src/utils/retry.ts: which attempts are made, and what comes of them.
use native.Mathlib.Nat.{mul_assoc, mul_comm, pow-suc}
use self_rss.Prelude.{
  ◌||◌, not, ◌*◌, ◌^◌, min, or_else, Bool, ◌&&◌, ltb, leb, ◌≡◌, ◌⊎◌, inl, inr, ◌∙◌, ap, sym, subst,
  ◌==◌, ==_iff, Bool-cases, ℕ, zero, suc, ◌+◌, ◌-◌, ◌≤◌, ◌<◌, refl, true, false, List, [], ◌∷◌,
  arith,
}
use self_rss.Retry.Loop.{delays_from, IsLoop, with_retry-IsLoop}
use self_rss.Retry.{
  RetryOptions, Response, Thrown, Outcome, returned, threw, Run, delay_ms, max_attempts, gives_up,
  is_client_error, is_retryable_error, with_retry, check_status, fetch_with_retry,
}

none_of : (a b c : Bool) → (a || b || not c) ≡ false → (a ≡ false) × (c ≡ true)
none_of a b c h = ground arith

one_of :
    (a c : Bool) (n m : ℕ)
    → n ≤ m
    → (a || leb m n || not c) ≡ true
    → (a ≡ true) ⊎ ((c ≡ false) ⊎ (n ≡ m))
one_of a c n m bound h = ground arith

double : (b k : ℕ) → b * 2 ^ suc k ≡ 2 * (b * 2 ^ k)
double b k = ap (λ p. b * p) (pow-suc 2 k) ∙ sym (mul_assoc b (2 ^ k) 2) ∙ mul_comm (b * 2 ^ k) 2

once : (b : ℕ) → b * 1 ≡ b
once b = omega arith

module _ {A : Type 0} (fn : ℕ → Outcome A) (options : RetryOptions) where
  -- Delays that double, up to the longest one.
  abbrev pub doubling : ℕ → ℕ → ℕ → List ℕ
  doubling delay longest zero = []
  doubling delay longest (suc n) = min delay longest ∷ doubling (2 * delay) longest n

  abbrev pub allowed : ℕ
  allowed = or_else options.max_retries 3 + 1

  pub record IsRun (r : Run A) : Type 0 where
    pub begins : 1 ≤ r.calls
    pub bounded : r.calls ≤ allowed
    pub result : fn r.calls ≡ r.outcome
    pub retried :
        (n : ℕ)
        → 1 ≤ n
        → n < r.calls
        → (e : Thrown) × (fn n ≡ threw e)
          × (is_client_error e ≡ false)
          × (is_retryable_error e ≡ true)
    pub final :
        (e : Thrown)
        → r.outcome ≡ threw e
        → (is_client_error e ≡ true) ⊎ ((is_retryable_error e ≡ false) ⊎ (r.calls ≡ allowed))
    pub slept :
        r.delays
        ≡ doubling
            (or_else options.base_delay_ms 1000)
            (or_else options.max_delay_ms 30000)
            (r.calls - 1)

  delays-doubling :
      (attempt n : ℕ)
      → delays_from options (suc attempt) n
        ≡ doubling
            (or_else options.base_delay_ms 1000 * 2 ^ attempt)
            (or_else options.max_delay_ms 30000)
            n
  unfolding delay_ms
  delays-doubling attempt zero = refl
  delays-doubling attempt (suc n) =
      let next : suc attempt + 1 ≡ suc (suc attempt) = omega arith in
      let base = or_else options.base_delay_ms 1000 in
      let longest = or_else options.max_delay_ms 30000 in
      let before : suc attempt - 1 ≡ attempt = omega arith in
      ap (λ k. min (base * 2 ^ k) longest ∷ delays_from options (suc attempt + 1) n) before
      ∙ ap (λ ds. min (base * 2 ^ attempt) longest ∷ ds)
          (ap (λ k. delays_from options k n) next
            ∙ delays-doubling (suc attempt) n
            ∙ ap (λ d. doubling d longest n) (double base attempt))

  goes_on :
      (n : ℕ) (e : Thrown)
      → gives_up fn options n e ≡ false
      → (is_client_error e ≡ false) × (is_retryable_error e ≡ true)
  unfolding gives_up
  goes_on n e h =
      none_of (is_client_error e) (leb (max_attempts options) n) (is_retryable_error e) h

  stops :
      (n : ℕ) (e : Thrown)
      → n ≤ allowed
      → gives_up fn options n e ≡ true
      → (is_client_error e ≡ true) ⊎ ((is_retryable_error e ≡ false) ⊎ (n ≡ allowed))
  unfolding gives_up
  stops n e bound h =
      one_of (is_client_error e) (is_retryable_error e) n (max_attempts options) bound h

  -- A run of `withRetry` ends, after one attempt at least and at most one more than the retries
  -- allowed, which are three if no number is given. Its outcome is that of the last attempt. Every attempt
  -- before it threw an error that is retried, and no client error; an error is thrown on only if it is
  -- a client error, cannot be retried or came from the last attempt allowed. Of the sleeps between
  -- the attempts the first one takes the base delay, or one second if none is given, and each one after it twice
  -- as long, but no sleep takes longer than the longest delay, or thirty seconds if none is given.
  pub with_retry-IsRun : IsRun (with_retry fn options)
  with_retry-IsRun = record {
    begins = loop.begins;
    bounded = loop.bounded;
    result = loop.result;
    retried = λ n h k.
        let (e, threw_e, on) = loop.retried n h k in
        (e, threw_e, (goes_on n e on).0, (goes_on n e on).1);
    final = λ e h. stops (with_retry fn options).calls e loop.bounded (loop.final e h);
    slept =
        loop.slept
        ∙ delays-doubling 0 ((with_retry fn options).calls - 1)
        ∙ ap
            (λ d.
              doubling d (or_else options.max_delay_ms 30000) ((with_retry fn options).calls - 1))
            (once (or_else options.base_delay_ms 1000));
  }
    where
      loop : IsLoop fn options 1 (with_retry fn options)
      loop = with_retry-IsLoop fn options

checked :
    (o : Outcome Response) (a : Response)
    → check_status o ≡ returned a
    → (a.status < 400) × (o ≡ returned a)
unfolding check_status
checked (threw e) a h = cc
checked (returned r) a h = elim (Bool-cases (leb 500 r.status)) [
  | inl e ↦ absurd (failed (rw e at h))
  | inr e ↦ elim (Bool-cases (leb 400 r.status && ltb r.status 500)) [
    | inl f ↦ absurd (failed (rw (e, f) at h))
    | inr f ↦
        let same = returned_eq r a (rw (e, f) at h) in
        (subst (λ r. r.status < 400) same (low r.status e f), ap returned same)
  ]
]
  where
    failed : {e : Thrown} → ◌≡◌ {A = Outcome Response} (threw e) (returned a) → ⊥
    failed h = cc

    returned_eq : (r a : Response) → returned r ≡ returned a → r ≡ a
    returned_eq r a h = cc

    low : (n : ℕ) → leb 500 n ≡ false → (leb 400 n && ltb n 500) ≡ false → n < 400
    low n h k = ground arith

-- A client error response is thrown, and thrown on.
client-gives_up :
    (fn : ℕ → Outcome Response) (options : RetryOptions) (n : ℕ) (a : Response) (e : Thrown)
    → 400 ≤ a.status
    → a.status < 500
    → check_status (returned a) ≡ threw e
    → gives_up fn options n e ≡ true
unfolding check_status gives_up is_client_error
client-gives_up fn options n a e lo hi h =
    let below : leb 500 a.status ≡ false = ground arith in
    let client : (leb 400 a.status && ltb a.status 500) ≡ true = ground arith in
    let same : Thrown.response a ≡ e = threw_eq (Thrown.response a) e (rw (below, client) at h) in
    subst (λ e. gives_up fn options n e ≡ true) same (rw client refl)
  where
    threw_eq : (e e' : Thrown) → ◌≡◌ {A = Outcome Response} (threw e) (threw e') → e ≡ e'
    threw_eq e e' h = cc

-- A response that `fetchWithRetry` returns is no error response, and it is the one that the last
-- request answered. A client error is never requested again: if a request is answered by a status
-- from 400 to 499, it is the last one.
pub fetch_with_retry-response :
    (fetch : ℕ → Outcome Response) (options : RetryOptions)
    → let r = fetch_with_retry fetch options in
      ((a : Response) → r.outcome ≡ returned a → (a.status < 400) × (fetch r.calls ≡ returned a))
      × ((n : ℕ) (a : Response)
          → 1 ≤ n
          → n ≤ r.calls
          → fetch n ≡ returned a
          → 400 ≤ a.status
          → a.status < 500
          → n ≡ r.calls)
unfolding fetch_with_retry
fetch_with_retry-response fetch options =
    let fn = λ (n : ℕ). check_status (fetch n) in
    let run = with_retry-IsLoop fn options in
    (
      λ a h. checked (fetch _) a (run.result ∙ h),
      λ n a first last f lo hi. elim (Bool-cases (n == (with_retry fn options).calls)) [
        | inl same ↦ (==_iff n _).0 same
        | inr other ↦
            let (e, threw_e, goes_on) = run.retried n first (before other last) in
            absurd (
              clash (client-gives_up fn options n a e lo hi (ap check_status (sym f) ∙ threw_e))
                goes_on)
      ],
    )
  where
    before : {n m : ℕ} → (n == m) ≡ false → n ≤ m → n < m
    before h k = ground arith

    clash : {b : Bool} → b ≡ true → b ≡ false → ⊥
    clash h k = ground arith
