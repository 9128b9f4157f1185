-- ===== src/Retry/Loop.antt =====
-- packages/api/src/utils/retry.ts: the loop over the attempts, from any of them on.
use self_rss.Prelude.{
  ◌≡◌, ◌⊎◌, inl, inr, ◌∙◌, ap, sym, subst, ◌==◌, ==_iff, Bool-cases, ℕ, zero, suc, ◌+◌, ◌-◌, ◌≤◌,
  ◌<◌, refl, true, false, List, [], ◌∷◌, arith,
}
use self_rss.Retry.{
  RetryOptions, Thrown, Outcome, returned, threw, Run, delay_ms, max_attempts, gives_up,
  attempts_from, with_retry,
}

abbrev pub delays_from : RetryOptions → ℕ → ℕ → List ℕ
delays_from options attempt zero = []
delays_from options attempt (suc n) = delay_ms options attempt ∷ delays_from options (attempt + 1) n

module _ {A : Type 0} (fn : ℕ → Outcome A) (options : RetryOptions) where
  -- What the loop does from an attempt on, by its own tests and delays.
  pub record IsLoop (first : ℕ) (r : Run A) : Type 0 where
    pub begins : first ≤ r.calls
    pub bounded : r.calls ≤ max_attempts options
    pub result : fn r.calls ≡ r.outcome
    pub retried :
        (n : ℕ)
        → first ≤ n
        → n < r.calls
        → (e : Thrown) × (fn n ≡ threw e) × (gives_up fn options n e ≡ false)
    pub final : (e : Thrown) → r.outcome ≡ threw e → gives_up fn options r.calls e ≡ true
    pub slept : r.delays ≡ delays_from options first (r.calls - first)

  attempts-left :
      (left attempt : ℕ) (e : Thrown)
      → left + attempt ≡ max_attempts options
      → gives_up fn options attempt e ≡ false
      → (m : ℕ) × (left ≡ suc m)
  unfolding gives_up
  attempts-left zero attempt e h g = absurd (ground arith)
  attempts-left (suc m) attempt e h g = (m, refl)

  -- A run of one attempt.
  single :
      (attempt : ℕ) (o : Outcome A)
      → attempt ≤ max_attempts options
      → fn attempt ≡ o
      → ((e : Thrown) → o ≡ threw e → gives_up fn options attempt e ≡ true)
      → IsLoop attempt (record { outcome = o; calls = attempt; delays = [] })
  single attempt o bound e last = record {
    begins = omega arith;
    bounded = bound;
    result = e;
    retried = λ n h k. absurd (omega (arith, h, k));
    final = last;
    slept = ap (delays_from options attempt) (none_left attempt);
  }
    where
      none_left : (n : ℕ) → 0 ≡ n - n
      none_left n = omega arith

  -- A run that goes on after an attempt.
  longer :
      (attempt : ℕ) (e : Thrown) (rest : Run A)
      → fn attempt ≡ threw e
      → gives_up fn options attempt e ≡ false
      → IsLoop (attempt + 1) rest
      → IsLoop attempt (record rest { delays = delay_ms options attempt ∷ rest.delays })
  longer attempt e rest f g r = record {
    begins = before r.begins;
    bounded = r.bounded;
    result = r.result;
    retried = λ n h k. earlier n k (Bool-cases (n == attempt)) h;
    final = r.final;
    slept =
        ap (λ ds. delay_ms options attempt ∷ ds) r.slept
        ∙ ap (delays_from options attempt) (one_more r.begins);
  }
    where
      before : attempt + 1 ≤ rest.calls → attempt ≤ rest.calls
      before h = omega (arith, h)

      one_more : attempt + 1 ≤ rest.calls → suc (rest.calls - (attempt + 1)) ≡ rest.calls - attempt
      one_more h = omega (arith, h)

      after : (n : ℕ) → (n == attempt) ≡ false → attempt ≤ n → attempt + 1 ≤ n
      after n ne h = ground arith

      earlier :
          (n : ℕ)
          → n < rest.calls
          → ((n == attempt) ≡ true) ⊎ ((n == attempt) ≡ false)
          → attempt ≤ n
          → (e : Thrown) × (fn n ≡ threw e) × (gives_up fn options n e ≡ false)
      earlier n k (inl same) h =
          subst (λ n. (e : Thrown) × (fn n ≡ threw e) × (gives_up fn options n e ≡ false))
            (sym ((==_iff n attempt).0 same)) (e, f, g)
      earlier n k (inr ne) h = r.retried n (after n ne h) k

  outcome-cases : (o : Outcome A) → ((a : A) × (o ≡ returned a)) ⊎ ((e : Thrown) × (o ≡ threw e))
  outcome-cases (returned a) = inl (a, refl)
  outcome-cases (threw e) = inr (e, refl)

  -- One turn of the loop, with what the turns after it do.
  turn :
      (left attempt : ℕ) (last : Thrown)
      → attempt ≤ max_attempts options
      → ((e : Thrown)
          → gives_up fn options attempt e ≡ false
          → IsLoop (attempt + 1) (attempts_from fn options left (attempt + 1) e))
      → IsLoop attempt (attempts_from fn options (suc left) attempt last)
  unfolding attempts_from
  turn left attempt last bound rest = elim (outcome-cases (fn attempt)) [
    | inl (a, f) ↦
        rw (f, attempts_from) (single attempt (returned a) bound f (λ e h. absurd (apart a e h)))
    | inr (e, f) ↦ elim (Bool-cases (gives_up fn options attempt e)) [
      | inl g ↦
          rw (f, attempts_from)
            (rw g (
              single attempt (threw e) bound f
                (λ e' h. subst (λ e. gives_up fn options attempt e ≡ true) (thrown_eq e e' h) g)))
      | inr g ↦ rw (f, attempts_from) (rw g (longer attempt e _ f g (rest e g)))
    ]
  ]
    where
      apart : (a : A) (e : Thrown) → returned a ≡ threw e → ⊥
      apart a e h = cc

      thrown_eq : (e e' : Thrown) → ◌≡◌ {A = Outcome A} (threw e) (threw e') → e ≡ e'
      thrown_eq e e' h = cc

  attempts-IsLoop :
      (left attempt : ℕ) (last : Thrown)
      → left + attempt ≡ max_attempts options
      → IsLoop attempt (attempts_from fn options (suc left) attempt last)
  attempts-IsLoop zero attempt last turns = turn zero attempt last (omega (arith, turns)) (λ e g.
      let (m, none_left) = attempts-left zero attempt e turns g in
      absurd (omega (arith, none_left)))
  attempts-IsLoop (suc left) attempt last turns =
      turn (suc left) attempt last (omega (arith, turns))
        (λ e g. attempts-IsLoop left (attempt + 1) e (omega (arith, turns)))

  pub with_retry-IsLoop : IsLoop 1 (with_retry fn options)
  unfolding with_retry
  with_retry-IsLoop =
      subst (λ n. IsLoop 1 (attempts_from fn options n 1 Thrown.other))
        (turns (max_attempts options) (omega arith))
        (attempts-IsLoop (max_attempts options - 1) 1 Thrown.other (omega arith))
    where
      turns : (n : ℕ) → 1 ≤ n → suc (n - 1) ≡ n
      turns n h = omega (arith, h)
