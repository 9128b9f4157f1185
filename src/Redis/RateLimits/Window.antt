-- ===== src/Redis/RateLimits/Window.antt =====
-- packages/api/src/utils/rate-limiter.ts: a window lets exactly so many requests pass.
use self_rss.Prelude.{
  ℕ, suc, ◌+◌, ◌≤◌, ◌<◌, ◌≡◌, refl, ap, ◌∙◌, true, false, some, none, List, [], ◌∷◌, arith, ltb,
  leb, ◌==◌, ==_refl, if◌then◌else◌, length, min,
}
use self_rss.Redis.{Redis}
use self_rss.Redis.RateLimits.{RateLimitConfig, increment_with_ttl, check}

module _ (redis : Redis) (key : ℕ) (config : RateLimitConfig) where
  open redis use {Store, get, incr, expire}

  -- The number of requests that pass, of those at the given times.
  unfoldable pub passed : List ℕ → Store → ℕ
  unfolding check
  passed [] s = 0
  passed (now ∷ times) s =
      let (s', verdict) = check redis true key config now s in
      let rest = passed times s' in if verdict.allowed then suc rest else rest

  -- The times follow one another, and come before the end of the window.
  abbrev pub Within : ℕ → ℕ → List ℕ → Type 0
  Within from until [] = Unit {0}
  Within from until (t ∷ times) = (from ≤ t) × (t < until) × Within t until times

  -- The counter of a window that has begun.
  Counted : ℕ → ℕ → ℕ → Store → Type 0
  Counted from until n s = (t : ℕ) → from ≤ t → t < until → get t key s ≡ some n

  counts :
      (from until n now : ℕ) (s : Store)
      → Counted from until (suc n) s
      → from ≤ now
      → now < until
      → (increment_with_ttl redis key config.window_ms now s ≡ ((incr now key s).0, suc (suc n)))
        × Counted now until (suc (suc n)) (incr now key s).0
  unfolding increment_with_ttl Counted
  counts from until n now s counted early late =
      let here = counted now early late in
      let next : (incr now key s).1 ≡ suc (suc n) =
        redis.incr_present now key s here ∙ (omega arith) in
      (
        rw next (let many : (suc (suc n) == 1) ≡ false = ground arith in rw many refl),
        λ t after before.
            redis.get-incr_present now key t s here after (counted t (omega arith) before)
            ∙ ap some (omega arith),
      )

  -- The first of the requests, and the others.
  passed-step :
      (now current : ℕ) (times : List ℕ) (s s' : Store)
      → increment_with_ttl redis key config.window_ms now s ≡ (s', current)
      → passed (now ∷ times) s
        ≡ (if leb current config.max_requests then suc (passed times s') else passed times s')
  unfolding passed check
  passed-step now current times s s' h =
      ap (λ r. if leb r.1 config.max_requests then suc (passed times r.0) else passed times r.0) h

  later-passed :
      (from until n : ℕ) (times : List ℕ) (s : Store)
      → Counted from until (suc n) s
      → Within from until times
      → passed times s + min (suc n) config.max_requests
        ≡ min (suc n + length times) config.max_requests
  unfolding passed
  later-passed from until n [] s counted within = ground arith
  later-passed from until n (now ∷ times) s counted within =
      let (step, counted') = counts from until n now s counted within.0 within.1 in
      let ih = later-passed now until (suc n) times (incr now key s).0 counted' within.2 in
      let first = passed-step now (suc (suc n)) times s (incr now key s).0 step in
      rw first (ground (arith, ih))

  -- Of the requests within a window exactly the first `max_requests` pass: the window begins with the first one,
  -- at a time when there is no counter, and the others follow before its end.
  pub window-passed :
      (now : ℕ) (times : List ℕ) (s : Store)
      → get now key s ≡ none
      → Within now (now + config.window_ms) times
      → passed (now ∷ times) s ≡ min (suc (length times)) config.max_requests
  unfolding increment_with_ttl Counted
  window-passed now times s fresh within =
      let s1 = (incr now key s).0 in
      let s2 = expire now key config.window_ms s1 in
      let set = redis.get-incr_absent now key now s fresh (omega arith) in
      let counted : Counted now (now + config.window_ms) 1 s2 = λ t after before.
        let soon : ltb t (now + config.window_ms) ≡ true = ground arith in
        redis.get-expire now key config.window_ms t key s1 set after
        ∙ rw (==_refl key, soon) refl in
      let rest = later-passed now (now + config.window_ms) 0 times s2 counted within in
      let first = passed-step now 1 times s s2 (rw (redis.incr_absent now key s fresh) refl) in
      rw first (ground (arith, rest))
