-- ===== src/Redis/RateLimits.antt =====
-- packages/api/src/utils/rate-limiter.ts and packages/api/src/utils/rate-limit.ts: how many requests of one
-- identity are allowed in a window of time, and whose they are.
pub mod Window
pub mod Identity
mod Tests
use mathlib.Core.Option
use self_rss.Prelude.{
  ℕ, zero, suc, ◌-◌, Bool, true, false, not, Option, none, some, List, [], ◌∷◌, ltb, leb, ◌==◌,
  if◌then◌else◌, map, select, length,
}
use self_rss.Prelude.Text.{Text, trim, codes, split}
use self_rss.Redis.{Redis}

pub record RateLimitConfig : Type 0 where
  pub window_ms : ℕ
  pub max_requests : ℕ
  pub fails_closed : Bool

-- `remaining` is nothing for Infinity.
pub record Verdict : Type 0 where
  pub allowed : Bool
  pub remaining : Option ℕ

module _ (redis : Redis) where
  open redis use {Store, expire, incr}

  -- INCREMENT_WITH_TTL_SCRIPT.
  unfoldable pub increment_with_ttl : ℕ → ℕ → ℕ → Store → Store × ℕ
  increment_with_ttl key ttl_ms now s =
      let (s', current) = incr now key s in
      (if current == 1 then expire now key ttl_ms s' else s', current)

  -- Where Redis fails, the mode of the limit decides.
  unfoldable pub check : Bool → ℕ → RateLimitConfig → ℕ → Store → Store × Verdict
  unfolding increment_with_ttl
  check reachable key config now s =
      if reachable
      then (let (s', current) = increment_with_ttl key config.window_ms now s in
          (
            s',
            record {
              allowed = leb current config.max_requests;
              remaining = some (config.max_requests - current);
            },
          ))
      else (
        s,
        if config.fails_closed
            then record { allowed = false; remaining = some 0 }
            else record { allowed = true; remaining = none },
      )

-- `addresses[index]` for an index in range.
abbrev pub nth : List Text → ℕ → Option Text
nth [] i = none
nth (a ∷ addresses) zero = some a
nth (a ∷ addresses) (suc i) = nth addresses i

module _ (is_ip : Text → Bool) where
  unfoldable pub forwarded_addresses : Text → List Text
  forwarded_addresses header = select is_ip (map trim (split b',' header))

  unfoldable pub get_forwarded_identity : Option Text → ℕ → Option Text
  unfolding forwarded_addresses
  get_forwarded_identity none trusted_proxy_hops = none
  get_forwarded_identity (some header) trusted_proxy_hops =
      let addresses = forwarded_addresses header in
      if ltb trusted_proxy_hops (length addresses)
      then nth addresses (length addresses - trusted_proxy_hops - 1)
      else none

  -- An empty text is none.
  abbrev pub non_empty : Option Text → Option Text
  non_empty none = none
  non_empty (some []) = none
  non_empty (some (c ∷ s)) = some (c ∷ s)

  unfoldable pub get_rate_limit_identity : Option Text → Bool → Option Text → Option Text → ℕ → Text
  unfolding get_forwarded_identity
  get_rate_limit_identity user_id trust_proxy forwarded_for real_ip trusted_proxy_hops =
      elim (non_empty user_id) [
        | some id ↦ id
        | none ↦
            if not trust_proxy
            then codes "anonymous"
            else elim (non_empty (get_forwarded_identity forwarded_for trusted_proxy_hops)) [
              | some address ↦ address
              | none ↦ elim (non_empty (Option.map trim real_ip)) [
                | some ip ↦ if is_ip ip then ip else codes "anonymous"
                | none ↦ codes "anonymous"
              ]
            ]
      ]
