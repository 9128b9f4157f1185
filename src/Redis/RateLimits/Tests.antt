-- ===== src/Redis/RateLimits/Tests.antt =====
-- packages/api/src/utils/rate-limiter.ts and packages/api/src/utils/rate-limit.ts: runs over a table.
use self_rss.Prelude.{◌≡◌, refl, Bool, true, false, none, some, [], ◌∷◌, ◌++◌, arith}
use self_rss.Prelude.Text.{Text, codes, includes, trim, split}
use self_rss.Redis.Table.{table, Entries}
use self_rss.Redis.RateLimits.{
  RateLimitConfig, check, get_forwarded_identity, get_rate_limit_identity, forwarded_addresses,
}
use self_rss.Redis.RateLimits.Window.{passed, window-passed}
use self_rss.Redis.RateLimits.Identity.{forwarded_trusted}

abbrev config : RateLimitConfig
config = record { window_ms = 60000; max_requests = 2; fails_closed = true }

abbrev empty : Entries
empty k = none

closed_test : (check table false 1 config 1000 empty).1.allowed ≡ false
unfolding check
closed_test = refl

reset_test : passed table 1 config (1000 ∷ 2000 ∷ 3000 ∷ 61000 ∷ []) empty ≡ 3
unfolding passed
reset_test = refl

window-passed_example : passed table 1 config (1000 ∷ 2000 ∷ 3000 ∷ []) empty ≡ 2
window-passed_example =
    window-passed table 1 config 1000 (2000 ∷ 3000 ∷ []) empty refl
      ((ground arith, ground arith, (ground arith, ground arith, tt)))

-- An address has a dot, for the tests.
abbrev is_ip : Text → Bool
is_ip = includes (codes ".")

abbrev written : Text
written = codes "9.9, 10.0"

anonymous_test : get_rate_limit_identity is_ip none false (some written) none 1 ≡ codes "anonymous"
unfolding get_rate_limit_identity
anonymous_test = refl

forwarded_trusted_example :
    get_forwarded_identity is_ip (some (codes "1.1" ++ (b',' ∷ written))) 1
    ≡ get_forwarded_identity is_ip (some written) 1
unfolding forwarded_addresses includes trim split
forwarded_trusted_example = forwarded_trusted is_ip (codes "1.1") written 1 (ground arith)
