-- ===== src/Redis/Locks.antt =====
-- packages/api/src/services/redis-owned-lock.ts and packages/api/src/services/feed-fetch-guard.ts: locks
-- that a random token owns.
pub mod Exclusion
pub mod Freed
pub mod Guards
mod Tests
use self_rss.Prelude.{
  ℕ, ◌*◌, Bool, true, false, ◌&&◌, Option, none, some, ltb, is_eq, if◌then◌else◌,
}
use self_rss.Redis.{Redis}

-- Which commands the client has.
pub record RedisLockClient : Type 0 where
  pub has_set : Bool
  pub has_eval : Bool

abbrev pub ioredis : RedisLockClient
ioredis = record { has_set = true; has_eval = true }

-- What the closure that acquireOwnedRedisLock returns remembers, or nothing where the client has no SET:
-- the key, the token, the lease and the cooldown in seconds, and whether its heartbeat's interval runs.
pub data Lock : Type 0 where
  noop : Lock
  owned : ℕ → ℕ → ℕ → ℕ → Bool → Lock

abbrev pub is_beating : Lock → Bool
is_beating Lock.noop = false
is_beating (Lock.owned key token ttl_seconds cooldown_seconds beating) = beating

module _ (redis : Redis) where
  open redis use {Store, get, set_nx, expire, del}

  -- RENEW_OWNED_LOCK_SCRIPT.
  unfoldable pub renew : ℕ → ℕ → ℕ → ℕ → Store → Store
  renew key token ttl_seconds now s =
      if is_eq (get now key s) token then expire now key (ttl_seconds * 1000) s else s

  -- RELEASE_OWNED_LOCK_SCRIPT.
  unfoldable pub release_script : ℕ → ℕ → ℕ → ℕ → Store → Store
  release_script key token cooldown_seconds now s =
      if is_eq (get now key s) token
      then if ltb 0 cooldown_seconds
        then expire now key (cooldown_seconds * 1000) s
        else del now key s
      else s

  -- The interval is set where the client can run scripts.
  unfoldable pub acquire_owned_lock :
      RedisLockClient → ℕ → ℕ → ℕ → ℕ → ℕ → Store → Store × Option Lock
  acquire_owned_lock client key token ttl_seconds cooldown_seconds now s =
      if client.has_set
      then (let (s', acquired) = set_nx now key token (ttl_seconds * 1000) s in
          (
            s',
            if acquired
                then some (Lock.owned key token ttl_seconds cooldown_seconds client.has_eval)
                else none,
          ))
      else (s, some Lock.noop)

  -- A tick of the interval, while it runs. An error of Redis is reported, and leaves the key as it is.
  unfoldable pub heartbeat : Bool → Lock → ℕ → Store → Store
  unfolding renew
  heartbeat reachable Lock.noop now s = s
  heartbeat reachable (Lock.owned key token ttl_seconds cooldown_seconds beating) now s =
      if beating && reachable then renew key token ttl_seconds now s else s

  -- What the closure does: the interval is cleared, whatever becomes of the script. An error of Redis is
  -- reported, and leaves the key to its time to live.
  unfoldable pub release : RedisLockClient → Bool → Lock → ℕ → Store → Store × Lock
  unfolding release_script
  release client reachable Lock.noop now s = (s, Lock.noop)
  release client reachable (Lock.owned key token ttl_seconds cooldown_seconds beating) now s = (
    if client.has_eval && reachable then release_script key token cooldown_seconds now s else s,
    Lock.owned key token ttl_seconds cooldown_seconds false,
  )
