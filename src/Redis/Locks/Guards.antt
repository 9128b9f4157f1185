-- ===== src/Redis/Locks/Guards.antt =====
-- packages/api/src/services/feed-fetch-guard.ts: the two locks of a feed's synchronization.
pub mod Undone
use self_rss.Prelude.{
  ℕ, ◌*◌, ◌+◌, ◌≤◌, ◌≡◌, ◌≢◌, refl, sym, ap, ◌∙◌, inl, inr, Bool, true, false, Option, none, some,
  arith, ltb, ◌==◌, ==_refl, ==_iff, is_eq, if◌then◌else◌, Bool-cases, Option-cases,
}
use self_rss.Redis.{Redis}
use self_rss.Redis.Locks.{Lock, ioredis, is_beating, release_script, release, acquire_owned_lock}

abbrev pub feed_fetch_cooldown_seconds : ℕ
feed_fetch_cooldown_seconds = 15 * 60

-- The two locks of a synchronization, or why there are none, with the first lock as it is left.
pub data Guards : Type 0 where
  held : Lock → Lock → Guards
  refused thrown : Lock → Guards

-- Which commands reach Redis: the SET of the first lock and that of the second one, and the script that
-- releases the first one. `prefetched` is whether a document is at hand, or nothing where the GET fails.
pub record Answers : Type 0 where
  pub first_set : Bool
  pub prefetched : Option Bool
  pub second_set : Bool
  pub released : Bool

module _ (redis : Redis) where
  open redis use {Store, get}

  unfoldable pub acquire_feed_fetch_guard : ℕ → ℕ → ℕ → Store → Store × Option Lock
  acquire_feed_fetch_guard key token now s =
      acquire_owned_lock redis ioredis key token feed_fetch_cooldown_seconds
        feed_fetch_cooldown_seconds now s

  -- The first lock is given up, for a reason.
  abbrev pub undo : (Lock → Guards) → Store × Lock → Store × Guards
  undo reason (s, lock) = (s, reason lock)

  abbrev pub after_fetch_lock : Bool → Lock → ℕ → Store × Option Lock → Store × Guards
  after_fetch_lock released sync_lock later (s, none) =
      undo Guards.refused (release redis ioredis released sync_lock later s)
  after_fetch_lock released sync_lock later (s, some fetch_lock) =
      (s, Guards.held fetch_lock sync_lock)

  -- What follows the first lock: the `try` and its `catch`, and the test on the second lock.
  abbrev pub with_sync_lock : ℕ → ℕ → Option Bool → Bool → Bool → ℕ → Lock → Store → Store × Guards
  unfolding acquire_feed_fetch_guard
  with_sync_lock fetch_key fetch_token none second_set released later sync_lock s =
      undo Guards.thrown (release redis ioredis released sync_lock later s)
  with_sync_lock fetch_key fetch_token (some true) second_set released later sync_lock s =
      (s, Guards.held Lock.noop sync_lock)
  with_sync_lock fetch_key fetch_token (some false) false released later sync_lock s =
      undo Guards.thrown (release redis ioredis released sync_lock later s)
  with_sync_lock fetch_key fetch_token (some false) true released later sync_lock s =
      after_fetch_lock released sync_lock later
        (acquire_feed_fetch_guard fetch_key fetch_token later s)

  unfoldable pub after_sync_lock : ℕ → ℕ → Answers → ℕ → Option Lock → Store → Store × Guards
  unfolding with_sync_lock
  after_sync_lock fetch_key fetch_token answers later none s = (s, Guards.refused Lock.noop)
  after_sync_lock fetch_key fetch_token answers later (some sync_lock) s =
      with_sync_lock fetch_key fetch_token answers.prefetched answers.second_set answers.released
        later sync_lock s

  -- The second step is made at `later`.
  unfoldable pub acquire_feed_sync_guards : ℕ → ℕ → ℕ → ℕ → Answers → ℕ → ℕ → Store → Store × Guards
  unfolding after_sync_lock
  acquire_feed_sync_guards sync_key sync_token fetch_key fetch_token answers now later s =
      if answers.first_set
      then (let (s', sync) =
            acquire_owned_lock redis ioredis sync_key sync_token feed_fetch_cooldown_seconds 0 now
              s in
          after_sync_lock fetch_key fetch_token answers later sync s')
      else (s, Guards.thrown Lock.noop)

  -- The closure of the two locks, with whether the scripts reach Redis, and the locks as they are left.
  unfoldable pub release_guards : Bool → Bool → Lock → Lock → ℕ → Store → Store × (Lock × Lock)
  release_guards fetch_released sync_released fetch_lock sync_lock now s =
      let (s1, fetch_left) = release redis ioredis fetch_released fetch_lock now s in
      let (s2, sync_left) = release redis ioredis sync_released sync_lock now s1 in
      (s2, (fetch_left, sync_left))
