-- ===== src/Redis.antt =====
-- packages/api/src/db/redis.ts: the commands of Redis that the program calls, as an interface. The program's
-- scripts and functions are in the children.
pub mod Locks
pub mod RateLimits
pub mod Table
use self_rss.Prelude.{
  ℕ, ◌+◌, ◌≤◌, ◌≡◌, Bool, true, false, Option, none, some, ltb, ◌==◌, if◌then◌else◌,
}

-- A value is a number that stands for the text, a time is in milliseconds. Of each command the effect on
-- what is read at that time or later, as Redis documents it.
pub record Redis : Type 1 where
  pub Store : Type 0
  pub get : ℕ → ℕ → Store → Option ℕ
  -- SET key value PX ttl NX, with whether it was set; EX counts seconds.
  pub set_nx : ℕ → ℕ → ℕ → ℕ → Store → Store × Bool
  -- PEXPIRE key ttl; EXPIRE counts seconds.
  pub expire : ℕ → ℕ → ℕ → Store → Store
  pub del : ℕ → ℕ → Store → Store
  -- INCR key, with the new value.
  pub incr : ℕ → ℕ → Store → Store × ℕ
  -- Without a command a free key stays free.
  pub get_free : (now t key : ℕ) (s : Store) → get now key s ≡ none → now ≤ t → get t key s ≡ none
  pub set_nx_taken :
      (now key value ttl : ℕ) (s : Store) {v : ℕ}
      → get now key s ≡ some v
      → set_nx now key value ttl s ≡ (s, false)
  pub set_nx_done :
      (now key value ttl : ℕ) (s : Store)
      → get now key s ≡ none
      → (set_nx now key value ttl s).1 ≡ true
  pub get-set_nx :
      (now key value ttl t k : ℕ) (s : Store)
      → get now key s ≡ none
      → now ≤ t
      → get t k (set_nx now key value ttl s).0
        ≡ (if k == key then if ltb t (now + ttl) then some value else none else get t k s)
  pub get-expire :
      (now key ttl t k : ℕ) (s : Store) {v : ℕ}
      → get now key s ≡ some v
      → now ≤ t
      → get t k (expire now key ttl s)
        ≡ (if k == key then if ltb t (now + ttl) then some v else none else get t k s)
  pub get-del :
      (now key t k : ℕ) (s : Store)
      → now ≤ t
      → get t k (del now key s) ≡ (if k == key then none else get t k s)
  pub incr_absent : (now key : ℕ) (s : Store) → get now key s ≡ none → (incr now key s).1 ≡ 1
  pub incr_present :
      (now key : ℕ) (s : Store) {v : ℕ} → get now key s ≡ some v → (incr now key s).1 ≡ v + 1
  pub get-incr_absent :
      (now key t : ℕ) (s : Store)
      → get now key s ≡ none
      → now ≤ t
      → get t key (incr now key s).0 ≡ some 1
  -- The key keeps its time to live.
  pub get-incr_present :
      (now key t : ℕ) (s : Store) {v w : ℕ}
      → get now key s ≡ some v
      → now ≤ t
      → get t key s ≡ some w
      → get t key (incr now key s).0 ≡ some (w + 1)
