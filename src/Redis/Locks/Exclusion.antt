-- ===== src/Redis/Locks/Exclusion.antt =====
-- packages/api/src/services/redis-owned-lock.ts: a lock has one owner at a time.
use mathlib.Core.Option.{none-ne-some}
use self_rss.Prelude.{
  ℕ, ◌+◌, ◌*◌, ◌≤◌, ◌<◌, ◌≡◌, ◌≢◌, refl, sym, ap, ◌∙◌, inl, inr, true, false, Option, none, some,
  List, [], ◌∷◌, arith, ltb, ==_refl, is_eq, if◌then◌else◌, All, Option-cases,
}
use self_rss.Redis.{Redis}
use self_rss.Redis.Locks.{
  Lock, renew, release_script, heartbeat, release, ioredis, acquire_owned_lock,
}

-- What clients do with the lock: the token of the client, the lease and the cooldown, and the time.
pub data Event : Type 0 where
  acquire beat give_back : ℕ → ℕ → ℕ → ℕ → Event

abbrev pub token_of : Event → ℕ
token_of (Event.acquire token ttl cooldown now) = token
token_of (Event.beat token ttl cooldown now) = token
token_of (Event.give_back token ttl cooldown now) = token

abbrev pub time_of : Event → ℕ
time_of (Event.acquire token ttl cooldown now) = now
time_of (Event.beat token ttl cooldown now) = now
time_of (Event.give_back token ttl cooldown now) = now

module _ (redis : Redis) (key : ℕ) where
  open redis use {Store, get}

  unfoldable pub run : Event → Store → Store
  run (Event.acquire token ttl cooldown now) s =
      (acquire_owned_lock redis ioredis key token ttl cooldown now s).0
  run (Event.beat token ttl cooldown now) s =
      heartbeat redis true (Lock.owned key token ttl cooldown true) now s
  run (Event.give_back token ttl cooldown now) s =
      (release redis ioredis true (Lock.owned key token ttl cooldown true) now s).0

  unfoldable pub run_all : List Event → Store → Store
  unfolding run
  run_all [] s = s
  run_all (e ∷ events) s = run_all events (run e s)

  -- The event is another client's, and comes before the end of the lease.
  abbrev pub Foreign : ℕ → ℕ → ℕ → Event → Type 0
  Foreign token from until e = (token_of e ≢ token) × (from ≤ time_of e) × (time_of e < until)

  -- Another token's script does nothing.
  not_owner :
      (token other : ℕ) (o : Option ℕ) → o ≡ some token → other ≢ token → is_eq o other ≡ false
  not_owner token other o h ne = rw h (ground arith)

  run-Foreign :
      (token now until : ℕ) (e : Event) (s : Store)
      → ((t : ℕ) → now ≤ t → t < until → get t key s ≡ some token)
      → Foreign token now until e
      → run e s ≡ s
  unfolding run acquire_owned_lock heartbeat renew release release_script
  run-Foreign token now until (Event.acquire other ttl cooldown at) s held (ne, early, late) =
      ap (λ r. r.0) (redis.set_nx_taken at key other (ttl * 1000) s (held at early late))
  run-Foreign token now until (Event.beat other ttl cooldown at) s held (ne, early, late) =
      rw (not_owner token other (get at key s) (held at early late) ne) refl
  run-Foreign token now until (Event.give_back other ttl cooldown at) s held (ne, early, late) =
      rw (not_owner token other (get at key s) (held at early late) ne) refl

  run_all-Foreign :
      (token now until : ℕ) (events : List Event) (s : Store)
      → ((t : ℕ) → now ≤ t → t < until → get t key s ≡ some token)
      → All (Foreign token now until) events
      → run_all events s ≡ s
  unfolding run_all
  run_all-Foreign token now until [] s held foreign = refl
  run_all-Foreign token now until (e ∷ events) s held foreign =
      ap (run_all events) (run-Foreign token now until e s held foreign.0)
      ∙ run_all-Foreign token now until events s held foreign.1

  -- A lock that was acquired was free.
  pub acquired-free :
      (token ttl cooldown now : ℕ) (s : Store) {lock : Lock}
      → (acquire_owned_lock redis ioredis key token ttl cooldown now s).1 ≡ some lock
      → get now key s ≡ none
  unfolding acquire_owned_lock
  acquired-free token ttl cooldown now s h = elim (Option-cases (get now key s)) [
    | inl free ↦ free
    | inr (v, taken) ↦
        let lost =
          ap (λ r. if r.1 then some (Lock.owned key token ttl cooldown true) else none)
            (redis.set_nx_taken now key token (ttl * 1000) s taken) in
        absurd (none-ne-some _ (sym lost ∙ h))
  ]

  pub acquired-get :
      (token ttl cooldown now : ℕ) (s : Store) {lock : Lock}
      → (acquire_owned_lock redis ioredis key token ttl cooldown now s).1 ≡ some lock
      → (t : ℕ) → now ≤ t
      → get t key (acquire_owned_lock redis ioredis key token ttl cooldown now s).0
        ≡ (if ltb t (now + ttl * 1000) then some token else none)
  unfolding acquire_owned_lock
  acquired-get token ttl cooldown now s h t early =
      redis.get-set_nx now key token (ttl * 1000) t key s (acquired-free token ttl cooldown now s h)
        early
      ∙ rw (==_refl key) refl

  acquired-held :
      (token ttl cooldown now : ℕ) (s : Store) {lock : Lock}
      → (acquire_owned_lock redis ioredis key token ttl cooldown now s).1 ≡ some lock
      → (t : ℕ) → now ≤ t
      → t < now + ttl * 1000
      → get t key (acquire_owned_lock redis ioredis key token ttl cooldown now s).0 ≡ some token
  acquired-held token ttl cooldown now s h t early late =
      let soon : ltb t (now + ttl * 1000) ≡ true = ground arith in
      acquired-get token ttl cooldown now s h t early ∙ rw soon refl

  -- Who holds a lock keeps it until the end of the lease, whatever other clients do until then, with their
  -- own tokens: nobody else acquires it, and their heartbeats and releases, late ones of earlier owners
  -- included, write nothing.
  pub lock-exclusive :
      (token ttl cooldown now : ℕ) (s : Store) (lock : Lock) (events : List Event)
      (other ttl' cooldown' at : ℕ)
      → (acquire_owned_lock redis ioredis key token ttl cooldown now s).1 ≡ some lock
      → All (Foreign token now (now + ttl * 1000)) events
      → now ≤ at
      → at < now + ttl * 1000
      → let held = (acquire_owned_lock redis ioredis key token ttl cooldown now s).0 in
        (run_all events held ≡ held)
        × (get at key (run_all events held) ≡ some token)
        × (acquire_owned_lock redis ioredis key other ttl' cooldown' at (run_all events held)
            ≡ (held, none))
  unfolding acquire_owned_lock
  lock-exclusive token ttl cooldown now s lock events other ttl' cooldown' at h foreign early late =
      let held = (acquire_owned_lock redis ioredis key token ttl cooldown now s).0 in
      let owner = acquired-held token ttl cooldown now s h in
      let same = run_all-Foreign token now (now + ttl * 1000) events held owner foreign in
      let mine = owner at early late in
      (
        same,
        ap (get at key) same ∙ mine,
        rw same (rw (redis.set_nx_taken at key other (ttl' * 1000) held mine) refl),
      )

  -- Whoever finds the lock free acquires it.
  pub free-acquired :
      (token ttl cooldown t : ℕ) (s : Store)
      → get t key s ≡ none
      → (acquire_owned_lock redis ioredis key token ttl cooldown t s).1
        ≡ some (Lock.owned key token ttl cooldown true)
  unfolding acquire_owned_lock
  free-acquired token ttl cooldown t s free =
      rw (redis.set_nx_done t key token (ttl * 1000) s free) refl
