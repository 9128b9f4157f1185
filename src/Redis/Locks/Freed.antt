-- ===== src/Redis/Locks/Freed.antt =====
-- packages/api/src/services/redis-owned-lock.ts: a lock is free again, whatever its heartbeat did.
use self_rss.Prelude.{
  ℕ, ◌+◌, ◌*◌, ◌≤◌, ◌≡◌, refl, sym, ap, subst, ◌∙◌, inl, inr, Bool, true, false, ◌&&◌, none, some,
  List, [], ◌∷◌, arith, ltb, ==_refl, is_eq, eq_of_some, if◌then◌else◌, Bool-cases,
}
use self_rss.Redis.{Redis}
use self_rss.Redis.Locks.{
  Lock, ioredis, renew, release_script, acquire_owned_lock, heartbeat, release,
}
use self_rss.Redis.Locks.Exclusion.{acquired-free, acquired-get, free-acquired}

-- A tick of an interval: its time, and whether Redis is reached.
pub record Beat : Type 0 where
  pub at : ℕ
  pub reachable : Bool

-- The beats come one after the other between two times.
abbrev pub IsBetween : ℕ → ℕ → List Beat → Type 0
IsBetween from until [] = from ≤ until
IsBetween from until (b ∷ beats) = (from ≤ b.at) × IsBetween b.at until beats

-- The end of the lease: a beat that reaches Redis before it begins a new one.
abbrev pub lease_end : ℕ → ℕ → List Beat → ℕ
lease_end ttl_seconds end [] = end
lease_end ttl_seconds end (b ∷ beats) =
    lease_end ttl_seconds (if b.reachable && ltb b.at end then b.at + ttl_seconds * 1000 else end)
      beats

module _ (redis : Redis) where
  open redis use {Store, get}

  unfoldable pub beat_all : Lock → List Beat → Store → Store
  unfolding heartbeat
  beat_all lock [] s = s
  beat_all lock (b ∷ beats) s = beat_all lock beats (heartbeat redis b.reachable lock b.at s)

  module _ (key token ttl cooldown : ℕ) where
    -- The key is the token's until a time, and free from then on.
    abbrev Reads : ℕ → ℕ → Store → Type 0
    Reads from end s = (t : ℕ) → from ≤ t → get t key s ≡ (if ltb t end then some token else none)

    expire-Reads :
        (seconds from at end : ℕ) (s : Store)
        → Reads from end s
        → from ≤ at
        → ltb at end ≡ true
        → Reads at (at + seconds * 1000) (redis.expire at key (seconds * 1000) s)
    expire-Reads seconds from at end s reads early held t after =
        let mine : get at key s ≡ some token = reads at early ∙ rw held refl in
        redis.get-expire at key (seconds * 1000) t key s mine after ∙ rw (==_refl key) refl

    owner_at :
        (from at end : ℕ) (s : Store)
        → Reads from end s
        → from ≤ at
        → is_eq (get at key s) token ≡ ltb at end
    owner_at from at end s reads early = elim (Bool-cases (ltb at end)) [
      | inl e ↦ rw (reads at early, e) (==_refl token)
      | inr e ↦ rw (reads at early, e) refl
    ]

    beat-Reads :
        (b : Beat) (from end : ℕ) (s : Store)
        → Reads from end s
        → from ≤ b.at
        → Reads b.at
            (if b.reachable && ltb b.at end then b.at + ttl * 1000 else end)
            (heartbeat redis b.reachable (Lock.owned key token ttl cooldown true) b.at s)
    unfolding heartbeat renew
    beat-Reads b from end s reads early t after = elim (Bool-cases b.reachable) [
      | inr e ↦ rw e (reads t (omega (arith, early, after)))
      | inl e ↦ elim (Bool-cases (ltb b.at end)) [
        | inl f ↦
            rw (e, owner_at from b.at end s reads early, f)
              (expire-Reads ttl from b.at end s reads early f t after)
        | inr f ↦
            rw (e, owner_at from b.at end s reads early, f) (reads t (omega (arith, early, after)))
      ]
    ]

    beat_all-Reads :
        (beats : List Beat) (from until end : ℕ) (s : Store)
        → Reads from end s
        → IsBetween from until beats
        → Reads until
            (lease_end ttl end beats)
            (beat_all (Lock.owned key token ttl cooldown true) beats s)
    unfolding beat_all
    beat_all-Reads [] from until end s reads early t after = reads t (omega (arith, early, after))
    beat_all-Reads (b ∷ beats) from until end s reads (early, rest) t after =
        beat_all-Reads beats b.at until _ _ (beat-Reads b from end s reads early) rest t after

    -- A released lock has no heartbeat.
    released-beat_all :
        (beats : List Beat) (s : Store)
        → beat_all (Lock.owned key token ttl cooldown false) beats s ≡ s
    unfolding beat_all heartbeat
    released-beat_all [] s = refl
    released-beat_all (b ∷ beats) s = released-beat_all beats s

    release-free :
        (reachable : Bool) (at end t : ℕ) (s : Store)
        → Reads at end s
        → at ≤ t
        → (if reachable then at + cooldown * 1000 else end) ≤ t
        → get t key
            (release redis ioredis reachable (Lock.owned key token ttl cooldown true) at s).0
          ≡ none
    unfolding release release_script
    release-free false at end t s reads after freed =
        let over : ltb t end ≡ false = ground arith in reads t after ∙ rw over refl
    release-free true at end t s reads after freed = elim (Bool-cases (ltb at end)) [
      | inr e ↦
          let over : ltb t end ≡ false = ground arith in
          rw (owner_at at at end s reads (omega arith), e) (reads t after ∙ rw over refl)
      | inl e ↦ elim (Bool-cases (ltb 0 cooldown)) [
        | inl f ↦
            let over : ltb t (at + cooldown * 1000) ≡ false = ground arith in
            rw (owner_at at at end s reads (omega arith), e, f)
              (expire-Reads cooldown at at end s reads (omega arith) e t after ∙ rw over refl)
        | inr f ↦
            rw (owner_at at at end s reads (omega arith), e, f)
              (redis.get-del at key t key s after ∙ rw (==_refl key) refl)
      ]
    ]

    acquired_lock :
        (now : ℕ) (s : Store) (lock : Lock)
        → (acquire_owned_lock redis ioredis key token ttl cooldown now s).1 ≡ some lock
        → Lock.owned key token ttl cooldown true ≡ lock
    acquired_lock now s lock h = eq_of_some _ lock (
        sym (
          free-acquired redis key token ttl cooldown now s
            (acquired-free redis key token ttl cooldown now s h))
        ∙ h)

    freed-owned :
        (now : ℕ) (s : Store) (lock : Lock) (before after : List Beat) (reachable : Bool) (at t : ℕ)
        → (acquire_owned_lock redis ioredis key token ttl cooldown now s).1 ≡ some lock
        → IsBetween now at before
        → at ≤ t
        → (if reachable then at + cooldown * 1000 else lease_end ttl (now + ttl * 1000) before) ≤ t
        → let held = (acquire_owned_lock redis ioredis key token ttl cooldown now s).0 in
          let mine = Lock.owned key token ttl cooldown true in
          let released = release redis ioredis reachable mine at (beat_all mine before held) in
          get t key (beat_all released.1 after released.0) ≡ none
    unfolding release
    freed-owned now s lock before after reachable at t h between later freed =
        let held = (acquire_owned_lock redis ioredis key token ttl cooldown now s).0 in
        let mine = Lock.owned key token ttl cooldown true in
        let beaten = beat_all mine before held in
        let reads =
          beat_all-Reads before now at (now + ttl * 1000) held
            (acquired-get redis key token ttl cooldown now s h) between in
        ap (get t key) (released-beat_all after (release redis ioredis reachable mine at beaten).0)
        ∙ release-free reachable at (lease_end ttl (now + ttl * 1000) before) t beaten reads later
            freed

  -- A lock becomes free, however often its heartbeat renewed it or failed to: a released one when its
  -- cooldown is over, as the ticks after the release renew nothing; and one that Redis could not be
  -- reached to release at the end of the lease that the last renewal began. From then on the next client that
  -- asks acquires it, where no other one did in between.
  pub lock-freed :
      (key token ttl cooldown now : ℕ) (s : Store) (lock : Lock) (before after : List Beat)
      (reachable : Bool) (at t other ttl' cooldown' : ℕ)
      → (acquire_owned_lock redis ioredis key token ttl cooldown now s).1 ≡ some lock
      → IsBetween now at before
      → at ≤ t
      → (if reachable then at + cooldown * 1000 else lease_end ttl (now + ttl * 1000) before) ≤ t
      → let held = (acquire_owned_lock redis ioredis key token ttl cooldown now s).0 in
        let released = release redis ioredis reachable lock at (beat_all lock before held) in
        (acquire_owned_lock redis ioredis key other ttl' cooldown' t
          (beat_all released.1 after released.0)).1
        ≡ some (Lock.owned key other ttl' cooldown' true)
  lock-freed key token ttl cooldown now s lock before after reachable at t other ttl' cooldown' h
        between later freed =
      let held = (acquire_owned_lock redis ioredis key token ttl cooldown now s).0 in
      let free =
        freed-owned key token ttl cooldown now s lock before after reachable at t h between later
          freed in
      free-acquired redis key other ttl' cooldown' t _ (
        subst
          (λ l.
            let released = release redis ioredis reachable l at (beat_all l before held) in
            get t key (beat_all released.1 after released.0) ≡ none)
          (acquired_lock key token ttl cooldown now s lock h) free)
