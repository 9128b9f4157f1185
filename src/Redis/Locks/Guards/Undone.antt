-- ===== src/Redis/Locks/Guards/Undone.antt =====
-- packages/api/src/services/feed-fetch-guard.ts: what a synchronization that is given up leaves behind.
use self_rss.Prelude.{
  ℕ, ◌*◌, ◌+◌, ◌≤◌, ◌≡◌, ◌≢◌, refl, sym, ap, subst, if-both, ◌∙◌, inl, inr, Bool, true, false,
  Option, none, some, arith, ltb, leb, not, ◌||◌, ◌==◌, ==_refl, ==_iff, is_eq, if◌then◌else◌,
  Bool-cases, Option-cases,
}
use self_rss.Redis.{Redis}
use self_rss.Redis.Locks.{Lock, ioredis, is_beating, release_script, release, acquire_owned_lock}
use self_rss.Redis.Locks.Guards.{
  feed_fetch_cooldown_seconds, Guards, Answers, acquire_feed_fetch_guard, undo, after_fetch_lock,
  with_sync_lock, after_sync_lock, acquire_feed_sync_guards,
}

abbrev pub is_held : Guards → Bool
is_held (Guards.held fetch sync) = true
is_held (Guards.refused left) = false
is_held (Guards.thrown left) = false

-- The first lock as it is left.
abbrev pub left_of : Guards → Lock
left_of (Guards.held fetch sync) = sync
left_of (Guards.refused left) = left
left_of (Guards.thrown left) = left

-- The release reaches Redis, or the key is another one, or the lease is over.
abbrev pub reads_undone : Bool → ℕ → ℕ → ℕ → ℕ → Bool
reads_undone released key now t k = released || not (k == key) || leb (now + 15 * 60 * 1000) t

module _ (redis : Redis) where
  open redis use {Store, get}

  -- What is read of a lock that was set, and is deleted or has ended.
  lock_read :
      (key token : ℕ) (b : Bool) (t k : ℕ) (s : Store) (o : Option ℕ)
      → get t key s ≡ none
      → o ≡ (if k == key then if b then some token else none else get t k s)
      → b ≡ false
      → o ≡ get t k s
  lock_read key token b t k s o gone read off = elim (Bool-cases (k == key)) [
    | inl e ↦
        let same : k ≡ key = (==_iff k key).0 e in
        read ∙ rw (e, off) (sym (ap (λ i. get t i s) same ∙ gone))
    | inr e ↦ read ∙ rw e refl
  ]

  key_read :
      (key t k : ℕ) (s s1 : Store)
      → get t key s ≡ none
      → ((k == key) ≡ false → get t k s1 ≡ get t k s)
      → (if k == key then none else get t k s1) ≡ get t k s
  key_read key t k s s1 gone other = elim (Bool-cases (k == key)) [
    | inl e ↦
        let same : k ≡ key = (==_iff k key).0 e in rw e (sym (ap (λ i. get t i s) same ∙ gone))
    | inr e ↦ rw e (other e)
  ]

  overdue :
      (token : ℕ) (b : Bool) (o : Option ℕ)
      → o ≡ (if b then some token else none)
      → is_eq o token ≡ false
      → b ≡ false
  overdue token false o e h = refl
  overdue token true o e h = absurd (let k : is_eq o token ≡ true = rw e (==_refl token) in cc)

  -- The first lock is given back.
  sync-released :
      (key token now later : ℕ) (s : Store)
      → get now key s ≡ none
      → now ≤ later
      → (t k : ℕ) → later ≤ t
      → get t k (
          (release redis ioredis true
            (Lock.owned key token feed_fetch_cooldown_seconds 0 true)
            later
            (redis.set_nx now key token (feed_fetch_cooldown_seconds * 1000) s).0).0)
        ≡ get t k s
  unfolding release release_script
  sync-released key token now later s free after t k at =
      let ttl = feed_fetch_cooldown_seconds * 1000 in
      let s1 = (redis.set_nx now key token ttl s).0 in
      let read = redis.get-set_nx now key token ttl t k s free (omega arith) in
      let gone = redis.get_free now t key s free (omega arith) in
      let mine : get later key s1 ≡ (if ltb later (now + ttl) then some token else none) =
        redis.get-set_nx now key token ttl later key s free after ∙ rw (==_refl key) refl in
      elim (Bool-cases (is_eq (get later key s1) token)) [
        | inl e ↦ rw e (
            redis.get-del later key t k s1 at
            ∙ key_read key t k s s1 gone (λ ne. read ∙ rw ne refl))
        | inr e ↦
            let late : ltb later (now + ttl) ≡ false =
              overdue token (ltb later (now + ttl)) (get later key s1) mine e in
            let over : ltb t (now + ttl) ≡ false = ground arith in
            rw e (lock_read key token (ltb t (now + ttl)) t k s (get t k s1) gone read over)
      ]

  module _ (key token cooldown now : ℕ) (s : Store) where
    acquire-taken :
        {v : ℕ}
        → get now key s ≡ some v
        → acquire_owned_lock redis ioredis key token feed_fetch_cooldown_seconds cooldown now s
          ≡ (s, none)
    unfolding acquire_owned_lock
    acquire-taken taken =
        rw (redis.set_nx_taken now key token (feed_fetch_cooldown_seconds * 1000) s taken) refl

    acquire-done :
        get now key s ≡ none
        → acquire_owned_lock redis ioredis key token feed_fetch_cooldown_seconds cooldown now s ≡ (
          (redis.set_nx now key token (feed_fetch_cooldown_seconds * 1000) s).0,
          some (Lock.owned key token feed_fetch_cooldown_seconds cooldown true),
        )
    unfolding acquire_owned_lock
    acquire-done free =
        rw (redis.set_nx_done now key token (feed_fetch_cooldown_seconds * 1000) s free) refl

  module _ (key token now later : ℕ) (s : Store) (free : get now key s ≡ none)
      (after : now ≤ later) where
    taken : Store
    taken = (redis.set_nx now key token (feed_fetch_cooldown_seconds * 1000) s).0

    mine : Lock
    mine = Lock.owned key token feed_fetch_cooldown_seconds 0 true

    sync-undone :
        (released : Bool) (t k : ℕ)
        → later ≤ t
        → reads_undone released key now t k ≡ true
        → get t k (release redis ioredis released mine later taken).0 ≡ get t k s
    unfolding release taken mine
    sync-undone true t k at h = sync-released key token now later s free after t k at
    sync-undone false t k at h =
        let ttl = feed_fetch_cooldown_seconds * 1000 in
        let gone = redis.get_free now t key s free (omega (arith, after, at)) in
        let read = redis.get-set_nx now key token ttl t k s free (omega (arith, after, at)) in
        elim (Bool-cases (k == key)) [
          | inr e ↦ read ∙ rw e refl
          | inl e ↦
              let over : ltb t (now + ttl) ≡ false = ground arith in
              lock_read key token (ltb t (now + ttl)) t k s (get t k taken) gone read over
        ]

    -- What an attempt that does not hold both locks leaves.
    abbrev IsUndone : ℕ → ℕ → Store × Guards → Type 0
    IsUndone t k r = (is_beating (left_of r.1) ≡ false) × (get t k r.0 ≡ get t k s)

    undo-Undone :
        (released : Bool) (reason : Lock → Guards) (t k : ℕ)
        → ((l : Lock) → left_of (reason l) ≡ l)
        → later ≤ t
        → reads_undone released key now t k ≡ true
        → IsUndone t k (undo redis reason (release redis ioredis released mine later taken))
    unfolding release taken mine
    undo-Undone released reason t k named at h =
        (ap is_beating (named _), sync-undone released t k at h)

    second-Undone :
        (fetch_key fetch_token : ℕ) (released : Bool) (t k : ℕ)
        → later ≤ t
        → reads_undone released key now t k ≡ true
        → let r =
            after_fetch_lock redis released mine later
              (acquire_feed_fetch_guard redis fetch_key fetch_token later taken) in
          is_held r.1 ≡ false → IsUndone t k r
    unfolding acquire_feed_fetch_guard
    second-Undone fetch_key fetch_token released t k at h lost =
        elim (Option-cases (get later fetch_key taken)) [
          | inl vacant ↦
              let done =
                acquire-done fetch_key fetch_token feed_fetch_cooldown_seconds later taken vacant in
              let won : true ≡ false =
                sym (ap (λ r. is_held (after_fetch_lock redis released mine later r).1) done)
                ∙ lost in
              absurd (let no : true ≢ false = (cc) in no won)
          | inr (v, other) ↦
              subst (λ r. IsUndone t k (after_fetch_lock redis released mine later r))
                (sym (
                  acquire-taken fetch_key fetch_token feed_fetch_cooldown_seconds later taken
                    other))
                (undo-Undone released Guards.refused t k (λ l. refl) at h)
        ]

    with_sync-Undone :
        (fetch_key fetch_token : ℕ) (prefetched : Option Bool) (second_set released : Bool)
        (t k : ℕ)
        → later ≤ t
        → reads_undone released key now t k ≡ true
        → let r =
            with_sync_lock redis fetch_key fetch_token prefetched second_set released later mine
              taken in
          is_held r.1 ≡ false → IsUndone t k r
    unfolding with_sync_lock
    with_sync-Undone fetch_key fetch_token none second_set released t k at h lost =
        undo-Undone released Guards.thrown t k (λ l. refl) at h
    with_sync-Undone fetch_key fetch_token (some true) second_set released t k at h lost = cc
    with_sync-Undone fetch_key fetch_token (some false) false released t k at h lost =
        undo-Undone released Guards.thrown t k (λ l. refl) at h
    with_sync-Undone fetch_key fetch_token (some false) true released t k at h lost =
        second-Undone fetch_key fetch_token released t k at h lost

  abbrev Claim : ℕ → ℕ → Store → Store × Guards → Type 0
  Claim t k s r =
      is_held r.1 ≡ false → (is_beating (left_of r.1) ≡ false) × (get t k r.0 ≡ get t k s)

  -- A synchronization that does not get both of its locks, since another one has the first or the second, or
  -- since any command to Redis fails, leaves no heartbeat. From then on every key reads as if it had not been
  -- tried; only where the release of the first lock does not reach Redis either, that lock's own key does so
  -- when its lease of 15 minutes is over.
  pub guards_undone :
      (sync_key sync_token fetch_key fetch_token : ℕ) (answers : Answers) (now later : ℕ)
      (s : Store) (t k : ℕ)
      → now ≤ later
      → later ≤ t
      → reads_undone answers.released sync_key now t k ≡ true
      → let r =
          acquire_feed_sync_guards redis sync_key sync_token fetch_key fetch_token answers now later
            s in
        is_held r.1 ≡ false → (is_beating (left_of r.1) ≡ false) × (get t k r.0 ≡ get t k s)
  unfolding acquire_feed_sync_guards after_sync_lock taken mine
  guards_undone sync_key sync_token fetch_key fetch_token answers now later s t k after at h lost =
      let attempt : Store × Option Lock → Store × Guards =
        λ p. after_sync_lock redis fetch_key fetch_token answers later p.1 p.0 in
      let first =
        acquire_owned_lock redis ioredis sync_key sync_token feed_fetch_cooldown_seconds 0 now s in
      if-both (Claim t k s) answers.first_set (attempt first) (s, Guards.thrown Lock.noop)
        (elim (Option-cases (get now sync_key s)) [
          | inr (v, other) ↦
              subst (λ p. Claim t k s (attempt p))
                (sym (acquire-taken sync_key sync_token 0 now s other)) (λ _. (refl, refl))
          | inl free ↦
              subst (λ p. Claim t k s (attempt p))
                (sym (acquire-done sync_key sync_token 0 now s free))
                (with_sync-Undone sync_key sync_token now later s free after fetch_key fetch_token
                  answers.prefetched answers.second_set answers.released t k at h)
        ])
        (λ _. (refl, refl)) lost
