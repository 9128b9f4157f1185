-- ===== src/Redis/Locks/Tests.antt =====
-- packages/api/src/services/redis-owned-lock.ts and packages/api/src/services/feed-fetch-guard.ts: runs over
-- a table.
use self_rss.Prelude.{◌≡◌, refl, true, false, none, some, List, [], ◌∷◌, arith}
use self_rss.Redis.Table.{table, Entries, get}
use self_rss.Redis.Locks.{Lock, ioredis, is_beating, renew, release, acquire_owned_lock}
use self_rss.Redis.Locks.Exclusion.{Event, run_all, lock-exclusive}
use self_rss.Redis.Locks.Freed.{Beat, beat_all, lock-freed}
use self_rss.Redis.Locks.Guards.{Guards, Answers, acquire_feed_sync_guards, release_guards}
use self_rss.Redis.Locks.Guards.Undone.{left_of, guards_undone}

abbrev empty : Entries
empty k = none

abbrev held : Entries
held = (acquire_owned_lock table ioredis 1 7 60 5 1000 empty).0

abbrev others : List Event
others = Event.give_back 8 60 0 2000 ∷ Event.beat 8 60 0 3000 ∷ Event.acquire 9 60 5 4000 ∷ []

renew_test : get 70000 1 (renew table 1 7 60 50000 held) ≡ some 7
unfolding renew acquire_owned_lock
renew_test = refl

no_set_test :
    (acquire_owned_lock table (record { has_set = false; has_eval = false }) 1 7 60 5 1000 empty).1
    ≡ some Lock.noop
unfolding acquire_owned_lock
no_set_test = refl

lock-exclusive_example :
    (run_all table 1 others held ≡ held)
    × (get 5000 1 (run_all table 1 others held) ≡ some 7)
    × (acquire_owned_lock table ioredis 1 9 60 5 5000 (run_all table 1 others held) ≡ (held, none))
unfolding acquire_owned_lock
lock-exclusive_example =
    lock-exclusive table 1 7 60 5 1000 empty (Lock.owned 1 7 60 5 true) others 9 60 5 5000 refl
      (
        (ground arith, ground arith, ground arith),
        (
          (ground arith, ground arith, ground arith),
          ((ground arith, ground arith, ground arith), tt),
        ),
      )
      (ground arith) (ground arith)

-- The lock is renewed once, and the second renewal fails.
abbrev beats : List Beat
beats = record { at = 21000; reachable = true } ∷ record { at = 41000; reachable = false } ∷ []

-- The interval is cleared, so a later tick does not renew the cooldown.
abbrev late : List Beat
late = record { at = 71000; reachable = true } ∷ []

mine : Lock
mine = Lock.owned 1 7 60 5 true

renewed_test : get 80000 1 (beat_all table mine beats held) ≡ some 7
unfolding beat_all acquire_owned_lock mine
renewed_test = refl

cleared_test : (release table ioredis false mine 70000 held).1 ≡ Lock.owned 1 7 60 5 false
unfolding release mine
cleared_test = refl

lock-freed_example :
    let released =
      release table ioredis true
        (Lock.owned 1 7 60 5 true)
        70000
        (beat_all table (Lock.owned 1 7 60 5 true) beats held) in
    (acquire_owned_lock table ioredis 1 9 60 5 75000 (beat_all table released.1 late released.0)).1
    ≡ some (Lock.owned 1 9 60 5 true)
unfolding acquire_owned_lock
lock-freed_example =
    lock-freed table 1 7 60 5 1000 empty (Lock.owned 1 7 60 5 true) beats late true 70000 75000 9 60
      5 refl (ground arith, (ground arith, ground arith)) (ground arith) (ground arith)

-- Another client fetches the document.
abbrev busy : Entries
busy = (acquire_owned_lock table ioredis 2 8 900 900 500 empty).0

-- Every command is answered, and no document is at hand.
abbrev answered : Answers
answered = record { first_set = true; prefetched = some false; second_set = true; released = true }

-- Redis is lost after the first lock.
abbrev lost : Answers
lost = record { first_set = true; prefetched = none; second_set = false; released = false }

guards_test :
    (acquire_feed_sync_guards table 1 7 2 9 answered 1000 1001 busy).1
    ≡ Guards.refused (Lock.owned 1 7 900 0 false)
unfolding acquire_feed_sync_guards acquire_owned_lock release
guards_test = refl

lost_test : get 2000 1 (acquire_feed_sync_guards table 1 7 2 9 lost 1000 1001 busy).0 ≡ some 7
unfolding acquire_feed_sync_guards acquire_owned_lock release
lost_test = refl

closure_test :
    (release_guards table true true
      (Lock.owned 2 8 900 900 true)
      (Lock.owned 1 7 900 0 true)
      2000
      busy).1
    ≡ (Lock.owned 2 8 900 900 false, Lock.owned 1 7 900 0 false)
unfolding release_guards release
closure_test = refl

guards_undone_example :
    let r = acquire_feed_sync_guards table 1 7 2 9 lost 1000 1001 busy in
    (is_beating (left_of r.1) ≡ false) × (get 901000 1 r.0 ≡ get 901000 1 busy)
unfolding acquire_feed_sync_guards acquire_owned_lock
guards_undone_example =
    guards_undone table 1 7 2 9 lost 1000 1001 busy 901000 1 (ground arith) (ground arith) refl refl
