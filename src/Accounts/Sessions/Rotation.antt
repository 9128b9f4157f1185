-- ===== src/Accounts/Sessions/Rotation.antt =====
-- packages/api/src/repositories/auth-session.repository.ts: a refresh token is good for one rotation.
use mathlib.Core.Option
use mathlib.Core.Option.{none-ne-some}
use self_rss.Prelude.{
  ℕ, ◌≡◌, ◌≢◌, refl, sym, ap, ◌∙◌, inl, inr, Bool, true, false, ◌&&◌, Option, none, some, List, [],
  ◌∷◌, map, arith, ◌==◌, ==_iff, contains, find, any, find-any, All, Unique, update_where,
  Bool-cases,
}
use self_rss.Prelude.Rows.{update_where-none, All-mono}
use self_rss.Accounts.{Session, Db}
use self_rss.Accounts.Sessions.{LifetimePolicy, Metadata, rotate, is_active}
use self_rss.Accounts.Sessions.Calls.{Call, run_all, Allowed, run_all-AllHold}

abbrev pub hashes_of : List Session → List ℕ
hashes_of = map λ s. s.refresh_token_hash

-- The session has another hash.
abbrev pub Without : ℕ → ℕ → ℕ → Option ℕ → Type 0
Without hash i h r = (h == hash) ≡ false

-- The call brings no session to the hash, as a drawn token has a hash of its own.
abbrev pub Fresh : ℕ → Call → Type 0
Fresh hash (Call.creation input verified now_ms) = input.refresh_token_hash ≢ hash
Fresh hash (Call.rotation id current next metadata now_ms checked_ms) = next ≢ hash
Fresh hash _ = Unit {0}

map-some :
    (f : Session → Session) (o : Option Session) {s : Session}
    → Option.map f o ≡ some s
    → (r : Session) × (o ≡ some r)
map-some f none h = absurd (none-ne-some _ h)
map-some f (some r) h = (r, refl)

module _ (policy : LifetimePolicy) (hash : ℕ) where
  absent-Without :
      (sessions : List Session)
      → contains hash (hashes_of sessions) ≡ false
      → All (λ s. (s.refresh_token_hash == hash) ≡ false) sessions
  absent-Without [] h = tt
  absent-Without (s ∷ sessions) h = (ground arith, absent-Without sessions (ground arith))

  module _ (p : Session → Bool) (f : Session → Session)
      (has : (s : Session) → p s ≡ true → (s.refresh_token_hash == hash) ≡ true)
      (loses : (s : Session) → ((f s).refresh_token_hash == hash) ≡ false) where
    -- Without the hash, there is nothing to update.
    untouched :
        (sessions : List Session)
        → contains hash (hashes_of sessions) ≡ false
        → update_where p f sessions ≡ sessions
    untouched [] h = refl
    untouched (s ∷ sessions) h = elim (Bool-cases (p s)) [
      | inl e ↦ let clash = has s e in absurd (ground arith)
      | inr e ↦ rw e (ap (◌∷◌ s) (untouched sessions (ground arith)))
    ]

    here :
        (sessions : List Session)
        → any p sessions ≡ true
        → contains hash (hashes_of sessions) ≡ true
    here [] h = cc
    here (s ∷ sessions) h = elim (Bool-cases (p s)) [
      | inl e ↦ let k = has s e in ground arith
      | inr e ↦ let k = here sessions (ground arith) in ground arith
    ]

    taken :
        (sessions : List Session)
        → Unique (hashes_of sessions)
        → any p sessions ≡ true
        → All (λ s. (s.refresh_token_hash == hash) ≡ false) (update_where p f sessions)
    taken [] u h = tt
    taken (s ∷ sessions) u h = elim (Bool-cases (p s)) [
      | inl e ↦
          let same : s.refresh_token_hash ≡ hash = (==_iff s.refresh_token_hash hash).0 (has s e) in
          let absent : contains hash (hashes_of sessions) ≡ false =
            ap (λ i. contains i (hashes_of sessions)) (sym same) ∙ u.0 in
          rw (e, untouched sessions absent) (loses s, absent-Without sessions absent)
      | inr e ↦
          let tail : any p sessions ≡ true = rw e at h in
          rw e (
            other s.refresh_token_hash (hashes_of sessions) u.0 (here sessions tail),
            taken sessions u.1 tail,
          )
    ]
      where
        other :
            (i : ℕ) (hashes : List ℕ)
            → contains i hashes ≡ false
            → contains hash hashes ≡ true
            → (i == hash) ≡ false
        other i hashes absent there = elim (Bool-cases (i == hash)) [
          | inr k ↦ k
          | inl k ↦
              let there' : contains i hashes ≡ true = rw ((==_iff i hash).0 k) there in ground arith
        ]

  -- The rotation that succeeds takes the hash away from the one session that has it.
  rotated-Without :
      (id next : ℕ) (metadata : Metadata) (now_ms checked_ms : ℕ) (db : Db) {s : Session}
      → Unique (hashes_of db.sessions)
      → next ≢ hash
      → (rotate policy id hash next metadata now_ms checked_ms db).1 ≡ some s
      → All
          (λ s. (s.refresh_token_hash == hash) ≡ false)
          (rotate policy id hash next metadata now_ms checked_ms db).0.sessions
  unfolding rotate
  rotated-Without id next metadata now_ms checked_ms db {s} u ne h =
      let p = λ (s : Session).
        s.id == id && (s.refresh_token_hash == hash && is_active policy id checked_ms s) in
      let (row, found) = map-some _ (find p db.sessions) h in
      taken p _ (λ s e. ground arith) (λ s. ground arith) db.sessions u
        (find-any p db.sessions found)

  not_found_without :
      (id checked_ms : ℕ) (sessions : List Session)
      → All (λ s. (s.refresh_token_hash == hash) ≡ false) sessions
      → find
          (λ s. s.id == id && (s.refresh_token_hash == hash && is_active policy id checked_ms s))
          sessions
        ≡ none
  not_found_without id checked_ms [] h = refl
  not_found_without id checked_ms (s ∷ sessions) h = elim (Bool-cases (s.id == id)) [
    | inl e ↦ rw (e, h.0) (not_found_without id checked_ms sessions h.1)
    | inr e ↦ rw e (not_found_without id checked_ms sessions h.1)
  ]

  -- Once a refresh token was rotated, it is never accepted again: whatever calls about sessions and
  -- accounts come after that, of which none gives a session the same hash, another rotation with the
  -- token finds no session and writes nothing. No two sessions had one hash before.
  pub rotated-once :
      (id next : ℕ) (metadata : Metadata) (now_ms checked_ms : ℕ) (db : Db) (s : Session)
      (calls : List Call) (id' next' : ℕ) (metadata' : Metadata) (now_ms' checked_ms' : ℕ)
      → Unique (hashes_of db.sessions)
      → next ≢ hash
      → (rotate policy id hash next metadata now_ms checked_ms db).1 ≡ some s
      → All (Fresh hash) calls
      → let later =
          run_all policy calls (rotate policy id hash next metadata now_ms checked_ms db).0 in
        rotate policy id' hash next' metadata' now_ms' checked_ms' later ≡ (later, none)
  unfolding rotate
  rotated-once id next metadata now_ms checked_ms db s calls id' next' metadata' now_ms' checked_ms'
        u ne h fresh =
      let first = (rotate policy id hash next metadata now_ms checked_ms db).0 in
      let absent =
        run_all-AllHold policy (Without hash) (λ i k t r w. w) calls first
          (All-mono allowed calls fresh)
          (rotated-Without id next metadata now_ms checked_ms db u ne h) in
      let later = run_all policy calls first in
      let miss = not_found_without id' checked_ms' later.sessions absent in
      rw (miss, update_where-none _ _ later.sessions miss) refl
    where
      allowed : (c : Call) → Fresh hash c → Allowed (Without hash) c
      allowed (Call.creation input verified now_ms) ne = ground arith
      allowed (Call.rotation id current next metadata now_ms checked_ms) ne = λ i r w. ground arith
      allowed (Call.visit _ _ _ _) k = tt
      allowed (Call.revocation _ _) k = tt
      allowed (Call.revocation_for _ _ _) k = tt
      allowed (Call.cleanup _ _) k = tt
      allowed (Call.admin_change _ _ _ _) k = tt
      allowed (Call.password_change _ _ _ _) k = tt
