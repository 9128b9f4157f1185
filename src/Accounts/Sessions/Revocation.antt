-- ===== src/Accounts/Sessions/Revocation.antt =====
-- packages/api/src/repositories/auth-session.repository.ts and
-- packages/api/src/repositories/user.repository.ts: a session that was revoked stays so.
use self_rss.Prelude.{
  ℕ, ◌≡◌, ◌≢◌, refl, ap, subst, inl, inr, Bool, true, false, not, ◌&&◌, ◌||◌, Option, none, some,
  List, [], ◌∷◌, arith, ◌==◌, if◌then◌else◌, is_none, is_some, find, All, update_where, Bool-cases,
  Option-cases,
}
use self_rss.Prelude.Rows.{update_where-none, All-mono}
use self_rss.AppError.{ok, fail, >>_ok, eq_of_ok, fail-ne-ok, Failure}
use self_rss.Accounts.{User, Session, Db}
use self_rss.Accounts.Users.{
  Changes, find_by_id, update_for_admin, update_password_hash, may_set_password, with_password,
  revoke_sessions, is_open, deactivates, assert_admin_mutation_allowed, apply_changes,
}
use self_rss.Accounts.Sessions.{
  LifetimePolicy, Metadata, find_active_by_id, rotate, touch, is_active, is_live,
}
use self_rss.Accounts.Sessions.Calls.{Call, run_all, Allowed, run_all-AllHold}

-- The session is another one, or it is revoked.
abbrev pub Ended : ℕ → ℕ → ℕ → Option ℕ → Type 0
Ended k i h r = (i == k && is_none r) ≡ false

-- The call makes no session of the key, as a drawn key is a new one.
abbrev pub FreshKey : ℕ → Call → Type 0
FreshKey k (Call.creation input verified now_ms) = input.id ≢ k
FreshKey k _ = Unit {0}

-- The session of the key, if any, is the user's.
abbrev pub Owned : ℕ → ℕ → Db → Type 0
Owned k user_id db = All (λ s. (s.id == k && not (s.user_id == user_id)) ≡ false) db.sessions

-- What ends all the sessions of an account: a new password, or a change of an administrator that
-- disables the account or sets its role.
pub data Ends (user_id : ℕ) (db : Db) : Db → Type 0 where
  password :
      (password_hash : ℕ) (verified : Option ℕ) (now : ℕ) (r : Db × (User × List ℕ))
      → update_password_hash user_id password_hash verified now db ≡ ok r
      → Ends user_id db r.0
  change :
      (actor : ℕ) (changes : Changes) (now : ℕ) (r : Db × (User × List ℕ))
      → (deactivates changes.is_active || is_some changes.role) ≡ true
      → update_for_admin actor user_id changes now db ≡ ok r
      → Ends user_id db r.0

module _ (k : ℕ) where
  revoke_sessions-Ended :
      (user_id now : ℕ) (db : Db)
      → Owned k user_id db
      → All
          (λ s. Ended k s.id s.refresh_token_hash s.revoked_at)
          (revoke_sessions user_id now db).0.sessions
  unfolding revoke_sessions
  revoke_sessions-Ended user_id now db owned = go db.sessions owned
    where
      go :
          (sessions : List Session)
          → All (λ s. (s.id == k && not (s.user_id == user_id)) ≡ false) sessions
          → All
              (λ s. Ended k s.id s.refresh_token_hash s.revoked_at)
              (update_where (is_open user_id) (λ s. record s { revoked_at = some now }) sessions)
      go [] h = tt
      go (s ∷ sessions) h = elim (Bool-cases (is_open user_id s)) [
        | inl e ↦ rw e (ground arith, go sessions h.1)
        | inr e ↦ let first = h.0 in rw e (ground arith, go sessions h.1)
      ]

  Ends-Ended :
      (user_id : ℕ) (db later : Db)
      → Ends user_id db later
      → Owned k user_id db
      → All (λ s. Ended k s.id s.refresh_token_hash s.revoked_at) later.sessions
  unfolding update_password_hash update_for_admin
  Ends-Ended user_id db _ (Ends.password password_hash verified now r h) owned =
      elim (Option-cases (find (may_set_password user_id verified) db.users)) [
        | inl e ↦ absurd (refused (is_some verified) _ _ (rw (e, update_password_hash) at h))
        | inr (row, e) ↦
            subst (λ d. All (λ s. Ended k s.id s.refresh_token_hash s.revoked_at) d.sessions)
              (ap (λ x. x.0) (eq_of_ok _ r (rw (e, update_password_hash) at h)))
              (revoke_sessions-Ended user_id now
                (record db {
                  users =
                      update_where (may_set_password user_id verified)
                        (with_password password_hash now) db.users;
                })
                owned)
      ]
    where
      refused : (b : Bool) (x y : Failure) → (if b then fail x else fail y) ≢ ok r
      refused true x y e = fail-ne-ok e
      refused false x y e = fail-ne-ok e
  Ends-Ended user_id db _ (Ends.change actor changes now r revoking h) owned =
      elim (Option-cases (find_by_id user_id db.users)) [
        | inl e ↦ absurd (fail-ne-ok (rw (e, update_for_admin) at h))
        | inr (target, e) ↦
            let (_, _, h1) =
              >>_ok (assert_admin_mutation_allowed actor target changes db.users) _
                (rw (e, update_for_admin) at h) in
            subst (λ d. All (λ s. Ended k s.id s.refresh_token_hash s.revoked_at) d.sessions)
              (ap (λ x. x.0) (eq_of_ok _ r (rw revoking at h1)))
              (revoke_sessions-Ended user_id now
                (record db {
                  users = update_where (λ u. u.id == user_id) (apply_changes changes now) db.users;
                })
                owned)
      ]

  module _ (policy : LifetimePolicy) where
    not_active :
        (t : ℕ) (sessions : List Session)
        → All (λ s. Ended k s.id s.refresh_token_hash s.revoked_at) sessions
        → find (is_active policy k t) sessions ≡ none
    unfolding is_active is_live
    not_active t [] h = refl
    not_active t (s ∷ sessions) h =
        let first = h.0 in
        let miss : is_active policy k t s ≡ false = ground arith in
        rw miss (not_active t sessions h.1)

    not_rotated :
        (current t : ℕ) (sessions : List Session)
        → All (λ s. Ended k s.id s.refresh_token_hash s.revoked_at) sessions
        → find
            (λ s. s.id == k && (s.refresh_token_hash == current && is_active policy k t s))
            sessions
          ≡ none
    unfolding is_active is_live
    not_rotated current t [] h = refl
    not_rotated current t (s ∷ sessions) h =
        let first = h.0 in
        let miss : (s.id == k && (s.refresh_token_hash == current && is_active policy k t s))
            ≡ false =
          ground arith in
        rw miss (not_rotated current t sessions h.1)

    -- The sessions of an account end with a new password, and with a change of an administrator that
    -- disables the account or sets its role: at any later time, whatever calls about
    -- sessions and accounts come in between, none of the sessions that the account had is found active,
    -- can be rotated with any refresh token, or is touched. The calls make no session of the
    -- same key.
    pub ended_sessions :
        (user_id : ℕ) (db after : Db) (calls : List Call) (current next t now_ms : ℕ)
        (metadata : Metadata)
        → Owned k user_id db
        → Ends user_id db after
        → All (FreshKey k) calls
        → let later = run_all policy calls after in
          (find_active_by_id policy k t later ≡ none)
          × (rotate policy k current next metadata now_ms t later ≡ (later, none))
          × (touch policy k metadata now_ms t later ≡ (later, none))
    unfolding find_active_by_id rotate touch
    ended_sessions user_id db after calls current next t now_ms metadata owned ends fresh =
        let later = run_all policy calls after in
        let ended =
          run_all-AllHold policy (Ended k) (λ i h at r w. ground arith) calls after
            (All-mono allowed calls fresh) (Ends-Ended user_id db after ends owned) in
        let miss = not_active t later.sessions ended in
        let lost = not_rotated current t later.sessions ended in
        (
          miss,
          rw (lost, update_where-none _ _ later.sessions lost) refl,
          rw (miss, update_where-none _ _ later.sessions miss) refl,
        )
      where
        allowed : (c : Call) → FreshKey k c → Allowed (Ended k) c
        allowed (Call.creation input verified now_ms) ne = ground arith
        allowed (Call.rotation id current next metadata now_ms checked_ms) ne = λ i r w. w
        allowed (Call.visit _ _ _ _) e = tt
        allowed (Call.revocation _ _) e = tt
        allowed (Call.revocation_for _ _ _) e = tt
        allowed (Call.cleanup _ _) e = tt
        allowed (Call.admin_change _ _ _ _) e = tt
        allowed (Call.password_change _ _ _ _) e = tt
