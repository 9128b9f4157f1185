-- ===== src/Accounts/Auth/Refused.antt =====
-- packages/api/src/services/auth.service.ts: an ended session opens nothing any more.
use self_rss.Prelude.{
  ℕ, ◌≡◌, ◌≢◌, refl, sym, ap, ◌∙◌, inl, inr, true, false, ◌||◌, Option, none, some, List, ◌∷◌,
  arith, ◌==◌, is_some, All, Bool-cases,
}
use self_rss.Prelude.Text.{Text}
use self_rss.AppError.{ok, fail, unauthorized}
use self_rss.Accounts.{User, Db}
use self_rss.Accounts.Users.{Changes, deactivates}
use self_rss.Accounts.Sessions.{LifetimePolicy, Metadata, find_active_by_id}
use self_rss.Accounts.Sessions.Calls.{Call, run_all}
use self_rss.Accounts.Sessions.Revocation.{Owned, FreshKey, ended_sessions}
use self_rss.Accounts.Auth.{
  Platform, Cache, Drawn, Tokens, auth_lost_message, is_marked, parse_refresh_token,
}
use self_rss.Accounts.Auth.SignIn.{session_of, refresh, is_access_session_active}
use self_rss.Accounts.Auth.Passwords.{change_password, admin_update_user, admin_reset_password}
use self_rss.Accounts.Auth.Ended.{reset-Ends, update-Ends, change-Ends, issue-run}

ne-==_false : (a b : ℕ) → a ≢ b → (a == b) ≡ false
ne-==_false a b ne = ground arith

abbrev no_metadata : Metadata
no_metadata = record { client_id = none; device_name = none; user_agent = none; ip_address = none }

module _ (platform : Platform) (policy : LifetimePolicy) (cache : Cache) where
  -- What ends the sessions of an account: an operation that succeeded and left a database.
  pub data Closes (user_id : ℕ) (k : ℕ) (db : Db) : Db → Type 0 where
    reset :
        (password_hash now_ms : ℕ) (after : Db) (user : User)
        → admin_reset_password platform policy cache user_id password_hash now_ms db
          ≡ (after, ok user)
        → Closes user_id k db after
    update :
        (actor : ℕ) (changes : Changes) (now_ms : ℕ) (after : Db) (user : User)
        → (deactivates changes.is_active || is_some changes.role) ≡ true
        → admin_update_user platform policy cache actor user_id changes now_ms db ≡ (after, ok user)
        → Closes user_id k db after
    -- The new session is another one.
    change :
        (current new : Text) (password_hash : ℕ) (drawn : Drawn) (metadata : Metadata) (now_ms : ℕ)
        (after : Db) (r : User × Tokens)
        → change_password platform policy cache user_id current new password_hash drawn metadata
            now_ms db
          ≡ (after, ok r)
        → r.1.session_id ≢ k
        → Closes user_id k db after

  closed-missing :
      (user_id k : ℕ) (db after : Db) (calls : List Call) (t : ℕ)
      → Owned k user_id db
      → Closes user_id k db after
      → All (FreshKey k) calls
      → find_active_by_id policy k t (run_all policy calls after) ≡ none
  unfolding run_all
  closed-missing user_id k db after calls t owned (Closes.reset password_hash now_ms _ user h)
        fresh =
      (ended_sessions k policy user_id db after calls 0 0 t 0 no_metadata owned
        (reset-Ends platform policy cache user_id password_hash now_ms db h) fresh).0
  closed-missing user_id k db after calls t owned (Closes.update actor changes now_ms _ user e h)
        fresh =
      (ended_sessions k policy user_id db after calls 0 0 t 0 no_metadata owned
        (update-Ends platform policy cache actor user_id changes now_ms db e h) fresh).0
  closed-missing user_id k db after calls t owned
        (Closes.change current new password_hash drawn metadata now_ms _ r h ne) fresh =
      let (between, user, ends, issued) =
        change-Ends platform policy cache user_id current new password_hash drawn metadata now_ms db
          h in
      let (input, named, made) =
        issue-run platform policy cache drawn user metadata now_ms between issued in
      let other : input.id ≢ k = λ same. ne (sym named ∙ same) in
      ap (λ d. find_active_by_id policy k t (run_all policy calls d)) (sym made)
      ∙ (ended_sessions k policy user_id db between (Call.creation input user now_ms ∷ calls) 0 0 t
          0 no_metadata owned ends (other, fresh)).0

  session_of-missing :
      (token session_id : Text) (t : ℕ) (db : Db)
      → find_active_by_id policy (platform.identifier session_id) t db ≡ none
      → session_of platform policy cache token session_id t db ≡ none
  unfolding session_of
  session_of-missing token session_id t db h = rw (h, session_of) refl

  -- An account that gets a new password, by itself or from an administrator, or that an administrator disables
  -- or gives a role, is signed out where the operation succeeds: of a session that it had, no access token is
  -- taken and no refresh token is accepted at any later time, whatever calls about sessions and accounts come in
  -- between, and whatever Redis answers or fails to answer. The calls, and the change of a password, make no
  -- session of the same key, and the key is not the empty text.
  pub closed-refused :
      (user_id k : ℕ) (db after : Db) (calls : List Call)
      → Owned k user_id db
      → Closes user_id k db after
      → All (FreshKey k) calls
      → k ≢ 0
      → (reader t : ℕ) (first second : Option (Option ℕ)) (between : Db) (token : Text)
        (parts : Text × Text) (drawn : Drawn) (metadata : Metadata)
      → parse_refresh_token token ≡ some parts
      → platform.identifier parts.0 ≡ k
      → let later = run_all policy calls after in
        (is_access_session_active platform policy cache reader (some k) first second t later between
          ≡ false)
        × (refresh platform policy cache token drawn metadata t later
            ≡ (later, fail (unauthorized auth_lost_message)))
  unfolding is_access_session_active refresh session_of
  closed-refused user_id k db after calls owned closes fresh ne reader t first second between token
        parts drawn metadata parsed named =
      let later = run_all policy calls after in
      let missing = closed-missing user_id k db after calls t owned closes fresh in
      let nonzero = ne-==_false k 0 ne in
      (
        elim (Bool-cases (is_marked first)) [
          | inl e ↦ rw (nonzero, e) refl
          | inr e ↦ rw (nonzero, e) (rw missing refl)
        ],
        rw (parsed, refresh)
            (rw
              (session_of-missing token parts.0 t later
                (ap (λ i. find_active_by_id policy i t later) named ∙ missing))
              refl),
      )
