-- ===== src/Accounts/Auth/Passwords.antt =====
-- packages/api/src/services/auth.service.ts: new passwords, and the changes of administrators.
use self_rss.Prelude.{ℕ, ◌/◌, not, ◌||◌, none, some, if◌then◌else◌, is_none, is_some}
use self_rss.Prelude.Text.{Text, codes, same_text}
use self_rss.AppError.{Result, ok, fail, require, conflict, bad_request, unauthorized}
use self_rss.Accounts.{Role, User, Db}
use self_rss.Accounts.Users.{
  Changes, find_by_id, find_by_email, create_with_preferences, assert_admin_update_allowed,
  update_for_admin, update_password_hash, deactivates,
}
use self_rss.Accounts.Sessions.{LifetimePolicy, Metadata}
use self_rss.Accounts.Auth.{
  Platform, Cache, Drawn, Tokens, auth_lost_message, ◌then◌, transact,
  prepare_user_session_revocation, issue_tokens, finish_revocation,
}

module _ (platform : Platform) (policy : LifetimePolicy) (cache : Cache) where
  unfoldable pub change_password :
      ℕ → Text → Text → ℕ → Drawn → Metadata → ℕ → Db → Db × Result (User × Tokens)
  unfolding prepare_user_session_revocation update_password_hash finish_revocation issue_tokens
  change_password user_id current new password_hash drawn metadata now_ms db =
      elim (find_by_id user_id db.users) [
        | none ↦ (db, fail (unauthorized auth_lost_message))
        | some user ↦
            if not user.is_active
            then (db, fail (unauthorized auth_lost_message))
            else if not (platform.verify_password current user.password_hash)
            then (db, fail (bad_request (codes "Current password is incorrect")))
            else if same_text current new
            then (
              db,
              fail (bad_request (codes "New password must be different from the current password")),
            )
            else (db, prepare_user_session_revocation platform policy cache user_id now_ms db)
              then (λ db _. transact db (
                  update_password_hash user_id password_hash (some user.password_hash)
                    (now_ms / 1000) db))
              then finish_revocation platform policy cache
              then (λ db updated.
                  issue_tokens platform policy cache drawn updated metadata now_ms db
                  then (λ db tokens. (db, ok (updated, tokens))))
      ]

  unfoldable pub admin_create_user : ℕ → Text → ℕ → Role → ℕ → Db → Db × Result User
  unfolding create_with_preferences
  admin_create_user id email password_hash role now_ms db =
      (
        db,
        require (is_none (find_by_email email db.users))
            (conflict (codes "Email already registered")),
      )
      then (λ db _.
          transact db (create_with_preferences id email password_hash role (now_ms / 1000) db))

  unfoldable pub admin_update_user : ℕ → ℕ → Changes → ℕ → Db → Db × Result User
  unfolding assert_admin_update_allowed prepare_user_session_revocation update_for_admin
      finish_revocation
  admin_update_user actor target_id changes now_ms db =
      (db, assert_admin_update_allowed actor target_id changes db)
      then (λ db _. (
        db,
        if deactivates changes.is_active || is_some changes.role
            then prepare_user_session_revocation platform policy cache target_id now_ms db
            else ok tt,
      ))
      then (λ db _. transact db (update_for_admin actor target_id changes (now_ms / 1000) db))
      then finish_revocation platform policy cache

  unfoldable pub admin_reset_password : ℕ → ℕ → ℕ → Db → Db × Result User
  unfolding prepare_user_session_revocation update_password_hash finish_revocation
  admin_reset_password target_id password_hash now_ms db =
      (db, prepare_user_session_revocation platform policy cache target_id now_ms db)
      then (λ db _.
          transact db (update_password_hash target_id password_hash none (now_ms / 1000) db))
      then finish_revocation platform policy cache
