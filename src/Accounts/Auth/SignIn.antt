-- ===== src/Accounts/Auth/SignIn.antt =====
-- packages/api/src/services/auth.service.ts: sessions are opened, kept and closed.
use self_rss.Prelude.{
  ℕ, ◌/◌, Bool, true, false, not, ◌&&◌, Option, none, some, ◌==◌, if◌then◌else◌, is_none, is_some,
  or_else,
}
use self_rss.Prelude.Text.{Text, codes}
use self_rss.AppError.{Result, ok, fail, require, not_found, forbidden, unauthorized, internal}
use self_rss.Accounts.{User, Session, Db}
use self_rss.Accounts.Users.{find_by_id, find_by_email, register_user}
use self_rss.Accounts.Sessions.{
  LifetimePolicy, Metadata, revoke, revoke_for_user, find_active_by_id,
}
use self_rss.Accounts.Auth.{
  TokenPayload, Platform, Cache, Drawn, Tokens, auth_lost_message, get_revocation_ttl_seconds,
  ◌then◌, transact, owner, is_marked, parse_refresh_token, prepare_session_revocation, issue_tokens,
  rotate_session_tokens,
}

module _ (platform : Platform) (policy : LifetimePolicy) (cache : Cache) where
  unfoldable pub register :
      Bool → Bool → ℕ → Text → ℕ → Drawn → Metadata → ℕ → Db → Db × Result (User × Tokens)
  unfolding register_user issue_tokens
  register allowed registration_locked id email password_hash drawn metadata now_ms db =
      (db, require allowed (forbidden (codes "Registration is disabled."))) then (λ db _.
        transact db (register_user id email password_hash registration_locked (now_ms / 1000) db)
        then (λ db registered.
            issue_tokens platform policy cache drawn registered.0 metadata now_ms db
            then (λ db tokens. (db, ok (registered.0, tokens)))))

  unfoldable pub login : Text → Text → Drawn → Metadata → ℕ → Db → Db × Result (User × Tokens)
  unfolding issue_tokens
  login email password drawn metadata now_ms db = elim (find_by_email email db.users) [
    | none ↦ (db, fail (unauthorized (codes "Invalid email or password")))
    | some user ↦
        if not user.is_active
        then (db, fail (forbidden (codes "Account is disabled")))
        else if not (platform.verify_password password user.password_hash)
        then (db, fail (unauthorized (codes "Invalid email or password")))
        else issue_tokens platform policy cache drawn user metadata now_ms db
          then (λ db tokens. (db, ok (user, tokens)))
  ]

  -- The identifier of an old token is taken once. A command that fails throws.
  unfoldable pub revoke_legacy_refresh_token : TokenPayload → ℕ → Result Bool
  unfolding get_revocation_ttl_seconds
  revoke_legacy_refresh_token payload now_ms = elim payload.jti [
    | none ↦ ok false
    | some jti ↦
        if get_revocation_ttl_seconds payload now_ms == 0
        then ok false
        else elim (cache.set_nx jti) [
          | none ↦ fail (internal (codes "Redis"))
          | some taken ↦ ok taken
        ]
  ]

  unfoldable pub refresh_legacy_jwt : Text → Drawn → Metadata → ℕ → Db → Db × Result (User × Tokens)
  unfolding revoke_legacy_refresh_token issue_tokens
  refresh_legacy_jwt token drawn metadata now_ms db = elim (platform.verify_refresh_token token) [
    | none ↦ (db, fail (unauthorized (codes "Invalid refresh token")))
    | some payload ↦
        (
          db,
          require (payload.is_refresh && is_some payload.jti)
              (unauthorized (codes "Invalid refresh token")),
        )
        then (λ db _. (db, revoke_legacy_refresh_token payload now_ms))
        then (λ db revoked. (db, require revoked (unauthorized auth_lost_message)))
        then (λ db _. elim (find_by_id payload.sub db.users) [
          | none ↦ (db, fail (unauthorized auth_lost_message))
          | some user ↦
              if not user.is_active
              then (db, fail (unauthorized auth_lost_message))
              else issue_tokens platform policy cache drawn user metadata now_ms db
                then (λ db tokens. (db, ok (user, tokens)))
        ])
  ]

  -- The session, if the token is its current one.
  unfoldable pub session_of : Text → Text → ℕ → Db → Option Session
  unfolding find_active_by_id
  session_of token session_id now_ms db =
      elim (find_active_by_id policy (platform.identifier session_id) now_ms db) [
        | none ↦ none
        | some session ↦
            if session.refresh_token_hash == platform.hash_refresh_token token
            then some session
            else none
      ]

  unfoldable pub revoke_prepared : ℕ → ℕ → Db → Db × Result (Unit {0})
  unfolding prepare_session_revocation revoke
  revoke_prepared id now_ms db =
      (db, prepare_session_revocation platform policy cache 0 id)
      then (λ db _. ((revoke id now_ms db).0, ok tt))

  unfoldable pub refresh : Text → Drawn → Metadata → ℕ → Db → Db × Result (User × Tokens)
  unfolding parse_refresh_token refresh_legacy_jwt session_of revoke_prepared rotate_session_tokens
  refresh token drawn metadata now_ms db = elim (parse_refresh_token token) [
    | none ↦ refresh_legacy_jwt token drawn metadata now_ms db
    | some (session_id, _) ↦ elim (session_of token session_id now_ms db) [
      | none ↦ (db, fail (unauthorized auth_lost_message))
      | some session ↦ elim (find_by_id session.user_id db.users) [
        | none ↦
            revoke_prepared session.id now_ms db
            then (λ db _. (db, fail (unauthorized auth_lost_message)))
        | some user ↦
            if not user.is_active
            then revoke_prepared session.id now_ms db
            then (λ db _. (db, fail (unauthorized auth_lost_message)))
            else rotate_session_tokens platform policy cache drawn session_id
                (platform.hash_refresh_token token) metadata now_ms db
              then (λ db tokens. (db, ok (user, tokens)))
      ]
    ]
  ]

  -- What is thrown about an old token is swallowed.
  unfoldable pub logout : Text → ℕ → Db → Db × Result (Unit {0})
  unfolding parse_refresh_token session_of revoke_prepared
  logout token now_ms db = elim (parse_refresh_token token) [
    | none ↦ (db, ok tt)
    | some (session_id, _) ↦ elim (session_of token session_id now_ms db) [
      | none ↦ (db, ok tt)
      | some session ↦ revoke_prepared session.id now_ms db
    ]
  ]

  unfoldable pub revoke_session : ℕ → ℕ → ℕ → Db → Db × Result (Unit {0})
  unfolding find_active_by_id prepare_session_revocation revoke_for_user
  revoke_session user_id id now_ms db =
      elim (owner (find_active_by_id policy id now_ms db) user_id) [
        | false ↦ (db, fail (not_found (codes "Session not found")))
        | true ↦
            (db, prepare_session_revocation platform policy cache 0 id)
            then (λ db _. ((revoke_for_user user_id id now_ms db).0, ok tt))
      ]

  -- The answers of Redis to the two reads, or nothing where a read fails, and the database at the first
  -- and at the second look.
  unfoldable pub is_access_session_active :
      ℕ → Option ℕ → Option (Option ℕ) → Option (Option ℕ) → ℕ → Db → Db → Bool
  unfolding find_active_by_id
  is_access_session_active user_id session_id first second now_ms db later =
      let id = or_else session_id 0 in
      if id == 0
      then true
      else if is_marked first
      then false
      else if not (owner (find_active_by_id policy id now_ms db) user_id)
      then false
      else elim second [
        | some answer ↦ is_none answer
        | none ↦ owner (find_active_by_id policy id now_ms later) user_id
      ]
