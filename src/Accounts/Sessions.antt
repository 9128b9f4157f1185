-- ===== src/Accounts/Sessions.antt =====
-- packages/api/src/repositories/auth-session.repository.ts: the sessions of devices. The clock is in
-- milliseconds, the columns store whole seconds. The hash of a refresh token is a number that
-- stands for the text.
pub mod Calls
pub mod Rotation
pub mod Revocation
mod Tests
use self_rss.Prelude.{
  ℕ, ◌+◌, ◌-◌, ◌*◌, ◌/◌, Bool, not, ◌&&◌, ◌||◌, Option, none, some, List, [], ◌∷◌, ◌++◌, map, ltb,
  leb, ◌==◌, is_none, is_some, ◌or◌, or_else, length, any, find, select, contains, update_where,
  update_returning, take, sort_by,
}
use self_rss.Prelude.Text.{Text}
use self_rss.Accounts.{Role, User, Session, Db}
use self_rss.Accounts.Users.{is_admin}

pub record LifetimePolicy : Type 0 where
  pub absolute_ttl_ms : ℕ
  pub idle_ttl_ms : ℕ

abbrev pub default_policy : LifetimePolicy
default_policy = record {
  absolute_ttl_ms = 400 * 24 * 60 * 60 * 1000;
  idle_ttl_ms = 30 * 24 * 60 * 60 * 1000;
}

pub record Metadata : Type 0 where
  pub client_id : Option Text
  pub device_name : Option Text
  pub user_agent : Option Text
  pub ip_address : Option Text

pub record CreateInput : Type 0 where
  pub id : ℕ
  pub user_id : ℕ
  pub refresh_token_hash : ℕ
  pub client_id : Option Text
  pub device_name : Text
  pub user_agent : Option Text
  pub ip_address : Option Text

abbrev pub same_role : Role → Role → Bool
same_role Role.admin r = is_admin r
same_role Role.user r = not (is_admin r)

module _ (policy : LifetimePolicy) where
  -- The tests of `activeWhere` but the one on the identifier.
  unfoldable pub is_live : ℕ → Session → Bool
  is_live now_ms s =
      is_none s.revoked_at
      && (ltb (now_ms / 1000) s.expires_at
          && ltb ((now_ms - policy.idle_ttl_ms) / 1000) s.last_seen_at)

  unfoldable pub is_active : ℕ → ℕ → Session → Bool
  unfolding is_live
  is_active id now_ms s = s.id == id && is_live now_ms s

  -- The account is looked at again: the hash and the role that were verified, and that it is active.
  unfoldable pub create : CreateInput → User → ℕ → Db → Db × Option Session
  create input verified now_ms db =
      let is_current = λ (u : User).
        u.id == input.user_id
        && (u.password_hash == verified.password_hash
            && (same_role u.role verified.role && u.is_active)) in
      let row : Session = record {
        id = input.id;
        user_id = input.user_id;
        refresh_token_hash = input.refresh_token_hash;
        client_id = input.client_id;
        device_name = input.device_name;
        user_agent = input.user_agent;
        ip_address = input.ip_address;
        created_at = now_ms / 1000;
        last_seen_at = now_ms / 1000;
        rotated_at = now_ms / 1000;
        expires_at = (now_ms + policy.absolute_ttl_ms) / 1000;
        revoked_at = none;
      } in
      elim (find is_current db.users) [
        | none ↦ (db, none)
        | some u ↦ (record db { sessions = db.sessions ++ (row ∷ []) }, some row)
      ]

  unfoldable pub find_active_by_id : ℕ → ℕ → Db → Option Session
  unfolding is_active
  find_active_by_id id now_ms db = find (is_active id now_ms) db.sessions

  unfoldable pub list_active_by_user_id : ℕ → ℕ → Db → List Session
  unfolding is_live
  list_active_by_user_id user_id now_ms db =
      sort_by
        (λ s t.
          ltb t.last_seen_at s.last_seen_at
          || (t.last_seen_at == s.last_seen_at && ltb t.created_at s.created_at))
        (select (λ s. s.user_id == user_id && is_live now_ms s) db.sessions)

  -- A value that is not given leaves its column.
  abbrev pub described : Metadata → Session → Session
  described metadata s = record s {
    client_id = metadata.client_id or s.client_id;
    device_name = or_else metadata.device_name s.device_name;
    user_agent = metadata.user_agent or s.user_agent;
    ip_address = metadata.ip_address or s.ip_address;
  }

  -- The clock is read for the columns and, a moment later, for the test.
  unfoldable pub rotate : ℕ → ℕ → ℕ → Metadata → ℕ → ℕ → Db → Db × Option Session
  unfolding is_active
  rotate id current next metadata now_ms checked_ms db =
      let (sessions, rotated) =
        update_returning
          (λ s. s.id == id && (s.refresh_token_hash == current && is_active id checked_ms s))
          (λ s. record (described metadata s) {
            refresh_token_hash = next;
            last_seen_at = now_ms / 1000;
            rotated_at = now_ms / 1000;
          })
          db.sessions in
      (record db { sessions = sessions }, rotated)

  unfoldable pub touch : ℕ → Metadata → ℕ → ℕ → Db → Db × Option Session
  unfolding is_active
  touch id metadata now_ms checked_ms db =
      let (sessions, touched) =
        update_returning (is_active id checked_ms)
          (λ s. record (described metadata s) { last_seen_at = now_ms / 1000 }) db.sessions in
      (record db { sessions = sessions }, touched)

abbrev pub revoked : ℕ → Session → Session
revoked now_ms s = record s { revoked_at = some (now_ms / 1000) }

unfoldable pub revoke_for_user : ℕ → ℕ → ℕ → Db → Db × Option Session
revoke_for_user user_id id now_ms db =
    let (sessions, session) =
      update_returning (λ s. s.user_id == user_id && (s.id == id && is_none s.revoked_at))
        (revoked now_ms) db.sessions in
    (record db { sessions = sessions }, session)

unfoldable pub revoke : ℕ → ℕ → Db → Db × Option Session
revoke id now_ms db =
    let (sessions, session) =
      update_returning (λ s. s.id == id && is_none s.revoked_at) (revoked now_ms) db.sessions in
    (record db { sessions = sessions }, session)

-- Sessions that ended, or that were revoked thirty days ago.
unfoldable pub is_disposable : ℕ → Session → Bool
is_disposable now_ms s = leb s.expires_at (now_ms / 1000) || elim s.revoked_at [
  | none ↦ Bool.false
  | some at ↦ leb at ((now_ms - 30 * 24 * 60 * 60 * 1000) / 1000)
]

unfoldable pub cleanup_expired : ℕ → ℕ → Db → Db × ℕ
unfolding is_disposable
cleanup_expired batch_size now_ms db =
    let ids = map (λ s. s.id) (take batch_size (select (is_disposable now_ms) db.sessions)) in
    (record db { sessions = select (λ s. not (contains s.id ids)) db.sessions }, length ids)
