-- ===== src/Accounts.antt =====
-- packages/api/src/db/schema.ts: the tables of accounts. The children hold the operations of the
-- repositories on them, and the service.
pub mod Users
pub mod Sessions
pub mod Auth
use self_rss.Prelude.{ℕ, Bool, Option, List}
use self_rss.Prelude.Text.{Text}

pub data Role : Type 0 where
  admin user : Role

-- A row of `users`. The hash of a password is a number that stands for the text.
pub record User : Type 0 where
  pub id : ℕ
  pub email : Text
  pub password_hash : ℕ
  pub role : Role
  pub is_active : Bool
  pub created_at : ℕ
  pub updated_at : ℕ

-- A row of `auth_sessions`.
pub record Session : Type 0 where
  pub id : ℕ
  pub user_id : ℕ
  pub refresh_token_hash : ℕ
  pub client_id : Option Text
  pub device_name : Text
  pub user_agent : Option Text
  pub ip_address : Option Text
  pub created_at : ℕ
  pub last_seen_at : ℕ
  pub rotated_at : ℕ
  pub expires_at : ℕ
  pub revoked_at : Option ℕ

-- Of `user_preferences` the owners.
pub record Db : Type 0 where
  pub users : List User
  pub sessions : List Session
  pub preferences : List ℕ
