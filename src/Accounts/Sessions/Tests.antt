-- ===== src/Accounts/Sessions/Tests.antt =====
-- packages/api/src/repositories/auth-session.repository.ts: calls on a small database.
use self_rss.Prelude.{
  ◌≡◌, ◌≢◌, refl, List, true, none, some, [], ◌∷◌, arith, map, insert_by, sort_by, take,
}
use self_rss.Prelude.Text.{codes}
use self_rss.Accounts.{Role, User, Session, Db}
use self_rss.Accounts.Users.{update_password_hash}
use self_rss.Accounts.Sessions.{
  default_policy, Metadata, CreateInput, create, find_active_by_id, list_active_by_user_id, rotate,
  revoke, revoke_for_user, cleanup_expired,
}
use self_rss.Accounts.Sessions.Calls.{Call, run_all}
use self_rss.Accounts.Sessions.Rotation.{rotated-once}
use self_rss.Accounts.Sessions.Revocation.{Ends}

abbrev owner : User
owner = record {
  id = 1;
  email = codes "a@b";
  password_hash = 11;
  role = Role.user;
  is_active = true;
  created_at = 5;
  updated_at = 5;
}

abbrev session : Session
session = record {
  id = 3;
  user_id = 1;
  refresh_token_hash = 50;
  client_id = none;
  device_name = codes "tablet";
  user_agent = none;
  ip_address = none;
  created_at = 5000000;
  last_seen_at = 5000000;
  rotated_at = 5000000;
  expires_at = 39560000;
  revoked_at = none;
}

abbrev db : Db
db = record { users = owner ∷ []; sessions = session ∷ []; preferences = 1 ∷ [] }

abbrev metadata : Metadata
metadata = record { client_id = none; device_name = none; user_agent = none; ip_address = none }

abbrev input : CreateInput
input = record {
  id = 4;
  user_id = 1;
  refresh_token_hash = 70;
  client_id = none;
  device_name = codes "phone";
  user_agent = none;
  ip_address = none;
}

abbrev calls : List Call
calls = Call.visit 3 metadata 5000002000 5000002000 ∷ Call.creation input owner 5000003000 ∷ []

abbrev rotated_db : Db
rotated_db = (rotate default_policy 3 50 60 metadata 5000001000 5000001000 db).0

create_test : (create default_policy input owner 5000003000 db).1 ≢ none
unfolding create
create_test = ground arith

-- The account that was verified had another hash.
stale_login_test :
    (create default_policy input (record owner { password_hash = 12 }) 5000003000 db).1 ≡ none
unfolding create
stale_login_test = refl

list_test : map (λ s. s.id) (list_active_by_user_id default_policy 1 5000001000 db) ≡ 3 ∷ []
unfolding list_active_by_user_id sort_by insert_by
list_test = refl

revoke_test : find_active_by_id default_policy 3 5000001000 (revoke 3 5000000000 db).0 ≡ none
unfolding find_active_by_id revoke
revoke_test = refl

foreign_test : (revoke_for_user 2 3 5000000000 db).0 ≡ db
unfolding revoke_for_user
foreign_test = refl

cleanup_test : (cleanup_expired 10 39560000000 db).1 ≡ 1
unfolding cleanup_expired take
cleanup_test = refl

rotated-once_example :
    let later = run_all default_policy calls rotated_db in
    rotate default_policy 3 50 90 metadata 5000004000 5000004000 later ≡ (later, none)
unfolding rotate
rotated-once_example =
    rotated-once default_policy 50 3 60 metadata 5000001000 5000001000 db
      (record session { refresh_token_hash = 60; last_seen_at = 5000001; rotated_at = 5000001 })
      calls 3 90 metadata 5000004000 5000004000 (refl, tt) (ground arith) refl
      (tt, (ground arith, tt))

abbrev after_password : Db
after_password = record db {
  users = record owner { password_hash = 12; updated_at = 5000001 } ∷ [];
  sessions = record session { revoked_at = some 5000001 } ∷ [];
}

password_step : Ends 1 db after_password
unfolding update_password_hash
password_step =
    Ends.password 12 (some 11) 5000001
      (after_password, (record owner { password_hash = 12; updated_at = 5000001 }, 3 ∷ [])) refl
