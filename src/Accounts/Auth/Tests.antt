-- ===== src/Accounts/Auth/Tests.antt =====
-- packages/api/src/services/auth.service.ts: one account with one session signs in and out.
use self_rss.Prelude.{
  ◌≡◌, refl, true, false, none, some, List, [], ◌∷◌, ◌++◌, arith, if◌then◌else◌, sort_by,
}
use self_rss.Prelude.Text.{Text, codes, same_text}
use self_rss.AppError.{fail, unauthorized, internal}
use self_rss.Accounts.{Role, User, Session, Db}
use self_rss.Accounts.Sessions.{default_policy, Metadata, list_active_by_user_id}
use self_rss.Accounts.Sessions.Calls.{Call, run_all}
use self_rss.Accounts.Auth.{Platform, Cache, Drawn, auth_lost_message, parse_refresh_token}
use self_rss.Accounts.Auth.SignIn.{login, refresh, logout, is_access_session_active}
use self_rss.Accounts.Auth.Passwords.{change_password, admin_reset_password}
use self_rss.Accounts.Auth.Refused.{Closes, closed-refused}

abbrev uuid : Text
uuid = codes "00000000-0000-4000-8000-000000000003"

abbrev other_uuid : Text
other_uuid = codes "00000000-0000-4000-8000-000000000004"

abbrev token : Text
token = uuid ++ codes ".old"

abbrev platform : Platform
platform = record {
  identifier = λ s. if same_text s uuid then 3 else 4;
  hash_refresh_token = λ s. if same_text s token then 50 else 70;
  verify_password = λ password hash. same_text password (codes "secret");
  verify_refresh_token = λ s. none;
}

abbrev cache : Cache
cache = record { tombstone = λ round id. true; set_nx = λ jti. none }

-- Redis cannot be reached.
abbrev unreachable : Cache
unreachable = record { tombstone = λ round id. false; set_nx = λ jti. none }

abbrev drawn : Drawn
drawn = record { session_id = other_uuid; secret = codes "new" }

abbrev owner : User
owner = record {
  id = 1;
  email = codes "a@b";
  password_hash = 11;
  role = Role.user;
  is_active = true;
  created_at = 5;
  updated_at = 5;
}

abbrev session : Session
session = record {
  id = 3;
  user_id = 1;
  refresh_token_hash = 50;
  client_id = none;
  device_name = codes "tablet";
  user_agent = none;
  ip_address = none;
  created_at = 5000000;
  last_seen_at = 5000000;
  rotated_at = 5000000;
  expires_at = 39560000;
  revoked_at = none;
}

abbrev db : Db
db = record { users = owner ∷ []; sessions = session ∷ []; preferences = 1 ∷ [] }

abbrev metadata : Metadata
metadata = record { client_id = none; device_name = none; user_agent = none; ip_address = none }

parse_test : parse_refresh_token (codes "00000000-0000-6000-8000-000000000003.x") ≡ none
unfolding parse_refresh_token
parse_test = refl

login_test :
    (login platform default_policy cache
      (codes "a@b")
      (codes "guess")
      drawn
      metadata
      5000001000
      db).1
    ≡ fail (unauthorized (codes "Invalid email or password"))
unfolding login
login_test = refl

access_test :
    is_access_session_active platform default_policy cache 1
      (some 3)
      none
      (some none)
      5000001000
      db
      db
    ≡ true
unfolding is_access_session_active
access_test = refl

-- Without Redis a sign-out fails, and changes nothing.
logout_test :
    logout platform default_policy unreachable token 5000001000 db
    ≡ (db, fail (internal (codes "Unable to revoke session. Please try again.")))
unfolding logout
logout_test = refl

change_test :
    is_access_session_active platform default_policy cache 1
      (some 3)
      none
      none
      5000002000
      (change_password platform default_policy cache 1
        (codes "secret")
        (codes "other")
        12
        drawn
        metadata
        5000001000
        db).0
      db
    ≡ false
unfolding is_access_session_active change_password list_active_by_user_id sort_by
change_test = refl

abbrev calls : List Call
calls = Call.visit 3 metadata 5000001500 5000001500 ∷ []

abbrev reset_db : Db
unfolding admin_reset_password list_active_by_user_id sort_by
reset_db = (admin_reset_password platform default_policy cache 1 12 5000001000 db).0

closed-refused_example :
    (is_access_session_active platform default_policy cache 1
        (some 3)
        none
        none
        5000002000
        (run_all default_policy calls reset_db)
        db
      ≡ false)
    × (refresh platform default_policy cache token drawn metadata 5000002000
          (run_all default_policy calls reset_db)
        ≡ (run_all default_policy calls reset_db, fail (unauthorized auth_lost_message)))
unfolding reset_db parse_refresh_token
closed-refused_example =
    closed-refused platform default_policy cache 1 3 db reset_db calls (ground arith, tt)
      (Closes.reset 12 5000001000 reset_db
        (record owner { password_hash = 12; updated_at = 5000001 }) refl)
      (tt, tt) (ground arith) 1 5000002000 none none db token (uuid, codes "old") drawn metadata
      refl refl
