-- ===== src/Accounts/Users.antt =====
-- packages/api/src/repositories/user.repository.ts: how accounts are made and changed. A transaction is
-- one function; an exception that it throws rolls it back.
pub mod Admins
pub mod Governed
mod Tests
use self_rss.Prelude.{
  ℕ, Bool, true, false, not, ◌&&◌, ◌||◌, Option, none, some, List, [], ◌∷◌, ◌++◌, map, ltb, leb,
  ◌==◌, if◌then◌else◌, is_none, is_some, or_else, length, any, find, select, count, update_where,
}
use self_rss.Prelude.Text.{Text, codes, same_text}
use self_rss.AppError.{
  Failure, Result, ok, fail, ◌>>=◌, ◌>>◌, require, not_found, conflict, forbidden, bad_request,
  unauthorized, internal,
}
use self_rss.Accounts.{Role, User, Session, Db}

abbrev pub is_admin : Role → Bool
is_admin Role.admin = true
is_admin Role.user = false

abbrev pub find_by_id : ℕ → List User → Option User
find_by_id id = find λ u. u.id == id

abbrev pub find_by_email : Text → List User → Option User
find_by_email email = find λ u. same_text u.email email

-- `insert into users … returning`, with the primary key and the unique index on the address: a violation is
-- an exception of the database.
unfoldable pub insert_user : ℕ → Text → ℕ → Role → ℕ → Db → Result (Db × User)
insert_user id email password_hash role now db =
    let row : User = record {
      id = id;
      email = email;
      password_hash = password_hash;
      role = role;
      is_active = true;
      created_at = now;
      updated_at = now;
    } in
    if any (λ u. u.id == id || same_text u.email email) db.users
    then fail (internal (codes "UNIQUE constraint failed"))
    else ok (record db { users = db.users ++ (row ∷ []) }, row)

unfoldable pub create_with_preferences : ℕ → Text → ℕ → Role → ℕ → Db → Result (Db × User)
unfolding insert_user
create_with_preferences id email password_hash role now db = do
  (db', row) ← insert_user id email password_hash role now db
  ok (record db' { preferences = db'.preferences ++ (row.id ∷ []) }, row)

-- The first account of all becomes an administrator.
unfoldable pub register_user : ℕ → Text → ℕ → Bool → ℕ → Db → Result (Db × (User × Bool))
unfolding insert_user
register_user id email password_hash registration_locked now db = do
  require (is_none (find_by_email email db.users)) (conflict (codes "Email already registered"))
  let is_bootstrap_admin = length db.users == 0
  require (not (registration_locked && not is_bootstrap_admin))
      (forbidden (codes "Registration is currently closed"))
  (db', row) ←
      insert_user id email password_hash (if is_bootstrap_admin then Role.admin else Role.user) now
        db
  ok (record db' { preferences = db'.preferences ++ (row.id ∷ []) }, (row, is_bootstrap_admin))

-- The argument `data` of an administrator's change.
pub record Changes : Type 0 where
  pub role : Option Role
  pub is_active : Option Bool

abbrev pub is_active_admin : User → Bool
is_active_admin u = is_admin u.role && u.is_active

abbrev pub demotes : Option Role → Bool
demotes none = false
demotes (some r) = not (is_admin r)

abbrev pub deactivates : Option Bool → Bool
deactivates none = false
deactivates (some b) = not b

unfoldable pub removes_admin : User → Changes → Bool
removes_admin target changes =
    is_active_admin target && (demotes changes.role || deactivates changes.is_active)

unfoldable pub assert_admin_mutation_allowed : ℕ → User → Changes → List User → Result (Unit {0})
unfolding removes_admin
assert_admin_mutation_allowed actor target changes users = do
  require (not (target.id == actor && removes_admin target changes))
      (bad_request (codes "You cannot demote or deactivate your current account"))
  require (not (removes_admin target changes && leb (count is_active_admin users) 1))
      (conflict (codes "The last active administrator cannot be changed"))

unfoldable pub assert_admin_update_allowed : ℕ → ℕ → Changes → Db → Result (Unit {0})
unfolding assert_admin_mutation_allowed
assert_admin_update_allowed actor target_id changes db = elim (find_by_id target_id db.users) [
  | none ↦ fail (not_found (codes "User not found"))
  | some target ↦ assert_admin_mutation_allowed actor target changes db.users
]

abbrev pub apply_changes : Changes → ℕ → User → User
apply_changes changes now u = record u {
  role = or_else changes.role u.role;
  is_active = or_else changes.is_active u.is_active;
  updated_at = now;
}

-- The sessions of the user that are not revoked yet, and what is done with them.
abbrev pub is_open : ℕ → Session → Bool
is_open user_id s = s.user_id == user_id && is_none s.revoked_at

unfoldable pub revoke_sessions : ℕ → ℕ → Db → Db × List ℕ
revoke_sessions user_id now db = (
  record db {
    sessions = update_where (is_open user_id) (λ s. record s { revoked_at = some now }) db.sessions;
  },
  map (λ s. s.id) (select (is_open user_id) db.sessions),
)

unfoldable pub update_for_admin : ℕ → ℕ → Changes → ℕ → Db → Result (Db × (User × List ℕ))
unfolding assert_admin_mutation_allowed revoke_sessions
update_for_admin actor target_id changes now db = elim (find_by_id target_id db.users) [
  | none ↦ fail (not_found (codes "User not found"))
  | some target ↦
      assert_admin_mutation_allowed actor target changes db.users
      >> (let updated = record db {
        users = update_where (λ u. u.id == target_id) (apply_changes changes now) db.users;
      } in
          let (db', revoked) =
            if deactivates changes.is_active || is_some changes.role
            then revoke_sessions target_id now updated
            else (updated, []) in
          ok (db', (apply_changes changes now target, revoked)))
]

-- The row, and where a hash was verified the hash and the account's state.
unfoldable pub may_set_password : ℕ → Option ℕ → User → Bool
may_set_password user_id none u = u.id == user_id
may_set_password user_id (some verified) u =
    u.id == user_id && (u.password_hash == verified && u.is_active)

abbrev pub with_password : ℕ → ℕ → User → User
with_password password_hash now u = record u { password_hash = password_hash; updated_at = now }

unfoldable pub update_password_hash : ℕ → ℕ → Option ℕ → ℕ → Db → Result (Db × (User × List ℕ))
unfolding may_set_password revoke_sessions
update_password_hash user_id password_hash verified now db =
    elim (find (may_set_password user_id verified) db.users) [
      | none ↦
          if is_some verified
          then fail (unauthorized (codes "Authentication was lost. Please sign in again."))
          else fail (not_found (codes "User not found"))
      | some row ↦
          let (db', revoked) = revoke_sessions user_id now (record db {
            users =
                update_where (may_set_password user_id verified) (with_password password_hash now)
                  db.users;
          }) in
          ok (db', (with_password password_hash now row, revoked))
    ]
